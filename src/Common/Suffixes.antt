-- ===== src/Common/Suffixes.antt =====
-- When a text that ends in a known suffix ends in another one.
use Prim.Native.Nat.{suc, ◌≤◌}
use mathlib.Core.Path.{◌≡◌, refl, ap, sym, ◌∙◌}
use mathlib.Core.Logic.{◌⊎◌, inl, inr}
use mathlib.Core.Bool.{Bool, true, false, not, ◌||◌}
use mathlib.Core.List.{List, [], ◌∷◌, ◌++◌}
use native.Mathlib.Omega.{arith}
use tekflash.Common.Tests.{leb, if◌then◌else◌, Bool-cases, ||_split}
use tekflash.Common.Lists.{any, length, length-append}
use tekflash.Common.Strings.{Text, text_eq, text_eq→eq, ends_with, ends_with_self, ends_with-append}

pub ends_with→eq : (s t : Text) → ends_with s t ≡ true → (p : Text) × (s ≡ p ++ t)
unfolding ends_with
ends_with→eq [] t h = ([], text_eq→eq [] t h)
ends_with→eq (c ∷ s) t h = elim (||_split (text_eq (c ∷ s) t) (ends_with s t) h) [
  | inl e ↦ ([], text_eq→eq (c ∷ s) t e)
  | inr e ↦ let (p, q) = ends_with→eq s t e in (c ∷ p, ap (◌∷◌ c) q)
]

too_long : (s t : Text) → suc (length t) ≤ length s → text_eq s t ≡ false
unfolding text_eq
too_long [] t h = absurd (omega arith)
too_long (c ∷ s) [] h = refl
too_long (c ∷ s) (d ∷ t) h = ground (arith, too_long s t)

-- A suffix that is not longer than the text's own ending is decided by that ending.
pub ends_with-append_long :
    (p s t : Text) → length t ≤ length s → ends_with (p ++ s) t ≡ ends_with s t
unfolding ends_with
ends_with-append_long [] s t h = refl
ends_with-append_long (c ∷ p) s t h =
    let longer : suc (length t) ≤ length (c ∷ (p ++ s)) = omega (arith, length-append {0} p s) in
    ground (arith, too_long (c ∷ (p ++ s)) t longer, ends_with-append_long p s t h)

-- Two suffixes agree where they overlap.
abbrev pub overlap : Text → Text → Bool
overlap s t = if leb (length t) (length s) then ends_with s t else ends_with t s

ends_with→overlap :
    (p s t : Text) → ends_with (p ++ s) t ≡ true → length s ≤ length t → ends_with t s ≡ true
ends_with→overlap p s t h le =
    let (q, e) = ends_with→eq (p ++ s) t h in
    sym (ends_with-append_long q t s le)
    ∙ ap (λ x. ends_with x s) (sym e)
    ∙ ends_with-append p s s (ends_with_self s)

pub ends_with_clash : (p s t : Text) → overlap s t ≡ false → ends_with (p ++ s) t ≡ false
ends_with_clash p s t h = elim (Bool-cases (ends_with (p ++ s) t)) [
  | inr no_match ↦ no_match
  | inl matches ↦ elim (Bool-cases (leb (length t) (length s))) [
    | inl short ↦ ground (arith, ends_with-append_long p s t)
    | inr long ↦ ground (arith, ends_with→overlap p s t matches)
  ]
]

pub ends_with_overlap :
    (p s t : Text) → length t ≤ length s → ends_with s t ≡ true → ends_with (p ++ s) t ≡ true
ends_with_overlap p s t le h = ends_with-append_long p s t le ∙ h

-- The text in front of `s` has no say in whether the whole ends in `t`.
abbrev pub settled : Text → Text → Bool
settled s t = leb (length t) (length s) || not (ends_with t s)

pub ends_with-settled : (p s t : Text) → settled s t ≡ true → ends_with (p ++ s) t ≡ ends_with s t
ends_with-settled p s t h = elim (Bool-cases (leb (length t) (length s))) [
  | inl short ↦ ends_with-append_long p s t (ground arith)
  | inr long ↦ ends_with_clash p s t (ground arith) ∙ sym (ends_with_clash [] s t (ground arith))
]

-- The text ends in the other, or in one of a list.
abbrev pub EndsIn : Text → Text → Type 0
EndsIn s t = (p : Text) × (s ≡ p ++ t)

abbrev pub EndsInOne : Text → List Text → Type 0
EndsInOne s [] = ⊥
EndsInOne s (t ∷ ts) = EndsIn s t ⊎ EndsInOne s ts

pub EndsIn-ends_with : (s t : Text) → EndsIn s t → ends_with s t ≡ true
EndsIn-ends_with s t (p, e) = rw e (ends_with-append p t t (ends_with_self t))

pub ends_with-EndsInOne : (s : Text) (ts : List Text) → any (ends_with s) ts ≡ true → EndsInOne s ts
ends_with-EndsInOne s [] h = cc
ends_with-EndsInOne s (t ∷ ts) h = elim (||_split (ends_with s t) (any (ends_with s) ts) h) [
  | inl e ↦ inl (ends_with→eq s t e)
  | inr e ↦ inr (ends_with-EndsInOne s ts e)
]

pub EndsInOne-ends_with : (s : Text) (ts : List Text) → EndsInOne s ts → any (ends_with s) ts ≡ true
EndsInOne-ends_with s [] h = elim h [ ]
EndsInOne-ends_with s (t ∷ ts) (inl e) = ground (arith, EndsIn-ends_with s t e)
EndsInOne-ends_with s (t ∷ ts) (inr e) = ground (arith, EndsInOne-ends_with s ts e)
