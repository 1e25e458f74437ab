-- ===== src/Common/Strings.antt =====
-- Text as a list of code points, with the tests of Rust's `str` that the program uses.
use Prim.Native.Nat.{ℕ, ◌+◌}
use Prim.Native.Char.{code}
use Prim.Native.String.{String}
use mathlib.Core.Path.{◌≡◌, refl, ap}
use mathlib.Core.Bool.{Bool, true, false, ◌&&◌, ◌||◌}
use mathlib.Core.List.{List, [], ◌∷◌, ◌++◌, map}
use native.Mathlib.Omega.{arith}
use tekflash.Common.Tests.{leb, ◌==◌, if◌then◌else◌, ==_refl, ==_iff, &&_split}

abbrev pub Text : Type 0
Text = List ℕ

-- The code points of a literal; its bytes, where the text is ASCII.
abbrev pub codes : String → Text
codes String.[] = []
codes (String.◌∷◌ c s) = code c ∷ codes s

unfoldable pub text_eq : Text → Text → Bool
text_eq [] [] = true
text_eq [] (d ∷ t) = false
text_eq (c ∷ s) [] = false
text_eq (c ∷ s) (d ∷ t) = c == d && text_eq s t

unfoldable pub starts_with : Text → Text → Bool
starts_with s [] = true
starts_with [] (d ∷ t) = false
starts_with (c ∷ s) (d ∷ t) = c == d && starts_with s t

unfoldable pub ends_with : Text → Text → Bool
unfolding text_eq
ends_with [] t = text_eq [] t
ends_with (c ∷ s) t = text_eq (c ∷ s) t || ends_with s t

unfoldable pub contains : Text → Text → Bool
unfolding starts_with
contains [] t = starts_with [] t
contains (c ∷ s) t = starts_with (c ∷ s) t || contains s t

-- `to_ascii_lowercase`, on one code point and on a text.
unfoldable pub to_lower : ℕ → ℕ
to_lower c = if leb b'A' c && leb c b'Z' then c + 32 else c

unfoldable pub to_ascii_lowercase : Text → Text
unfolding to_lower
to_ascii_lowercase = map to_lower

pub text_eq_refl : (s : Text) → text_eq s s ≡ true
unfolding text_eq
text_eq_refl [] = refl
text_eq_refl (c ∷ s) = rw (==_refl c) (text_eq_refl s)

pub text_eq→eq : (s t : Text) → text_eq s t ≡ true → s ≡ t
unfolding text_eq
text_eq→eq [] [] h = refl
text_eq→eq [] (d ∷ t) h = cc
text_eq→eq (c ∷ s) [] h = cc
text_eq→eq (c ∷ s) (d ∷ t) h =
    let both = &&_split (c == d) (text_eq s t) h in
    cc ((==_iff c d).0 both.0, text_eq→eq s t both.1)

pub ends_with_self : (t : Text) → ends_with t t ≡ true
unfolding ends_with
ends_with_self [] = refl
ends_with_self (c ∷ t) = rw (text_eq_refl (c ∷ t))

-- A text that is put in front leaves the suffix in place.
pub ends_with-append : (p s t : Text) → ends_with s t ≡ true → ends_with (p ++ s) t ≡ true
unfolding ends_with
ends_with-append [] s t h = h
ends_with-append (c ∷ p) s t h = ground (arith, ends_with-append p s t h)

pub starts_with-append : (s t : Text) → starts_with (s ++ t) s ≡ true
unfolding starts_with
starts_with-append [] t = elim t as (λ t. starts_with t [] ≡ true) [ [] ↦ refl | _ ↦ refl ]
starts_with-append (c ∷ s) t = rw (==_refl c) (starts_with-append s t)

pub starts_with→eq : (s t : Text) → starts_with s t ≡ true → (r : Text) × (s ≡ t ++ r)
unfolding starts_with
starts_with→eq s [] h = (s, refl)
starts_with→eq [] (d ∷ t) h = cc
starts_with→eq (c ∷ s) (d ∷ t) h =
    let both = &&_split (c == d) (starts_with s t) h in
    let (r, e) = starts_with→eq s t both.1 in (r, cc ((==_iff c d).0 both.0, e))

pub to_lower_append :
    (s t : Text) → to_ascii_lowercase (s ++ t) ≡ to_ascii_lowercase s ++ to_ascii_lowercase t
unfolding to_ascii_lowercase
to_lower_append [] t = refl
to_lower_append (c ∷ s) t = ap (◌∷◌ (to_lower c)) (to_lower_append s t)
