-- ===== src/Common/Find.antt =====
-- `str::find` with a text as its pattern.
use Prim.Native.Nat.{ℕ, suc}
use mathlib.Core.Path.{◌≡◌, refl}
use mathlib.Core.Bool.{false}
use mathlib.Core.List.{[], ◌∷◌, ◌++◌}
use mathlib.Core.Option.{Option, none, some}
use tekflash.Common.Tests.{if◌then◌else◌, ==_refl}
use tekflash.Common.Strings.{Text, starts_with}

abbrev pub next_index : Option ℕ → Option ℕ
next_index none = none
next_index (some i) = some (suc i)

-- The place of the first occurrence of a text.
unfoldable pub find : Text → Text → Option ℕ
unfolding starts_with
find [] t = if starts_with [] t then some 0 else none
find (c ∷ s) t = let later = find s t in if starts_with (c ∷ s) t then some 0 else next_index later

-- Where the text does not stand at the front, it is looked for behind the first code point.
pub find_past :
    (c : ℕ) (s t : Text) → starts_with (c ∷ s) t ≡ false → find (c ∷ s) t ≡ next_index (find s t)
unfolding find
find_past c s t h = rw h

-- A text in front of both sides of `starts_with` has no say.
pub starts_with-prefix : (p s t : Text) → starts_with (p ++ s) (p ++ t) ≡ starts_with s t
unfolding starts_with
starts_with-prefix [] s t = refl
starts_with-prefix (c ∷ p) s t = rw (==_refl c) (starts_with-prefix p s t)
