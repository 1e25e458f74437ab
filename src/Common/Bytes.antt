-- ===== src/Common/Bytes.antt =====
-- Little-endian bytes of machine integers: `to_le_bytes` and `from_le_bytes`.
use Prim.Native.Nat.{ℕ, zero, suc, ◌+◌, ◌*◌, ◌/◌, ◌%◌, ◌^◌, ◌<◌}
use mathlib.Core.Path.{◌≡◌, refl, ap, sym, ◌∙◌}
use mathlib.Core.List.{List, [], ◌∷◌}
use native.Mathlib.Omega.{arith}
use native.Mathlib.Nat.{pow-suc}
use tekflash.Common.Lists.{length}

-- The `w` lowest bytes of `n`, the lowest first.
unfoldable pub to_le_bytes : ℕ → ℕ → List ℕ
to_le_bytes zero n = []
to_le_bytes (suc w) n = n % 256 ∷ to_le_bytes w (n / 256)

unfoldable pub from_le_bytes : List ℕ → ℕ
from_le_bytes [] = 0
from_le_bytes (b ∷ bs) = b + 256 * from_le_bytes bs

pub length-to_le_bytes : (w n : ℕ) → length (to_le_bytes w n) ≡ w
unfolding to_le_bytes
length-to_le_bytes zero n = refl
length-to_le_bytes (suc w) n = ap suc (length-to_le_bytes w (n / 256))

-- A number that fits is read back from its bytes.
pub from_le_bytes-to_le_bytes : (w n : ℕ) → n < 256 ^ w → from_le_bytes (to_le_bytes w n) ≡ n
unfolding to_le_bytes from_le_bytes
from_le_bytes-to_le_bytes zero n h = omega arith
from_le_bytes-to_le_bytes (suc w) n h =
    let fits : n / 256 < 256 ^ w = omega (arith, pow-suc 256 w) in
    omega (arith, from_le_bytes-to_le_bytes w (n / 256) fits)

pub to_le_bytes-injective :
    (w m n : ℕ) → m < 256 ^ w → n < 256 ^ w → to_le_bytes w m ≡ to_le_bytes w n → m ≡ n
to_le_bytes-injective w m n hm hn e =
    sym (from_le_bytes-to_le_bytes w m hm) ∙ ap from_le_bytes e ∙ from_le_bytes-to_le_bytes w n hn
