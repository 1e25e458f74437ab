-- ===== src/Common/Results.antt =====
-- Results with an error of any type, and their chaining.
use mathlib.Core.Path.{◌≡◌, refl}

-- The outcome of code that may fail.
pub data Result (E A : Type 0) : Type 0 where
  err : E → Result E A
  ok : A → Result E A

pub ok_inj : {E A : Type 0} {a b : A} → ◌≡◌ {A = Result E A} (ok a) (ok b) → a ≡ b
ok_inj h = cc

-- `?`, and the chaining of a `do` block.
infixl 5 ◌>>=◌
abbrev pub ◌>>=◌ : {E A B : Type 0} → Result E A → (A → Result E B) → Result E B
◌>>=◌ (err reason) next = err reason
◌>>=◌ (ok value) next = next value

-- A chain that succeeds has both of its parts succeed.
pub >>=-eq-ok :
    {E A B : Type 0} (first : Result E A) (next : A → Result E B) {b : B}
    → (first >>= next) ≡ ok b
    → (a : A) × (first ≡ ok a) × (next a ≡ ok b)
>>=-eq-ok (err reason) next h = cc
>>=-eq-ok (ok value) next h = (value, refl, h)
