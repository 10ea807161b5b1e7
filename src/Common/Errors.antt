-- ===== src/Common/Errors.antt =====
-- Fallible code: a value, or the exception that ended the call.
use mathlib.Core.Path.{◌≡◌, refl}
use mathlib.Core.Logic.{◌⊎◌, inl, inr}

pub data Result (E A : Type 0) : Type 0 where
  err : E → Result E A
  ok : A → Result E A

infixl 5 ◌>>=◌
abbrev pub ◌>>=◌ : {Raised X Y : Type 0} → Result Raised X → (X → Result Raised Y) → Result Raised Y
err raised >>= next = err raised
ok x >>= next = next x

module _ {Raised X Y : Type 0} where
  -- A chain that fails does so at one of its steps.
  pub >>=-eq-err :
      (call : Result Raised X) (next : X → Result Raised Y) {raised : Raised}
      → (call >>= next) ≡ err raised
      → (call ≡ err raised) ⊎ ((x : X) × (call ≡ ok x) × (next x ≡ err raised))
  >>=-eq-err (err earlier) next fails = inl (cc)
  >>=-eq-err (ok x) next fails = inr (x, refl, fails)

  -- A chain that answers a value has a first step that does.
  pub >>=-eq-ok :
      (call : Result Raised X) (next : X → Result Raised Y) {y : Y}
      → (call >>= next) ≡ ok y
      → (x : X) × (call ≡ ok x) × (next x ≡ ok y)
  >>=-eq-ok (err earlier) next answers = cc
  >>=-eq-ok (ok x) next answers = (x, refl, answers)
