-- ===== src/Prelude/Status.antt =====
-- `tonic::Status` and results that carry it.
use Prim.Native.String.{String}

pub data Status : Type 0 where
  invalid_argument not_found failed_precondition internal : String → Status
  -- The model's own: a loop ran out of fuel. Shown not to happen.
  diverged : Status

pub data Result {ℓ} (A : Type ℓ) : Type ℓ where
  ok : A → Result A
  err : Status → Result A

infixl 5 ◌>>=◌
abbrev pub ◌>>=◌ {ℓ κ} : {A : Type ℓ} {B : Type κ} → Result A → (A → Result B) → Result B
ok a >>= f = f a
err e >>= f = err e
