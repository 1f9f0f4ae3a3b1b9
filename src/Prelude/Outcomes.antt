-- ===== src/Prelude/Outcomes.antt =====
-- What a call of a function that may panic comes to, and Rust's `Result`.
use mathlib.Core.Option.{Option, none, some}

-- `panic` stands for an `unwrap` of nothing, an index out of range, a division by zero.
pub data Outcome {ℓ} (A : Type ℓ) : Type ℓ where
  done : A → Outcome A
  panic : Outcome A

abbrev pub unwrap {ℓ} : {A : Type ℓ} → Option A → Outcome A
unwrap none = panic
unwrap (some a) = done a

-- Rust's `Result`.
pub data Result {ℓ κ} (A : Type ℓ) (E : Type κ) : Type (ℓ ⊔ κ) where
  ok : A → Result A E
  err : E → Result A E
