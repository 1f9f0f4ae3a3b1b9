-- ===== src/Utils.antt =====
-- src/utils.rs.
pub mod SplitOnce
use another_rust_load_balanc.Prelude.{
  ℕ, Text, Option, none, some, List, [], ◌∷◌, Result, ok, err, eqb, if◌then◌else◌,
}

-- `splitn(2, pattern)`: what stands before the first occurrence, and all that follows it.
unfoldable pub split_once : Text → ℕ → Option (Text × Text)
split_once [] pattern = none
split_once (c ∷ s) pattern =
    let rest = split_once s pattern in
    if eqb c pattern
    then some ([], s)
    else elim rest [ none ↦ none | some (first, second) ↦ some (c ∷ first, second) ]

unfoldable pub unwrap_result {ℓ} : {T : Type ℓ} → Result T T → T
unwrap_result (ok t) = t
unwrap_result (err t) = t
