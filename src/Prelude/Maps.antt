-- ===== src/Prelude/Maps.antt =====
-- Rust's `HashMap` with text keys, as the list of its entries in the order in which it iterates.
use mathlib.Core.Path.{◌≡◌, refl}
use mathlib.Core.Bool.{Bool}
use mathlib.Core.Option.{Option, none, some}
use mathlib.Core.List.{List, [], ◌∷◌}
use native.Mathlib.Omega.{arith}
use another_rust_load_balanc.Prelude.Tests.{if◌then◌else◌}
use another_rust_load_balanc.Prelude.Lists.{is_some, In}
use another_rust_load_balanc.Prelude.Texts.{Text, ◌==◌, eq_iff}

abbrev pub HashMap {ℓ} : Type ℓ → Type ℓ
HashMap V = List (Text × V)

module _ {ℓ} {V : Type ℓ} where
  unfoldable pub get : Text → HashMap V → Option V
  get k [] = none
  get k ((j, v) ∷ m) = if j == k then some v else get k m

  -- A new key stands last; an old one keeps its place.
  unfoldable pub insert : Text → V → HashMap V → HashMap V
  insert k v [] = (k, v) ∷ []
  insert k v ((j, w) ∷ m) = if j == k then (j, v) ∷ m else (j, w) ∷ insert k v m

  abbrev pub contains_key : Text → HashMap V → Bool
  contains_key k m = is_some (get k m)

  -- `collect` of pairs: a later pair replaces an earlier one of the same key.
  unfoldable pub collect : HashMap V → List (Text × V) → HashMap V
  collect m [] = m
  collect m ((k, v) ∷ l) = collect (insert k v m) l

  pub get-insert :
      (k j : Text) (v : V) (m : HashMap V)
      → get j (insert k v m) ≡ (if k == j then some v else get j m)
  unfolding get insert
  get-insert k j v [] = refl
  get-insert k j v ((i, w) ∷ m) =
      ground (arith, eq_iff k j, eq_iff i k, eq_iff i j, get-insert k j v m)

module _ {V : Type 0} where
  pub get-In : (k : Text) (m : HashMap V) {v : V} → get k m ≡ some v → In (k, v) m
  unfolding get
  get-In k [] h = cc
  get-In k ((j, w) ∷ m) {v} h = ground (arith, eq_iff j k, get-In k m {v = v})
