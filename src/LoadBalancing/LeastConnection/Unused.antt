-- ===== src/LoadBalancing/LeastConnection/Unused.antt =====
-- While src/load_balancing/least_connection.rs has fewer entries than addresses to choose from,
-- some address has no entry.
use another_rust_load_balanc.Prelude.{
  ◌≤◌, ◌<◌, ◌≡◌, ◌≢◌, Text, true, none, List, [], ◌∷◌, ◌⊎◌, inl, inr, refl, length, In, All, arith,
  ◌==◌, eq_iff, if◌then◌else◌, Option-cases,
}
use another_rust_load_balanc.Prelude.Maps
use another_rust_load_balanc.Prelude.Maps.{contains_key}
use another_rust_load_balanc.LoadBalancing.LeastConnection.{Connections, has_unused}

-- No address is listed twice.
abbrev pub IsDistinct : List Text → Type 0
IsDistinct [] = Unit
IsDistinct (x ∷ xs) = All (λ y. y ≢ x) xs × IsDistinct xs

without : Text → Connections → Connections
without a [] = []
without a ((b, n) ∷ l) = let rest = without a l in if b == a then rest else (b, n) ∷ rest

get-without : (a b : Text) (l : Connections) → b ≢ a → Maps.get b (without a l) ≡ Maps.get b l
unfolding Maps.get without
get-without a b [] ne = ground arith
get-without a b ((c, n) ∷ l) ne = ground (arith, get-without a b l ne, eq_iff c a, eq_iff c b)

length-without_le : (a : Text) (l : Connections) → length (without a l) ≤ length l
unfolding without
length-without_le a [] = omega arith
length-without_le a ((c, n) ∷ l) = ground (arith, length-without_le a l)

length-without_lt :
    (a : Text) (l : Connections) → contains_key a l ≡ true → length (without a l) < length l
unfolding Maps.get without
length-without_lt a [] h = cc
length-without_lt a ((c, n) ∷ l) h = ground (arith, length-without_le a l, length-without_lt a l)

All-without :
    (a : Text) (xs : List Text) (l : Connections)
    → All (λ y. y ≢ a) xs
    → All (λ y. contains_key y l ≡ true) xs
    → All (λ y. contains_key y (without a l) ≡ true) xs
All-without a [] l ne h = tt
All-without a (x ∷ xs) l ne h = (rw (get-without a x l ne.0) h.0, All-without a xs l ne.1 h.1)

-- Distinct addresses that all have entries are at most as many as the entries.
pigeonhole :
    (addresses : List Text) (l : Connections)
    → IsDistinct addresses
    → All (λ a. contains_key a l ≡ true) addresses
    → length addresses ≤ length l
pigeonhole [] l d h = omega arith
pigeonhole (a ∷ addresses) l d h = omega (
  arith,
  length-without_lt a l h.0,
  pigeonhole addresses (without a l) d.1 (All-without a addresses l d.0 h.1),
)

-- Some address has no entry, or all have one.
unused-or-All :
    (addresses : List Text) (l : Connections)
    → ((a : Text) × In a addresses × (Maps.get a l ≡ none))
      ⊎ All (λ a. contains_key a l ≡ true) addresses
unused-or-All [] l = inr tt
unused-or-All (a ∷ addresses) l = elim (Option-cases (Maps.get a l)) [
  | inl missing ↦ inl (a, inl refl, missing)
  | inr (_, found) ↦ elim (unused-or-All addresses l) [
    | inl (b, inside, missing) ↦ inl (b, inr inside, missing)
    | inr all ↦ inr (rw found, all)
  ]
]

pub unused_of-has_unused :
    (addresses : List Text) (l : Connections)
    → 0 < length addresses
    → IsDistinct addresses
    → has_unused l addresses ≡ true
    → (a : Text) × In a addresses × (Maps.get a l ≡ none)
unused_of-has_unused addresses l some_left d h = elim (unused-or-All addresses l) [
  | inl found ↦ found
  | inr all ↦ absurd (impossible (pigeonhole addresses l d all))
]
  where
    impossible : length addresses ≤ length l → ⊥
    impossible le = ground arith
