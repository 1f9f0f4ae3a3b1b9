-- ===== src/LoadBalancing/LeastConnection/Panicking.antt =====
-- When the selection of src/load_balancing/least_connection.rs returns, and when it panics.
use another_rust_load_balanc.Prelude.{
  ℕ, ◌≤◌, ◌<◌, ◌≡◌, Text, true, false, none, List, [], ◌∷◌, inl, inr, done, panic, length,
  get_elem?-In, In, All, All-In, All-of_In, arith, Bool-cases, Option-cases,
}
use another_rust_load_balanc.Prelude.Maps
use another_rust_load_balanc.Prelude.Maps.{contains_key}
use another_rust_load_balanc.LoadBalancing.{Context, RequestForwarder, new_forwarder}
use another_rust_load_balanc.LoadBalancing.LeastConnection.{
  Connections, unused_indices, backend_address_map, has_unused, address_indices, select_backend,
}
use another_rust_load_balanc.LoadBalancing.LeastConnection.Sorting.{AllFrom, least_entries-IsLeast}
use another_rust_load_balanc.LoadBalancing.LeastConnection.Indices.{
  In-unused, map-Inverts, map-contains, indices_of_total, indices_of_panic, pick-In, pick_total,
}
use another_rust_load_balanc.LoadBalancing.LeastConnection.Unused.{IsDistinct, unused_of-has_unused}
use another_rust_load_balanc.LoadBalancing.LeastConnection.Least.{
  used-not_empty, address_indices-Choice,
}

-- Every backend with an entry is an address of the context.
abbrev pub AllListed : Connections → List Text → Type 0
AllListed connections addresses = All (λ e. In e.0 addresses) connections

length_of_In : {A : Type 0} (a : A) (l : List A) → In a l → 0 < length l
length_of_In a [] m = elim m [ ]
length_of_In a (x ∷ l) m = omega arith

address_indices_total :
    (connections : Connections) (addresses : List Text)
    → 0 < length addresses
    → IsDistinct addresses
    → AllListed connections addresses
    → (indices : List ℕ) × (address_indices connections addresses ≡ done indices)
      × (0 < length indices)
unfolding address_indices
address_indices_total connections addresses some_left distinct listed =
    elim (Bool-cases (has_unused connections addresses)) [
      | inl unused ↦
          let (a, inside, missing) =
            unused_of-has_unused addresses connections some_left distinct unused in
          let (i, member) = In-unused connections addresses a inside missing in
          (unused_indices connections addresses, rw unused, length_of_In i _ member)
      | inr used ↦
          let (least, taken, is) =
            least_entries-IsLeast connections (used-not_empty connections addresses used) in
          let found : All (λ e. contains_key e.0 (backend_address_map addresses) ≡ true) least =
            All-of_In _ least λ e inside.
              let member : In e.0 addresses =
                All-In (λ f. In f.0 addresses) connections {a = e} listed (is.sound e inside).0 in
              rw (map-contains addresses e.0 member).1 in
          let (indices, looked, same) =
            indices_of_total (backend_address_map addresses) least found in
          (indices, rw (used, taken) looked, rw same is.not_empty)
    ]

-- With a distinct address to choose from, with every backend that has an entry among the addresses,
-- and with a generator that draws from its range, the selection returns.
pub select_backend_total :
    {Headers Body : Type 0} (gen_range : ℕ → ℕ) (connections : Connections) (context : Context)
    → ((n : ℕ) → 0 < n → gen_range n < n)
    → 0 < length context.backend_addresses
    → IsDistinct context.backend_addresses
    → AllListed connections context.backend_addresses
    → (forwarder : RequestForwarder Headers Body) × (select_backend gen_range connections context
        ≡ done forwarder)
unfolding select_backend
select_backend_total gen_range connections context in_range some_left distinct listed =
    let addresses = context.backend_addresses in
    let (indices, computed, not_empty) =
      address_indices_total connections addresses some_left distinct listed in
    let (i, picked) = pick_total gen_range indices in_range not_empty in
    let (a, stands, _) =
      address_indices-Choice connections addresses i computed (pick-In gen_range indices picked) in
    (new_forwarder a, rw (computed, picked, stands))

not_listed :
    (addresses : List Text) (gone : Text)
    → ¬ In gone addresses
    → Maps.get gone (backend_address_map addresses) ≡ none
not_listed addresses gone absent =
    elim (Option-cases (Maps.get gone (backend_address_map addresses))) [
      | inl missing ↦ missing
      | inr (i, found) ↦
          absurd (absent (get_elem?-In addresses i (map-Inverts addresses gone i found)))
    ]

-- Once every address has an entry, a backend with an entry that is no longer among the addresses
-- and has as few connections as any makes every selection panic.
pub select_backend_panic :
    {Headers Body : Type 0} (gen_range : ℕ → ℕ) (connections : Connections) (context : Context)
    (gone : Text) (count : ℕ)
    → has_unused connections context.backend_addresses ≡ false
    → In (gone, count) connections
    → AllFrom count connections
    → ¬ In gone context.backend_addresses
    → select_backend {Headers = Headers} {Body = Body} gen_range connections context ≡ panic
unfolding select_backend address_indices
select_backend_panic gen_range connections context gone count used inside fewest absent =
    let addresses = context.backend_addresses in
    let (least, taken, is) =
      least_entries-IsLeast connections (used-not_empty connections addresses used) in
    let same : count ≡ is.first.1 = omega (
      arith,
      All-In (λ e. is.first.1 ≤ e.1) connections {a = (gone, count)} is.lowest inside,
      All-In (λ e. count ≤ e.1) connections {a = is.first} fewest is.listed,
    ) in
    let looked =
      indices_of_panic (backend_address_map addresses) least (gone, count)
        (is.complete (gone, count) inside same) (not_listed addresses gone absent) in
    rw (used, taken, looked)
