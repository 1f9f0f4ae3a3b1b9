-- ===== src/LoadBalancing/LeastConnection/Least.antt =====
-- Which backend src/load_balancing/least_connection.rs selects, and when it panics.
use mathlib.Core.Path.{subst}
use another_rust_load_balanc.Prelude.{
  ℕ, ◌<◌, ◌≡◌, sym, ap, ◌∙◌, Text, true, false, none, some, List, inl, inr, done, unwrap, length,
  get_elem?, get_elem?-In, In, arith, Bool-cases,
}
use another_rust_load_balanc.Prelude.Maps
use another_rust_load_balanc.Prelude.Maps.{HashMap, contains_key, collect, get-insert}
use another_rust_load_balanc.Prelude.Panics.{>>=-eq-done, unwrap_unique, done-injective}
use another_rust_load_balanc.LoadBalancing.{Context, RequestForwarder}
use another_rust_load_balanc.LoadBalancing.LeastConnection.{
  Connections, unused_indices, backend_address_map, has_unused, address_indices, pick,
  select_backend,
}
use another_rust_load_balanc.LoadBalancing.LeastConnection.Sorting.{AllFrom, least_entries-IsLeast}
use another_rust_load_balanc.LoadBalancing.LeastConnection.Indices.{
  unused-Stands, map-Inverts, indices_of-In, pick-In,
}

pub used-not_empty :
    (connections : Connections) (addresses : List Text)
    → has_unused connections addresses ≡ false
    → 0 < length connections
used-not_empty connections addresses h = ground arith

-- What the address of the returned forwarder is to the open connections.
abbrev pub Choice : Connections → List Text → Text → Type 0
Choice connections addresses address =
    In address addresses
    × (has_unused connections addresses ≡ true → Maps.get address connections ≡ none)
    × (has_unused connections addresses ≡ false
        → (count : ℕ) × In (address, count) connections × AllFrom count connections)

pub address_indices-Choice :
    (connections : Connections) (addresses : List Text) {indices : List ℕ} (i : ℕ)
    → address_indices connections addresses ≡ done indices
    → In i indices
    → (a : Text) × (get_elem? addresses i ≡ some a) × Choice connections addresses a
unfolding address_indices
address_indices-Choice connections addresses {indices} i h m =
    elim (Bool-cases (has_unused connections addresses)) [
      | inl unused ↦
          let same : unused_indices connections addresses ≡ indices =
            done-injective (rw unused at h) in
          let (a, stands, missing) =
            unused-Stands connections addresses i (subst (λ (l : List ℕ). In i l) (sym same) m) in
          (a, stands, (get_elem?-In addresses i stands, (λ _. missing), λ used. cc))
      | inr used ↦
          let (least, taken, is) =
            least_entries-IsLeast connections (used-not_empty connections addresses used) in
          let (e, inside, stands) =
            indices_of-In addresses (backend_address_map addresses) least i (map-Inverts addresses)
              (rw (used, taken) at h) m in
          let (entry, same) = is.sound e inside in
          (
            e.0,
            stands,
            (
              get_elem?-In addresses i stands,
              (λ unused. cc),
              λ _. (e.1, entry, subst (λ (n : ℕ). AllFrom n connections) (sym same) is.lowest),
            ),
          )
    ]

-- If the selection returns, it returns an address of the context. While there are more addresses
-- than backends with an entry, that address has no entry; otherwise it is a backend with an entry
-- whose count is at most that of every entry.
pub select_backend-Choice :
    {Headers Body : Type 0} (gen_range : ℕ → ℕ) (connections : Connections) (context : Context)
    {forwarder : RequestForwarder Headers Body}
    → select_backend gen_range connections context ≡ done forwarder
    → Choice connections context.backend_addresses forwarder.backend_address
unfolding select_backend
select_backend-Choice gen_range connections context {forwarder} h =
    let addresses = context.backend_addresses in
    let (indices, listed, rest) = >>=-eq-done (address_indices connections addresses) _ h in
    let (i, picked, rest) = >>=-eq-done (pick gen_range indices) _ rest in
    let (a, found, built) = >>=-eq-done (unwrap (get_elem? addresses i)) _ rest in
    let (b, stands, choice) =
      address_indices-Choice connections addresses i listed (pick-In gen_range indices picked) in
    let same : b ≡ forwarder.backend_address =
      unwrap_unique _ stands found
      ∙ ap (λ (f : RequestForwarder _ _). f.backend_address) (done-injective built) in
    subst (Choice connections addresses) same choice
