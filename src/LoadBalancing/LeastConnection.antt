-- ===== src/LoadBalancing/LeastConnection.antt =====
-- src/load_balancing/least_connection.rs: the open connections of each backend, a hash map
-- behind a lock.
pub mod Sorting
pub mod Indices
pub mod Unused
pub mod Panicking
pub mod Counts
pub mod Least
use another_rust_load_balanc.Prelude.{
  ℕ, suc, ◌+◌, ◌-◌, ◌%◌, ◌^◌, Text, Bool, not, ◌||◌, Option, none, some, List, [], ◌∷◌, map,
  Outcome, done, panic, unwrap, length, is_empty, filter, take_while, eqb, ltb, leb, get_elem?,
  if◌then◌else◌,
}
use another_rust_load_balanc.Prelude.Maps
use another_rust_load_balanc.Prelude.Maps.{HashMap, contains_key, collect}
use another_rust_load_balanc.Prelude.Panics.{◌>>=◌}
use another_rust_load_balanc.Http.{Uri}
use another_rust_load_balanc.LoadBalancing.{Context, RequestForwarder, new_forwarder}
use another_rust_load_balanc.LoadBalancing.Random.{draw}

abbrev pub Connections : Type 0
Connections = HashMap ℕ

-- `LeastConnection::new`.
abbrev pub new : Connections
new = []

abbrev pub usize_mod : ℕ
usize_mod = 2 ^ 64

-- `entry(…).or_insert(default)`.
abbrev pub or_insert : ℕ → Option ℕ → ℕ
or_insert default none = default
or_insert default (some count) = count

-- `*connections.entry(authority).or_insert(0) += 1`, wrapping.
unfoldable pub on_tcp_open : Uri → Connections → Connections
on_tcp_open remote connections = elim remote.authority [
  | none ↦ connections
  | some authority ↦
      Maps.insert authority ((or_insert 0 (Maps.get authority connections) + 1) % usize_mod)
        connections
]

-- `*connections.entry(authority).or_insert(1) -= 1`, wrapping.
unfoldable pub on_tcp_close : Uri → Connections → Connections
on_tcp_close remote connections = elim remote.authority [
  | none ↦ connections
  | some authority ↦
      Maps.insert authority
        ((or_insert 1 (Maps.get authority connections) + usize_mod - 1) % usize_mod) connections
]

-- `iter().enumerate()`, from an index.
unfoldable pub enumerate {ℓ} : {A : Type ℓ} → ℕ → List A → List (ℕ × A)
enumerate i [] = []
enumerate i (x ∷ xs) = (i, x) ∷ enumerate (suc i) xs

-- The indices of the addresses to which no connection was opened yet.
unfoldable pub unused_indices : Connections → List Text → List ℕ
unfolding enumerate
unused_indices connections addresses =
    map (λ e. e.0) (filter (λ e. not (contains_key e.1 connections)) (enumerate 0 addresses))

-- The standard library's stable sort by the number of connections.
unfoldable pub insert_by_count : Text × ℕ → List (Text × ℕ) → List (Text × ℕ)
insert_by_count e [] = e ∷ []
insert_by_count e (f ∷ l) = if leb e.1 f.1 then e ∷ f ∷ l else f ∷ insert_by_count e l

unfoldable pub sort_by_count : List (Text × ℕ) → List (Text × ℕ)
unfolding insert_by_count
sort_by_count [] = []
sort_by_count (e ∷ l) = insert_by_count e (sort_by_count l)

-- `backend_address_map`, from an address to its index.
unfoldable pub backend_address_map : List Text → HashMap ℕ
unfolding enumerate
backend_address_map addresses = collect [] (map (λ e. (e.1, e.0)) (enumerate 0 addresses))

-- `map(|address| *backend_address_map.get(address).unwrap())`.
unfoldable pub indices_of : HashMap ℕ → List (Text × ℕ) → Outcome (List ℕ)
indices_of address_map [] = done []
indices_of address_map ((address, _) ∷ l) = do
  index ← unwrap (Maps.get address address_map)
  rest ← indices_of address_map l
  done (index ∷ rest)

-- The entries that share the least count; an empty list has no first element to index.
unfoldable pub least_entries : Connections → Outcome (List (Text × ℕ))
unfolding sort_by_count
least_entries connections = do
  let sorted = sort_by_count connections
  first ← unwrap (get_elem? sorted 0)
  done (take_while (λ e. eqb e.1 first.1) sorted)

-- `connections.len() == 0 || backend_addresses.len() > connections.len()`.
abbrev pub has_unused : Connections → List Text → Bool
has_unused connections addresses =
    eqb (length connections) 0 || ltb (length connections) (length addresses)

unfoldable pub address_indices : Connections → List Text → Outcome (List ℕ)
unfolding unused_indices least_entries indices_of backend_address_map
address_indices connections addresses =
    if has_unused connections addresses
    then done (unused_indices connections addresses)
    else do least ← least_entries connections; indices_of (backend_address_map addresses) least

-- One index is taken as it is; among others one is drawn.
unfoldable pub pick : (ℕ → ℕ) → List ℕ → Outcome ℕ
unfolding draw
pick gen_range indices =
    if eqb (length indices) 1
    then unwrap (get_elem? indices 0)
    else do index ← draw gen_range (length indices); unwrap (get_elem? indices index)

unfoldable pub select_backend :
    {Headers Body : Type 0}
    → (ℕ → ℕ)
    → Connections
    → Context
    → Outcome (RequestForwarder Headers Body)
unfolding address_indices pick new_forwarder
select_backend gen_range connections context = do
  indices ← address_indices connections context.backend_addresses
  index ← pick gen_range indices
  address ← unwrap (get_elem? context.backend_addresses index)
  done (new_forwarder address)
