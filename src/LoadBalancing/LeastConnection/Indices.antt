-- ===== src/LoadBalancing/LeastConnection/Indices.antt =====
-- The indices of addresses that src/load_balancing/least_connection.rs passes around.
use mathlib.Core.Path.{subst}
use another_rust_load_balanc.Prelude.{
  inr, ap, ◌⊎◌, panic, true, Option-cases, ℕ, zero, suc, ◌<◌, ◌≡◌, refl, sym, ap, Text, Bool, not,
  none, some, List, [], ◌∷◌, map, inl, inr, done, unwrap, length, filter, get_elem?, get_elem?_lt,
  get_elem?-In, drop, In, All, All-In, In-map, map-In, In-filter, filter-In, eq_iff, arith, eqb,
  pos→eqb, Bool-cases,
}
use another_rust_load_balanc.Prelude.Maps
use another_rust_load_balanc.Prelude.Maps.{HashMap, contains_key, collect, get-insert}
use another_rust_load_balanc.Prelude.Panics.{>>=-eq-done, unwrap-eq-done, done-injective}
use another_rust_load_balanc.LoadBalancing.Random.{draw}
use another_rust_load_balanc.LoadBalancing.LeastConnection.{
  Connections, enumerate, unused_indices, backend_address_map, indices_of, pick,
}

abbrev is_unused : Connections → ℕ × Text → Bool
is_unused connections e = not (contains_key e.1 connections)

-- The pair of an index and the address that stands there.
abbrev Stands : List Text → ℕ × Text → Type 0
Stands addresses e = get_elem? addresses e.0 ≡ some e.1

drop_first : (xs ys : List Text) (i : ℕ) (y : Text) → drop i xs ≡ y ∷ ys → get_elem? xs i ≡ some y
drop_first [] ys zero y h = cc
drop_first [] ys (suc i) y h = cc
drop_first (x ∷ xs) ys zero y h = cc
drop_first (x ∷ xs) ys (suc i) y h = drop_first xs ys i y h

drop_rest : (xs ys : List Text) (i : ℕ) (y : Text) → drop i xs ≡ y ∷ ys → drop (suc i) xs ≡ ys
drop_rest [] ys zero y h = cc
drop_rest [] ys (suc i) y h = cc
drop_rest (x ∷ xs) ys zero y h = cc
drop_rest (x ∷ xs) ys (suc i) y h = drop_rest xs ys i y h

enumerate-Stands :
    (addresses rest : List Text) (i : ℕ)
    → drop i addresses ≡ rest
    → All (Stands addresses) (enumerate i rest)
unfolding enumerate
enumerate-Stands addresses [] i h = tt
enumerate-Stands addresses (x ∷ rest) i h = (
  drop_first addresses rest i x h,
  enumerate-Stands addresses rest (suc i) (drop_rest addresses rest i x h),
)

enumerate-In :
    (addresses : List Text) (i : ℕ) (a : Text)
    → In a addresses
    → (j : ℕ) × In (j, a) (enumerate i addresses)
unfolding enumerate
enumerate-In [] i a m = elim m [ ]
enumerate-In (x ∷ xs) i a (inl e) = (i, inl (ap (λ (y : Text). (i, y)) e))
enumerate-In (x ∷ xs) i a (inr m) = let (j, n) = enumerate-In xs (suc i) a m in (j, inr n)

-- An index of `unused_indices` is that of an address with no connection yet.
pub unused-Stands :
    (connections : Connections) (addresses : List Text) (i : ℕ)
    → In i (unused_indices connections addresses)
    → (a : Text) × (get_elem? addresses i ≡ some a) × (Maps.get a connections ≡ none)
unfolding unused_indices
unused-Stands connections addresses i m =
    let all = enumerate 0 addresses in
    let (e, kept, same) = In-map (λ (e : ℕ × Text). e.0) (filter (is_unused connections) all) m in
    let (inside, unused) = In-filter (is_unused connections) all kept in
    let stands =
      All-In (Stands addresses) all (enumerate-Stands addresses addresses 0 refl) inside in
    (e.1, subst (λ (j : ℕ). get_elem? addresses j ≡ some e.1) same stands, ground arith)

-- An address with no connection yet has its index among them.
pub In-unused :
    (connections : Connections) (addresses : List Text) (a : Text)
    → In a addresses
    → Maps.get a connections ≡ none
    → (i : ℕ) × In i (unused_indices connections addresses)
unfolding unused_indices
In-unused connections addresses a m missing =
    let (i, inside) = enumerate-In addresses 0 a m in
    let kept = filter-In (is_unused connections) (enumerate 0 addresses) inside (rw missing) in
    (i, map-In (λ (e : ℕ × Text). e.0) _ (i, a) kept)

-- The map from addresses to indices.
abbrev pub Inverts : List Text → HashMap ℕ → Type 0
Inverts addresses m = (a : Text) (i : ℕ) → Maps.get a m ≡ some i → get_elem? addresses i ≡ some a

collect-Inverts :
    (addresses : List Text) (l : List (ℕ × Text)) (m : HashMap ℕ)
    → All (Stands addresses) l
    → Inverts addresses m
    → Inverts addresses (collect m (map (λ e. (e.1, e.0)) l))
unfolding collect
collect-Inverts addresses [] m h inv = inv
collect-Inverts addresses ((j, b) ∷ l) m h inv =
    collect-Inverts addresses l (Maps.insert b j m) h.1
      λ a i found. ground (arith, get-insert b a j m, eq_iff b a, inv a i)

pub map-Inverts : (addresses : List Text) → Inverts addresses (backend_address_map addresses)
unfolding backend_address_map
map-Inverts addresses =
    collect-Inverts addresses (enumerate 0 addresses) []
      (enumerate-Stands addresses addresses 0 refl) (λ a i found. unfold Maps.get in cc found)

-- Each index that `indices_of` returns is that of an entry's address.
pub indices_of-In :
    (addresses : List Text) (m : HashMap ℕ) (l : Connections) {indices : List ℕ} (i : ℕ)
    → Inverts addresses m
    → indices_of m l ≡ done indices
    → In i indices
    → (e : Text × ℕ) × In e l × (get_elem? addresses i ≡ some e.0)
unfolding indices_of
indices_of-In addresses m [] i inv h member =
    elim (subst (λ (l : List ℕ). In i l) (sym (done-injective h)) member) [ ]
indices_of-In addresses m ((a, n) ∷ l) i inv h member =
    let (j, looked, then) = >>=-eq-done (unwrap (Maps.get a m)) _ h in
    let (rest, ih, built) = >>=-eq-done (indices_of m l) _ then in
    place j rest (unwrap-eq-done _ looked) (indices_of-In addresses m l {indices = rest} i inv ih)
      (subst (λ (l : List ℕ). In i l) (sym (done-injective built)) member)
  where
    place :
        (j : ℕ) (rest : List ℕ)
        → Maps.get a m ≡ some j
        → (In i rest → (e : Text × ℕ) × In e l × (get_elem? addresses i ≡ some e.0))
        → In i (j ∷ rest)
        → (e : Text × ℕ) × In e ((a, n) ∷ l) × (get_elem? addresses i ≡ some e.0)
    place j rest found later (inl here) =
        ((a, n), inl refl, subst (λ (k : ℕ). get_elem? addresses k ≡ some a) here (inv a j found))
    place j rest found later (inr there) =
        let (e, inside, stands) = later there in (e, inr inside, stands)

pub pick-In :
    (gen_range : ℕ → ℕ) (indices : List ℕ) {i : ℕ} → pick gen_range indices ≡ done i → In i indices
unfolding pick draw
pick-In gen_range indices h = elim (Bool-cases (eqb (length indices) 1)) [
  | inl single ↦ get_elem?-In indices 0 (unwrap-eq-done _ (rw single at h))
  | inr several ↦
      let (j, _, found) = >>=-eq-done (draw gen_range (length indices)) _ (rw several at h) in
      get_elem?-In indices j (unwrap-eq-done _ found)
]

pub pick_total :
    (gen_range : ℕ → ℕ) (indices : List ℕ)
    → ((n : ℕ) → 0 < n → gen_range n < n)
    → 0 < length indices
    → (i : ℕ) × (pick gen_range indices ≡ done i)
unfolding pick draw
pick_total gen_range indices in_range some_left = elim (Bool-cases (eqb (length indices) 1)) [
  | inl single ↦ let (i, found, _) = get_elem?_lt indices 0 some_left in (i, rw (single, found))
  | inr several ↦
      let (i, found, _) =
        get_elem?_lt indices (gen_range (length indices)) (in_range _ some_left) in
      (i, rw (several, pos→eqb _ some_left, found))
]

-- The map has an index for every address.
collect-contains :
    (l : List (ℕ × Text)) (m : HashMap ℕ) (a : Text)
    → (contains_key a m ≡ true) ⊎ In a (map (λ e. e.1) l)
    → contains_key a (collect m (map (λ e. (e.1, e.0)) l)) ≡ true
unfolding collect
collect-contains [] m a (inl h) = h
collect-contains [] m a (inr h) = elim h [ ]
collect-contains ((j, b) ∷ l) m a h =
    collect-contains l (Maps.insert b j m) a (ground (arith, get-insert b a j m, eq_iff b a))

enumerate-addresses :
    (addresses : List Text) (i : ℕ) → map (λ e. e.1) (enumerate i addresses) ≡ addresses
unfolding enumerate
enumerate-addresses [] i = refl
enumerate-addresses (x ∷ xs) i = ap (λ (l : List Text). x ∷ l) (enumerate-addresses xs (suc i))

pub map-contains :
    (addresses : List Text) (a : Text)
    → In a addresses
    → (i : ℕ) × (Maps.get a (backend_address_map addresses) ≡ some i)
unfolding backend_address_map
map-contains addresses a m =
    let all = enumerate 0 addresses in
    let found = collect-contains all [] a (inr (rw (enumerate-addresses addresses 0) m)) in
    ground (arith, found)

-- Every entry has its address in the map: then there is an index for each.
pub indices_of_total :
    (m : HashMap ℕ) (l : Connections)
    → All (λ e. contains_key e.0 m ≡ true) l
    → (indices : List ℕ) × (indices_of m l ≡ done indices) × (length indices ≡ length l)
unfolding indices_of
indices_of_total m [] h = ([], refl, refl)
indices_of_total m ((a, n) ∷ l) h =
    let (rest, later, same) = indices_of_total m l h.1 in
    elim (Option-cases (Maps.get a m)) [
      | inl missing ↦ cc (rw missing at h.0)
      | inr (i, found) ↦ (i ∷ rest, rw (found, later), omega (arith, same))
    ]

-- One entry has not: then looking it up panics.
pub indices_of_panic :
    (m : HashMap ℕ) (l : Connections) (e : Text × ℕ)
    → In e l
    → Maps.get e.0 m ≡ none
    → indices_of m l ≡ panic
unfolding indices_of
indices_of_panic m [] e inside missing = elim inside [ ]
indices_of_panic m ((a, n) ∷ l) e (inl same) missing = rw (rw (← same) at missing)
indices_of_panic m ((a, n) ∷ l) e (inr inside) missing = elim (Option-cases (Maps.get a m)) [
  | inl none_here ↦ rw none_here
  | inr (i, found) ↦ rw (found, indices_of_panic m l e inside missing)
]
