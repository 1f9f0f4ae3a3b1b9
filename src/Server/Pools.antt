-- ===== src/Server/Pools.antt =====
-- Which pool src/server.rs chooses for a request, and which of its backends.
use mathlib.Core.Path.{subst}
use another_rust_load_balanc.Prelude.{
  Text, ◌≡◌, ◌⊎◌, ◌↔◌, refl, ap, Bool, true, false, Option, none, some, List, [], ◌∷◌, ◌++◌, map,
  filter, is_empty, All, In, In-map, map-In, In-filter, filter-In, if◌then◌else◌, Bool-cases, inl,
  inr,
}
use another_rust_load_balanc.Prelude.Int.{ℤ}
use another_rust_load_balanc.Http.{Http, Request}
use another_rust_load_balanc.Scheme.{Scheme}
use another_rust_load_balanc.Health.{Healthiness, healthiness_eq, healthy, slow, unresponsive}
use another_rust_load_balanc.Matcher.{Matching}
use another_rust_load_balanc.Server.{
  BackendPool, supports, serves, pool_by_req, store, is_healthy, is_slow, working_addresses,
}

-- A list cut at the first element that meets a test.
pub data First {A : Type 0} (p : A → Bool) (xs : List A) (a : A) : Type 0 where
  first :
      (before after : List A)
      → xs ≡ before ++ a ∷ after
      → All (λ x. p x ≡ false) before
      → p a ≡ true
      → First p xs a

module _ {Headers Value Body Map : Type 0} (http : Http Headers Value Body) (matching : Matching)
    (request : Request Headers Body) (scheme : Scheme) where
  abbrev pub test : BackendPool Headers Body Map → Bool
  test = serves http matching scheme request

  abbrev pub found : List (BackendPool Headers Body Map) → Option (BackendPool Headers Body Map)
  found pools = pool_by_req http matching pools request scheme

  found-cons :
      (pool : BackendPool Headers Body Map) (pools : List (BackendPool Headers Body Map))
      → found (pool ∷ pools) ≡ (if test pool then some pool else found pools)
  unfolding pool_by_req serves
  found-cons pool pools = elim (Bool-cases (supports pool scheme)) [
    | inl e ↦ rw e refl
    | inr e ↦ rw e refl
  ]

  -- The pool that is chosen is the first that takes the request's scheme and whose matcher matches
  -- the request; none is chosen only if there is no such pool.
  pub pool_by_req-First :
      (pools : List (BackendPool Headers Body Map))
      → ((found pools ≡ none) × All (λ pool. test pool ≡ false) pools)
        ⊎ ((pool : BackendPool Headers Body Map) × (found pools ≡ some pool)
            × First test pools pool)
  unfolding pool_by_req
  pool_by_req-First [] = inl (refl, tt)
  pool_by_req-First (pool ∷ pools) = elim (Bool-cases (test pool)) [
    | inl e ↦ inr (pool, rw (found-cons pool pools, e) refl, first [] pools refl tt e)
    | inr e ↦ elim (pool_by_req-First pools) [
      | inl (none_left, a) ↦ inl (rw (found-cons pool pools, e) none_left, (e, a))
      | inr (p, is, first before after at a t) ↦ inr (
        p,
        rw (found-cons pool pools, e) is,
        first (pool ∷ before) after (ap (λ l. pool ∷ l) at) (e, a) t,
      )
    ]
  ]

  -- The pool that is put back stands where the chosen one stood.
  pub store-First :
      (before after : List (BackendPool Headers Body Map))
      (pool changed : BackendPool Headers Body Map)
      → All (λ p. test p ≡ false) before
      → test pool ≡ true
      → store http matching scheme request changed (before ++ pool ∷ after)
        ≡ before ++ changed ∷ after
  unfolding store
  store-First [] after pool changed a t = rw t refl
  store-First (p ∷ before) after pool changed a t =
      rw a.0 (ap (λ l. p ∷ l) (store-First before after pool changed a.1 t))

-- The backends of a pool to which a request may go: the healthy ones, and the slow ones if none is
-- healthy.
pub data Usable (addresses : List (Text × Healthiness)) (a : Text) : Type 0 where
  is_well : In (a, healthy) addresses → Usable addresses a
  is_late :
      (t : ℤ)
      → In (a, slow t) addresses
      → All (λ e. is_healthy e.1 ≡ false) addresses
      → Usable addresses a

is_healthy_lem : (h : Healthiness) → is_healthy h ≡ true → h ≡ healthy
unfolding healthiness_eq
is_healthy_lem healthy e = refl
is_healthy_lem (slow _) e = cc
is_healthy_lem (unresponsive _) e = cc

is_slow_lem : (h : Healthiness) → is_slow h ≡ true → (t : ℤ) × (h ≡ slow t)
is_slow_lem healthy e = cc
is_slow_lem (slow t) e = (t, refl)
is_slow_lem (unresponsive _) e = cc

module _ (p : Healthiness → Bool) where
  -- The addresses whose healthiness meets a test.
  abbrev kept : List (Text × Healthiness) → List Text
  kept addresses = map (λ e. e.0) (filter (λ e. p e.1) addresses)

  In-kept :
      (addresses : List (Text × Healthiness)) (a : Text)
      → In a (kept addresses)
      → (h : Healthiness) × In (a, h) addresses × (p h ≡ true)
  In-kept addresses a m =
      let (e, member, same) = In-map (λ e. e.0) (filter (λ e. p e.1) addresses) m in
      let (inside, meets) = In-filter (λ e. p e.1) addresses member in
      (e.1, subst (λ x. In (x, e.1) addresses) same inside, meets)

  kept-In :
      (addresses : List (Text × Healthiness)) (a : Text) (h : Healthiness)
      → In (a, h) addresses
      → p h ≡ true
      → In a (kept addresses)
  kept-In addresses a h m meets =
      map-In (λ e. e.0) (filter (λ e. p e.1) addresses) (a, h)
        (filter-In (λ e. p e.1) addresses m meets)

  none_kept :
      (addresses : List (Text × Healthiness))
      → is_empty (kept addresses) ≡ true
      → All (λ e. p e.1 ≡ false) addresses
  none_kept [] h = tt
  none_kept (e ∷ addresses) h = elim (Bool-cases (p e.1)) [
    | inl meets ↦ cc (rw meets at h)
    | inr fails ↦ (fails, none_kept addresses (rw fails at h))
  ]

  kept_none :
      (addresses : List (Text × Healthiness))
      → All (λ e. p e.1 ≡ false) addresses
      → is_empty (kept addresses) ≡ true
  kept_none [] h = refl
  kept_none (e ∷ addresses) h = rw h.0 (kept_none addresses h.1)

module _ {Headers Body Map : Type 0} (pool : BackendPool Headers Body Map) (a : Text) where
  from_healthies : In a (kept is_healthy pool.addresses) → Usable pool.addresses a
  from_healthies m =
      let (h, inside, meets) = In-kept is_healthy pool.addresses a m in
      is_well (rw (is_healthy_lem h meets) at inside)

  from_slows :
      In a (kept is_slow pool.addresses)
      → is_empty (kept is_healthy pool.addresses) ≡ true
      → Usable pool.addresses a
  from_slows m e =
      let (h, inside, meets) = In-kept is_slow pool.addresses a m in
      let (t, same) = is_slow_lem h meets in
      is_late t (rw same at inside) (none_kept is_healthy pool.addresses e)

  working : In a (working_addresses pool) → Usable pool.addresses a
  unfolding working_addresses
  working m = elim (Bool-cases (is_empty (kept is_healthy pool.addresses))) [
    | inl e ↦ from_slows (rw e at m) e
    | inr e ↦ from_healthies (rw e at m)
  ]

  not_empty : (xs : List Text) → In a xs → is_empty xs ≡ false
  not_empty [] m = elim m [ ]
  not_empty (x ∷ xs) m = refl

  usable : Usable pool.addresses a → In a (working_addresses pool)
  unfolding working_addresses healthiness_eq
  usable (is_well m) =
      let member = kept-In is_healthy pool.addresses a healthy m refl in
      rw (not_empty _ member) member
  usable (is_late t m none_healthy) =
      rw (kept_none is_healthy pool.addresses none_healthy)
        (kept-In is_slow pool.addresses a (slow t) m refl)

  -- The addresses among which the strategy chooses are those of the pool's healthy backends, and,
  -- only when none is healthy, those of its slow ones.
  pub working_addresses_iff : In a (working_addresses pool) ↔ Usable pool.addresses a
  working_addresses_iff = (working, usable)
