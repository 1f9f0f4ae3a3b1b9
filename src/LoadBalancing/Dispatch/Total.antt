-- ===== src/LoadBalancing/Dispatch/Total.antt =====
-- When a selection of src/load_balancing/ returns, whatever the strategy.
use another_rust_load_balanc.Prelude.{
  ℕ, ◌<◌, ◌≡◌, Text, Bool, some, List, [], ◌∷◌, done, length, find, get_elem?-In, In, inl, inr,
  arith, Option-cases, ◌==◌,
}
use another_rust_load_balanc.Http.{Http, Request}
use another_rust_load_balanc.LoadBalancing.{Context, RequestForwarder, new_forwarder, map_response}
use another_rust_load_balanc.LoadBalancing.RoundRobin.{u32_mod}
use another_rust_load_balanc.LoadBalancing.RoundRobin.Fairness as RoundRobin
use another_rust_load_balanc.LoadBalancing.IpHash.Laws as IpHash
use another_rust_load_balanc.LoadBalancing.Random.Laws as Random
use another_rust_load_balanc.LoadBalancing.StickyCookie as Sticky
use another_rust_load_balanc.LoadBalancing.StickyCookie.{StickyCookie}
use another_rust_load_balanc.LoadBalancing.LeastConnection.Unused.{IsDistinct}
use another_rust_load_balanc.LoadBalancing.LeastConnection.Least.{select_backend-Choice}
use another_rust_load_balanc.LoadBalancing.LeastConnection.Panicking as Least
use another_rust_load_balanc.LoadBalancing.LeastConnection.Panicking.{AllListed}
use another_rust_load_balanc.LoadBalancing.Dispatch.{
  Strategy, random, ip_hash, round_robin, least_connection, sticky_cookie, Outside, select_backend,
}

-- Every backend to which a least-connection strategy has counted a connection is an address of
-- the context.
abbrev pub IsReady : Strategy → List Text → Type 0
IsReady random addresses = Unit
IsReady ip_hash addresses = Unit
IsReady (round_robin _) addresses = Unit
IsReady (least_connection connections) addresses = AllListed connections addresses
IsReady (sticky_cookie _ inner) addresses = IsReady inner addresses

find-In :
    (p : Text → Bool) (addresses : List Text) {a : Text}
    → find p addresses ≡ some a
    → In a addresses
find-In p [] h = cc
find-In p (x ∷ addresses) {a} h = ground (arith, find-In p addresses {a = a})

module _ {Headers Value Body : Type 0} (http : Http Headers Value Body) (outside : Outside)
    (request : Request Headers Body) (context : Context)
    (in_range : (n : ℕ) → 0 < n → outside.gen_range n < n)
    (some_left : 0 < length context.backend_addresses)
    (fits : length context.backend_addresses < u32_mod)
    (distinct : IsDistinct context.backend_addresses) where
  abbrev pub Selects : Strategy → Type 0
  Selects strategy =
      (next : Strategy) × (forwarder : RequestForwarder Headers Body) × (select_backend http outside
          strategy request context
        ≡ done (next, forwarder))
      × In forwarder.backend_address context.backend_addresses
      × IsReady next context.backend_addresses

  named-In :
      (self : StickyCookie) {a : Text}
      → Sticky.named_backend http outside.cookies self request context ≡ some a
      → In a context.backend_addresses
  unfolding Sticky.named_backend
  named-In self {a} h =
      elim (Option-cases (Sticky.try_parse_sticky_cookie http outside.cookies self request)) [
        | inl nothing ↦ cc (rw nothing at h)
        | inr (cookie, parsed) ↦
            find-In (λ b. b == cookie.value) context.backend_addresses (rw parsed at h)
      ]

  -- With distinct addresses to choose from, fewer than 2^32 of them, with a generator that draws
  -- from its range, and with every backend that a least-connection strategy has counted among the
  -- addresses, the selection of every strategy, nested ones included, does not panic. It returns an
  -- address of the context, and the new strategy may be asked for these addresses again.
  pub select_backend_total :
      (strategy : Strategy) → IsReady strategy context.backend_addresses → Selects strategy
  unfolding select_backend Sticky.select_backend new_forwarder map_response
  select_backend_total random ready =
      let (a, is, member) =
        Random.select_backend_total {Headers = Headers} {Body = Body} outside.gen_range context
          in_range some_left in
      (random, new_forwarder a, rw is, member, tt)
  select_backend_total ip_hash ready =
      let (a, is, member) =
        IpHash.select_backend_total {Headers = Headers} {Body = Body} outside.hash_ip context
          some_left in
      (ip_hash, new_forwarder a, rw is, member, tt)
  select_backend_total (round_robin rrc) ready =
      let (next, a, is, found, _, _) =
        RoundRobin.select_backend_total {Headers = Headers} {Body = Body} rrc context some_left
          fits in
      (round_robin next, new_forwarder a, rw is, get_elem?-In _ next found, tt)
  select_backend_total (least_connection connections) ready =
      let (forwarder, is) =
        Least.select_backend_total outside.gen_range connections context in_range some_left distinct
          ready in
      (
        least_connection connections,
        forwarder,
        rw is,
        (select_backend-Choice outside.gen_range connections context is).0,
        ready,
      )
  select_backend_total (sticky_cookie self inner) ready =
      let (next, forwarder, is, member, later) = select_backend_total inner ready in
      elim (Option-cases (Sticky.named_backend http outside.cookies self request context)) [
        | inl unnamed ↦ (
          sticky_cookie self next,
          map_response forwarder
              (λ r. Sticky.modify_response http outside.cookies self r forwarder.backend_address),
          rw (unnamed, is, Sticky.select_backend),
          member,
          later,
        )
        | inr (a, named) ↦ (
          sticky_cookie self inner,
          new_forwarder a,
          rw (named, Sticky.select_backend),
          named-In self named,
          ready,
        )
      ]
