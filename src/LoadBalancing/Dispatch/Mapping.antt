-- ===== src/LoadBalancing/Dispatch/Mapping.antt =====
-- The mapping of responses by the forwarders of src/load_balancing/ does not panic.
use another_rust_load_balanc.Prelude.{
  ℕ, Text, ◌≡◌, Bool, true, unwrap, is_some, Option-cases, Bool-cases, inl, inr, eqb, length,
  get_elem?, ◌%◌,
}
use another_rust_load_balanc.Prelude.Panics.{Holds, Holds-bind, Holds-then, Returns, Returns-then}
use another_rust_load_balanc.Http.{Http, Request, Response}
use another_rust_load_balanc.LoadBalancing.{Context, RequestForwarder, new_forwarder, map_response}
use another_rust_load_balanc.LoadBalancing.RoundRobin
use another_rust_load_balanc.LoadBalancing.IpHash
use another_rust_load_balanc.LoadBalancing.Random
use another_rust_load_balanc.LoadBalancing.LeastConnection
use another_rust_load_balanc.LoadBalancing.StickyCookie as Sticky
use another_rust_load_balanc.LoadBalancing.StickyCookie.{SameSite, StickyCookie}
use another_rust_load_balanc.LoadBalancing.Dispatch.{
  Strategy, random, ip_hash, round_robin, least_connection, sticky_cookie, Outside, select_backend,
}

module _ {Headers Value Body : Type 0} (http : Http Headers Value Body) (outside : Outside)
    (request : Request Headers Body) (context : Context)
    (settable : (name value : Text) (http_only secure : Bool) (site : SameSite)
      → is_some (http.from_str (outside.cookies.build name value http_only secure site))
        ≡ true) where
  -- Every response is mapped.
  abbrev pub MapsAll : RequestForwarder Headers Body → Type 0
  MapsAll forwarder =
      (response : Response Headers Body) → Returns (forwarder.response_mapper response)

  abbrev pub MapsNext : {State : Type 0} → State × RequestForwarder Headers Body → Type 0
  MapsNext r = MapsAll r.1

  MapsAll-new_forwarder : (address : Text) → MapsAll (new_forwarder address)
  unfolding new_forwarder
  MapsAll-new_forwarder address response = tt

  sets_cookie :
      (self : StickyCookie) (address : Text) (response : Response Headers Body)
      → Returns (Sticky.modify_response http outside.cookies self response address)
  unfolding Sticky.modify_response
  sets_cookie self address response =
      let text =
        outside.cookies.build self.cookie_name address self.http_only self.secure self.same_site in
      elim (Option-cases (http.from_str text)) [
        | inl invalid ↦ cc (
            rw invalid at
              (settable self.cookie_name address self.http_only self.secure self.same_site))
        | inr (v, valid) ↦ rw valid tt
      ]

  by_turns :
      (rrc : ℕ)
      → Holds MapsNext (RoundRobin.select_backend {Headers = Headers} {Body = Body} rrc context)
  unfolding RoundRobin.select_backend
  by_turns rrc = Holds-then MapsNext _ (RoundRobin.advance rrc context.backend_addresses) (λ i.
      Holds-then MapsNext _ (unwrap (get_elem? context.backend_addresses i))
        (λ a. MapsAll-new_forwarder a))

  at_random :
      (gen_range : ℕ → ℕ)
      → Holds MapsAll (Random.select_backend {Headers = Headers} {Body = Body} gen_range context)
  unfolding Random.select_backend
  at_random gen_range =
      Holds-then MapsAll _ (Random.draw gen_range (length context.backend_addresses)) (λ i.
        Holds-then MapsAll _ (unwrap (get_elem? context.backend_addresses i))
          (λ a. MapsAll-new_forwarder a))

  by_hash :
      (hash_ip : Text → ℕ)
      → Holds MapsAll (IpHash.select_backend {Headers = Headers} {Body = Body} hash_ip context)
  unfolding IpHash.select_backend
  by_hash hash_ip = elim (Bool-cases (eqb (length context.backend_addresses) 0)) [
    | inl e ↦ rw e tt
    | inr e ↦ rw e (
        Holds-then MapsAll _
          (unwrap (
            get_elem? context.backend_addresses
              (hash_ip context.client_address.ip % length context.backend_addresses)))
          (λ a. MapsAll-new_forwarder a))
  ]

  by_counts :
      (gen_range : ℕ → ℕ) (connections : LeastConnection.Connections)
      → Holds MapsAll (
          LeastConnection.select_backend {Headers = Headers} {Body = Body} gen_range connections
            context)
  unfolding LeastConnection.select_backend
  by_counts gen_range connections =
      Holds-then MapsAll _ (LeastConnection.address_indices connections context.backend_addresses)
        (λ indices. Holds-then MapsAll _ (LeastConnection.pick gen_range indices) (λ i.
          Holds-then MapsAll _ (unwrap (get_elem? context.backend_addresses i))
            (λ a. MapsAll-new_forwarder a)))

  maps_further :
      (self : StickyCookie) (backend : RequestForwarder Headers Body)
      → MapsAll backend
      → MapsAll (
          map_response backend
            (λ r. Sticky.modify_response http outside.cookies self r backend.backend_address))
  unfolding map_response
  maps_further self backend maps response =
      Returns-then (λ r. Sticky.modify_response http outside.cookies self r backend.backend_address)
        (backend.response_mapper response) (maps response)
        (λ r. sets_cookie self backend.backend_address r)

  by_cookie :
      (self : StickyCookie) (inner : Strategy)
      → Holds MapsNext (select_backend http outside inner request context)
      → Holds MapsNext (
          Sticky.select_backend http outside.cookies self
            (λ _. select_backend http outside inner request context)
            inner
            request
            context)
  unfolding Sticky.select_backend
  by_cookie self inner h =
      elim (Option-cases (Sticky.named_backend http outside.cookies self request context)) [
        | inr (a, e) ↦ rw (e, Sticky.select_backend) (MapsAll-new_forwarder a)
        | inl e ↦
            rw (e, Sticky.select_backend)
              (Holds-bind MapsNext MapsNext _ (select_backend http outside inner request context) h
                (λ r maps. maps_further self r.1 maps))
      ]

  -- The forwarder that a strategy selects maps every response.
  pub select_backend-Maps :
      (strategy : Strategy) → Holds MapsNext (select_backend http outside strategy request context)
  unfolding select_backend
  select_backend-Maps random =
      Holds-bind MapsAll MapsNext _ (Random.select_backend outside.gen_range context)
        (at_random outside.gen_range) (λ f maps. maps)
  select_backend-Maps ip_hash =
      Holds-bind MapsAll MapsNext _ (IpHash.select_backend outside.hash_ip context)
        (by_hash outside.hash_ip) (λ f maps. maps)
  select_backend-Maps (round_robin rrc) =
      Holds-bind MapsNext MapsNext _ (RoundRobin.select_backend rrc context) (by_turns rrc)
        (λ r maps. maps)
  select_backend-Maps (least_connection connections) =
      Holds-bind MapsAll MapsNext _
        (LeastConnection.select_backend outside.gen_range connections context)
        (by_counts outside.gen_range connections) (λ f maps. maps)
  select_backend-Maps (sticky_cookie self inner) =
      Holds-bind MapsNext MapsNext _
        (Sticky.select_backend http outside.cookies self
          (λ _. select_backend http outside inner request context) inner request context)
        (by_cookie self inner (select_backend-Maps inner)) (λ r maps. maps)
