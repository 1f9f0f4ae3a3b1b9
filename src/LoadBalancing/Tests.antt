-- ===== src/LoadBalancing/Tests.antt =====
-- Runs of the theorems on src/load_balancing/ at concrete inputs.
use another_rust_load_balanc.Prelude.{
  ℕ, ◌+◌, ◌<◌, ◌≡◌, refl, Text, codes, [], ◌∷◌, some, none, Outcome, done, panic, In, inl, inr,
  arith, split, ◌==◌, ◌++◌, if◌then◌else◌,
}
use another_rust_load_balanc.Prelude.Maps
use text.Mathlib.Text.{◌==◌ as str_eq}
use another_rust_load_balanc.Http.{Response, HeaderName}
use another_rust_load_balanc.Http.Assoc.{Entries, assoc_http, assoc_laws}
use another_rust_load_balanc.Samples.{
  one, two, backend, request, response, context, cookies, sticky, balancing,
}
use another_rust_load_balanc.Utils.{split_once}
use another_rust_load_balanc.LoadBalancing.{Context, RequestForwarder, new_forwarder}
use another_rust_load_balanc.LoadBalancing.RoundRobin
use another_rust_load_balanc.LoadBalancing.RoundRobin.Fairness.{select_many, select_many-rotation}
use another_rust_load_balanc.LoadBalancing.LeastConnection as Least
use another_rust_load_balanc.LoadBalancing.LeastConnection.{Connections}
use another_rust_load_balanc.LoadBalancing.LeastConnection.Unused.{IsDistinct}
use another_rust_load_balanc.LoadBalancing.LeastConnection.Least.{Choice, select_backend-Choice}
use another_rust_load_balanc.LoadBalancing.LeastConnection.Panicking.{select_backend_panic}
use another_rust_load_balanc.LoadBalancing.LeastConnection.Counts.{
  opened, closed, count, notify_all, balance, balance_step, notify_all-count,
}
use another_rust_load_balanc.LoadBalancing.StickyCookie as Sticky
use another_rust_load_balanc.LoadBalancing.StickyCookie.Affinity.{
  FirstCookie, found, select_backend_sticky, select_backend_sets,
}
use another_rust_load_balanc.LoadBalancing.Dispatch.{
  random, round_robin, least_connection, sticky_cookie, on_tcp_open,
}
use another_rust_load_balanc.LoadBalancing.Dispatch.Total.{Selects, select_backend_total}
use another_rust_load_balanc.LoadBalancing.Dispatch.Notify.{
  start, step, opens, Reach-no_overflow, Reach-sticky_least,
}

select_many-rotation_example : select_many Entries Text context 2 0 ≡ done (0, two ∷ one ∷ [])
select_many-rotation_example =
    select_many-rotation Entries Text context (omega arith) (omega arith) 0 (omega arith)

in_range : (n : ℕ) → 0 < n → balancing.gen_range n < n
in_range n h = h

distinct : IsDistinct context.backend_addresses
distinct = ((ground arith, tt), (tt, tt))

select_backend_total_example :
    Selects assoc_http balancing request context in_range
      (omega arith)
      (omega arith)
      distinct
      (sticky_cookie sticky random)
select_backend_total_example =
    select_backend_total assoc_http balancing request context in_range (omega arith) (omega arith)
      distinct (sticky_cookie sticky random) tt

abbrev counts : Connections
counts = (one, 3) ∷ (two, 1) ∷ []

chosen :
    Least.select_backend {Headers = Entries} {Body = Text} (λ _. 0) counts context
    ≡ done (new_forwarder two)
unfolding Least.select_backend Maps.get Maps.collect Maps.insert ◌==◌
chosen = refl

select_backend-Choice_example : Choice counts (one ∷ two ∷ []) two
unfolding new_forwarder
select_backend-Choice_example = select_backend-Choice (λ _. 0) counts context chosen

absent : ¬ In (codes "c") context.backend_addresses
absent (inl e) = ground (arith, e)
absent (inr (inl e)) = ground (arith, e)
absent (inr (inr m)) = m

select_backend_panic_example :
    Least.select_backend {Headers = Entries} {Body = Text}
      (λ _. 0)
      ((one, 3) ∷ (codes "c", 1) ∷ [])
      context
    ≡ panic
select_backend_panic_example =
    select_backend_panic (λ _. 0) ((one, 3) ∷ (codes "c", 1) ∷ []) context (codes "c") 1 refl
      (inr (inl refl)) (omega arith, (omega arith, tt)) absent

balanced :
    balance one
      (opened (backend one)
        ∷ opened (backend two)
        ∷ opened (backend one)
        ∷ closed (backend one)
        ∷ [])
      0
    ≡ some 1
unfolding balance balance_step ◌==◌
balanced = refl

notify_all-count_example :
    count one (
      notify_all
        (opened (backend one)
          ∷ opened (backend two)
          ∷ opened (backend one)
          ∷ closed (backend one)
          ∷ [])
        Least.new)
    ≡ 1
notify_all-count_example =
    notify_all-count one
      (opened (backend one)
        ∷ opened (backend two)
        ∷ opened (backend one)
        ∷ closed (backend one)
        ∷ [])
      (omega arith) balanced

cookie_named : FirstCookie cookies sticky.cookie_name two (split 59 (codes "s=b"))
unfolding split split_once
cookie_named =
    found {part = codes "s=b"} {parts = []} (record { name = codes "s"; value = two }) refl refl
      refl

select_backend_sticky_example :
    Sticky.select_backend assoc_http cookies sticky
      (λ (n : ℕ). done (n + 1, new_forwarder one))
      0
      request
      context
    ≡ done (0, new_forwarder two)
select_backend_sticky_example =
    select_backend_sticky assoc_http cookies sticky (λ (n : ℕ). done (n + 1, new_forwarder one)) 0
      request context (codes "s=b") (codes "s=b") two refl refl cookie_named (inr (inl refl))

Reach-no_overflow_example :
    (rrc : ℕ) × (round_robin 0 ≡ round_robin rrc) × (rrc + 1 < RoundRobin.u32_mod)
unfolding on_tcp_open
Reach-no_overflow_example = Reach-no_overflow assoc_http (step start (opens (backend one) refl))

Reach-sticky_least_example :
    sticky_cookie sticky (least_connection Least.new)
    ≡ sticky_cookie sticky (least_connection Least.new)
unfolding on_tcp_open
Reach-sticky_least_example =
    Reach-sticky_least assoc_http sticky (step start (opens (backend one) refl))

-- A context without the address that the request's cookie names.
abbrev elsewhere : Context
elsewhere = record context { backend_addresses = one ∷ [] }

abbrev inner : ℕ → Outcome (ℕ × RequestForwarder Entries Text)
inner n = done (n + 1, new_forwarder one)

unnamed : Sticky.named_backend assoc_http cookies sticky request elsewhere ≡ none
unfolding Sticky.named_backend Sticky.try_parse_sticky_cookie split split_once ◌==◌
unnamed = refl

mapped :
    (new_forwarder {Headers = Entries} {Body = Text} one).response_mapper response ≡ done response
unfolding new_forwarder
mapped = refl

select_backend_sets_example :
    (forwarder : RequestForwarder Entries Text) × (changed : Response Entries Text)
    × (Sticky.select_backend assoc_http cookies sticky inner 0 request elsewhere
        ≡ done (1, forwarder))
    × (forwarder.backend_address
        ≡ (new_forwarder {Headers = Entries} {Body = Text} one).backend_address)
    × (forwarder.response_mapper response ≡ done changed)
    × (changed.status ≡ response.status)
    × (changed.body ≡ response.body)
    × ((k : HeaderName)
        → assoc_http.get_all k changed.headers ≡ (
            if str_eq Sticky.set_cookie_header k
            then assoc_http.get_all k response.headers ++ (codes "s=" ++ one) ∷ []
            else assoc_http.get_all k response.headers))
unfolding new_forwarder
select_backend_sets_example =
    select_backend_sets assoc_http cookies sticky inner 0 assoc_laws request elsewhere 1
      (new_forwarder one) response response (codes "s=" ++ one) unnamed refl mapped refl
