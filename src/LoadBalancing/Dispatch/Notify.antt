-- ===== src/LoadBalancing/Dispatch/Notify.antt =====
-- Runs of a strategy of src/load_balancing/: selections and notifications in any order.
use mathlib.Core.Path.{subst}
use native.Mathlib.Nat.{mod-lt}
use another_rust_load_balanc.Prelude.{
  ℕ, ◌+◌, ◌%◌, ◌<◌, ◌≡◌, refl, Text, List, Outcome, done, unwrap, length, get_elem?, arith, eqb,
  Bool-cases, Option-cases, inl, inr, ap,
}
use another_rust_load_balanc.Prelude.Panics.{>>=-eq-done, done-injective}
use another_rust_load_balanc.Http.{Uri, Http, Request}
use another_rust_load_balanc.LoadBalancing.{Context, RequestForwarder}
use another_rust_load_balanc.LoadBalancing.RoundRobin as RoundRobin
use another_rust_load_balanc.LoadBalancing.RoundRobin.{u32_mod, advance}
use another_rust_load_balanc.LoadBalancing.LeastConnection
use another_rust_load_balanc.LoadBalancing.LeastConnection.{Connections, new}
use another_rust_load_balanc.LoadBalancing.StickyCookie as Sticky
use another_rust_load_balanc.LoadBalancing.StickyCookie.{StickyCookie}
use another_rust_load_balanc.LoadBalancing.Dispatch.{
  Strategy, round_robin, least_connection, sticky_cookie, Outside, select_backend, on_tcp_open,
  on_tcp_close,
}

-- The counter of a round robin, where its next increment does not overflow.
abbrev IsCounter : Strategy → Type 0
IsCounter t = (rrc : ℕ) × (t ≡ round_robin rrc) × (rrc + 1 < u32_mod)

advance-lt :
    (rrc : ℕ) (addresses : List Text) {next : ℕ}
    → advance rrc addresses ≡ done next
    → next + 1 < u32_mod
unfolding advance
advance-lt rrc addresses {next} h =
    let len = length addresses % u32_mod in
    elim (Bool-cases (eqb len 0)) [
      | inl empty ↦ cc (rw empty at h)
      | inr some_left ↦
          let below : (rrc + 1) % u32_mod % len < len = mod-lt _ (ground arith) in
          let same : (rrc + 1) % u32_mod % len ≡ next = done-injective (rw some_left at h) in
          omega (arith, below, same)
    ]

select-lt :
    {Headers Body : Type 0} (rrc : ℕ) (context : Context) {next : ℕ}
    {forwarder : RequestForwarder Headers Body}
    → RoundRobin.select_backend rrc context ≡ done (next, forwarder)
    → next + 1 < u32_mod
unfolding RoundRobin.select_backend
select-lt rrc context h =
    let (i, moved, rest) = >>=-eq-done (advance rrc context.backend_addresses) _ h in
    let (a, _, built) = >>=-eq-done (unwrap (get_elem? context.backend_addresses i)) _ rest in
    let same = ap (λ (r : ℕ × RequestForwarder _ _). r.0) (done-injective built) in
    subst (λ (n : ℕ). n + 1 < u32_mod) same (advance-lt rrc context.backend_addresses moved)

module _ {Headers Value Body : Type 0} (http : Http Headers Value Body) where
  -- A call on the shared strategy: by a request, whatever the draw and the context of the moment,
  -- or by a connection of the pool's client that opens or closes.
  pub data Step (s : Strategy) (t : Strategy) : Type 0 where
    selects :
        (outside : Outside) (request : Request Headers Body) (context : Context)
        (forwarder : RequestForwarder Headers Body)
        → select_backend http outside s request context ≡ done (t, forwarder)
        → Step s t
    opens : (remote : Uri) → t ≡ on_tcp_open remote s → Step s t
    closes : (remote : Uri) → t ≡ on_tcp_close remote s → Step s t

  pub data Reach (s : Strategy) : Strategy → Type 0 where
    start : Reach s s
    step : {t u : Strategy} → Reach s t → Step t u → Reach s u

  Step-IsCounter : {s t : Strategy} → Step s t → IsCounter s → IsCounter t
  unfolding select_backend on_tcp_open on_tcp_close
  Step-IsCounter (selects outside request context forwarder is) (rrc, same, small) =
      let called = rw same at is in
      let (r, selected, built) = >>=-eq-done (RoundRobin.select_backend rrc context) _ called in
      (r.0, ground (arith, built), select-lt rrc context selected)
  Step-IsCounter (opens remote is) (rrc, same, small) = (rrc, ground arith, small)
  Step-IsCounter (closes remote is) (rrc, same, small) = (rrc, ground arith, small)

  Reach-IsCounter : {s t : Strategy} → IsCounter s → Reach s t → IsCounter t
  Reach-IsCounter c start = c
  Reach-IsCounter c (step r last) = Step-IsCounter last (Reach-IsCounter c r)

  -- In any run of a new round robin, over any contexts, the `u32` counter never overflows: whenever
  -- it is incremented, it is below 2^32 - 1.
  pub Reach-no_overflow :
      {t : Strategy}
      → Reach (round_robin RoundRobin.new) t
      → (rrc : ℕ) × (t ≡ round_robin rrc) × (rrc + 1 < u32_mod)
  Reach-no_overflow r = Reach-IsCounter (0, refl, omega arith) r

  -- The inner strategy of a sticky cookie is unchanged, if its own selections do not change it.
  sticky_keeps :
      {State : Type 0} (outside : Outside) (self : StickyCookie)
      (inner : State → Outcome (State × RequestForwarder Headers Body)) (state : State)
      (request : Request Headers Body) (context : Context) {next : State}
      {forwarder : RequestForwarder Headers Body}
      → ((other : State) (f : RequestForwarder Headers Body)
          → inner state ≡ done (other, f)
          → other ≡ state)
      → Sticky.select_backend http outside.cookies self inner state request context
        ≡ done (next, forwarder)
      → next ≡ state
  unfolding Sticky.select_backend
  sticky_keeps outside self inner state request context keeps h =
      elim (Option-cases (Sticky.named_backend http outside.cookies self request context)) [
        | inl unnamed ↦
            let (r, asked, built) =
              >>=-eq-done (inner state) _ (rw (unnamed, Sticky.select_backend) at h) in
            ground (arith, built, keeps r.0 r.1 asked)
        | inr (a, named) ↦ ground (arith)
      ]

  least_keeps :
      (outside : Outside) (connections : Connections) (request : Request Headers Body)
      (context : Context) (other : Strategy) (f : RequestForwarder Headers Body)
      → select_backend http outside (least_connection connections) request context ≡ done (other, f)
      → other ≡ least_connection connections
  unfolding select_backend
  least_keeps outside connections request context other f h =
      let (g, _, built) =
        >>=-eq-done (LeastConnection.select_backend outside.gen_range connections context) _ h in
      ground (arith, built)

  Step-sticky_least :
      (self : StickyCookie) (connections : Connections) {t : Strategy}
      → Step (sticky_cookie self (least_connection connections)) t
      → t ≡ sticky_cookie self (least_connection connections)
  unfolding select_backend on_tcp_open on_tcp_close
  Step-sticky_least self connections (selects outside request context forwarder is) =
      let (r, asked, built) =
        >>=-eq-done (Sticky.select_backend http outside.cookies self _ _ request context) _ is in
      let kept =
        sticky_keeps outside self
          (λ _. select_backend http outside (least_connection connections) request context)
          (least_connection connections) request context
          (least_keeps outside connections request context) asked in
      ground (arith, built, kept)
  Step-sticky_least self connections (opens remote is) = is
  Step-sticky_least self connections (closes remote is) = is

  -- A new least-connection strategy inside of a sticky cookie is never told of a connection: in
  -- any run its counts stay empty, however many connections open and close.
  pub Reach-sticky_least :
      (self : StickyCookie) {t : Strategy}
      → Reach (sticky_cookie self (least_connection new)) t
      → t ≡ sticky_cookie self (least_connection new)
  Reach-sticky_least self start = refl
  Reach-sticky_least self (step {u = u} r last) =
      Step-sticky_least self new
        (subst (λ (s : Strategy). Step s u) (Reach-sticky_least self r) last)
