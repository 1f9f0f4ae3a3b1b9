-- ===== src/LoadBalancing/Dispatch.antt =====
-- The trait object `LoadBalancingStrategy` of src/load_balancing/mod.rs: one constructor for each
-- type that implements it, with the state that the type keeps.
pub mod Total
pub mod Notify
pub mod Mapping
use another_rust_load_balanc.Prelude.{List, [], ◌∷◌, ℕ, Text, Outcome, done}
use another_rust_load_balanc.Prelude.Panics.{◌>>=◌}
use another_rust_load_balanc.Http.{Uri, Http, Request}
use another_rust_load_balanc.LoadBalancing.{Context, RequestForwarder}
use another_rust_load_balanc.LoadBalancing.RoundRobin
use another_rust_load_balanc.LoadBalancing.IpHash
use another_rust_load_balanc.LoadBalancing.Random
use another_rust_load_balanc.LoadBalancing.LeastConnection
use another_rust_load_balanc.LoadBalancing.LeastConnection.{Connections}
use another_rust_load_balanc.LoadBalancing.StickyCookie as Sticky
use another_rust_load_balanc.LoadBalancing.StickyCookie.{StickyCookie, Cookies}

pub data Strategy : Type 0 where
  random ip_hash : Strategy
  round_robin : ℕ → Strategy
  least_connection : Connections → Strategy
  sticky_cookie : StickyCookie → Strategy → Strategy

-- What the strategies take from outside: the standard hash of an IP address, the draw that
-- `gen_range(0..n)` makes in this call, and the cookie crate.
pub record Outside : Type 0 where
  pub hash_ip : Text → ℕ
  pub gen_range : ℕ → ℕ
  pub cookies : Cookies

-- The strategy after the call, and its forwarder.
module _ {Headers Value Body : Type 0} (http : Http Headers Value Body) (outside : Outside) where
  unfoldable pub select_backend :
      Strategy → Request Headers Body → Context → Outcome (Strategy × RequestForwarder Headers Body)
  select_backend random request context = do
    forwarder ← Random.select_backend outside.gen_range context
    done (random, forwarder)
  select_backend ip_hash request context = do
    forwarder ← IpHash.select_backend outside.hash_ip context
    done (ip_hash, forwarder)
  select_backend (round_robin rrc) request context = do
    (next, forwarder) ← RoundRobin.select_backend rrc context
    done (round_robin next, forwarder)
  select_backend (least_connection connections) request context = do
    forwarder ← LeastConnection.select_backend outside.gen_range connections context
    done (least_connection connections, forwarder)
  select_backend (sticky_cookie self inner) request context = do
    (next, forwarder) ←
        Sticky.select_backend http outside.cookies self (λ _. select_backend inner request context)
          inner request context
    done (sticky_cookie self next, forwarder)

-- Only `LeastConnection` implements the notifications; for the others the trait's default, which
-- does nothing, stands.
unfoldable pub on_tcp_open : Uri → Strategy → Strategy
on_tcp_open remote (least_connection connections) =
    least_connection (LeastConnection.on_tcp_open remote connections)
on_tcp_open remote random = random
on_tcp_open remote ip_hash = ip_hash
on_tcp_open remote (round_robin rrc) = round_robin rrc
on_tcp_open remote (sticky_cookie self inner) = sticky_cookie self inner

unfoldable pub on_tcp_close : Uri → Strategy → Strategy
on_tcp_close remote (least_connection connections) =
    least_connection (LeastConnection.on_tcp_close remote connections)
on_tcp_close remote random = random
on_tcp_close remote ip_hash = ip_hash
on_tcp_close remote (round_robin rrc) = round_robin rrc
on_tcp_close remote (sticky_cookie self inner) = sticky_cookie self inner

-- The two notifications, and what a strategy is after some of them.
pub data Notification : Type 0 where
  tcp_open tcp_close : Uri → Notification

abbrev pub notified : List Notification → Strategy → Strategy
notified [] strategy = strategy
notified (tcp_open remote ∷ meanwhile) strategy = notified meanwhile (on_tcp_open remote strategy)
notified (tcp_close remote ∷ meanwhile) strategy = notified meanwhile (on_tcp_close remote strategy)
