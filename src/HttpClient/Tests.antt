-- ===== src/HttpClient/Tests.antt =====
-- Runs of the theorem on src/http_client.rs.
use another_rust_load_balanc.Prelude.{◌≡◌, refl, Text, codes, ok, err, [], ◌∷◌, arith}
use another_rust_load_balanc.Samples.{one, two, backend}
use another_rust_load_balanc.LoadBalancing.Dispatch.{
  Strategy, least_connection, on_tcp_open, on_tcp_close,
}
use another_rust_load_balanc.LoadBalancing.LeastConnection.{Connections}
use another_rust_load_balanc.LoadBalancing.LeastConnection as LeastConnection
use another_rust_load_balanc.LoadBalancing.LeastConnection.Counts.{count}
use another_rust_load_balanc.HttpClient.{StrategyNotifyStream, call, drop}
use another_rust_load_balanc.HttpClient.Opened.{Run, start, connects, drops, open_to, Run-count}

abbrev to : Text → StrategyNotifyStream Text
to address = record { inner = codes "socket"; target = backend address }

-- Two connections to `one`, of which one closes, one to `two`, and one that fails.
abbrev strategy : Strategy
strategy = on_tcp_close (backend one) (
    on_tcp_open (backend two) (
      on_tcp_open (backend one) (on_tcp_open (backend one) (least_connection LeastConnection.new))))

run : Run Text Text 5 (to two ∷ to one ∷ []) strategy
unfolding call drop
run =
    drops
      (connects
        (connects
          (connects (connects start (ok (codes "socket")) (backend one) refl refl)
            (err (codes "refused")) (backend one) refl refl)
          (ok (codes "socket")) (backend one) refl refl)
        (ok (codes "socket")) (backend two) refl refl)
      (to two ∷ []) (to one ∷ []) (to one) refl refl refl

Run-count_example :
    (connections : Connections) × (strategy ≡ least_connection connections)
    × (count one connections ≡ open_to one (to two ∷ to one ∷ []))
Run-count_example = Run-count one run (omega arith)
