-- ===== src/HttpClient.antt =====
-- src/http_client.rs: the connector and the streams that tell the strategy of a pool about its
-- connections. The socket is a parameter; the strategy, which all of them share, is passed on.
pub mod Opened
mod Tests
use another_rust_load_balanc.Prelude.{Result, ok, err}
use another_rust_load_balanc.Http.{Uri}
use another_rust_load_balanc.LoadBalancing.Dispatch.{Strategy, on_tcp_open, on_tcp_close}

pub record StrategyNotifyStream (Socket : Type 0) : Type 0 where
  pub inner : Socket
  pub target : Uri

-- The call of the connector, by what the inner connector returned.
unfoldable pub call :
    {Socket Error : Type 0}
    → Result Socket Error
    → Uri
    → Strategy
    → Strategy × Result (StrategyNotifyStream Socket) Error
call (ok stream) req strategy =
    (on_tcp_open req strategy, ok (record { inner = stream; target = req }))
call (err e) req strategy = (strategy, err e)

unfoldable pub drop : {Socket : Type 0} → StrategyNotifyStream Socket → Strategy → Strategy
drop self strategy = on_tcp_close self.target strategy
