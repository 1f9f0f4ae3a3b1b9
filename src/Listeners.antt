-- ===== src/Listeners.antt =====
-- src/listeners.rs: the connections that the two listeners yield. Sockets and the TLS handshake are
-- parameters.
pub mod Accepting
mod Tests
use another_rust_load_balanc.Prelude.{Option, none, some, List, [], ◌∷◌, Result, ok, err}
use another_rust_load_balanc.Http.{SocketAddr}
use another_rust_load_balanc.Tls.{IoError}

-- What the crates tokio and tokio_rustls do. A bound listener is what its calls of `accept` return,
-- one after the other. A handshake that the client never finishes has no result, since no timeout
-- is set.
pub record Network (TcpStream TlsStream : Type 0) : Type 0 where
  pub bind : SocketAddr → Result (List (Result TcpStream IoError)) IoError
  pub handshake : TcpStream → Option (Result TlsStream IoError)
  pub get_ref : TlsStream → TcpStream
  pub peer_addr : TcpStream → Result SocketAddr IoError

module _ {TcpStream TlsStream : Type 0} (network : Network TcpStream TlsStream) where
  -- The stream of `Http`: an error of `accept` is its last item.
  unfoldable pub http_stream : List (Result TcpStream IoError) → List (Result TcpStream IoError)
  http_stream [] = []
  http_stream (ok socket ∷ accepts) = ok socket ∷ http_stream accepts
  http_stream (err e ∷ accepts) = err e ∷ []

  -- The stream of `Https`, which awaits the handshake of a socket before it accepts the next. A
  -- handshake that fails is passed over.
  unfoldable pub https_stream : List (Result TcpStream IoError) → List (Result TlsStream IoError)
  https_stream [] = []
  https_stream (ok socket ∷ accepts) =
      let rest = https_stream accepts in
      elim (network.handshake socket) [
        | none ↦ []
        | some result ↦ elim result [ ok tls_stream ↦ ok tls_stream ∷ rest | err e ↦ rest ]
      ]
  https_stream (err e ∷ accepts) = err e ∷ []

  abbrev pub incoming :
      {T : Type 0}
      → (List (Result TcpStream IoError) → List (Result T IoError))
      → SocketAddr
      → Result (List (Result T IoError)) IoError
  incoming stream address = elim (network.bind address) [
    | err e ↦ err e
    | ok listener ↦ ok (stream listener)
  ]

  -- `produce_acceptor` of `Http` and of `Https`.
  unfoldable pub produce_http_acceptor :
      SocketAddr → Result (List (Result TcpStream IoError)) IoError
  unfolding http_stream
  produce_http_acceptor = incoming http_stream

  unfoldable pub produce_https_acceptor :
      SocketAddr → Result (List (Result TlsStream IoError)) IoError
  unfolding https_stream
  produce_https_acceptor = incoming https_stream

  -- `RemoteAddress` of the two kinds of streams.
  unfoldable pub tcp_remote_addr : TcpStream → Result SocketAddr IoError
  tcp_remote_addr self = network.peer_addr self

  unfoldable pub tls_remote_addr : TlsStream → Result SocketAddr IoError
  tls_remote_addr self = network.peer_addr (network.get_ref self)
