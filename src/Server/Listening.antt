-- ===== src/Server/Listening.antt =====
-- `create` of src/server.rs, with the listeners of src/listeners.rs: how the service of a connection
-- is made, and how serving ends. The server of the hyper crate is a parameter.
mod Tests
use mathlib.Core.List.{append-nil}
use mathlib.Core.Path.{subst}
use another_rust_load_balanc.Prelude.{
  ◌≡◌, ◌⊎◌, refl, ap, ◌∙◌, Text, codes, List, [], ◌∷◌, ◌++◌, map, All, Result, ok, err, Outcome,
  done, panic,
}
use another_rust_load_balanc.Prelude.Tasks.{Task, ended, panicked, waiting, ◌>>=◌}
use another_rust_load_balanc.Http.{SocketAddr}
use another_rust_load_balanc.Scheme.{Scheme}
use another_rust_load_balanc.Tls.{IoError, other}
use another_rust_load_balanc.Listeners.{Network, http_stream, tcp_remote_addr}

-- The configuration is the state that `call` takes.
pub record MainService : Type 0 where
  pub client_address : SocketAddr
  pub scheme : Scheme

-- A connection whose address is not known makes the `expect` panic.
unfoldable pub make_service :
    {IO : Type 0} → (IO → Result SocketAddr IoError) → Scheme → IO → Outcome MainService
make_service remote_addr scheme stream = elim (remote_addr stream) [
  | ok client_address ↦ done (record { client_address = client_address; scheme = scheme })
  | err e ↦ panic
]

abbrev pub as_io : {A : Type 0} → Result A Text → Result A IoError
as_io (ok a) = ok a
as_io (err e) = err (record { kind = other; message = codes "Failed to listen server: " ++ e })

-- `Server::serve` for the connections that an acceptor yields; an error is its text.
abbrev pub Serve : Type 0 → Type 0
Serve IO = List (Result IO IoError) → (IO → Outcome MainService) → Task (Result (Unit {0}) Text)

unfoldable pub create :
    {IO : Type 0}
    → Serve IO
    → (IO → Result SocketAddr IoError)
    → List (Result IO IoError)
    → Scheme
    → Task (Result (Unit {0}) IoError)
unfolding make_service
create serve remote_addr acceptor scheme = do
  result ← serve acceptor (make_service remote_addr scheme)
  ended (as_io result)

-- Connections are taken one after the other. A service is made for each in the task of the server
-- itself; the first error of the acceptor is the result, with hyper's words in front of its text.
pub record ServeLaws {IO : Type 0} (serve : Serve IO) : Type 0 where
  pub serve_none : (make : IO → Outcome MainService) → serve [] make ≡ waiting
  pub serve_error :
      (make : IO → Outcome MainService) (e : IoError) (later : List (Result IO IoError))
      → serve (err e ∷ later) make ≡ ended (err (codes "error accepting connection: " ++ e.message))
  pub serve_next :
      (make : IO → Outcome MainService) (io : IO) (service : MainService)
      (later : List (Result IO IoError))
      → make io ≡ done service
      → serve (ok io ∷ later) make ≡ serve later make
  pub serve_panic :
      (make : IO → Outcome MainService) (io : IO) (later : List (Result IO IoError))
      → make io ≡ panic
      → serve (ok io ∷ later) make ≡ panicked

module _ {TcpStream TlsStream : Type 0} (network : Network TcpStream TlsStream)
    (serve : Serve TcpStream) (laws : ServeLaws serve) (scheme : Scheme) where
  abbrev make : TcpStream → Outcome MainService
  make = make_service (tcp_remote_addr network) scheme

  abbrev pub HasAddress : TcpStream → Type 0
  HasAddress socket = (address : SocketAddr) × (network.peer_addr socket ≡ ok address)

  abbrev pub HasNone : TcpStream → Type 0
  HasNone socket = (e : IoError) × (network.peer_addr socket ≡ err e)

  made :
      (socket : TcpStream) {address : SocketAddr}
      → network.peer_addr socket ≡ ok address
      → make socket ≡ done (record { client_address = address; scheme = scheme })
  unfolding make_service tcp_remote_addr
  made socket is = rw (is, make_service) refl

  unmade : (socket : TcpStream) → HasNone socket → make socket ≡ panic
  unfolding make_service tcp_remote_addr
  unmade socket (e, is) = rw (is, make_service) refl

  serve-HasAddress :
      (sockets : List TcpStream) (later : List (Result TcpStream IoError))
      → All HasAddress sockets
      → serve (http_stream network (map ok sockets ++ later)) make
        ≡ serve (http_stream network later) make
  unfolding http_stream
  serve-HasAddress [] later have = refl
  serve-HasAddress (socket ∷ sockets) later have =
      let (address, is) = have.0 in
      laws.serve_next make socket (record { client_address = address; scheme = scheme })
        (http_stream network (map ok sockets ++ later)) (made socket is)
      ∙ serve-HasAddress sockets later have.1

  serve_whole :
      (sockets : List TcpStream)
      → All HasAddress sockets
      → serve (http_stream network (map ok sockets)) make ≡ serve [] make
  unfolding http_stream
  serve_whole sockets have =
      let items : List (Result TcpStream IoError) = map ok sockets in
      subst
        (λ (l : List (Result TcpStream IoError)).
          serve (http_stream network l) make ≡ serve [] make)
        (append-nil items) (serve-HasAddress sockets [] have)

  -- With a server that takes the connections one after the other: as long as `accept` has no error
  -- and the address of every connection is known, the HTTP server goes on; the first error of
  -- `accept` ends it with an error that has the text of that one; and a connection of which the
  -- address is not known makes the server panic, both whatever would be accepted later.
  pub create_http :
      (sockets : List TcpStream)
      → All HasAddress sockets
      → (create serve (tcp_remote_addr network) (http_stream network (map ok sockets)) scheme
          ≡ waiting)
        × ((e : IoError) (later : List (Result TcpStream IoError))
            → create serve
                (tcp_remote_addr network)
                (http_stream network (map ok sockets ++ err e ∷ later))
                scheme
              ≡ ended (
                  err (record {
                    kind = other;
                    message =
                        codes "Failed to listen server: "
                        ++ (codes "error accepting connection: " ++ e.message);
                  })))
        × ((socket : TcpStream) (later : List (Result TcpStream IoError))
            → HasNone socket
            → create serve
                (tcp_remote_addr network)
                (http_stream network (map ok sockets ++ ok socket ∷ later))
                scheme
              ≡ panicked)
  unfolding create http_stream
  create_http sockets have = (
    rw (serve_whole sockets have, laws.serve_none make) refl,
    (λ e later.
        rw (serve-HasAddress sockets (err e ∷ later) have, laws.serve_error make e []) refl),
    (λ socket later none_known.
        rw
          (
            serve-HasAddress sockets (ok socket ∷ later) have,
            laws.serve_panic make socket (http_stream network later) (unmade socket none_known),
          )
          refl),
  )
