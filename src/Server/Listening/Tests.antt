-- ===== src/Server/Listening/Tests.antt =====
-- A server that takes one connection after the other, as the theorem on `create` of src/server.rs
-- asks for.
use another_rust_load_balanc.Prelude.{
  ℕ, refl, codes, [], ◌∷◌, ◌++◌, Result, ok, err, Outcome, done, panic, Text, ap,
}
use another_rust_load_balanc.Prelude.Tasks.{Task, ended, panicked, waiting}
use another_rust_load_balanc.Server.Listening.{MainService, Serve, ServeLaws}

-- What follows a service that is made.
abbrev or_panic :
    Outcome MainService → Task (Result (Unit {0}) Text) → Task (Result (Unit {0}) Text)
or_panic (done service) rest = rest
or_panic panic rest = panicked

abbrev serve : Serve ℕ
serve [] make = waiting
serve (err e ∷ later) make = ended (err (codes "error accepting connection: " ++ e.message))
serve (ok io ∷ later) make = or_panic (make io) (serve later make)

laws : ServeLaws serve
laws = record {
  serve_none = λ make. refl;
  serve_error = λ make e later. refl;
  serve_next = λ make io service later is. ap (λ o. or_panic o (serve later make)) is;
  serve_panic = λ make io later is. ap (λ o. or_panic o (serve later make)) is;
}
