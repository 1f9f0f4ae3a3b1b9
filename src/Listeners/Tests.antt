-- ===== src/Listeners/Tests.antt =====
-- A run of the theorem on src/listeners.rs: a handshake that succeeds, one that fails, one that
-- never ends.
use another_rust_load_balanc.Prelude.{
  ℕ, eqb, if◌then◌else◌, codes, none, some, List, [], ◌∷◌, Result, ok, err,
}
use another_rust_load_balanc.Samples.{client}
use another_rust_load_balanc.Tls.{IoError, other}
use another_rust_load_balanc.Listeners.{Network, https_stream}
use another_rust_load_balanc.Listeners.Accepting.{Accepted, https_stream-Accepted}

abbrev refused : IoError
refused = record { kind = other; message = codes "no certificate" }

abbrev network : Network ℕ ℕ
network = record {
  bind = λ address. ok [];
  handshake = λ socket.
      (if eqb socket 0
        then none
        else (if eqb socket 1 then some (err refused) else some (ok socket)));
  get_ref = λ s. s;
  peer_addr = λ s. ok client;
}

abbrev accepts : List (Result ℕ IoError)
accepts = ok 2 ∷ ok 1 ∷ ok 3 ∷ ok 0 ∷ ok 4 ∷ []

https_stream-Accepted_example : Accepted network accepts (ok 2 ∷ ok 3 ∷ [])
unfolding https_stream
https_stream-Accepted_example = https_stream-Accepted network accepts
