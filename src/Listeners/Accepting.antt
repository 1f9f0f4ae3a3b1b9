-- ===== src/Listeners/Accepting.antt =====
-- Which connections the HTTPS listener of src/listeners.rs yields.
use mathlib.Core.Path.{subst}
use another_rust_load_balanc.Prelude.{
  Option-cases, inl, inr, ◌≡◌, refl, sym, ap, ◌∙◌, Option, none, some, List, [], ◌∷◌, ◌++◌, map,
  filter_map, All, Result, ok, err,
}
use another_rust_load_balanc.Prelude.Results.{to_option}
use another_rust_load_balanc.Tls.{IoError}
use another_rust_load_balanc.Listeners.{Network, https_stream}

module _ {TcpStream TlsStream : Type 0} (network : Network TcpStream TlsStream) where
  abbrev pub secured : TcpStream → Option TlsStream
  secured socket = elim (network.handshake socket) [ none ↦ none | some result ↦ to_option result ]

  abbrev pub IsFinished : TcpStream → Type 0
  IsFinished socket = (result : Result TlsStream IoError) × (network.handshake socket ≡ some result)

  -- The sockets that were accepted up to a first error, or a first handshake that never ends.
  pub data Accepted (accepts : List (Result TcpStream IoError))
      (items : List (Result TlsStream IoError)) : Type 0 where
    all_accepted :
        (sockets : List TcpStream)
        → accepts ≡ map ok sockets
        → All IsFinished sockets
        → items ≡ map ok (filter_map secured sockets)
        → Accepted accepts items
    accept_failed :
        (sockets : List TcpStream) (e : IoError) (later : List (Result TcpStream IoError))
        → accepts ≡ map ok sockets ++ err e ∷ later
        → All IsFinished sockets
        → items ≡ map ok (filter_map secured sockets) ++ err e ∷ []
        → Accepted accepts items
    handshake_waits :
        (sockets : List TcpStream) (socket : TcpStream) (later : List (Result TcpStream IoError))
        → accepts ≡ map ok sockets ++ ok socket ∷ later
        → All IsFinished sockets
        → network.handshake socket ≡ none
        → items ≡ map ok (filter_map secured sockets)
        → Accepted accepts items

  abbrev added :
      Result TlsStream IoError → List (Result TlsStream IoError) → List (Result TlsStream IoError)
  added (ok tls_stream) items = ok tls_stream ∷ items
  added (err e) items = items

  secured-cons :
      (socket : TcpStream) (sockets : List TcpStream) (r : Result TlsStream IoError)
      → network.handshake socket ≡ some r
      → map ok (filter_map secured (socket ∷ sockets))
        ≡ added r (map ok (filter_map secured sockets))
  secured-cons socket sockets (ok tls_stream) is = rw (is, map) refl
  secured-cons socket sockets (err e) is = rw (is, map) refl

  added-append :
      (r : Result TlsStream IoError) (items rest : List (Result TlsStream IoError))
      → added r (items ++ rest) ≡ added r items ++ rest
  added-append (ok tls_stream) items rest = refl
  added-append (err e) items rest = refl

  https_stream-cons :
      (socket : TcpStream) (accepts : List (Result TcpStream IoError))
      (r : Result TlsStream IoError)
      → network.handshake socket ≡ some r
      → https_stream network (ok socket ∷ accepts) ≡ added r (https_stream network accepts)
  unfolding https_stream
  https_stream-cons socket accepts (ok tls_stream) is = rw (is, https_stream) refl
  https_stream-cons socket accepts (err e) is = rw (is, https_stream) refl

  -- One more socket, whose handshake ends.
  next-Accepted :
      (socket : TcpStream) (r : Result TlsStream IoError)
      {accepts : List (Result TcpStream IoError)} {items : List (Result TlsStream IoError)}
      → network.handshake socket ≡ some r
      → Accepted accepts items
      → Accepted (ok socket ∷ accepts) (added r items)
  next-Accepted socket r is (all_accepted sockets at finished same) =
      all_accepted (socket ∷ sockets) (ap (λ l. ok socket ∷ l) at) ((r, is), finished)
        (ap (added r) same ∙ sym (secured-cons socket sockets r is))
  next-Accepted socket r is (accept_failed sockets e later at finished same) =
      accept_failed (socket ∷ sockets) e later (ap (λ l. ok socket ∷ l) at) ((r, is), finished)
        (ap (added r) same
          ∙ added-append r (map ok (filter_map secured sockets)) (err e ∷ [])
          ∙ ap (λ l. l ++ err e ∷ []) (sym (secured-cons socket sockets r is)))
  next-Accepted socket r is (handshake_waits sockets waiting later at finished never same) =
      handshake_waits (socket ∷ sockets) waiting later (ap (λ l. ok socket ∷ l) at)
        ((r, is), finished) never (ap (added r) same ∙ sym (secured-cons socket sockets r is))

  -- Every socket whose handshake succeeds is yielded, in the order of the accepts, whichever
  -- handshakes fail in between. This ends with the first error of `accept`, which is yielded, or
  -- with the first handshake that never ends: no socket that is accepted later is yielded.
  pub https_stream-Accepted :
      (accepts : List (Result TcpStream IoError)) → Accepted accepts (https_stream network accepts)
  unfolding https_stream
  https_stream-Accepted [] = all_accepted [] refl tt refl
  https_stream-Accepted (err e ∷ accepts) = accept_failed [] e accepts refl tt refl
  https_stream-Accepted (ok socket ∷ accepts) = elim (Option-cases (network.handshake socket)) [
    | inl never ↦ handshake_waits [] socket accepts refl tt never (rw (never, https_stream) refl)
    | inr (r, is) ↦
        subst (λ (items : List (Result TlsStream IoError)). Accepted (ok socket ∷ accepts) items)
          (sym (https_stream-cons socket accepts r is))
          (next-Accepted socket r is (https_stream-Accepted accepts))
  ]
