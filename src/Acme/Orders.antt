-- ===== src/Acme/Orders.antt =====
-- How an order of a certificate in src/acme.rs ends, and that it closes its challenges.
use another_rust_load_balanc.Prelude.{
  ℕ, ◌≡◌, refl, sym, ◌∙◌, Text, Bool, Option, none, some, List, [], ◌∷◌, ◌++◌, All, Result, ok,
  done, panic, Bool-cases, inl, inr,
}
use another_rust_load_balanc.Prelude.Int.{pos, ltb_ℤ}
use another_rust_load_balanc.Prelude.Results.{Result-cases}
use another_rust_load_balanc.Prelude.Tasks.{Task, ended, panicked, waiting, ◌>>=◌, at_once}
use another_rust_load_balanc.Acme.{
  AcmeHandler, left, right, add_challenge, remove_challenge, receive,
}
use another_rust_load_balanc.Acme.Challenges.{IsFresh, receive-closes}
use another_rust_load_balanc.Acme.Ordering.{
  AcmeLib, Certificate, Ending, finished, index_panics, unfinished, generate_and_validate_challenge,
  lefts, messages_of, start_challenge_handler, receive_all, order_certificate, open_account,
  reuse_or_order, initiate_challenge,
}

-- What the call makes of the end of the thread, with the challenges as they were.
abbrev pub answer : AcmeHandler → Ending → Task (Result Certificate Text × AcmeHandler)
answer challenges (finished result) = ended (result, challenges)
answer challenges index_panics = panicked
answer challenges unfinished = waiting

answer-closes :
    (challenges : AcmeHandler) (ending : Ending) {result : Result Certificate Text}
    {after : AcmeHandler}
    → answer challenges ending ≡ ended (result, after)
    → after ≡ challenges
answer-closes challenges (finished r) h = cc
answer-closes challenges index_panics h = cc
answer-closes challenges unfinished h = cc

module _ (lib : AcmeLib) where
  receive-lefts :
      (token proof : Text) (sent : List (Text × Text)) (challenges : AcmeHandler)
      → receive (left token proof) (lefts lib sent) challenges ≡ panic
  unfolding receive
  receive-lefts token proof [] challenges = refl
  receive-lefts token proof ((t, p) ∷ sent) challenges =
      receive-lefts t p sent (remove_challenge token (add_challenge token proof challenges))

  receive_all-lefts :
      (sent : List (Text × Text)) (challenges : AcmeHandler)
      → receive_all lib (lefts lib sent) challenges ≡ panic
  unfolding receive_all
  receive_all-lefts [] challenges = refl
  receive_all-lefts ((t, p) ∷ sent) challenges = receive-lefts t p sent challenges

  receive_all-closes :
      (sent : List (Text × Text)) (challenges : AcmeHandler) (result : Result Certificate Text)
      → All (IsFresh challenges) sent
      → receive_all lib (lefts lib sent ++ right result ∷ []) challenges ≡ done (result, challenges)
  unfolding receive_all receive
  receive_all-closes [] challenges result fresh = refl
  receive_all-closes ((t, p) ∷ sent) challenges result fresh =
      receive-closes challenges t p sent [] result fresh

  messages-answer :
      (challenges : AcmeHandler) (thread : List (Text × Text) × Ending)
      → All (IsFresh challenges) thread.0
      → (messages_of lib thread >>= λ messages. at_once (receive_all lib messages challenges))
        ≡ answer challenges thread.1
  unfolding messages_of
  messages-answer challenges (sent, finished result) fresh =
      rw (receive_all-closes sent challenges result fresh) refl
  messages-answer challenges (sent, index_panics) fresh =
      rw (receive_all-lefts sent challenges) refl
  messages-answer challenges (sent, unfinished) fresh = refl

  module _ (rounds : ℕ) (acc : lib.Account) (primary_name : Text) (challenges : AcmeHandler) where
    -- When the certificate authority takes the order, and no challenge is open of the tokens that
    -- the order brings, the call ends as the thread ends: with its result, by a panic if the thread
    -- panics, and it waits while the thread runs. In the first case the challenges are those of
    -- before.
    pub order_certificate-answer :
        (ord_new : lib.NewOrder)
        → lib.new_order acc primary_name ≡ ok ord_new
        → All (IsFresh challenges) (generate_and_validate_challenge lib rounds ord_new).0
        → order_certificate lib rounds acc primary_name challenges
          ≡ answer challenges (generate_and_validate_challenge lib rounds ord_new).1
    unfolding order_certificate start_challenge_handler
    order_certificate-answer ord_new taken fresh =
        rw (taken, order_certificate)
          (messages-answer challenges (generate_and_validate_challenge lib rounds ord_new) fresh)

    -- Whenever the call returns, with a certificate or an error, the challenges are those of before.
    order_certificate-closes :
        ((ord_new : lib.NewOrder)
          → lib.new_order acc primary_name ≡ ok ord_new
          → All (IsFresh challenges) (generate_and_validate_challenge lib rounds ord_new).0)
        → {result : Result Certificate Text} {after : AcmeHandler}
        → order_certificate lib rounds acc primary_name challenges ≡ ended (result, after)
        → after ≡ challenges
    unfolding order_certificate
    order_certificate-closes fresh h = elim (Result-cases (lib.new_order acc primary_name)) [
      | inr (e, refused) ↦ cc (rw (refused, order_certificate) at h)
      | inl (ord_new, taken) ↦
          answer-closes challenges (generate_and_validate_challenge lib rounds ord_new).1
            (sym (order_certificate-answer ord_new taken (fresh ord_new taken)) ∙ h)
    ]

  reuse_or_order-closes :
      (rounds : ℕ) (acc : lib.Account) (primary_name : Text) (challenges : AcmeHandler)
      → ((ord_new : lib.NewOrder)
          → lib.new_order acc primary_name ≡ ok ord_new
          → All (IsFresh challenges) (generate_and_validate_challenge lib rounds ord_new).0)
      → (existing_cert : Option Certificate) {result : Result Certificate Text}
        {after : AcmeHandler}
      → reuse_or_order lib rounds acc primary_name challenges existing_cert ≡ ended (result, after)
      → after ≡ challenges
  unfolding reuse_or_order
  reuse_or_order-closes rounds acc primary_name challenges fresh none h =
      order_certificate-closes rounds acc primary_name challenges fresh h
  reuse_or_order-closes rounds acc primary_name challenges fresh (some cert) h =
      elim (Bool-cases (ltb_ℤ (pos 0) cert.valid_days_left)) [
        | inl valid ↦ cc (rw valid at h)
        | inr expired ↦
            order_certificate-closes rounds acc primary_name challenges fresh (rw expired at h)
      ]

  -- An order of a certificate, or the reuse of one that is stored and still valid, leaves the
  -- challenges as they were, whatever the call returns, if no challenge is open of the tokens that
  -- the order brings.
  pub initiate_challenge-closes :
      (rounds : ℕ) (staging : Bool) (persist_dir email primary_name : Text)
      (challenges : AcmeHandler)
      → ((acc : lib.Account) (ord_new : lib.NewOrder)
          → lib.new_order acc primary_name ≡ ok ord_new
          → All (IsFresh challenges) (generate_and_validate_challenge lib rounds ord_new).0)
      → (result : Result Certificate Text) (after : AcmeHandler)
      → initiate_challenge lib rounds staging persist_dir email primary_name challenges
        ≡ ended (result, after)
      → after ≡ challenges
  unfolding initiate_challenge
  initiate_challenge-closes rounds staging persist_dir email primary_name challenges fresh result
        after h =
      elim (Result-cases (open_account lib staging persist_dir email)) [
        | inr (e, failed) ↦ cc (rw (failed, initiate_challenge) at h)
        | inl (acc, opened) ↦ elim (Result-cases (lib.existing acc primary_name)) [
          | inr (e, failed) ↦ cc (rw (opened, failed, initiate_challenge) at h)
          | inl (existing_cert, found) ↦
              reuse_or_order-closes rounds acc primary_name challenges (fresh acc) existing_cert
                (rw (opened, found, initiate_challenge) at h)
        ]
      ]
