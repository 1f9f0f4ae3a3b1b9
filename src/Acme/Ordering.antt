-- ===== src/Acme/Ordering.antt =====
-- The order of a certificate in src/acme.rs: the thread that talks to the certificate authority, and
-- the call that starts it and opens its challenges. The acme_lib crate is a parameter.
use another_rust_load_balanc.Prelude.{
  ℕ, zero, suc, Text, Bool, Option, none, some, List, [], ◌∷◌, ◌++◌, map, Result, ok, err, Outcome,
  panic, if◌then◌else◌,
}
use another_rust_load_balanc.Prelude.Int.{ℤ, pos, ltb_ℤ}
use another_rust_load_balanc.Prelude.Tasks.{Task, ended, waiting, ◌>>=◌, at_once}
use another_rust_load_balanc.Acme.{AcmeHandler, Message, left, right, receive}

pub record Certificate : Type 0 where
  pub certificate : Text
  pub private_key_der : Text
  pub valid_days_left : ℤ

pub data DirectoryUrl : Type 0 where
  lets_encrypt_staging lets_encrypt : DirectoryUrl

-- The crate, with `create_dir_all` of the standard library. An error is its text.
pub record AcmeLib : Type 1 where
  pub Directory : Type 0
  pub Account : Type 0
  pub NewOrder : Type 0
  pub CsrOrder : Type 0
  pub CertOrder : Type 0
  pub Challenge : Type 0
  pub create_dir_all : Text → Result (Unit {0}) Text
  pub from_url : Text → DirectoryUrl → Result Directory Text
  pub account : Directory → Text → Result Account Text
  pub existing : Account → Text → Result (Option Certificate) Text
  pub new_order : Account → Text → Result NewOrder Text
  pub confirm_validations : NewOrder → Option CsrOrder
  pub finalize_pkey : CsrOrder → Result CertOrder Text
  pub download_and_save_cert : CertOrder → Result Certificate Text
  -- The HTTP challenges of the authorizations.
  pub authorizations : NewOrder → Result (List Challenge) Text
  pub http_token : Challenge → Text
  pub http_proof : Challenge → Text
  pub validate : Challenge → Result (Unit {0}) Text
  pub refresh : NewOrder → Result NewOrder Text

-- How the thread ends: with a result, or by the panic of `auths[0]`; or it has not ended.
pub data Ending : Type 0 where
  finished : Result Certificate Text → Ending
  index_panics : Ending
  unfinished : Ending

abbrev pub after_sending : Text × Text → List (Text × Text) × Ending → List (Text × Text) × Ending
after_sending challenge (sent, ending) = (challenge ∷ sent, ending)

module _ (lib : AcmeLib) where
  unfoldable pub download : lib.CsrOrder → Result Certificate Text
  download ord_csr = elim (lib.finalize_pkey ord_csr) [
    | err e ↦ err e
    | ok ord_cert ↦ lib.download_and_save_cert ord_cert
  ]

  -- The loop, for a number of rounds: the challenges that it sends, and how it ends. The receiver
  -- lives until the result, so that a challenge can be sent.
  unfoldable pub generate_and_validate_challenge : ℕ → lib.NewOrder → List (Text × Text) × Ending
  unfolding download
  generate_and_validate_challenge zero ord_new = ([], unfinished)
  generate_and_validate_challenge (suc rounds) ord_new = elim (lib.confirm_validations ord_new) [
    | some ord_csr ↦ ([], finished (download ord_csr))
    | none ↦ elim (lib.authorizations ord_new) [
      | err e ↦ ([], finished (err e))
      | ok auths ↦ elim auths [
        | [] ↦ ([], index_panics)
        | chall ∷ _ ↦
            after_sending (lib.http_token chall, lib.http_proof chall)
              (elim (lib.validate chall) [
                | err e ↦ ([], finished (err e))
                | ok _ ↦ elim (lib.refresh ord_new) [
                  | err e ↦ ([], finished (err e))
                  | ok next ↦ generate_and_validate_challenge rounds next
                ]
              ])
      ]
    ]
  ]

  abbrev pub lefts : List (Text × Text) → List (Message Certificate)
  lefts sent = map (λ c. left c.0 c.1) sent

  -- All that the thread sends before its end closes the channel.
  unfoldable pub messages_of : List (Text × Text) × Ending → Task (List (Message Certificate))
  messages_of (sent, finished result) = ended (lefts sent ++ right result ∷ [])
  messages_of (sent, index_panics) = ended (lefts sent)
  messages_of (sent, unfinished) = waiting

  unfoldable pub start_challenge_handler : ℕ → lib.NewOrder → Task (List (Message Certificate))
  unfolding generate_and_validate_challenge messages_of
  start_challenge_handler rounds ord_new =
      messages_of (generate_and_validate_challenge rounds ord_new)

  -- The first message, and the loop.
  unfoldable pub receive_all :
      List (Message Certificate) → AcmeHandler → Outcome (Result Certificate Text × AcmeHandler)
  receive_all [] challenges = panic
  receive_all (message ∷ messages) challenges = receive message messages challenges

  unfoldable pub order_certificate :
      ℕ → lib.Account → Text → AcmeHandler → Task (Result Certificate Text × AcmeHandler)
  unfolding start_challenge_handler receive_all
  order_certificate rounds acc primary_name challenges = elim (lib.new_order acc primary_name) [
    | err e ↦ ended (err e, challenges)
    | ok ord_new ↦ do
      messages ← start_challenge_handler rounds ord_new
      at_once (receive_all messages challenges)
  ]

  unfoldable pub open_account : Bool → Text → Text → Result lib.Account Text
  open_account staging persist_dir email = elim (lib.create_dir_all persist_dir) [
    | err e ↦ err e
    | ok _ ↦
        elim (lib.from_url persist_dir (if staging then lets_encrypt_staging else lets_encrypt)) [
          | err e ↦ err e
          | ok dir ↦ lib.account dir email
        ]
  ]

  -- A stored certificate that is still valid is not ordered again.
  unfoldable pub reuse_or_order :
      ℕ
      → lib.Account
      → Text
      → AcmeHandler
      → Option Certificate
      → Task (Result Certificate Text × AcmeHandler)
  unfolding order_certificate
  reuse_or_order rounds acc primary_name challenges none =
      order_certificate rounds acc primary_name challenges
  reuse_or_order rounds acc primary_name challenges (some cert) =
      if ltb_ℤ (pos 0) cert.valid_days_left
      then ended (ok cert, challenges)
      else order_certificate rounds acc primary_name challenges

  unfoldable pub initiate_challenge :
      ℕ → Bool → Text → Text → Text → AcmeHandler → Task (Result Certificate Text × AcmeHandler)
  unfolding open_account reuse_or_order
  initiate_challenge rounds staging persist_dir email primary_name challenges =
      elim (open_account staging persist_dir email) [
        | err e ↦ ended (err e, challenges)
        | ok acc ↦ elim (lib.existing acc primary_name) [
          | err e ↦ ended (err e, challenges)
          | ok existing_cert ↦ reuse_or_order rounds acc primary_name challenges existing_cert
        ]
      ]
