-- ===== src/Tls.antt =====
-- src/tls.rs: certificates with their keys from files and from the certificate authority, and the
-- choice of one by the server name. Reading a file and decoding its content are parameters.
pub mod Loading
mod Tests
use another_rust_load_balanc.Prelude.{
  ℕ, Text, codes, Option, none, some, List, [], ◌∷◌, ◌++◌, Outcome, done, panic, Result, ok, err,
}
use another_rust_load_balanc.Prelude.Panics.{◌>>=◌}
use another_rust_load_balanc.Prelude.Maps as Maps

pub data ErrorKind : Type 0 where
  not_found broken_pipe invalid_input invalid_data other : ErrorKind
  unlisted : ℕ → ErrorKind

pub record IoError : Type 0 where
  pub kind : ErrorKind
  pub message : Text

-- A `PrivateKey` is the text of its encoding.
pub record CertifiedKey (Certificate SigningKey : Type 0) : Type 0 where
  pub certificates : List Certificate
  pub key : SigningKey

-- The file system, the readers of the `pemfile` module and the check of an RSA key.
pub record Files (Certificate SigningKey : Type 0) : Type 0 where
  pub read : Text → Result Text IoError
  pub certs : Text → Option (List Certificate)
  pub rsa_private_keys : Text → Option (List Text)
  pub rsa_signing_key : Text → Option SigningKey

abbrev pub or_invalid : {A : Type 0} → Option A → Text → Result A IoError
or_invalid none message = err (record { kind = invalid_data; message = message })
or_invalid (some a) message = ok a

module _ {Certificate SigningKey : Type 0} (files : Files Certificate SigningKey) where
  unfoldable pub certified_key_from_acme_certificate :
      Text → Text → Result (CertifiedKey Certificate SigningKey) IoError
  certified_key_from_acme_certificate certificate private_key_der =
      elim (or_invalid (files.certs certificate) (codes "Invalid certificate")) [
        | err e ↦ err e
        | ok certificates ↦
            elim (or_invalid (files.rsa_signing_key private_key_der) (codes "Invalid RSA key")) [
              | err e ↦ err e
              | ok key ↦ ok (record { certificates = certificates; key = key })
            ]
      ]

  unfoldable pub load_certs : Text → Result (List Certificate) IoError
  load_certs path = elim (files.read path) [
    | err e ↦ err (record {
      kind = e.kind;
      message = codes "Could not open '" ++ path ++ codes "' due to: " ++ e.message;
    })
    | ok content ↦
        or_invalid (files.certs content) (codes "Invalid certificate in '" ++ path ++ codes "'")
  ]

  unfoldable pub load_keys : Text → Result (List Text) IoError
  load_keys path = elim (files.read path) [
    | err e ↦ err e
    | ok content ↦
        or_invalid (files.rsa_private_keys content)
          (codes "Invalid RSA key in '" ++ path ++ codes "'")
  ]

  -- `Vec::remove` panics when there is no first key.
  unfoldable pub load_key : Text → Outcome (Result Text IoError)
  unfolding load_keys
  load_key path = elim (load_keys path) [
    | err e ↦ done (err e)
    | ok keys ↦ elim keys [ [] ↦ panic | key ∷ rest ↦ done (ok key) ]
  ]

  unfoldable pub load_certified_key :
      Text → Text → Outcome (Result (CertifiedKey Certificate SigningKey) IoError)
  unfolding load_certs load_key
  load_certified_key certificate_path private_key_path = elim (load_certs certificate_path) [
    | err e ↦ done (err e)
    | ok certificates ↦ do
      loaded ← load_key private_key_path
      done (elim loaded [
        | err e ↦ err e
        | ok private_key ↦
            elim (or_invalid (files.rsa_signing_key private_key)
              (codes "Invalid RSA key in '" ++ private_key_path ++ codes "'")) [
                | err e ↦ err e
                | ok key ↦ ok (record { certificates = certificates; key = key })
              ]
      ])
  ]

-- A client that names no server gets no certificate.
unfoldable pub resolve :
    {Certificate SigningKey : Type 0}
    → Maps.HashMap (CertifiedKey Certificate SigningKey)
    → Option Text
    → Option (CertifiedKey Certificate SigningKey)
resolve certificates none = none
resolve certificates (some name) = Maps.get name certificates
