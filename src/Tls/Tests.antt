-- ===== src/Tls/Tests.antt =====
-- Runs of the theorems on src/tls.rs: files that hold one certificate and one key, or no key.
use another_rust_load_balanc.Prelude.{◌≡◌, ◌↔◌, Text, codes, some, List, [], ◌∷◌, done, panic, ok}
use another_rust_load_balanc.Tls.{CertifiedKey, Files, load_certified_key}
use another_rust_load_balanc.Tls.Loading.{
  HasCerts, HasKeys, load_certified_key_panic_iff, load_certified_key_iff,
}

abbrev files : Files Text Text
files = record {
  read = λ path. ok path;
  certs = λ content. some (content ∷ []);
  rsa_private_keys = λ content. some (content ∷ []);
  rsa_signing_key = λ key. some key;
}

abbrev without_keys : Files Text Text
without_keys = record files { rsa_private_keys = λ content. some [] }

abbrev cert_path : Text
cert_path = codes "x509"

abbrev key_path : Text
key_path = codes "rsa"

abbrev loaded : CertifiedKey Text Text
loaded = record { certificates = cert_path ∷ []; key = key_path }

load_certified_key_panic_iff_example :
    (load_certified_key without_keys cert_path key_path ≡ panic) ↔ (
      (certificates : List Text) × HasCerts without_keys cert_path certificates
      × HasKeys without_keys key_path [])
load_certified_key_panic_iff_example = load_certified_key_panic_iff without_keys cert_path key_path

load_certified_key_iff_example :
    (load_certified_key files cert_path key_path ≡ done (ok loaded)) ↔ (
      HasCerts files cert_path (cert_path ∷ [])
      × ((key : Text) × (rest : List Text) × HasKeys files key_path (key ∷ rest)
          × (files.rsa_signing_key key ≡ some key_path)))
load_certified_key_iff_example = load_certified_key_iff files cert_path key_path loaded
