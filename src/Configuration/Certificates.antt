-- ===== src/Configuration/Certificates.antt =====
-- The certificates of the configuration in src/configuration.rs: from files, or by an order. The
-- number of rounds bounds how long the thread of an order is looked at.
use another_rust_load_balanc.Prelude.{
  Result, ℕ, Text, codes, Bool, not, ◌||◌, List, [], ◌∷◌, ◌++◌, ok, if◌then◌else◌,
}
use another_rust_load_balanc.Prelude.Maps
use another_rust_load_balanc.Prelude.Maps.{HashMap}
use another_rust_load_balanc.Prelude.Tasks.{Task, ended}
use another_rust_load_balanc.Prelude.Tasks as Tasks
use another_rust_load_balanc.Tls.{
  IoError, invalid_data, other, CertifiedKey, Files, load_certified_key,
  certified_key_from_acme_certificate,
}
use another_rust_load_balanc.Acme.Ordering.{AcmeLib, Certificate, initiate_challenge}
use another_rust_load_balanc.Configuration.Loads.{Loads, ◌>>=◌, lift, lift_outcome}
use another_rust_load_balanc.Configuration.Runtime.{
  CertificateConfig, local, acme, Loading, is_acme, failing_as, explained,
}

module _ {Table Cert SigningKey : Type 0} (lib : AcmeLib) (rounds : ℕ)
    (files : Files Cert SigningKey) (loading : Loading Table Cert SigningKey) where
  -- The call of `initiate_challenge`, whose errors become other errors.
  abbrev pub ordered : Bool → Text → Text → Text → Loads Certificate
  ordered staging persist_dir email sni_name handler =
      Tasks.◌>>=◌ (initiate_challenge lib rounds staging persist_dir email sni_name handler)
        (λ r. ended (failing_as other r.0, r.1))

  abbrev pub cross_checked :
      Text → CertifiedKey Cert SigningKey → Loads (CertifiedKey Cert SigningKey)
  cross_checked sni_name key = do
    checked ← lift (failing_as invalid_data (loading.cross_check key sni_name))
    lift (ok key)

  abbrev pub acme_key : Text → Certificate → Result (CertifiedKey Cert SigningKey) IoError
  acme_key sni_name certificate =
      explained (codes "Could not load ACME certificate for '" ++ (sni_name ++ codes "' due to: "))
        (certified_key_from_acme_certificate files certificate.certificate
          certificate.private_key_der)

  unfoldable pub create_certified_key :
      Text → CertificateConfig → Text → Loads (CertifiedKey Cert SigningKey)
  create_certified_key config_dir (local certificate_path private_key_path) sni_name = do
    key ← lift_outcome (
        load_certified_key files (loading.join config_dir certificate_path)
          (loading.join config_dir private_key_path))
    cross_checked sni_name key
  create_certified_key config_dir (acme staging email persist_dir) sni_name = do
    certificate ← ordered staging (loading.join config_dir persist_dir) email sni_name
    key ← lift (acme_key sni_name certificate)
    cross_checked sni_name key

  -- The loop over the certificates.
  unfoldable pub load_certificates :
      Bool
      → Text
      → List (Text × CertificateConfig)
      → HashMap (CertifiedKey Cert SigningKey)
      → Loads (HashMap (CertifiedKey Cert SigningKey))
  load_certificates init_acme config_dir [] certificates = lift (ok certificates)
  load_certificates init_acme config_dir ((sni_name, config) ∷ configs) certificates = do
    dns_name ← lift (failing_as invalid_data (loading.dns_name sni_name))
    let skipped = load_certificates init_acme config_dir configs certificates
    if init_acme || not (is_acme config)
        then (create_certified_key config_dir config dns_name >>= λ key.
            load_certificates init_acme config_dir configs (Maps.insert dns_name key certificates))
        else skipped
