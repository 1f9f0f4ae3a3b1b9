-- ===== src/Configuration/Origins.antt =====
-- What a configuration that src/configuration.rs has read says of the file.
use mathlib.Core.Path.{subst}
use another_rust_load_balanc.Http.{SocketAddr}
use another_rust_load_balanc.Prelude.Panics.{Outcome-cases}
use another_rust_load_balanc.Prelude.{
  ℕ, Text, ◌≡◌, refl, ap, ◌∙◌, true, List, [], Result, ok, err, Outcome, done, inl, inr,
}
use another_rust_load_balanc.Prelude.Maps.{HashMap}
use another_rust_load_balanc.Prelude.Results.{Result-cases}
use another_rust_load_balanc.Prelude.Tasks.{Task, ended, panicked, waiting}
use another_rust_load_balanc.Tls.{IoError, CertifiedKey, Files}
use another_rust_load_balanc.Acme.{AcmeHandler}
use another_rust_load_balanc.Acme.Ordering.{AcmeLib}
use another_rust_load_balanc.Server.{BackendPool}
use another_rust_load_balanc.Configuration.{BackendPoolConfig}
use another_rust_load_balanc.Configuration.Runtime.{TomlConfig, RuntimeConfig, Loading}
use another_rust_load_balanc.Configuration.Certificates.{load_certificates}
use another_rust_load_balanc.Configuration.Reading.{
  runtime_config_from_toml_config, read, config_dir_of, read_runtime_config,
}
use another_rust_load_balanc.Configuration.Keeping.{IsQuiet, load-Keeps}

ended_same :
    {A : Type 0} {a b : A} {between after : AcmeHandler}
    → ◌≡◌ {A = Task (Result A IoError × AcmeHandler)} (ended (ok a, between)) (ended (ok b, after))
    → a ≡ b
ended_same h = cc

module _ {Table Cert SigningKey Headers Body Map : Type 0} (lib : AcmeLib) (rounds : ℕ)
    (files : Files Cert SigningKey) (loading : Loading Table Cert SigningKey)
    (pools_from : List (BackendPoolConfig Table)
      → Outcome (List (BackendPool Headers Body Map))) where
  -- What a configuration that was read says of the file, of the directory and of the handler.
  abbrev pub IsFrom :
      TomlConfig Table
      → Text
      → AcmeHandler
      → RuntimeConfig Headers Body Map (CertifiedKey Cert SigningKey)
      → Type 0
  IsFrom file dir handler config =
      (config.shared_data.acme_handler ≡ handler)
      × (pools_from file.backend_pools ≡ done config.shared_data.backend_pools)
      × (load_certificates lib rounds files loading true dir file.certificates [] handler
          ≡ ended (ok config.certificates, handler))
      × (config.health_interval ≡ file.health_interval)
      × (loading.parse_address file.http_address ≡ ok config.http_address)
      × (loading.parse_address file.https_address ≡ ok config.https_address)

  converted :
      (dir : Text) (file : TomlConfig Table) (handler : AcmeHandler)
      {config : RuntimeConfig Headers Body Map (CertifiedKey Cert SigningKey)} {after : AcmeHandler}
      → IsQuiet lib rounds files loading handler
      → runtime_config_from_toml_config lib rounds files loading pools_from dir file true handler
        ≡ ended (ok config, after)
      → IsFrom file dir handler config
  unfolding runtime_config_from_toml_config
  converted dir file handler {config} {after} quiet h =
      elim (Result-cases (loading.parse_address file.http_address)) [
        | inr (e, bad) ↦ cc (rw (bad, runtime_config_from_toml_config) at h)
        | inl (http_address, e1) ↦ elim (Result-cases (loading.parse_address file.https_address)) [
          | inr (e, bad) ↦ cc (rw (e1, bad, runtime_config_from_toml_config) at h)
          | inl (https_address, e2) ↦ elim (Outcome-cases (pools_from file.backend_pools)) [
            | inr bad ↦ cc (rw (e1, e2, bad, runtime_config_from_toml_config) at h)
            | inl (l, e3) ↦ loaded http_address https_address l e1 e2 e3 _ refl
          ]
        ]
      ]
    where
      loaded :
          (http_address https_address : SocketAddr) (l : List (BackendPool Headers Body Map))
          → loading.parse_address file.http_address ≡ ok http_address
          → loading.parse_address file.https_address ≡ ok https_address
          → pools_from file.backend_pools ≡ done l
          → (t : Task (Result (HashMap (CertifiedKey Cert SigningKey)) IoError × AcmeHandler))
          → load_certificates lib rounds files loading true dir file.certificates [] handler ≡ t
          → IsFrom file dir handler config
      loaded a b l e1 e2 e3 panicked e4 =
          cc (rw (e1, e2, e3, e4, runtime_config_from_toml_config) at h)
      loaded a b l e1 e2 e3 waiting e4 =
          cc (rw (e1, e2, e3, e4, runtime_config_from_toml_config) at h)
      loaded a b l e1 e2 e3 (ended (err e, after)) e4 =
          cc (rw (e1, e2, e3, e4, runtime_config_from_toml_config) at h)
      loaded a b l e1 e2 e3 (ended (ok certificates, between)) e4 =
          let kept =
            load-Keeps lib rounds files loading handler quiet true dir file.certificates []
              (ok certificates) between e4 in
          let same = ended_same (rw (e1, e2, e3, e4, runtime_config_from_toml_config) at h) in
          subst
            (λ (c : RuntimeConfig Headers Body Map (CertifiedKey Cert SigningKey)).
              IsFrom file dir handler c)
            same
            (kept, e3, e4 ∙ ap (λ (x : AcmeHandler). ended (ok certificates, x)) kept, refl, e1, e2)

  -- Where a configuration that was read without an error comes from.
  pub read_from :
      (read_to_string : Text → Result Text IoError) (path : Text) (handler : AcmeHandler)
      {config : RuntimeConfig Headers Body Map (CertifiedKey Cert SigningKey)} {after : AcmeHandler}
      → IsQuiet lib rounds files loading handler
      → read_runtime_config lib rounds files loading pools_from read_to_string path true handler
        ≡ ended (ok config, after)
      → (file : TomlConfig Table) × (dir : Text) × (read lib rounds files loading pools_from
            read_to_string path
          ≡ ok file)
        × (config_dir_of lib rounds files loading pools_from path ≡ ok dir)
        × IsFrom file dir handler config
  unfolding read_runtime_config
  read_from read_to_string path handler quiet h =
      elim (Result-cases (read lib rounds files loading pools_from read_to_string path)) [
        | inr (e, bad) ↦ cc (rw (bad, read_runtime_config) at h)
        | inl (file, e1) ↦
            elim (Result-cases (config_dir_of lib rounds files loading pools_from path)) [
              | inr (e, bad) ↦ cc (rw (e1, bad, read_runtime_config) at h)
              | inl (dir, e2) ↦ (
                file,
                dir,
                e1,
                e2,
                converted dir file handler quiet (rw (e1, e2, read_runtime_config) at h),
              )
            ]
      ]
