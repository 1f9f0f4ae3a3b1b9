-- ===== src/Configuration/Reading.antt =====
-- How src/configuration.rs reads the file into a runtime configuration.
use another_rust_load_balanc.Prelude.{
  ℕ, Text, codes, Bool, false, none, some, List, [], ◌++◌, Result, ok, err, Outcome,
}
use another_rust_load_balanc.Prelude.Tasks.{Task, ended}
use another_rust_load_balanc.Prelude.Tasks as Tasks
use another_rust_load_balanc.Tls.{invalid_input, invalid_data, IoError, CertifiedKey, Files}
use another_rust_load_balanc.Acme as Acme
use another_rust_load_balanc.Acme.{AcmeHandler}
use another_rust_load_balanc.Acme.Ordering.{AcmeLib}
use another_rust_load_balanc.Server.{BackendPool}
use another_rust_load_balanc.Configuration.{BackendPoolConfig}
use another_rust_load_balanc.Configuration.Loads.{Loads, ◌>>=◌, lift, succeed}
use another_rust_load_balanc.Configuration.Runtime.{
  TomlConfig, with_defaults, RuntimeConfig, Loading, failing_as, explained,
}
use another_rust_load_balanc.Configuration.Certificates.{load_certificates}

module _ {Table Cert SigningKey Headers Body Map : Type 0} (lib : AcmeLib) (rounds : ℕ)
    (files : Files Cert SigningKey) (loading : Loading Table Cert SigningKey)
    (pools_from : List (BackendPoolConfig Table)
      → Outcome (List (BackendPool Headers Body Map))) where
  -- The handler is shared: it is the one after the calls.
  abbrev pub here : Loads AcmeHandler
  here handler = ended (ok handler, handler)

  unfoldable pub runtime_config_from_toml_config :
      Text
      → TomlConfig Table
      → Bool
      → Loads (RuntimeConfig Headers Body Map (CertifiedKey Cert SigningKey))
  unfolding load_certificates
  runtime_config_from_toml_config config_dir file init_acme = do
    http_address ← lift (failing_as invalid_data (loading.parse_address file.http_address))
    https_address ← lift (failing_as invalid_data (loading.parse_address file.https_address))
    backend_pools ← succeed (pools_from file.backend_pools)
    certificates ←
        load_certificates lib rounds files loading init_acme config_dir file.certificates []
    acme_handler ← here
    lift (
        ok (record {
          http_address = http_address;
          https_address = https_address;
          shared_data = record { backend_pools = backend_pools; acme_handler = acme_handler };
          certificates = certificates;
          health_interval = file.health_interval;
        }))

  -- `TomlConfig::read`; `read_to_string` is what the file system gives at the time.
  unfoldable pub read : (Text → Result Text IoError) → Text → Result (TomlConfig Table) IoError
  unfolding with_defaults
  read read_to_string toml_path =
      elim (explained
        (codes "Error occurred when reading configuration file " ++ (toml_path ++ codes ": "))
        (read_to_string toml_path)) [
          | err e ↦ err e
          | ok toml_str ↦
              elim (explained
                (codes "Error occurred when parsing configuration file "
                  ++ (toml_path ++ codes ": "))
                (loading.from_str toml_str)) [
                  | err e ↦ err e
                  | ok fields ↦ ok (with_defaults fields)
                ]
        ]

  abbrev pub config_dir_of : Text → Result Text IoError
  config_dir_of path = elim (loading.canonicalize path) [
    | err e ↦ err e
    | ok canonical_path ↦ elim (loading.parent canonical_path) [
      | none ↦
          err
            (record { kind = invalid_input; message = codes "Config path does not have a parrent" })
      | some config_dir ↦ ok config_dir
    ]
  ]

  unfoldable pub read_runtime_config :
      (Text → Result Text IoError)
      → Text
      → Bool
      → Loads (RuntimeConfig Headers Body Map (CertifiedKey Cert SigningKey))
  unfolding read runtime_config_from_toml_config
  read_runtime_config read_to_string path init_acme = do
    file ← lift (read read_to_string path)
    config_dir ← lift (config_dir_of path)
    runtime_config_from_toml_config config_dir file init_acme

  -- At the start no certificate is ordered, since the listener does not run yet.
  unfoldable pub read_initial_config :
      (Text → Result Text IoError)
      → Text
      → Task (Result (RuntimeConfig Headers Body Map (CertifiedKey Cert SigningKey)) IoError)
  unfolding read_runtime_config Acme.new
  read_initial_config read_to_string path =
      Tasks.◌>>=◌ (read_runtime_config read_to_string path false Acme.new)
        (λ r. ended (explained (codes "Could not load configuration due to: ") r.0))
