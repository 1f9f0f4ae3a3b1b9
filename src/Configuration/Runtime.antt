-- ===== src/Configuration/Runtime.antt =====
-- `TomlConfig` of src/configuration.rs with its defaults, and `RuntimeConfig`. The toml and serde
-- crates, paths, the webpki crate and the file system are parameters.
use another_rust_load_balanc.Prelude.{
  ℕ, Text, codes, Bool, true, false, Option, List, [], ◌++◌, Result, ok, err,
}
use another_rust_load_balanc.Prelude.Maps.{HashMap}
use another_rust_load_balanc.Prelude.Options.{unwrap_or}
use another_rust_load_balanc.Http.{SocketAddr}
use another_rust_load_balanc.Tls.{ErrorKind, not_found, other, IoError, CertifiedKey}
use another_rust_load_balanc.Server.{SharedData}
use another_rust_load_balanc.Configuration.{BackendPoolConfig}

pub data CertificateConfig : Type 0 where
  local : (certificate_path private_key_path : Text) → CertificateConfig
  acme : (staging : Bool) (email persist_dir : Text) → CertificateConfig

pub record TomlConfig (Table : Type 0) : Type 0 where
  pub http_address : Text
  pub https_address : Text
  pub backend_pools : List (BackendPoolConfig Table)
  pub certificates : HashMap CertificateConfig
  pub health_interval : ℕ

-- The keys of the file, each of which may be missing.
pub record TomlFields (Table : Type 0) : Type 0 where
  pub http_address : Option Text
  pub https_address : Option Text
  pub backend_pools : Option (List (BackendPoolConfig Table))
  pub certificates : Option (HashMap CertificateConfig)
  pub health_interval : Option ℕ

unfoldable pub default_http_address : Text
default_http_address = codes "[::]:80"

unfoldable pub default_https_address : Text
default_https_address = codes "[::]:443"

unfoldable pub default_health_interval_config : ℕ
default_health_interval_config = 10

-- The `serde` attributes of `TomlConfig`.
unfoldable pub with_defaults : {Table : Type 0} → TomlFields Table → TomlConfig Table
unfolding default_http_address default_https_address default_health_interval_config
with_defaults fields = record {
  http_address = unwrap_or fields.http_address default_http_address;
  https_address = unwrap_or fields.https_address default_https_address;
  backend_pools = unwrap_or fields.backend_pools [];
  certificates = unwrap_or fields.certificates [];
  health_interval = unwrap_or fields.health_interval default_health_interval_config;
}

pub record RuntimeConfig (Headers Body Map Key : Type 0) : Type 0 where
  pub http_address : SocketAddr
  pub https_address : SocketAddr
  pub shared_data : SharedData Headers Body Map
  pub certificates : HashMap Key
  pub health_interval : ℕ

-- The parsing of an address and of a DNS name, `Path::join`, `cross_check_end_entity_cert`, the toml
-- reader with its error as one of input and output, and the directory of a canonical path.
pub record Loading (Table Cert SigningKey : Type 0) : Type 0 where
  pub parse_address : Text → Result SocketAddr Text
  pub dns_name : Text → Result Text Text
  pub join : Text → Text → Text
  pub cross_check : CertifiedKey Cert SigningKey → Text → Result (Unit {0}) Text
  pub from_str : Text → Result (TomlFields Table) IoError
  pub canonicalize : Text → Result Text IoError
  pub parent : Text → Option Text

abbrev pub is_acme : CertificateConfig → Bool
is_acme (local _ _) = false
is_acme (acme _ _ _) = true

-- `map_err` with `invalid_data`, `other` and the like.
abbrev pub failing_as : {A : Type 0} → ErrorKind → Result A Text → Result A IoError
failing_as kind (ok a) = ok a
failing_as kind (err e) = err (record { kind = kind; message = e })

-- `map_err` with a new text before the old one.
abbrev pub explained : {A : Type 0} → Text → Result A IoError → Result A IoError
explained text (ok a) = ok a
explained text (err e) = err (record { kind = e.kind; message = text ++ e.message })

pub data NotifyError : Type 0 where
  generic : Text → NotifyError
  io : IoError → NotifyError
  path_not_found watch_not_found : NotifyError

-- The last two errors are given by their texts.
unfoldable pub map_notify_error : (NotifyError → Text) → NotifyError → IoError
map_notify_error text (generic e) = record { kind = other; message = e }
map_notify_error text (io e) = e
map_notify_error text path_not_found = record { kind = not_found; message = text path_not_found }
map_notify_error text watch_not_found = record { kind = not_found; message = text watch_not_found }
