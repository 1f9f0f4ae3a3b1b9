-- ===== src/Configuration/Watching.antt =====
-- The watcher of src/configuration.rs, which replaces the runtime configuration when the file
-- changes. A panic ends it.
use another_rust_load_balanc.Prelude.{ℕ, Text, true, List, [], ◌∷◌, Result, ok, err, Outcome}
use another_rust_load_balanc.Prelude.Tasks.{Task, ended, ◌>>=◌}
use another_rust_load_balanc.Tls.{IoError, CertifiedKey, Files}
use another_rust_load_balanc.Acme.{AcmeHandler}
use another_rust_load_balanc.Acme.Ordering.{AcmeLib}
use another_rust_load_balanc.Server.{BackendPool}
use another_rust_load_balanc.Configuration.{BackendPoolConfig}
use another_rust_load_balanc.Configuration.Runtime.{RuntimeConfig, Loading}
use another_rust_load_balanc.Configuration.Reading.{read_runtime_config}

-- `DebouncedEvent`, as far as the watcher tells its cases apart.
pub data DebouncedEvent : Type 0 where
  write : Text → DebouncedEvent
  remove : Text → DebouncedEvent
  other_event : DebouncedEvent

-- The receiver that `start_config_watcher` returns holds a write of the file from the start.
unfoldable pub start_config_watcher : Text → List DebouncedEvent → List DebouncedEvent
start_config_watcher path events = write path ∷ events

abbrev pub with_handler :
    {Headers Body Map Key : Type 0}
    → RuntimeConfig Headers Body Map Key
    → AcmeHandler
    → RuntimeConfig Headers Body Map Key
with_handler config handler = record config {
  shared_data = record config.shared_data { acme_handler = handler };
}

-- A new configuration is stored; with an error the old one is kept.
abbrev pub next_config :
    {Headers Body Map Key : Type 0}
    → RuntimeConfig Headers Body Map Key
    → Result (RuntimeConfig Headers Body Map Key) IoError × AcmeHandler
    → Task (RuntimeConfig Headers Body Map Key)
next_config old_config (ok new_config, handler) = ended new_config
next_config old_config (err _, handler) = ended (with_handler old_config handler)

module _ {Table Cert SigningKey Headers Body Map : Type 0} (lib : AcmeLib) (rounds : ℕ)
    (files : Files Cert SigningKey) (loading : Loading Table Cert SigningKey)
    (pools_from : List (BackendPoolConfig Table)
      → Outcome (List (BackendPool Headers Body Map))) where
  -- One turn of the loop of `watch_config`. `read_to_string` is what the file system gives in that
  -- turn. The handler is shared by the old configuration and the new one.
  unfoldable pub on_event :
      (Text → Result Text IoError)
      → DebouncedEvent
      → RuntimeConfig Headers Body Map (CertifiedKey Cert SigningKey)
      → Task (RuntimeConfig Headers Body Map (CertifiedKey Cert SigningKey))
  unfolding read_runtime_config
  on_event read_to_string (write path) old_config =
      read_runtime_config lib rounds files loading pools_from read_to_string path true
        old_config.shared_data.acme_handler
      >>= next_config old_config
  on_event read_to_string (remove _) old_config = ended old_config
  on_event read_to_string other_event old_config = ended old_config

  unfoldable pub watch_config :
      List (DebouncedEvent × (Text → Result Text IoError))
      → RuntimeConfig Headers Body Map (CertifiedKey Cert SigningKey)
      → Task (RuntimeConfig Headers Body Map (CertifiedKey Cert SigningKey))
  unfolding on_event
  watch_config [] config = ended config
  watch_config ((event, read_to_string) ∷ events) config = do
    later_config ← on_event read_to_string event config
    watch_config events later_config
