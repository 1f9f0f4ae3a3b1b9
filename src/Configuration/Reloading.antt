-- ===== src/Configuration/Reloading.antt =====
-- What a reload of the configuration in src/configuration.rs may change.
use mathlib.Core.Path.{subst}
use another_rust_load_balanc.Http.{SocketAddr}
use another_rust_load_balanc.Prelude.{
  ℕ, Text, ◌≡◌, ◌⊎◌, refl, sym, ap, ◌∙◌, true, false, List, [], ◌∷◌, Result, ok, err, Outcome,
  panic, inl, inr,
}
use another_rust_load_balanc.Prelude.Maps.{HashMap, insert}
use another_rust_load_balanc.Prelude.Results.{Result-cases}
use another_rust_load_balanc.Prelude.Tasks as Tasks
use another_rust_load_balanc.Prelude.Tasks.{Task, ended, panicked, waiting}
use another_rust_load_balanc.Tls.{IoError, CertifiedKey, Files}
use another_rust_load_balanc.Acme.{AcmeHandler}
use another_rust_load_balanc.Acme.Ordering.{AcmeLib}
use another_rust_load_balanc.Server.{BackendPool}
use another_rust_load_balanc.Configuration.{BackendPoolConfig}
use another_rust_load_balanc.Configuration.Loads.{>>=-congr}
use another_rust_load_balanc.Configuration.Runtime.{
  CertificateConfig, local, acme, TomlConfig, RuntimeConfig, Loading,
}
use another_rust_load_balanc.Configuration.Certificates.{create_certified_key, load_certificates}
use another_rust_load_balanc.Configuration.Reading.{
  runtime_config_from_toml_config, read, config_dir_of, read_runtime_config,
}
use another_rust_load_balanc.Configuration.Keeping.{IsQuiet, read-Keeps}
use another_rust_load_balanc.Configuration.Watching.{
  DebouncedEvent, write, remove, other_event, with_handler, next_config, on_event, watch_config,
}
use another_rust_load_balanc.Configuration.Origins.{IsFrom, read_from}

ended-injective : {A : Type 0} {a b : A} → ended a ≡ ended b → a ≡ b
ended-injective h = cc

module _ {Table Cert SigningKey Headers Body Map : Type 0} (lib : AcmeLib) (rounds : ℕ)
    (files : Files Cert SigningKey) (loading : Loading Table Cert SigningKey)
    (pools_from : List (BackendPoolConfig Table)
      → Outcome (List (BackendPool Headers Body Map))) where
  -- When no challenge is open of a token that an order would bring, the configuration after a turn
  -- that ends is either the old one, or, for a write, the one that the file as it is read now
  -- describes: its pools, its certificates, its addresses and its interval, with the challenges of
  -- the old configuration.
  pub on_event-Reloaded :
      (read_to_string : Text → Result Text IoError) (event : DebouncedEvent)
      (old_config new_config : RuntimeConfig Headers Body Map (CertifiedKey Cert SigningKey))
      → IsQuiet lib rounds files loading old_config.shared_data.acme_handler
      → on_event lib rounds files loading pools_from read_to_string event old_config
        ≡ ended new_config
      → (new_config ≡ old_config)
        ⊎ ((path : Text) × (file : TomlConfig Table) × (dir : Text) × (event ≡ write path)
            × (read lib rounds files loading pools_from read_to_string path ≡ ok file)
            × (config_dir_of lib rounds files loading pools_from path ≡ ok dir)
            × IsFrom lib rounds files loading pools_from file dir
                old_config.shared_data.acme_handler new_config)
  unfolding on_event
  on_event-Reloaded read_to_string (remove path) old_config new_config quiet h = inl (cc)
  on_event-Reloaded read_to_string other_event old_config new_config quiet h = inl (cc)
  on_event-Reloaded read_to_string (write path) old_config new_config quiet h =
      let handler = old_config.shared_data.acme_handler in
      let (r, first, last) =
        Tasks.>>=-eq-ended
          (read_runtime_config lib rounds files loading pools_from read_to_string path true handler)
          _ h in
      by_result r first last
    where
      by_result :
          (r : Result (RuntimeConfig Headers Body Map (CertifiedKey Cert SigningKey)) IoError
            × AcmeHandler)
          → read_runtime_config lib rounds files loading pools_from read_to_string path true
              old_config.shared_data.acme_handler
            ≡ ended r
          → next_config old_config r ≡ ended new_config
          → (new_config ≡ old_config)
            ⊎ ((p : Text) × (file : TomlConfig Table) × (dir : Text) × (write path ≡ write p)
                × (read lib rounds files loading pools_from read_to_string p ≡ ok file)
                × (config_dir_of lib rounds files loading pools_from p ≡ ok dir)
                × IsFrom lib rounds files loading pools_from file dir
                    old_config.shared_data.acme_handler new_config)
      by_result (err e, after) first last =
          let kept =
            read-Keeps lib rounds files loading old_config.shared_data.acme_handler quiet pools_from
              read_to_string path true (err e) after first in
          inl
            (sym (ended-injective last) ∙ ap (λ (x : AcmeHandler). with_handler old_config x) kept)
      by_result (ok config, after) first last =
          let same = ended-injective last in
          let (file, dir, e1, e2, is) =
            read_from lib rounds files loading pools_from read_to_string path
              old_config.shared_data.acme_handler quiet first in
          inr (
            path,
            file,
            dir,
            refl,
            e1,
            e2,
            subst
                (λ (c : RuntimeConfig Headers Body Map (CertifiedKey Cert SigningKey)).
                  IsFrom lib rounds files loading pools_from file dir
                    old_config.shared_data.acme_handler c)
                same is,
          )

  handler_kept :
      (read_to_string : Text → Result Text IoError) (event : DebouncedEvent)
      (old_config new_config : RuntimeConfig Headers Body Map (CertifiedKey Cert SigningKey))
      → IsQuiet lib rounds files loading old_config.shared_data.acme_handler
      → on_event lib rounds files loading pools_from read_to_string event old_config
        ≡ ended new_config
      → new_config.shared_data.acme_handler ≡ old_config.shared_data.acme_handler
  handler_kept read_to_string event old_config new_config quiet h =
      elim (on_event-Reloaded read_to_string event old_config new_config quiet h) [
        | inl same ↦
            ap
              (λ (c : RuntimeConfig Headers Body Map (CertifiedKey Cert SigningKey)).
                c.shared_data.acme_handler)
              same
        | inr (path, file, dir, is, got, found, from) ↦ from.0
      ]

  -- Through any number of turns that end, reloads that fail and orders of certificates among them,
  -- the open challenges are those of the start, if none of them is open of a token that an order
  -- would bring.
  pub watch_config-acme_handler :
      (events : List (DebouncedEvent × (Text → Result Text IoError)))
      (config last : RuntimeConfig Headers Body Map (CertifiedKey Cert SigningKey))
      → IsQuiet lib rounds files loading config.shared_data.acme_handler
      → watch_config lib rounds files loading pools_from events config ≡ ended last
      → last.shared_data.acme_handler ≡ config.shared_data.acme_handler
  unfolding watch_config
  watch_config-acme_handler [] config last quiet h = cc
  watch_config-acme_handler ((event, read_to_string) ∷ events) config last quiet h =
      let (between, first, rest) =
        Tasks.>>=-eq-ended
          (on_event lib rounds files loading pools_from read_to_string event config) _ h in
      let kept = handler_kept read_to_string event config between quiet first in
      let still : IsQuiet lib rounds files loading between.shared_data.acme_handler =
        subst (λ (x : AcmeHandler). IsQuiet lib rounds files loading x) (sym kept) quiet in
      watch_config-acme_handler events between last still rest ∙ kept

  -- A file whose addresses can be read, and whose pools panic when they are converted, makes the
  -- turn of its write panic, which ends the watcher.
  pub on_event_panics :
      (read_to_string : Text → Result Text IoError) (path dir : Text) (file : TomlConfig Table)
      (http_address https_address : SocketAddr)
      (old_config : RuntimeConfig Headers Body Map (CertifiedKey Cert SigningKey))
      → read lib rounds files loading pools_from read_to_string path ≡ ok file
      → config_dir_of lib rounds files loading pools_from path ≡ ok dir
      → loading.parse_address file.http_address ≡ ok http_address
      → loading.parse_address file.https_address ≡ ok https_address
      → pools_from file.backend_pools ≡ panic
      → on_event lib rounds files loading pools_from read_to_string (write path) old_config
        ≡ panicked
  unfolding on_event read_runtime_config
  on_event_panics read_to_string path dir file http_address https_address old_config e1 e2 e3 e4
        e5 =
      rw (e1, e2, e3, e4, e5, read_runtime_config, runtime_config_from_toml_config) refl

module _ {Table Cert SigningKey : Type 0} (lib other_lib : AcmeLib) (rounds other_rounds : ℕ)
    (files : Files Cert SigningKey) (loading : Loading Table Cert SigningKey) where
  -- Without the initialisation of ACME certificates the authority plays no part: with any two
  -- authorities, which may answer differently or never, the same certificates are loaded from the
  -- files.
  pub load_certificates-no_order :
      (config_dir : Text) (configs : List (Text × CertificateConfig))
      (certificates : HashMap (CertifiedKey Cert SigningKey)) (handler : AcmeHandler)
      → load_certificates lib rounds files loading false config_dir configs certificates handler
        ≡ load_certificates other_lib other_rounds files loading false config_dir configs
            certificates handler
  unfolding load_certificates create_certified_key
  load_certificates-no_order dir [] certificates handler = refl
  load_certificates-no_order dir ((sni, local c k) ∷ configs) certificates handler =
      elim (Result-cases (loading.dns_name sni)) [
        | inr (e, bad) ↦ rw bad refl
        | inl (n, is) ↦ rw is (
            >>=-congr (create_certified_key lib rounds files loading dir (local c k) n)
              (λ key.
                load_certificates lib rounds files loading false dir configs
                  (insert n key certificates))
              (λ key.
                load_certificates other_lib other_rounds files loading false dir configs
                  (insert n key certificates))
              handler
              (λ key between.
                load_certificates-no_order dir configs (insert n key certificates) between))
      ]
  load_certificates-no_order dir ((sni, acme s e d) ∷ configs) certificates handler =
      elim (Result-cases (loading.dns_name sni)) [
        | inr (e, bad) ↦ rw (bad) refl
        | inl (n, is) ↦ rw is (load_certificates-no_order dir configs certificates handler)
      ]
