-- ===== src/Configuration/Tests.antt =====
-- Runs of the theorems on src/configuration.rs.
use mathlib.Core.Path.{subst}
use another_rust_load_balanc.Prelude.{
  ℕ, ◌≡◌, ◌⊎◌, refl, Text, codes, true, Option, some, none, List, [], ◌∷◌, All, Result, ok, err,
  ◌==◌, Outcome, panic, inl, strip_prefix,
}
use another_rust_load_balanc.Prelude.Maps.{insert, get}
use another_rust_load_balanc.Prelude.Tasks.{ended, panicked}
use another_rust_load_balanc.Http.Assoc as Assoc
use another_rust_load_balanc.Samples.{one, two, client, maps, acme_lib, key_files, toml}
use another_rust_load_balanc.Tls.{
  CertifiedKey, IoError, not_found, certified_key_from_acme_certificate, load_certified_key,
  resolve,
}
use another_rust_load_balanc.Acme.{
  AcmeHandler, get_proof_for_challenge, receive, add_challenge, remove_challenge,
}
use another_rust_load_balanc.Acme.Challenges.{IsFresh}
use another_rust_load_balanc.Acme.Ordering.{initiate_challenge, generate_and_validate_challenge}
use another_rust_load_balanc.Matcher.Pom.Standard.{standard, standard_laws, repeat_all}
use another_rust_load_balanc.Matcher.Grammar as Grammar
use another_rust_load_balanc.Matcher.Grammar.{Accepted, from, parser}
use another_rust_load_balanc.Matcher.Grammar.Rules.{from_iff}
use another_rust_load_balanc.Middleware.RateLimiter as Rate
use another_rust_load_balanc.Configuration.{
  BackendPoolConfig, chain_from, by_random, default_health_config,
}
use another_rust_load_balanc.Configuration.Chains.{members, Described, chain_from-members}
use another_rust_load_balanc.Configuration.Pools.{pools_from}
use another_rust_load_balanc.Configuration.Runtime.{
  TomlFields, TomlConfig, RuntimeConfig, Loading, CertificateConfig, local, acme, with_defaults,
}
use another_rust_load_balanc.Configuration.Certificates.{create_certified_key, load_certificates}
use another_rust_load_balanc.Configuration.Checked.{load_certificates-resolve}
use another_rust_load_balanc.Configuration.Reading.{read, config_dir_of}
use another_rust_load_balanc.Configuration.Watching.{write, on_event, watch_config}
use another_rust_load_balanc.Configuration.Keeping.{IsQuiet}
use another_rust_load_balanc.Configuration.Origins.{IsFrom}
use another_rust_load_balanc.Configuration.Reloading.{on_event-Reloaded, watch_config-acme_handler}
use another_rust_load_balanc.Configuration.InvalidRules.{IsNoRule, on_event-invalid_rule}
use another_rust_load_balanc.Server.{BackendPool, Client}

abbrev table : List (Text × Text)
table = (codes "Compression", []) ∷ (codes "Unknown", []) ∷ (codes "RateLimiter", []) ∷ []

chain_from-members_example : Described toml maps table (members (chain_from toml maps table))
chain_from-members_example = chain_from-members toml maps table

abbrev no_client : Option ℕ → Option ℕ → Client Assoc.Entries Text
no_client timeout idle = λ r. none

abbrev accepted : Accepted
accepted = record { regex = λ t. true; method = λ t. true }

abbrev pools :
    List (BackendPoolConfig (List (Text × Text)))
    → Outcome (List (BackendPool Assoc.Entries Text Rate.Entries))
pools = pools_from toml maps standard accepted no_client

-- A certificate that is ordered and one that is read.
abbrev fields : TomlFields (List (Text × Text))
fields = record {
  http_address = none;
  https_address = none;
  backend_pools = none;
  certificates = some ((one, acme true [] []) ∷ (two, local (codes "c") (codes "k")) ∷ []);
  health_interval = none;
}

abbrev loading : Loading (List (Text × Text)) Text Text
loading = record {
  parse_address = λ t. ok client;
  dns_name = λ t. ok t;
  join = λ dir path. path;
  cross_check = λ key name. ok tt;
  from_str = λ t. ok fields;
  canonicalize = λ path. ok path;
  parent = λ path. some path;
}

abbrev handler : AcmeHandler
handler = record { token = codes "t"; proof = codes "p" } ∷ []

abbrev old : RuntimeConfig Assoc.Entries Text Rate.Entries (CertifiedKey Text Text)
old = record {
  http_address = client;
  https_address = client;
  shared_data = record { backend_pools = []; acme_handler = handler };
  certificates = [];
  health_interval = 7;
}

abbrev renewed : RuntimeConfig Assoc.Entries Text Rate.Entries (CertifiedKey Text Text)
renewed = record old {
  certificates =
      (one, record { certificates = codes "x509" ∷ []; key = codes "rsa" })
      ∷ (two, record { certificates = codes "c" ∷ []; key = codes "k" })
      ∷ [];
  health_interval = 10;
}

abbrev read_to_string : Text → Result Text IoError
read_to_string path = ok path

-- The file is gone for a moment.
abbrev read_nothing : Text → Result Text IoError
read_nothing path = err (record { kind = not_found; message = path })

fresh_u : get_proof_for_challenge (codes "u") handler ≡ none
unfolding get_proof_for_challenge ◌==◌
fresh_u = refl

quiet : IsQuiet acme_lib 2 key_files loading handler
unfolding generate_and_validate_challenge
quiet acc name ord_new taken =
    let same : 1 ≡ ord_new = cc in
    subst (λ (n : ℕ). All (IsFresh handler) (generate_and_validate_challenge acme_lib 2 n).0) same
      (fresh_u, tt)

reloaded :
    on_event acme_lib 2 key_files loading pools read_to_string (write (codes "f")) old
    ≡ ended renewed
unfolding on_event insert ◌==◌ pools_from create_certified_key initiate_challenge receive
    certified_key_from_acme_certificate load_certified_key remove_challenge add_challenge
reloaded = refl

on_event-Reloaded_example :
    (renewed ≡ old)
    ⊎ ((path : Text) × (file : TomlConfig (List (Text × Text))) × (dir : Text) × (write (codes "f")
          ≡ write path)
        × (read acme_lib 2 key_files loading pools read_to_string path ≡ ok file)
        × (config_dir_of acme_lib 2 key_files loading pools path ≡ ok dir)
        × IsFrom acme_lib 2 key_files loading pools file dir handler renewed)
on_event-Reloaded_example =
    on_event-Reloaded acme_lib 2 key_files loading pools read_to_string (write (codes "f")) old
      renewed quiet reloaded

watched :
    watch_config acme_lib 2 key_files loading pools
      ((write (codes "f"), read_nothing) ∷ (write (codes "f"), read_to_string) ∷ [])
      old
    ≡ ended renewed
unfolding watch_config insert ◌==◌ pools_from create_certified_key initiate_challenge receive
    certified_key_from_acme_certificate load_certified_key remove_challenge add_challenge
watched = refl

watch_config-acme_handler_example : renewed.shared_data.acme_handler ≡ old.shared_data.acme_handler
watch_config-acme_handler_example =
    watch_config-acme_handler acme_lib 2 key_files loading pools
      ((write (codes "f"), read_nothing) ∷ (write (codes "f"), read_to_string) ∷ []) old renewed
      quiet watched

abbrev certificate_configs : List (Text × CertificateConfig)
certificate_configs = (one, acme true [] []) ∷ (two, local (codes "c") (codes "k")) ∷ []

loaded :
    load_certificates acme_lib 2 key_files loading true (codes "f") certificate_configs [] handler
    ≡ ended (ok renewed.certificates, handler)
unfolding load_certificates insert ◌==◌ create_certified_key initiate_challenge receive
    certified_key_from_acme_certificate load_certified_key remove_challenge add_challenge
loaded = refl

resolved :
    resolve renewed.certificates (some two)
    ≡ some (record { certificates = codes "c" ∷ []; key = codes "k" })
unfolding resolve get ◌==◌
resolved = refl

load_certificates-resolve_example :
    loading.cross_check (record { certificates = codes "c" ∷ []; key = codes "k" }) two ≡ ok tt
load_certificates-resolve_example =
    load_certificates-resolve acme_lib 2 key_files loading true (codes "f") certificate_configs
      handler handler renewed.certificates two
      (record { certificates = codes "c" ∷ []; key = codes "k" }) loaded resolved

-- A pool whose rule has no quotes.
abbrev unquoted : BackendPoolConfig (List (Text × Text))
unquoted = record {
  matcher = codes "Host(h)";
  addresses = one ∷ [];
  schemes = [];
  health_config = default_health_config;
  client = none;
  strategy = by_random;
  middlewares = [];
}

abbrev invalid : Loading (List (Text × Text)) Text Text
invalid = record loading {
  from_str = λ t. ok (record fields { backend_pools = some (unquoted ∷ []) });
}

unquoted_panics : from standard accepted unquoted.matcher ≡ panic
unfolding from Grammar.value Grammar.string Grammar.char_string Grammar.space parser repeat_all
    strip_prefix
unquoted_panics = refl

unquoted-IsNoRule : IsNoRule toml maps standard standard_laws accepted no_client unquoted.matcher
unquoted-IsNoRule m is =
    let reads = (from_iff standard standard_laws accepted unquoted.matcher m).1 is in
    cc (unquoted_panics, reads)

on_event-invalid_rule_example :
    on_event acme_lib 2 key_files invalid pools read_to_string (write (codes "f")) old ≡ panicked
unfolding read
on_event-invalid_rule_example =
    on_event-invalid_rule toml maps standard standard_laws accepted no_client acme_lib 2 key_files
      invalid read_to_string (codes "f") (codes "f")
      (with_defaults (record fields { backend_pools = some (unquoted ∷ []) })) client client old
      unquoted refl refl refl refl (inl refl) unquoted-IsNoRule
