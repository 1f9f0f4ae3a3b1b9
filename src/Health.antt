-- ===== src/Health.antt =====
-- src/health.rs: how healthy a backend is, and the check of one backend. The network is a
-- parameter: what the probe's client returns and how long it took.
pub mod Verdicts
pub mod Rounds
pub mod Watching
mod Tests
use another_rust_load_balanc.Prelude.{
  ℕ, ◌-◌, ◌^◌, Text, codes, Bool, true, false, not, ◌&&◌, Option, none, some, Outcome, done, panic,
  unwrap, eqb, ltb, leb, if◌then◌else◌,
}
use another_rust_load_balanc.Prelude.Int.{ℤ, pos, negsuc, ltb_ℤ, eq_ℤ}
use another_rust_load_balanc.Prelude.Panics.{◌>>=◌}
use another_rust_load_balanc.Http.{Uri}

pub record HealthConfig : Type 0 where
  pub slow_threshold : ℤ
  pub timeout : ℕ
  pub path : Text

pub data Healthiness : Type 0 where
  healthy : Healthiness
  slow : ℤ → Healthiness
  unresponsive : Option ℕ → Healthiness

abbrev pub status_eq : Option ℕ → Option ℕ → Bool
status_eq none none = true
status_eq (some a) (some b) = eqb a b
status_eq _ _ = false

-- The derived `PartialEq`.
unfoldable pub healthiness_eq : Healthiness → Healthiness → Bool
healthiness_eq healthy healthy = true
healthiness_eq (slow a) (slow b) = eq_ℤ a b
healthiness_eq (unresponsive a) (unresponsive b) = status_eq a b
healthiness_eq _ _ = false

-- `StatusCode::is_success`: the hundred codes from 200 on.
abbrev pub is_success : ℕ → Bool
is_success status = leb 200 status && leb status 299

abbrev pub i64_max : ℕ
i64_max = 2 ^ 63 - 1

-- The probe: the status of the response, if there is one before the timeouts, and the milliseconds
-- until it came. `SystemTime::elapsed` has none when the clock was set back meanwhile, to before the
-- request.
pub record Probe : Type 0 where
  pub status : Option ℕ
  pub elapsed : Option ℕ

-- No time, or one that is no `i64`, makes an `unwrap` panic.
unfoldable pub contact_server : Probe → ℤ → Outcome Healthiness
contact_server probe slow_threshold = elim probe.status [
  | none ↦ done (unresponsive none)
  | some status ↦
      if is_success status
      then elim probe.elapsed [
        | none ↦ panic
        | some time_to_respond ↦
            if ltb i64_max time_to_respond
            then panic
            else if ltb_ℤ slow_threshold (pos time_to_respond)
            then done (slow (pos time_to_respond))
            else done healthy
      ]
      else done (unresponsive (some status))
]

-- The network, with the URI that `uri::Builder` makes of an address and a path.
pub record Network : Type 0 where
  pub build_uri : Text → Text → Text → Option Uri
  pub get : Uri → ℕ → Probe

-- The healthiness after the check: it is stored only if it differs from the one before.
unfoldable pub check_server_health_once :
    Network → Text → Healthiness → HealthConfig → Outcome Healthiness
unfolding contact_server healthiness_eq
check_server_health_once network server_address previous health_config = do
  uri ← unwrap (network.build_uri (codes "http") server_address health_config.path)
  result ← contact_server (network.get uri health_config.timeout) health_config.slow_threshold
  done (if not (healthiness_eq previous result) then result else previous)
