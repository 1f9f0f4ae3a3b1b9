-- ===== src/Health/Verdicts.antt =====
-- The verdicts of src/health.rs.
use another_rust_load_balanc.Prelude.{
  panic, ltb, ℕ, ◌≤◌, ◌<◌, ◌≡◌, ◌↔◌, Text, codes, true, none, some, done, arith, Option-cases,
  Bool-cases, inl, inr,
}
use another_rust_load_balanc.Prelude.Int.{ℤ, pos, ltb_ℤ, ◌≤ℤ◌}
use another_rust_load_balanc.Http.{Uri}
use another_rust_load_balanc.Health.{
  Healthiness, healthy, slow, unresponsive, HealthConfig, healthiness_eq, i64_max, Probe,
  contact_server, is_success, Network, check_server_health_once,
}

pub healthiness_eq_iff : (a b : Healthiness) → (healthiness_eq a b ≡ true) ↔ (a ≡ b)
unfolding healthiness_eq
healthiness_eq_iff healthy healthy = ground arith
healthiness_eq_iff (slow a) (slow b) = ground arith
healthiness_eq_iff (unresponsive a) (unresponsive b) = ground arith
healthiness_eq_iff a b = ground arith

-- What the documentation of the health checks promises of a verdict.
pub data Verdict (probe : Probe) (threshold : ℤ) : Healthiness → Type 0 where
  in_time :
      {status time : ℕ}
      → probe.status ≡ some status
      → 200 ≤ status
      → status < 300
      → probe.elapsed ≡ some time
      → pos time ≤ℤ threshold
      → Verdict probe threshold healthy
  too_slow :
      {status time : ℕ}
      → probe.status ≡ some status
      → 200 ≤ status
      → status < 300
      → probe.elapsed ≡ some time
      → ltb_ℤ threshold (pos time) ≡ true
      → Verdict probe threshold (slow (pos time))
  failed :
      {status : ℕ}
      → probe.status ≡ some status
      → (200 ≤ status → 300 ≤ status)
      → Verdict probe threshold (unresponsive (some status))
  silent : probe.status ≡ none → Verdict probe threshold (unresponsive none)

-- The clock is not set back during the probe, and the time of the probe is an `i64`.
abbrev pub IsTimed : Probe → Type 0
IsTimed probe = (time : ℕ) × (probe.elapsed ≡ some time) × (time ≤ i64_max)

contact_server-Verdict :
    (probe : Probe) (threshold : ℤ)
    → IsTimed probe
    → (h : Healthiness) × (contact_server probe threshold ≡ done h) × Verdict probe threshold h
unfolding contact_server
contact_server-Verdict probe threshold (time, took, short) = elim (Option-cases probe.status) [
  | inl nothing ↦ (unresponsive none, rw (nothing, contact_server), silent nothing)
  | inr (status, answered) ↦ elim (Bool-cases (is_success status)) [
    | inl good ↦ elim (Bool-cases (ltb_ℤ threshold (pos time))) [
      | inl late ↦ (
        slow (pos time),
        rw (answered, contact_server, took) (ground arith),
        too_slow answered (ground arith) (ground arith) took late,
      )
      | inr early ↦ (
        healthy,
        rw (answered, contact_server, took) (ground arith),
        in_time answered (ground arith) (ground arith) took (ground arith),
      )
    ]
    | inr bad ↦ (
      unresponsive (some status),
      rw (answered, contact_server) (rw bad),
      failed answered (λ low. ground arith),
    )
  ]
]

-- A success that takes no time that is an `i64`: the clock was set back, or it takes too long.
pub data PanicsOn (probe : Probe) : Type 0 where
  clock_set_back :
      (status : ℕ)
      → probe.status ≡ some status
      → 200 ≤ status
      → status < 300
      → probe.elapsed ≡ none
      → PanicsOn probe
  too_long :
      (status time : ℕ)
      → probe.status ≡ some status
      → 200 ≤ status
      → status < 300
      → probe.elapsed ≡ some time
      → i64_max < time
      → PanicsOn probe

-- A probe makes the check panic exactly if it was answered with a success and either the clock was
-- set back meanwhile or the answer took more milliseconds than an `i64` holds.
pub contact_server_panic_iff :
    (probe : Probe) (threshold : ℤ) → (contact_server probe threshold ≡ panic) ↔ PanicsOn probe
unfolding contact_server
contact_server_panic_iff probe threshold = (panics, panicked)
  where
    panics : contact_server probe threshold ≡ panic → PanicsOn probe
    panics h = elim (Option-cases probe.status) [
      | inl nothing ↦ cc (rw (nothing, contact_server) at h)
      | inr (status, answered) ↦ elim (Bool-cases (is_success status)) [
        | inr bad ↦ cc (rw (answered, contact_server, bad) at h)
        | inl good ↦ elim (Option-cases probe.elapsed) [
          | inl back ↦ clock_set_back status answered (ground arith) (ground arith) back
          | inr (time, took) ↦ elim (Bool-cases (ltb i64_max time)) [
            | inl late ↦
                too_long status time answered (ground arith) (ground arith) took (ground arith)
            | inr early ↦ elim (Bool-cases (ltb_ℤ threshold (pos time))) [
              | inl e ↦ cc (rw (answered, contact_server, good, took, early, e) at h)
              | inr e ↦ cc (rw (answered, contact_server, good, took, early, e) at h)
            ]
          ]
        ]
      ]
    ]

    panicked : PanicsOn probe → contact_server probe threshold ≡ panic
    panicked (clock_set_back status answered from to back) =
        rw (answered, contact_server, back) (ground arith)
    panicked (too_long status time answered from to took late) =
        rw (answered, contact_server, took) (ground arith)

-- If the address and the path make a URI, the clock is not set back during the probe, and the probe
-- ends within an `i64` of milliseconds, the check does not panic, and what it leaves stored is the
-- probe's verdict, whatever was stored before: healthy for a success within the threshold, slow with
-- its time for a later success, unresponsive with the status for any other status and without one if
-- there is no response.
pub check_server_health_once-Verdict :
    (network : Network) (address : Text) (previous : Healthiness) (config : HealthConfig)
    (uri : Uri)
    → network.build_uri (codes "http") address config.path ≡ some uri
    → IsTimed (network.get uri config.timeout)
    → (h : Healthiness) × (check_server_health_once network address previous config ≡ done h)
      × Verdict (network.get uri config.timeout) config.slow_threshold h
unfolding check_server_health_once
check_server_health_once-Verdict network address previous config uri built timed =
    let (h, is, verdict) =
      contact_server-Verdict (network.get uri config.timeout) config.slow_threshold timed in
    (h, rw (built, is) (ground (arith, healthiness_eq_iff previous h)), verdict)
