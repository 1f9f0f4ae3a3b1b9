-- ===== src/Health/Watching.antt =====
-- The loop of `watch_health` in src/health.rs, between two reloads of the configuration.
use mathlib.Core.Path.{subst}
use another_rust_load_balanc.Prelude.{
  ℕ, ◌≡◌, refl, sym, ap, ◌∙◌, Bool-cases, inl, inr, Option, none, some, List, [], ◌∷◌, All, Outcome,
  done, eqb, if◌then◌else◌, Text,
}
use another_rust_load_balanc.Prelude.Panics.{◌>>=◌}
use another_rust_load_balanc.Health.{HealthConfig, Healthiness, Network}
use another_rust_load_balanc.Health.Rounds.{
  check_pools, IsProbed, AreChecked, ArePoolsChecked, check_pools-ArePoolsChecked,
}
use another_rust_load_balanc.Server.{BackendPool}

-- The network of the last turn with checks; `before` if there is none.
abbrev pub latest : List (ℕ × Network) → Option Network → Option Network
latest [] before = before
latest ((interval_duration, network) ∷ turns) before =
    latest turns (if eqb interval_duration 0 then before else some network)

-- Only the last of two checks counts.
AreChecked-again :
    (network next : Network) (config : HealthConfig) (l m k : List (Text × Healthiness))
    → AreChecked network config l m
    → AreChecked next config m k
    → AreChecked next config l k
AreChecked-again network next config [] [] [] h h' = tt
AreChecked-again network next config [] [] (g ∷ k) h h' = elim h' [ ]
AreChecked-again network next config [] (f ∷ m) k h h' = elim h [ ]
AreChecked-again network next config (e ∷ l) [] k h h' = elim h [ ]
AreChecked-again network next config (e ∷ l) (f ∷ m) [] h h' = elim h' [ ]
AreChecked-again network next config (e ∷ l) (f ∷ m) (g ∷ k) h h' =
    let (uri, built, verdict) = h'.1 in
    (h.0 ∙ h'.0, (uri, rw h.0 built, verdict), AreChecked-again network next config l m k h.2 h'.2)

AreChecked-IsProbed :
    (network next : Network) (config : HealthConfig) (l m : List (Text × Healthiness))
    → AreChecked network config l m
    → All (IsProbed next config) l
    → All (IsProbed next config) m
AreChecked-IsProbed network next config [] [] h probed = tt
AreChecked-IsProbed network next config [] (f ∷ m) h probed = elim h [ ]
AreChecked-IsProbed network next config (e ∷ l) [] h probed = elim h [ ]
AreChecked-IsProbed network next config (e ∷ l) (f ∷ m) h probed =
    let (uri, built, short) = probed.0 in
    ((uri, rw (sym h.0) built, short), AreChecked-IsProbed network next config l m h.2 probed.1)

module _ {Headers Body Map : Type 0} where
  -- For each turn the interval that is configured at its start, in seconds, and the network as it
  -- is then. With an interval of zero a turn only waits.
  unfoldable pub watch_health :
      List (ℕ × Network)
      → List (BackendPool Headers Body Map)
      → Outcome (List (BackendPool Headers Body Map))
  unfolding check_pools
  watch_health [] pools = done pools
  watch_health ((interval_duration, network) ∷ turns) pools =
      let waited = watch_health turns pools in
      if eqb interval_duration 0 then waited else check_pools network pools >>= watch_health turns

  -- Where no turn had checks the pools are as they were.
  abbrev pub AreWatched :
      Option Network
      → List (BackendPool Headers Body Map)
      → List (BackendPool Headers Body Map)
      → Type 0
  AreWatched none pools after = after ≡ pools
  AreWatched (some network) pools after = ArePoolsChecked network pools after

  abbrev pub AreProbed : Network → List (BackendPool Headers Body Map) → Type 0
  AreProbed network pools = All (λ p. All (IsProbed network p.health_config) p.addresses) pools

  ArePoolsChecked-again :
      (network next : Network) (l m k : List (BackendPool Headers Body Map))
      → ArePoolsChecked network l m
      → ArePoolsChecked next m k
      → ArePoolsChecked next l k
  ArePoolsChecked-again network next [] [] [] h h' = tt
  ArePoolsChecked-again network next [] [] (r ∷ k) h h' = elim h' [ ]
  ArePoolsChecked-again network next [] (q ∷ m) k h h' = elim h [ ]
  ArePoolsChecked-again network next (p ∷ l) [] k h h' = elim h [ ]
  ArePoolsChecked-again network next (p ∷ l) (q ∷ m) [] h h' = elim h' [ ]
  ArePoolsChecked-again network next (p ∷ l) (q ∷ m) (r ∷ k) h h' =
      let config : q.health_config ≡ p.health_config =
        ap (λ (b : BackendPool Headers Body Map). b.health_config) h.0 in
      (
        h'.0 ∙ ap (λ (b : BackendPool Headers Body Map). record b { addresses = r.addresses }) h.0,
        AreChecked-again network next p.health_config p.addresses q.addresses r.addresses h.1
            (subst (λ (c : HealthConfig). AreChecked next c q.addresses r.addresses) config h'.1),
        ArePoolsChecked-again network next l m k h.2 h'.2,
      )

  ArePoolsChecked-AreProbed :
      (network next : Network) (l m : List (BackendPool Headers Body Map))
      → ArePoolsChecked network l m
      → AreProbed next l
      → AreProbed next m
  ArePoolsChecked-AreProbed network next [] [] h probed = tt
  ArePoolsChecked-AreProbed network next [] (q ∷ m) h probed = elim h [ ]
  ArePoolsChecked-AreProbed network next (p ∷ l) [] h probed = elim h [ ]
  ArePoolsChecked-AreProbed network next (p ∷ l) (q ∷ m) h probed =
      let config : q.health_config ≡ p.health_config =
        ap (λ (b : BackendPool Headers Body Map). b.health_config) h.0 in
      (
        subst (λ (c : HealthConfig). All (IsProbed next c) q.addresses) (sym config)
            (AreChecked-IsProbed network next p.health_config p.addresses q.addresses h.1 probed.0),
        ArePoolsChecked-AreProbed network next l m h.2 probed.1,
      )

  All-AreProbed :
      (network : Network) (l m : List (BackendPool Headers Body Map)) (turns : List (ℕ × Network))
      → ArePoolsChecked network l m
      → All (λ t. AreProbed t.1 l) turns
      → All (λ t. AreProbed t.1 m) turns
  All-AreProbed network l m [] h probed = tt
  All-AreProbed network l m (t ∷ turns) h probed = (
    ArePoolsChecked-AreProbed network t.1 l m h probed.0,
    All-AreProbed network l m turns h probed.1,
  )

  AreWatched-again :
      (before : Option Network) (network : Network) (l m k : List (BackendPool Headers Body Map))
      → AreWatched before l m
      → ArePoolsChecked network m k
      → ArePoolsChecked network l k
  AreWatched-again none network l m k same checked =
      subst (λ (l : List (BackendPool Headers Body Map)). ArePoolsChecked network l k) same checked
  AreWatched-again (some earlier) network l m k h checked =
      ArePoolsChecked-again earlier network l m k h checked

  from_there :
      (turns : List (ℕ × Network)) (before : Option Network)
      (start pools : List (BackendPool Headers Body Map))
      → All (λ t. AreProbed t.1 pools) turns
      → AreWatched before start pools
      → (after : List (BackendPool Headers Body Map)) × (watch_health turns pools ≡ done after)
        × AreWatched (latest turns before) start after
  unfolding watch_health
  from_there [] before start pools probed h = (pools, refl, h)
  from_there ((interval_duration, network) ∷ turns) before start pools probed h =
      elim (Bool-cases (eqb interval_duration 0)) [
        | inl zero ↦
            let (after, is, watched) = from_there turns before start pools probed.1 h in
            rw zero (after, is, watched)
        | inr some_time ↦
            let (between, is, checked) = check_pools-ArePoolsChecked network pools probed.0 in
            let (after, rest, watched) =
              from_there turns (some network) start between
                (All-AreProbed network pools between turns checked probed.1)
                (AreWatched-again before network start pools between h checked) in
            rw (some_time, is) (after, rest, watched)
      ]

  -- When every address of every pool makes a URI, the clock is not set back during a
  -- probe, and the probes end within an `i64` of milliseconds, the loop does not panic in any number of turns. Afterwards the pools are as they
  -- were but for their addresses: these are the same, in the same order, each with the verdict of
  -- its probe in the last turn whose interval was not zero. Without such a turn nothing changed.
  pub watch_health-AreWatched :
      (turns : List (ℕ × Network)) (pools : List (BackendPool Headers Body Map))
      → All (λ t. AreProbed t.1 pools) turns
      → (after : List (BackendPool Headers Body Map)) × (watch_health turns pools ≡ done after)
        × AreWatched (latest turns none) pools after
  watch_health-AreWatched turns pools probed = from_there turns none pools pools probed refl
