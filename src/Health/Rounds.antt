-- ===== src/Health/Rounds.antt =====
-- One round of the loop of `watch_health` in src/health.rs over all pools. The checks run together,
-- each on the cell of its own address; a check that panics ends the loop.
use another_rust_load_balanc.Prelude.{
  ◌≡◌, refl, Text, codes, some, List, [], ◌∷◌, All, Outcome, done,
}
use another_rust_load_balanc.Prelude.Panics.{◌>>=◌}
use another_rust_load_balanc.Http.{Uri}
use another_rust_load_balanc.Health.{HealthConfig, Healthiness, Network, check_server_health_once}
use another_rust_load_balanc.Health.Verdicts.{IsTimed, Verdict, check_server_health_once-Verdict}
use another_rust_load_balanc.Server.{BackendPool}

unfoldable pub check_addresses :
    Network → HealthConfig → List (Text × Healthiness) → Outcome (List (Text × Healthiness))
unfolding check_server_health_once
check_addresses network config [] = done []
check_addresses network config ((address, previous) ∷ addresses) = do
  healthiness ← check_server_health_once network address previous config
  rest ← check_addresses network config addresses
  done ((address, healthiness) ∷ rest)

unfoldable pub check_pools :
    {Headers Body Map : Type 0}
    → Network
    → List (BackendPool Headers Body Map)
    → Outcome (List (BackendPool Headers Body Map))
unfolding check_addresses
check_pools network [] = done []
check_pools network (pool ∷ pools) = do
  addresses ← check_addresses network pool.health_config pool.addresses
  rest ← check_pools network pools
  done (record pool { addresses = addresses } ∷ rest)

-- An address that makes a URI, whose probe takes a time that is an `i64`.
abbrev pub IsProbed : Network → HealthConfig → Text × Healthiness → Type 0
IsProbed network config e =
    (uri : Uri) × (network.build_uri (codes "http") e.0 config.path ≡ some uri)
    × IsTimed (network.get uri config.timeout)

-- The same addresses in the same order, each with the verdict of its probe.
abbrev pub AreChecked :
    Network → HealthConfig → List (Text × Healthiness) → List (Text × Healthiness) → Type 0
AreChecked network config [] [] = Unit
AreChecked network config (e ∷ l) (f ∷ m) =
    (e.0 ≡ f.0)
    × ((uri : Uri) × (network.build_uri (codes "http") e.0 config.path ≡ some uri)
        × Verdict (network.get uri config.timeout) config.slow_threshold f.1)
    × AreChecked network config l m
AreChecked network config _ _ = ⊥

check_addresses-AreChecked :
    (network : Network) (config : HealthConfig) (l : List (Text × Healthiness))
    → All (IsProbed network config) l
    → (m : List (Text × Healthiness)) × (check_addresses network config l ≡ done m)
      × AreChecked network config l m
unfolding check_addresses
check_addresses-AreChecked network config [] h = ([], refl, tt)
check_addresses-AreChecked network config ((a, previous) ∷ l) h =
    let (uri, built, short) = h.0 in
    let (now, is, verdict) =
      check_server_health_once-Verdict network a previous config uri built short in
    let (m, rest, checked) = check_addresses-AreChecked network config l h.1 in
    ((a, now) ∷ m, rw (is, rest) refl, (refl, (uri, built, verdict), checked))

module _ {Headers Body Map : Type 0} (network : Network) where
  abbrev pub ArePoolsChecked :
      List (BackendPool Headers Body Map) → List (BackendPool Headers Body Map) → Type 0
  ArePoolsChecked [] [] = Unit
  ArePoolsChecked (p ∷ l) (q ∷ m) =
      (q ≡ record p { addresses = q.addresses })
      × AreChecked network p.health_config p.addresses q.addresses
      × ArePoolsChecked l m
  ArePoolsChecked _ _ = ⊥

  -- When every address of every pool makes a URI, the clock is not set back during its
  -- probe, and the probe ends within an `i64` of milliseconds, a round does not panic. Afterwards every pool is as before but for its
  -- addresses: these are the same, in the same order, each with the verdict of its own probe by
  -- the settings of its own pool.
  pub check_pools-ArePoolsChecked :
      (pools : List (BackendPool Headers Body Map))
      → All (λ p. All (IsProbed network p.health_config) p.addresses) pools
      → (after : List (BackendPool Headers Body Map)) × (check_pools network pools ≡ done after)
        × ArePoolsChecked pools after
  unfolding check_pools
  check_pools-ArePoolsChecked [] h = ([], refl, tt)
  check_pools-ArePoolsChecked (p ∷ pools) h =
      let (addresses, is, checked) =
        check_addresses-AreChecked network p.health_config p.addresses h.0 in
      let (rest, later, all_checked) = check_pools-ArePoolsChecked pools h.1 in
      (record p { addresses = addresses } ∷ rest, rw (is, later) refl, (refl, checked, all_checked))
