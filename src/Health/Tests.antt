-- ===== src/Health/Tests.antt =====
-- Runs of the theorems on src/health.rs.
use another_rust_load_balanc.Prelude.{
  List, [], ◌∷◌, Text, none, ◌≡◌, refl, codes, some, done, arith, ◌↔◌, panic,
}
use another_rust_load_balanc.Prelude.Int.{pos}
use another_rust_load_balanc.Samples.{one, two, backend}
use another_rust_load_balanc.Http.Assoc.{Entries}
use another_rust_load_balanc.Scheme.{http}
use another_rust_load_balanc.Matcher.{host}
use another_rust_load_balanc.LoadBalancing.Dispatch.{round_robin}
use another_rust_load_balanc.Middleware.Chain.{empty}
use another_rust_load_balanc.Middleware.RateLimiter as Rate
use another_rust_load_balanc.Server.{BackendPool}
use another_rust_load_balanc.Health.{
  HealthConfig, Healthiness, healthy, slow, Network, Probe, check_server_health_once,
  contact_server,
}
use another_rust_load_balanc.Health.Watching.{
  watch_health, AreWatched, AreProbed, watch_health-AreWatched,
}
use another_rust_load_balanc.Health.Verdicts.{
  Verdict, check_server_health_once-Verdict, PanicsOn, contact_server_panic_iff,
}

-- A backend that answers with 200 after 900 milliseconds.
abbrev late : Probe
late = record { status = some 200; elapsed = some 900 }

abbrev network : Network
network = record { build_uri = λ s a p. some (backend a); get = λ uri timeout. late }

abbrev config : HealthConfig
config = record { slow_threshold = pos 300; timeout = 1000; path = codes "/" }

check_server_health_once-Verdict_example :
    (h : Healthiness) × (check_server_health_once network one (slow (pos 1)) config ≡ done h)
    × Verdict late (pos 300) h
check_server_health_once-Verdict_example =
    check_server_health_once-Verdict network one (slow (pos 1)) config (backend one) refl
      (900, refl, omega arith)

-- A backend that answers while the clock is set back.
abbrev set_back : Probe
set_back = record { status = some 204; elapsed = none }

contact_server_panic_iff_example : (contact_server set_back (pos 300) ≡ panic) ↔ PanicsOn set_back
contact_server_panic_iff_example = contact_server_panic_iff set_back (pos 300)

abbrev pool : BackendPool Entries Text Rate.Entries
pool = record {
  matcher = host (codes "h");
  addresses = (one, slow (pos 1)) ∷ (two, healthy) ∷ [];
  health_config = config;
  strategy = round_robin 0;
  chain = empty;
  client = λ r. none;
  schemes = http ∷ [];
}

-- The network is faster after a while.
abbrev fast : Network
fast = record network { get = λ uri timeout. record { status = some 200; elapsed = some 20 } }

late_probed : AreProbed network (pool ∷ [])
late_probed = (
  (
    (backend one, refl, (900, refl, omega arith)),
    ((backend two, refl, (900, refl, omega arith)), tt),
  ),
  tt,
)

fast_probed : AreProbed fast (pool ∷ [])
fast_probed = (
  (
    (backend one, refl, (20, refl, omega arith)),
    ((backend two, refl, (20, refl, omega arith)), tt),
  ),
  tt,
)

watch_health-AreWatched_example :
    (after : List (BackendPool Entries Text Rate.Entries)) × (watch_health
        ((10, network) ∷ (10, fast) ∷ (0, network) ∷ [])
        (pool ∷ [])
      ≡ done after)
    × AreWatched (some fast) (pool ∷ []) after
watch_health-AreWatched_example =
    watch_health-AreWatched ((10, network) ∷ (10, fast) ∷ (0, network) ∷ []) (pool ∷ [])
      (late_probed, (fast_probed, (late_probed, tt)))
