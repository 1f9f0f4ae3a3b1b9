-- ===== src/LoadBalancing/RoundRobin.antt =====
-- src/load_balancing/round_robin.rs: the counter `rrc` is the state, a `u32` behind a mutex.
pub mod Fairness
use another_rust_load_balanc.Prelude.{
  ℕ, zero, suc, ◌+◌, ◌%◌, ◌^◌, Text, List, [], ◌∷◌, Outcome, done, panic, unwrap, length, eqb,
  get_elem?, if◌then◌else◌,
}
use another_rust_load_balanc.Prelude.Panics.{◌>>=◌}
use another_rust_load_balanc.LoadBalancing.{Context, RequestForwarder, new_forwarder}

abbrev pub u32_mod : ℕ
u32_mod = 2 ^ 32

-- `RoundRobin::new`.
abbrev pub new : ℕ
new = 0

-- `(*rrc + 1) % len as u32`: `as` binds tighter than `%`, the sum wraps, and a remainder by zero
-- panics.
unfoldable pub advance : ℕ → List Text → Outcome ℕ
advance rrc backend_addresses =
    let len = length backend_addresses % u32_mod in
    if eqb len 0 then panic else done ((rrc + 1) % u32_mod % len)

-- The new counter, and the forwarder to the address that stands there.
unfoldable pub select_backend :
    {Headers Body : Type 0} → ℕ → Context → Outcome (ℕ × RequestForwarder Headers Body)
unfolding advance new_forwarder
select_backend rrc context = do
  index ← advance rrc context.backend_addresses
  address ← unwrap (get_elem? context.backend_addresses index)
  done (index, new_forwarder address)
