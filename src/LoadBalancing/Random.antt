-- ===== src/LoadBalancing/Random.antt =====
-- src/load_balancing/random.rs. `gen_range n` is the draw from `0..n` of the thread's generator,
-- which panics for an empty range.
pub mod Laws
use another_rust_load_balanc.Prelude.{
  ℕ, Outcome, done, panic, unwrap, length, eqb, get_elem?, if◌then◌else◌,
}
use another_rust_load_balanc.Prelude.Panics.{◌>>=◌}
use another_rust_load_balanc.LoadBalancing.{Context, RequestForwarder, new_forwarder}

-- `rng.gen_range(0..n)`.
unfoldable pub draw : (ℕ → ℕ) → ℕ → Outcome ℕ
draw gen_range n = if eqb n 0 then panic else done (gen_range n)

unfoldable pub select_backend :
    {Headers Body : Type 0} → (ℕ → ℕ) → Context → Outcome (RequestForwarder Headers Body)
unfolding draw new_forwarder
select_backend gen_range context = do
  index ← draw gen_range (length context.backend_addresses)
  address ← unwrap (get_elem? context.backend_addresses index)
  done (new_forwarder address)
