-- ===== src/LoadBalancing/IpHash.antt =====
-- src/load_balancing/ip_hash.rs. The standard hasher is a parameter: a function from the client's
-- IP address to a `u64`.
pub mod Laws
use another_rust_load_balanc.Prelude.{
  ℕ, ◌%◌, Text, Outcome, done, panic, unwrap, length, eqb, get_elem?, if◌then◌else◌,
}
use another_rust_load_balanc.Prelude.Panics.{◌>>=◌}
use another_rust_load_balanc.LoadBalancing.{Context, RequestForwarder, new_forwarder}

-- `hasher.finish() % len as u64`, which panics for no address.
unfoldable pub select_backend :
    {Headers Body : Type 0} → (Text → ℕ) → Context → Outcome (RequestForwarder Headers Body)
unfolding new_forwarder
select_backend hash_ip context =
    let len = length context.backend_addresses in
    if eqb len 0 then panic else do
      address ←
          unwrap (get_elem? context.backend_addresses (hash_ip context.client_address.ip % len))
      done (new_forwarder address)
