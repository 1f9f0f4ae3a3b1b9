-- ===== src/LoadBalancing/IpHash/Laws.antt =====
-- The affinity of src/load_balancing/ip_hash.rs.
use native.Mathlib.Nat.{mod-lt}
use another_rust_load_balanc.Prelude.{
  ℕ, ◌%◌, ◌<◌, ◌≡◌, Text, done, length, get_elem?_lt, In, pos→eqb,
}
use another_rust_load_balanc.LoadBalancing.{Context, new_forwarder}
use another_rust_load_balanc.LoadBalancing.IpHash.{select_backend}

module _ {Headers Body : Type 0} (hash_ip : Text → ℕ) where
  -- With an address to choose from, the selection does not panic; it returns the address of the
  -- context at the hash of the client's IP, modulo the number of addresses.
  pub select_backend_total :
      (context : Context)
      → 0 < length context.backend_addresses
      → (address : Text) × (select_backend {Headers = Headers} {Body = Body} hash_ip context
          ≡ done (new_forwarder address))
        × In address context.backend_addresses
  unfolding select_backend
  select_backend_total context some_left =
      let n = length context.backend_addresses in
      let index = hash_ip context.client_address.ip % n in
      let (a, found, member) = get_elem?_lt context.backend_addresses index (mod-lt _ some_left) in
      (a, rw (pos→eqb n some_left, found), member)

  -- Two requests from one IP address, whatever their ports, are sent to the same backend, as long
  -- as the addresses to choose from are the same.
  pub select_backend_affinity :
      (first second : Context)
      → first.client_address.ip ≡ second.client_address.ip
      → first.backend_addresses ≡ second.backend_addresses
      → select_backend {Headers = Headers} {Body = Body} hash_ip first
        ≡ select_backend hash_ip second
  unfolding select_backend
  select_backend_affinity first second same_ip same_addresses = rw (same_ip, same_addresses)
