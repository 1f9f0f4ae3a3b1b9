-- ===== src/LoadBalancing/Random/Laws.antt =====
-- The selection of src/load_balancing/random.rs.
use another_rust_load_balanc.Prelude.{ℕ, ◌<◌, ◌≡◌, Text, done, length, get_elem?_lt, In, pos→eqb}
use another_rust_load_balanc.LoadBalancing.{Context, new_forwarder}
use another_rust_load_balanc.LoadBalancing.Random.{select_backend}

pub select_backend_total :
    {Headers Body : Type 0} (gen_range : ℕ → ℕ) (context : Context)
    → ((n : ℕ) → 0 < n → gen_range n < n)
    → 0 < length context.backend_addresses
    → (address : Text) × (select_backend {Headers = Headers} {Body = Body} gen_range context
        ≡ done (new_forwarder address))
      × In address context.backend_addresses
unfolding select_backend
select_backend_total gen_range context in_range some_left =
    let n = length context.backend_addresses in
    let (a, found, member) =
      get_elem?_lt context.backend_addresses (gen_range n) (in_range n some_left) in
    (a, rw (pos→eqb n some_left, found), member)
