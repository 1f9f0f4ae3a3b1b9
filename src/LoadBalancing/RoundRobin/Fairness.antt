-- ===== src/LoadBalancing/RoundRobin/Fairness.antt =====
-- The selections of src/load_balancing/round_robin.rs over several calls.
use native.Mathlib.Nat.{mod-eq_of_lt, mod_self, mod-lt}
use another_rust_load_balanc.Prelude.{
  ℕ, zero, suc, ◌+◌, ◌-◌, ◌%◌, ◌<◌, ◌≡◌, ◌∙◌, Text, List, [], ◌∷◌, ◌++◌, some, Outcome, done,
  length, get_elem?, arith, pos→eqb, get_elem?_lt, take, drop, drop_cons, take_cons, drop_all,
}
use another_rust_load_balanc.Prelude.Panics.{◌>>=◌}
use another_rust_load_balanc.LoadBalancing.{Context, new_forwarder}
use another_rust_load_balanc.LoadBalancing.RoundRobin.{u32_mod, advance, select_backend}

-- The counter moves to the next index, modulo the number of addresses; the sum does not wrap.
advance_lem :
    (rrc : ℕ) (addresses : List Text)
    → 0 < length addresses
    → length addresses < u32_mod
    → rrc + 1 < u32_mod
    → advance rrc addresses ≡ done ((rrc + 1) % length addresses)
unfolding advance
advance_lem rrc addresses some_left fits no_wrap =
    let small : length addresses % u32_mod ≡ length addresses = omega arith in
    let sum : (rrc + 1) % u32_mod ≡ rrc + 1 = omega arith in rw (small, sum) (ground arith)

next_ahead : (rrc n : ℕ) → suc rrc < n → (rrc + 1) % n ≡ suc rrc
next_ahead rrc n h = mod-eq_of_lt {n = rrc + 1} (omega arith) ∙ omega arith

next_around : (rrc n : ℕ) → rrc + 1 ≡ n → (rrc + 1) % n ≡ 0
next_around rrc n h = rw h (mod_self n)

-- A selection from any counter, under any context with an address, fewer than 2^32 of them: it
-- does not panic, returns an address of the context at the new counter, and leaves a counter whose
-- next increment does not overflow a `u32`.
pub select_backend_total :
    {Headers Body : Type 0} (rrc : ℕ) (context : Context)
    → 0 < length context.backend_addresses
    → length context.backend_addresses < u32_mod
    → (next : ℕ) × (address : Text) × (select_backend {Headers = Headers} {Body = Body} rrc context
        ≡ done (next, new_forwarder address))
      × (get_elem? context.backend_addresses next ≡ some address)
      × (next < length context.backend_addresses)
      × (next + 1 < u32_mod)
unfolding select_backend advance
select_backend_total rrc context some_left fits =
    let n = length context.backend_addresses in
    let next = (rrc + 1) % u32_mod % n in
    let small : n % u32_mod ≡ n = omega arith in
    let below : next < n = mod-lt ((rrc + 1) % u32_mod) some_left in
    let (a, found, _) = get_elem?_lt context.backend_addresses next below in
    (next, a, rw (small, pos→eqb n some_left, found), found, below, omega arith)

module _ (Headers Body : Type 0) (context : Context) where
  abbrev addresses : List Text
  addresses = context.backend_addresses

  -- A call that finds the address at the index to which the counter moves.
  select_at :
      (rrc next : ℕ) (address : Text)
      → 0 < length addresses
      → length addresses < u32_mod
      → rrc + 1 < u32_mod
      → (rrc + 1) % length addresses ≡ next
      → get_elem? addresses next ≡ some address
      → select_backend {Headers = Headers} {Body = Body} rrc context
        ≡ done (next, new_forwarder address)
  unfolding select_backend
  select_at rrc next address some_left fits no_wrap moved found =
      rw (advance_lem rrc addresses some_left fits no_wrap, moved, found)

  -- The addresses of `calls` selections in a row, with the counter that they leave.
  pub select_many : ℕ → ℕ → Outcome (ℕ × List Text)
  select_many zero rrc = done (rrc, [])
  select_many (suc calls) rrc = do
    (next, forwarder) ← select_backend {Headers = Headers} {Body = Body} rrc context
    (last, rest) ← select_many calls next
    done (last, forwarder.backend_address ∷ rest)

  module _ (some_left : 0 < length addresses) (fits : length addresses < u32_mod) where
    -- One selection and those after it.
    select_many-suc :
        (calls rrc next : ℕ) {last : ℕ} {address : Text} {rest : List Text}
        → rrc < length addresses
        → (rrc + 1) % length addresses ≡ next
        → get_elem? addresses next ≡ some address
        → select_many calls next ≡ done (last, rest)
        → select_many (suc calls) rrc ≡ done (last, address ∷ rest)
    unfolding select_many new_forwarder
    select_many-suc calls rrc next {address = a} below moved found later =
        rw (select_at rrc next a some_left fits (omega arith) moved found, later)

    -- Calls that stay below the last index.
    select_many-ahead :
        (calls rrc : ℕ)
        → rrc + calls < length addresses
        → select_many calls rrc ≡ done (rrc + calls, take calls (drop (suc rrc) addresses))
    unfolding select_many
    select_many-ahead zero rrc below = ground arith
    select_many-ahead (suc calls) rrc below =
        let (a, found, _) = get_elem?_lt addresses (suc rrc) (omega arith) in
        select_many-suc calls rrc (suc rrc) (omega arith)
          (next_ahead rrc (length addresses) (omega arith)) found
          (select_many-ahead calls (suc rrc) (omega arith))
        ∙ ground (arith, drop_cons addresses (suc rrc) found)

    -- Calls that pass the last index and go on from the first.
    select_many-around :
        (left calls rrc more : ℕ)
        → rrc + left + 1 ≡ length addresses
        → calls ≡ left + suc more
        → more < length addresses
        → select_many calls rrc ≡ done (more, drop (suc rrc) addresses ++ take (suc more) addresses)
    select_many-around zero zero rrc more last total below = absurd (omega arith)
    select_many-around zero (suc calls) rrc more last total below =
        let (a, found, _) = get_elem?_lt addresses 0 some_left in
        let ended : drop (suc rrc) addresses ≡ [] = drop_all addresses (suc rrc) (omega arith) in
        let same : calls ≡ more = omega arith in
        select_many-suc calls rrc 0 (omega arith) (next_around rrc (length addresses) (omega arith))
          found (select_many-ahead calls 0 (omega arith))
        ∙ ground (arith, take_cons addresses more found)
    select_many-around (suc left) zero rrc more last total below = absurd (omega arith)
    select_many-around (suc left) (suc calls) rrc more last total below =
        let (a, found, _) = get_elem?_lt addresses (suc rrc) (omega arith) in
        select_many-suc calls rrc (suc rrc) (omega arith)
          (next_ahead rrc (length addresses) (omega arith)) found
          (select_many-around left calls (suc rrc) more (omega arith) (omega arith) below)
        ∙ rw (drop_cons addresses (suc rrc) found)

    -- As many selections in a row as there are addresses, all under one context with fewer than
    -- 2^32 addresses and from a counter in range, return every address once: those behind the
    -- counter, then those from the first on; the counter comes back to where it was.
    pub select_many-rotation :
        (rrc : ℕ)
        → rrc < length addresses
        → select_many (length addresses) rrc
          ≡ done (rrc, drop (suc rrc) addresses ++ take (suc rrc) addresses)
    select_many-rotation rrc below =
        select_many-around (length addresses - suc rrc) (length addresses) rrc rrc (omega arith)
          (omega arith) below
