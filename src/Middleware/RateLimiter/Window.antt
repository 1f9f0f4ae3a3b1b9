-- ===== src/Middleware/RateLimiter/Window.antt =====
-- What src/middleware/rate_limiter.rs promises each client: a count of its requests that starts
-- again when the client was silent for longer than the window.
use another_rust_load_balanc.Prelude.{
  ℕ, ◌+◌, ◌*◌, ◌∙◌, ◌≤◌, ◌≡◌, refl, ap, Bool, true, false, Option, none, some, List, map,
  take_while, ltb, leb, arith, if◌then◌else◌,
}
use another_rust_load_balanc.Http.{SocketAddr}
use another_rust_load_balanc.Middleware.RateLimiter.{
  Seen, addr_eq, lookup, without, LinkedHashMap, LinkedHashMapLaws, RateLimiter, u64_max, is_old,
  remove_all, next_count, register_request,
}
use another_rust_load_balanc.Middleware.RateLimiter.Eviction.{
  old, IsSorted, AllBy, lookup-without, lookup-append, IsSorted-without, AllBy-without,
  IsSorted-append, AllBy-append, IsSorted-remove_all, AllBy-remove_all, lookup-evicted,
}

-- The count that the window keeps of a client: what was seen of it, unless its last request came
-- `window` + 1 seconds ago or earlier.
abbrev pub live : ℕ → ℕ → Option Seen → Option Seen
live window now none = none
live window now (some s) = if ltb now (s.time + (window + 1) * 1_000_000_000) then some s else none

old_lem :
    (window now : ℕ) (s : Seen)
    → is_old window now s ≡ leb (s.time + (window + 1) * 1_000_000_000) now
old_lem window now s = ground arith

kept :
    (window now : ℕ) (o : Option Seen) → (if old window now o then none else o) ≡ live window now o
kept window now none = refl
kept window now (some s) = ground (arith, old_lem window now s)

-- The count after one more request: a client not seen in the window starts at 1, and the largest
-- u64 is not exceeded.
abbrev pub counted : Option Seen → ℕ
counted none = 1
counted (some s) = if ltb s.count u64_max then s.count + 1 else u64_max

abbrev pub IsBounded : Option Seen → Type 0
IsBounded none = Unit
IsBounded (some s) = s.count ≤ u64_max

-- What is found after a removal and an insertion.
replaced :
    (here : Bool) (s : Seen) (o : Option Seen)
    → elim (if here then none else (if here then none else o)) [
      | some t ↦ some t
      | none ↦ if here then some s else none
    ]
      ≡ (if here then some s else o)
replaced true s o = refl
replaced false s none = refl
replaced false s (some t) = refl

module _ {Map : Type 0} (maps : LinkedHashMap Map) (laws : LinkedHashMapLaws maps) where
  -- Entries in the order of their times, none of them in the future.
  abbrev pub IsOrdered : ℕ → RateLimiter Map → Type 0
  IsOrdered now self =
      IsSorted (maps.iter self.connections) × AllBy now (maps.iter self.connections)

  abbrev pub seen : SocketAddr → RateLimiter Map → Option Seen
  seen c self = lookup c (maps.iter self.connections)

  next_count_lem : (o : Option Seen) → IsBounded o → next_count maps o ≡ counted o
  unfolding next_count
  next_count_lem none h = refl
  next_count_lem (some s) h = ground arith

  module _ (now : ℕ) (c : SocketAddr) (self : RateLimiter Map) (ordered : IsOrdered now self) where
    keys : List SocketAddr
    keys =
        map (λ e. e.0)
          (take_while (λ e. is_old self.window_sec now e.1) (maps.iter self.connections))

    evicted : Map
    evicted = remove_all maps keys self.connections

    seen-evicted :
        (d : SocketAddr) → lookup d (maps.iter evicted) ≡ live self.window_sec now (seen d self)
    unfolding evicted keys
    seen-evicted d =
        lookup-evicted maps laws self.window_sec now d self.connections ordered.0
        ∙ kept self.window_sec now (seen d self)

    count : ℕ
    count = next_count maps (maps.remove c evicted).0

    count_lem :
        IsBounded (live self.window_sec now (seen c self))
        → count ≡ counted (live self.window_sec now (seen c self))
    unfolding count
    count_lem bounded =
        rw (laws.removed c evicted, seen-evicted c)
          (next_count_lem (live self.window_sec now (seen c self)) bounded)

    left : Map
    left = (maps.remove c evicted).1

    IsSorted-left : IsSorted (maps.iter left)
    unfolding left evicted
    IsSorted-left = rw (laws.iter_remove c evicted) (
        IsSorted-without c (maps.iter evicted)
          (IsSorted-remove_all maps laws keys self.connections ordered.0))

    AllBy-left : AllBy now (maps.iter left)
    unfolding left evicted
    AllBy-left = rw (laws.iter_remove c evicted) (
        AllBy-without now c (maps.iter evicted)
          (AllBy-remove_all maps laws now keys self.connections ordered.1))

    lookup-left :
        (d : SocketAddr)
        → lookup d (maps.iter left)
          ≡ (if addr_eq c d then none else live self.window_sec now (seen d self))
    unfolding left
    lookup-left d =
        rw (laws.iter_remove c evicted, lookup-without c d (maps.iter evicted), seen-evicted d) refl

    abbrev entry : Seen
    entry = record { count = count; time = now }

    lookup-inserted :
        (d : SocketAddr)
        → lookup d (maps.iter (maps.insert c entry left))
          ≡ (if addr_eq c d then some entry else live self.window_sec now (seen d self))
    lookup-inserted d =
        rw
          (
            laws.iter_insert c entry left,
            lookup-append d c entry (without c (maps.iter left)),
            lookup-without c d (maps.iter left),
            lookup-left d,
          )
          (replaced (addr_eq c d) entry (live self.window_sec now (seen d self)))

    IsSorted-inserted : IsSorted (maps.iter (maps.insert c entry left))
    IsSorted-inserted = rw (laws.iter_insert c entry left) (
        IsSorted-append c entry (without c (maps.iter left))
          (IsSorted-without c (maps.iter left) IsSorted-left)
          (AllBy-without now c (maps.iter left) AllBy-left))

    AllBy-inserted : AllBy now (maps.iter (maps.insert c entry left))
    AllBy-inserted = rw (laws.iter_insert c entry left) (
        AllBy-append c entry (without c (maps.iter left))
          (AllBy-without now c (maps.iter left) AllBy-left))

    -- The window keeps what was seen of a client until `window_sec` + 1 seconds after its last
    -- request, whether that was allowed or not. When the entries are in the order of their times,
    -- none in the future, and the count that the window keeps of `c` is a u64, then one request of
    -- `c` is allowed exactly if that count, this request included and capped at the largest u64, is
    -- at most the limit. Afterwards `c` has the new count and the present as its time, every other
    -- client `d` has what the window keeps of it, and the entries are in order again.
    pub register_request-window :
        (d : SocketAddr)
        → IsBounded (live self.window_sec now (seen c self))
        → let after = register_request maps now c self in
          let new_count = counted (live self.window_sec now (seen c self)) in
          (after.0 ≡ leb new_count self.limit)
          × (seen d after.1 ≡ (
              if addr_eq c d
              then some (record { count = new_count; time = now })
              else live self.window_sec now (seen d self)))
          × IsOrdered now after.1
    unfolding register_request count left evicted keys
    register_request-window d bounded = (
      ap (λ n. leb n self.limit) (count_lem bounded),
      rw (← count_lem bounded) (lookup-inserted d),
      (IsSorted-inserted, AllBy-inserted),
    )
