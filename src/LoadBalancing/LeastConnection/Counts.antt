-- ===== src/LoadBalancing/LeastConnection/Counts.antt =====
-- The counts that src/load_balancing/least_connection.rs keeps, against the connections that are
-- open: an event for each call of `on_tcp_open` and `on_tcp_close`.
use another_rust_load_balanc.Prelude.{
  Option-cases, inl, inr, ◌%◌, true, ℕ, ◌+◌, ◌-◌, ◌<◌, ◌≡◌, refl, Text, Bool, false, Option, none,
  some, List, [], ◌∷◌, length, arith, eqb, ◌==◌, eq_iff, if◌then◌else◌,
}
use another_rust_load_balanc.Prelude.Maps
use another_rust_load_balanc.Prelude.Maps.{get-insert}
use another_rust_load_balanc.Prelude.Options.{◌>>=◌}
use another_rust_load_balanc.Http.{Uri}
use another_rust_load_balanc.LoadBalancing.LeastConnection.{
  Connections, new, usize_mod, or_insert, on_tcp_open, on_tcp_close,
}

pub data Event : Type 0 where
  opened closed : Uri → Event

pub notify : Event → Connections → Connections
notify (opened remote) connections = on_tcp_open remote connections
notify (closed remote) connections = on_tcp_close remote connections

unfoldable pub notify_all : List Event → Connections → Connections
notify_all [] connections = connections
notify_all (e ∷ es) connections = notify_all es (notify e connections)

abbrev pub is_to : Text → Uri → Bool
is_to a remote = elim remote.authority [ none ↦ false | some b ↦ b == a ]

-- How many connections to `a` are open after an event, if no connection that is not open closes.
unfoldable pub balance_step : Text → Event → ℕ → Option ℕ
balance_step a (opened remote) n = some (if is_to a remote then n + 1 else n)
balance_step a (closed remote) n =
    if is_to a remote then (if eqb n 0 then none else some (n - 1)) else some n

unfoldable pub balance : Text → List Event → ℕ → Option ℕ
balance a [] n = some n
balance a (e ∷ es) n = do m ← balance_step a e n; balance a es m

abbrev pub count : Text → Connections → ℕ
count a connections = or_insert 0 (Maps.get a connections)

count-insert :
    (b a : Text) (v : ℕ) (connections : Connections)
    → count a (Maps.insert b v connections) ≡ (if b == a then v else count a connections)
count-insert b a v connections = ground (arith, get-insert b a v connections)

module _ (a : Text) (remote : Uri) (n : ℕ) (connections : Connections) where
  pub opened-balance :
      count a connections ≡ n
      → n + 1 < usize_mod
      → count a (on_tcp_open remote connections) ≡ (if is_to a remote then n + 1 else n)
  unfolding on_tcp_open
  opened-balance same small = elim (Option-cases remote.authority) [
    | inl nowhere ↦ rw (nowhere) same
    | inr (b, to) ↦
        let v = (or_insert 0 (Maps.get b connections) + 1) % usize_mod in
        rw to (ground (arith, count-insert b a v connections, eq_iff b a))
  ]

  pub closed-balance :
      count a connections ≡ n
      → n < usize_mod
      → (is_to a remote ≡ true → 0 < n)
      → count a (on_tcp_close remote connections) ≡ (if is_to a remote then n - 1 else n)
  unfolding on_tcp_close
  closed-balance same small some_open = elim (Option-cases remote.authority) [
    | inl nowhere ↦ rw (nowhere) same
    | inr (b, to) ↦
        let v = (or_insert 1 (Maps.get b connections) + usize_mod - 1) % usize_mod in
        let some_b : (b == a) ≡ true → 0 < n = rw to at some_open in
        rw to (ground (arith, count-insert b a v connections, eq_iff b a, some_b))
  ]

notify-balance :
    (a : Text) (e : Event) (n : ℕ) (connections : Connections) {m : ℕ}
    → count a connections ≡ n
    → n + 1 < usize_mod
    → balance_step a e n ≡ some m
    → count a (notify e connections) ≡ m
unfolding notify balance_step
notify-balance a (opened remote) n connections same small step =
    ground (arith, opened-balance a remote n connections same small)
notify-balance a (closed remote) n connections same small step =
    ground (arith, closed-balance a remote n connections same)

balance_step-le : (a : Text) (e : Event) (n : ℕ) {m : ℕ} → balance_step a e n ≡ some m → m < n + 2
unfolding balance_step
balance_step-le a (opened remote) n h = ground arith
balance_step-le a (closed remote) n h = ground arith

notify_all-balance :
    (a : Text) (es : List Event) (n : ℕ) (connections : Connections) {m : ℕ}
    → count a connections ≡ n
    → n + length es + 1 < usize_mod
    → balance a es n ≡ some m
    → count a (notify_all es connections) ≡ m
unfolding notify_all balance
notify_all-balance a [] n connections same small h = ground arith
notify_all-balance a (e ∷ es) n connections same small h =
    elim (Option-cases (balance_step a e n)) [
      | inl stuck ↦ cc (rw stuck at h)
      | inr (k, step) ↦
          notify_all-balance a es k (notify e connections)
            (notify-balance a e n connections same (omega arith) step)
            (omega (arith, balance_step-le a e n step)) (rw step at h)
    ]

-- After any sequence of fewer than 2^64 - 1 openings and closings, in which no connection to a
-- backend closes that is not open, the count of the backend is the number of its open connections.
pub notify_all-count :
    (a : Text) (es : List Event) {m : ℕ}
    → length es + 1 < usize_mod
    → balance a es 0 ≡ some m
    → count a (notify_all es new) ≡ m
notify_all-count a es small h =
    notify_all-balance a es 0 new (unfold Maps.get in refl) (omega arith) h
