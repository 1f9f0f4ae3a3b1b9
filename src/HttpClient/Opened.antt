-- ===== src/HttpClient/Opened.antt =====
-- Runs of the connector of src/http_client.rs with a least-connection strategy: its counts against
-- the streams that are open.
use another_rust_load_balanc.Prelude.{
  ℕ, ◌+◌, ◌<◌, ◌≤◌, ◌≡◌, refl, Text, Result, ok, err, List, [], ◌∷◌, ◌++◌, arith, inl, inr,
  if◌then◌else◌, Bool-cases,
}
use another_rust_load_balanc.Prelude.Maps as Maps
use another_rust_load_balanc.Http.{Uri}
use another_rust_load_balanc.LoadBalancing.LeastConnection as LeastConnection
use another_rust_load_balanc.LoadBalancing.LeastConnection.{Connections, new, usize_mod}
use another_rust_load_balanc.LoadBalancing.LeastConnection.Counts.{
  is_to, count, opened-balance, closed-balance,
}
use another_rust_load_balanc.LoadBalancing.Dispatch.{
  Strategy, least_connection, on_tcp_open, on_tcp_close,
}
use another_rust_load_balanc.HttpClient.{StrategyNotifyStream, call, drop}

module _ {Socket Error : Type 0} where
  -- The open streams after a connection, if it succeeded.
  abbrev pub add_stream :
      Result (StrategyNotifyStream Socket) Error
      → List (StrategyNotifyStream Socket)
      → List (StrategyNotifyStream Socket)
  add_stream (ok stream) streams = stream ∷ streams
  add_stream (err e) streams = streams

module _ (Socket Error : Type 0) where
  -- A run of the client, with the number of its steps: it connects, or fails to, and it drops one
  -- of its streams, in any order.
  pub data Run : ℕ → List (StrategyNotifyStream Socket) → Strategy → Type 0 where
    start : Run 0 [] (least_connection new)
    connects :
        {n : ℕ} {streams after : List (StrategyNotifyStream Socket)} {s t : Strategy}
        → Run n streams s
        → (result : Result Socket Error) (req : Uri) → t ≡ (call result req s).0
        → after ≡ add_stream (call result req s).1 streams
        → Run (n + 1) after t
    drops :
        {n : ℕ} {streams after : List (StrategyNotifyStream Socket)} {s t : Strategy}
        → Run n streams s
        → (before rest : List (StrategyNotifyStream Socket)) (self : StrategyNotifyStream Socket)
        → streams ≡ before ++ self ∷ rest
        → t ≡ drop self s
        → after ≡ before ++ rest
        → Run (n + 1) after t

module _ {Socket : Type 0} (a : Text) where
  -- How many of the streams lead to a backend.
  unfoldable pub open_to : List (StrategyNotifyStream Socket) → ℕ
  open_to [] = 0
  open_to (s ∷ streams) = let n = open_to streams in if is_to a s.target then n + 1 else n

  open_to-drop :
      (before rest : List (StrategyNotifyStream Socket)) (self : StrategyNotifyStream Socket)
      → open_to (before ++ self ∷ rest)
        ≡ (if is_to a self.target then open_to (before ++ rest) + 1 else open_to (before ++ rest))
  unfolding open_to
  open_to-drop [] rest self = refl
  open_to-drop (s ∷ before) rest self = ground (arith, open_to-drop before rest self)

module _ {Socket : Type 0} (a : Text) where
  abbrev Counted : ℕ → List (StrategyNotifyStream Socket) → Strategy → Type 0
  Counted n streams s =
      (connections : Connections) × (s ≡ least_connection connections)
      × (count a connections ≡ open_to a streams)
      × (open_to a streams ≤ n)

  connects-Counted :
      {Error : Type 0} {n : ℕ} (streams : List (StrategyNotifyStream Socket)) {s : Strategy}
      (result : Result Socket Error) (req : Uri)
      → n + 1 < usize_mod
      → Counted n streams s
      → Counted (n + 1) (add_stream (call result req s).1 streams) (call result req s).0
  unfolding call on_tcp_open open_to
  connects-Counted streams (ok stream) req small (c, is, same, below) = (
    LeastConnection.on_tcp_open req c,
    rw is refl,
    opened-balance a req (open_to a streams) c same (omega (arith, below, small)),
    ground (arith, below),
  )
  connects-Counted streams (err e) req small (c, is, same, below) =
      (c, is, same, omega (arith, below))

  drops-Counted :
      {n : ℕ} (before rest : List (StrategyNotifyStream Socket)) (s : Strategy)
      (self : StrategyNotifyStream Socket)
      → n < usize_mod
      → Counted n (before ++ self ∷ rest) s
      → Counted (n + 1) (before ++ rest) (drop self s)
  unfolding drop on_tcp_close
  drops-Counted before rest s self small (c, is, same, below) =
      let one_less = open_to-drop a before rest self in
      let closes =
        closed-balance a self.target (open_to a (before ++ self ∷ rest)) c same
          (omega (arith, below, small)) in
      (
        LeastConnection.on_tcp_close self.target c,
        rw is refl,
        elim (Bool-cases (is_to a self.target)) [
          | inl other ↦ ground (arith, one_less, closes, other)
          | inr this ↦ ground (arith, one_less, closes, this)
        ],
        ground (arith, one_less, below),
      )

  Run-Counted :
      {Error : Type 0} {n : ℕ} {streams : List (StrategyNotifyStream Socket)} {s : Strategy}
      → Run Socket Error n streams s
      → n < usize_mod
      → Counted n streams s
  unfolding open_to Maps.get
  Run-Counted start small = (new, refl, refl, omega arith)
  Run-Counted (connects {streams = streams} {s = s} r result req is after) small =
      rw (is, after)
        (connects-Counted streams result req small (Run-Counted r (omega (arith, small))))
  Run-Counted (drops {n = n} {streams = streams} {s = s} r before rest self at is after) small =
      let few : n < usize_mod = omega (arith, small) in
      rw (is, after) (drops-Counted before rest s self few (rw at at (Run-Counted r few)))

  -- In any run of fewer than 2^64 steps in which the client connects and drops its streams, the
  -- shared strategy stays a least-connection strategy, and its count for a backend is the number
  -- of the streams to that backend that are open.
  pub Run-count :
      {Error : Type 0} {n : ℕ} {streams : List (StrategyNotifyStream Socket)} {s : Strategy}
      → Run Socket Error n streams s
      → n < usize_mod
      → (connections : Connections) × (s ≡ least_connection connections)
        × (count a connections ≡ open_to a streams)
  Run-count r small = let (c, is, same, below) = Run-Counted r small in (c, is, same)
