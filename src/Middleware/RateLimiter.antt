-- ===== src/Middleware/RateLimiter.antt =====
-- src/middleware/rate_limiter.rs. The linked_hash_map crate is a parameter: a map that iterates in
-- the order of insertion. Instants are counts of nanoseconds.
pub mod Eviction
pub mod Window
use another_rust_load_balanc.Prelude.{
  ℕ, ◌+◌, ◌-◌, ◌/◌, ◌^◌, Text, Bool, true, false, ◌&&◌, Option, none, some, List, [], ◌∷◌, ◌++◌,
  map, ◌≡◌, Result, ok, err, take_while, eqb, ltb, leb, ◌==◌, if◌then◌else◌,
}
use another_rust_load_balanc.Http.{SocketAddr, Http, Request, Response}
use another_rust_load_balanc.ErrorResponse.{too_many_requests}

-- The requests of a client that were counted, and when the last one came.
pub record Seen : Type 0 where
  pub count : ℕ
  pub time : ℕ

abbrev pub Entries : Type 0
Entries = List (SocketAddr × Seen)

-- The derived equality of socket addresses.
unfoldable pub addr_eq : SocketAddr → SocketAddr → Bool
addr_eq a b = a.ip == b.ip && eqb a.port b.port

unfoldable pub lookup : SocketAddr → Entries → Option Seen
lookup c [] = none
lookup c ((k, s) ∷ l) = if addr_eq k c then some s else lookup c l

unfoldable pub without : SocketAddr → Entries → Entries
without c [] = []
without c ((k, s) ∷ l) = let rest = without c l in if addr_eq k c then rest else (k, s) ∷ rest

-- `LinkedHashMap`: its operations, and what is documented of the order of its entries.
pub record LinkedHashMap (Map : Type 0) : Type 0 where
  pub new : Map
  pub iter : Map → Entries
  pub remove : SocketAddr → Map → Option Seen × Map
  pub insert : SocketAddr → Seen → Map → Map

pub record LinkedHashMapLaws {Map : Type 0} (maps : LinkedHashMap Map) : Type 0 where
  pub iter_new : maps.iter maps.new ≡ []
  pub removed : (c : SocketAddr) (m : Map) → (maps.remove c m).0 ≡ lookup c (maps.iter m)
  pub iter_remove :
      (c : SocketAddr) (m : Map) → maps.iter (maps.remove c m).1 ≡ without c (maps.iter m)
  pub iter_insert :
      (c : SocketAddr) (s : Seen) (m : Map)
      → maps.iter (maps.insert c s m) ≡ without c (maps.iter m) ++ (c, s) ∷ []

pub record RateLimiter (Map : Type 0) : Type 0 where
  pub connections : Map
  pub limit : ℕ
  pub window_sec : ℕ

abbrev pub u64_max : ℕ
u64_max = 2 ^ 64 - 1

-- `now.duration_since(time).as_secs() > self.window_sec`.
abbrev pub is_old : ℕ → ℕ → Seen → Bool
is_old window_sec now s = ltb window_sec ((now - s.time) / 1_000_000_000)

module _ {Map : Type 0} (maps : LinkedHashMap Map) where
  -- `RateLimiter::new`.
  unfoldable pub new : ℕ → ℕ → RateLimiter Map
  new limit window_sec = record { connections = maps.new; limit = limit; window_sec = window_sec }

  -- The loop over `old_entries`.
  unfoldable pub remove_all : List SocketAddr → Map → Map
  remove_all [] m = m
  remove_all (c ∷ cs) m = remove_all cs (maps.remove c m).1

  -- The count of a removed entry, or 0, and one more unless that overflows.
  unfoldable pub next_count : Option Seen → ℕ
  next_count none = 1
  next_count (some s) = if ltb s.count u64_max then s.count + 1 else s.count

  unfoldable pub register_request : ℕ → SocketAddr → RateLimiter Map → Bool × RateLimiter Map
  unfolding remove_all next_count
  register_request now client_address self =
      let old_entries =
        map (λ e. e.0)
          (take_while (λ e. is_old self.window_sec now e.1) (maps.iter self.connections)) in
      let evicted = remove_all old_entries self.connections in
      let (removed, left) = maps.remove client_address evicted in
      let count = next_count removed in
      (
        leb count self.limit,
        record self {
          connections = maps.insert client_address (record { count = count; time = now }) left;
        },
      )

  unfoldable pub modify_request :
      {Headers Value Body : Type 0}
      → Http Headers Value Body
      → ℕ
      → SocketAddr
      → RateLimiter Map
      → Request Headers Body
      → RateLimiter Map × Result (Request Headers Body) (Response Headers Body)
  modify_request http now client_address self request =
      let (allowed, next) = register_request now client_address self in
      (next, if allowed then ok request else err (too_many_requests http))
