-- ===== src/Middleware/RateLimiter/Eviction.antt =====
-- The eviction of old entries in src/middleware/rate_limiter.rs, which stops at the first entry
-- that is not old.
use another_rust_load_balanc.Prelude.{
  ℕ, ◌-◌, ◌/◌, ◌≤◌, ◌≡◌, ◌↔◌, refl, Bool, true, false, ◌||◌, Option, none, some, List, [], ◌∷◌,
  ◌++◌, map, take_while, All, ltb, eq_iff, arith, if◌then◌else◌, Bool-cases, inl, inr,
}
use another_rust_load_balanc.Http.{SocketAddr}
use another_rust_load_balanc.Middleware.RateLimiter.{
  Seen, Entries, addr_eq, lookup, without, LinkedHashMap, LinkedHashMapLaws, is_old, remove_all,
}

pub addr_eq_iff : (a b : SocketAddr) → (addr_eq a b ≡ true) ↔ (a ≡ b)
unfolding addr_eq
addr_eq_iff a b = ground (arith, eq_iff a.ip b.ip)

abbrev pub old : ℕ → ℕ → Option Seen → Bool
old window now none = false
old window now (some s) = is_old window now s

-- Times are in order, and none is after `now`.
abbrev pub IsSorted : Entries → Type 0
IsSorted [] = Unit
IsSorted (e ∷ l) = All (λ f. e.1.time ≤ f.1.time) l × IsSorted l

abbrev pub AllBy : ℕ → Entries → Type 0
AllBy now = All (λ f. f.1.time ≤ now)

mem : SocketAddr → List SocketAddr → Bool
mem c [] = false
mem c (k ∷ ks) = addr_eq k c || mem c ks

without_all : List SocketAddr → Entries → Entries
without_all [] l = l
without_all (k ∷ ks) l = without_all ks (without k l)

pub lookup-without :
    (k c : SocketAddr) (l : Entries)
    → lookup c (without k l) ≡ (if addr_eq k c then none else lookup c l)
unfolding lookup without
lookup-without k c [] = ground arith
lookup-without k c ((i, s) ∷ l) =
    ground (arith, lookup-without k c l, addr_eq_iff i k, addr_eq_iff i c, addr_eq_iff k c)

lookup-without_all :
    (ks : List SocketAddr) (c : SocketAddr) (l : Entries)
    → lookup c (without_all ks l) ≡ (if mem c ks then none else lookup c l)
unfolding without_all mem
lookup-without_all [] c l = refl
lookup-without_all (k ∷ ks) c l =
    ground (arith, lookup-without_all ks c (without k l), lookup-without k c l)

pub lookup-append :
    (c k : SocketAddr) (s : Seen) (l : Entries)
    → lookup c (l ++ (k, s) ∷ [])
      ≡ elim (lookup c l) [ some t ↦ some t | none ↦ if addr_eq k c then some s else none ]
unfolding lookup
lookup-append c k s [] = refl
lookup-append c k s ((i, t) ∷ l) = ground (arith, lookup-append c k s l)

-- Behind an entry that is not old, none is.
not_old_behind :
    (window now t : ℕ) (c : SocketAddr) (l : Entries)
    → ltb window ((now - t) / 1_000_000_000) ≡ false
    → All (λ f. t ≤ f.1.time) l
    → old window now (lookup c l) ≡ false
unfolding lookup
not_old_behind window now t c [] h a = refl
not_old_behind window now t c ((i, s) ∷ l) h a =
    ground (arith, not_old_behind window now t c l h a.1)

-- In order of time, the keys that are taken are those whose entries are old.
mem-old :
    (window now : ℕ) (c : SocketAddr) (l : Entries)
    → IsSorted l
    → mem c (map (λ e. e.0) (take_while (λ e. is_old window now e.1) l))
      ≡ old window now (lookup c l)
unfolding mem lookup
mem-old window now c [] s = refl
mem-old window now c ((i, t) ∷ l) s = elim (Bool-cases (is_old window now t)) [
  | inl e ↦ ground (arith, e, mem-old window now c l s.1)
  | inr e ↦ ground (arith, e, not_old_behind window now t.time c l e s.0)
]

All-without :
    (P : SocketAddr × Seen → Type 0) (k : SocketAddr) (l : Entries) → All P l → All P (without k l)
unfolding without
All-without P k [] a = tt
All-without P k ((i, t) ∷ l) a = elim (Bool-cases (addr_eq i k)) [
  | inl e ↦ rw e (All-without P k l a.1)
  | inr e ↦ rw e (a.0, All-without P k l a.1)
]

pub IsSorted-without : (k : SocketAddr) (l : Entries) → IsSorted l → IsSorted (without k l)
unfolding without
IsSorted-without k [] s = tt
IsSorted-without k ((i, t) ∷ l) s = elim (Bool-cases (addr_eq i k)) [
  | inl e ↦ rw e (IsSorted-without k l s.1)
  | inr e ↦ rw e (All-without (λ f. t.time ≤ f.1.time) k l s.0, IsSorted-without k l s.1)
]

pub AllBy-without : (now : ℕ) (k : SocketAddr) (l : Entries) → AllBy now l → AllBy now (without k l)
AllBy-without now = All-without (λ f. f.1.time ≤ now)

All-append :
    (P : SocketAddr × Seen → Type 0) (e : SocketAddr × Seen) (l : Entries)
    → All P l
    → P e
    → All P (l ++ e ∷ [])
All-append P e [] a p = (p, tt)
All-append P e (x ∷ l) a p = (a.0, All-append P e l a.1 p)

-- An entry of the present stands last in the order of time.
pub IsSorted-append :
    (k : SocketAddr) (s : Seen) (l : Entries)
    → IsSorted l
    → AllBy s.time l
    → IsSorted (l ++ (k, s) ∷ [])
IsSorted-append k s [] h a = (tt, tt)
IsSorted-append k s (e ∷ l) h a =
    (All-append (λ f. e.1.time ≤ f.1.time) (k, s) l h.0 a.0, IsSorted-append k s l h.1 a.1)

pub AllBy-append :
    (k : SocketAddr) (s : Seen) (l : Entries) → AllBy s.time l → AllBy s.time (l ++ (k, s) ∷ [])
AllBy-append k s l a = All-append (λ f. f.1.time ≤ s.time) (k, s) l a (omega arith)

module _ {Map : Type 0} (maps : LinkedHashMap Map) (laws : LinkedHashMapLaws maps) where
  -- The loop removes the keys from the entries.
  iter-remove_all :
      (ks : List SocketAddr) (m : Map)
      → maps.iter (remove_all maps ks m) ≡ without_all ks (maps.iter m)
  unfolding remove_all without_all
  iter-remove_all [] m = refl
  iter-remove_all (k ∷ ks) m =
      rw (iter-remove_all ks (maps.remove k m).1, laws.iter_remove k m) refl

  pub IsSorted-remove_all :
      (ks : List SocketAddr) (m : Map)
      → IsSorted (maps.iter m)
      → IsSorted (maps.iter (remove_all maps ks m))
  unfolding remove_all
  IsSorted-remove_all [] m s = s
  IsSorted-remove_all (k ∷ ks) m s =
      IsSorted-remove_all ks (maps.remove k m).1
        (rw (laws.iter_remove k m) (IsSorted-without k (maps.iter m) s))

  pub AllBy-remove_all :
      (now : ℕ) (ks : List SocketAddr) (m : Map)
      → AllBy now (maps.iter m)
      → AllBy now (maps.iter (remove_all maps ks m))
  unfolding remove_all
  AllBy-remove_all now [] m s = s
  AllBy-remove_all now (k ∷ ks) m s =
      AllBy-remove_all now ks (maps.remove k m).1
        (rw (laws.iter_remove k m) (AllBy-without now k (maps.iter m) s))

  -- What the entries are after the eviction: those of before that are not old.
  pub lookup-evicted :
      (window now : ℕ) (c : SocketAddr) (m : Map)
      → IsSorted (maps.iter m)
      → lookup c (
          maps.iter (
            remove_all maps
              (map (λ e. e.0) (take_while (λ e. is_old window now e.1) (maps.iter m)))
              m))
        ≡ (if old window now (lookup c (maps.iter m)) then none else lookup c (maps.iter m))
  lookup-evicted window now c m s =
      let keys = map (λ e. e.0) (take_while (λ e. is_old window now e.1) (maps.iter m)) in
      rw
        (
          iter-remove_all keys m,
          lookup-without_all keys c (maps.iter m),
          mem-old window now c (maps.iter m) s,
        )
        refl
