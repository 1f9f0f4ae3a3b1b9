-- ===== src/Prelude/Lists.antt =====
-- Lists measured and indexed by native numbers, under the library's names, and the list
-- operations that the program calls.
use Prim.Native.Nat.{ℕ, zero, suc, ◌<◌, ◌≤◌}
use mathlib.Core.Path.{◌≡◌, refl, ap, subst}
use mathlib.Core.Logic.{◌⊎◌, inl, inr}
use mathlib.Core.Bool.{Bool, true, false, ◌||◌}
use mathlib.Core.List.{List, [], ◌∷◌, ◌++◌, map}
use mathlib.Core.Option.{Option, none, some}
use native.Mathlib.Omega.{arith}
use another_rust_load_balanc.Prelude.Tests.{Bool-cases, if◌then◌else◌}

module _ {ℓ} {A : Type ℓ} where
  abbrev pub length : List A → ℕ
  length [] = 0
  length (x ∷ xs) = suc (length xs)

  abbrev pub get_elem? : List A → ℕ → Option A
  get_elem? [] i = none
  get_elem? (x ∷ xs) zero = some x
  get_elem? (x ∷ xs) (suc i) = get_elem? xs i

  abbrev pub take : ℕ → List A → List A
  take zero xs = []
  take (suc n) [] = []
  take (suc n) (x ∷ xs) = x ∷ take n xs

  abbrev pub drop : ℕ → List A → List A
  drop zero xs = xs
  drop (suc n) [] = []
  drop (suc n) (x ∷ xs) = drop n xs

  abbrev pub is_empty : List A → Bool
  is_empty [] = true
  is_empty (_ ∷ _) = false

  -- `Iterator::filter`, `find`, `any` and `take_while`, by a Boolean test.
  abbrev pub filter : (A → Bool) → List A → List A
  filter p [] = []
  filter p (x ∷ xs) = let rest = filter p xs in if p x then x ∷ rest else rest

  abbrev pub find : (A → Bool) → List A → Option A
  find p [] = none
  find p (x ∷ xs) = let rest = find p xs in if p x then some x else rest

  abbrev pub any : (A → Bool) → List A → Bool
  any p [] = false
  any p (x ∷ xs) = p x || any p xs

  abbrev pub take_while : (A → Bool) → List A → List A
  take_while p [] = []
  take_while p (x ∷ xs) = let rest = take_while p xs in if p x then x ∷ rest else []

  -- `Iterator::rev`.
  unfoldable pub rev : List A → List A
  rev [] = []
  rev (x ∷ xs) = rev xs ++ x ∷ []

  abbrev pub is_some : Option A → Bool
  is_some none = false
  is_some (some _) = true

module _ {ℓ κ} {A : Type ℓ} {B : Type κ} where
  -- `Iterator::filter_map`.
  abbrev pub filter_map : (A → Option B) → List A → List B
  filter_map f [] = []
  filter_map f (x ∷ xs) = elim (f x) [ none ↦ filter_map f xs | some b ↦ b ∷ filter_map f xs ]

  abbrev pub find_map : (A → Option B) → List A → Option B
  find_map f [] = none
  find_map f (x ∷ xs) = elim (f x) [ none ↦ find_map f xs | some b ↦ some b ]

  pub length-map : (f : A → B) (xs : List A) → length (map f xs) ≡ length xs
  length-map f [] = refl
  length-map f (x ∷ xs) = ap suc (length-map f xs)

module _ {ℓ κ} {A : Type ℓ} (P : A → Type κ) where
  abbrev pub All : List A → Type κ
  All [] = Unit
  All (x ∷ xs) = P x × All xs

-- An element of a list, with its place.
abbrev pub In : {A : Type 0} → A → List A → Type 0
In a [] = ⊥
In a (x ∷ xs) = (x ≡ a) ⊎ In a xs

module _ {A : Type 0} where
  pub get_elem?_lt :
      (xs : List A) (i : ℕ) → i < length xs → (a : A) × (get_elem? xs i ≡ some a) × In a xs
  get_elem?_lt [] i h = elim h [ ]
  get_elem?_lt (x ∷ xs) zero h = (x, refl, inl refl)
  get_elem?_lt (x ∷ xs) (suc i) h =
      let (a, at, member) = get_elem?_lt xs i (omega arith) in (a, at, inr member)

  pub get_elem?-In : (xs : List A) (i : ℕ) {a : A} → get_elem? xs i ≡ some a → In a xs
  get_elem?-In [] i h = cc
  get_elem?-In (x ∷ xs) zero h = inl (cc)
  get_elem?-In (x ∷ xs) (suc i) h = inr (get_elem?-In xs i h)

  pub All-In : (P : A → Type 0) (xs : List A) {a : A} → All P xs → In a xs → P a
  All-In P [] h m = elim m [ ]
  All-In P (x ∷ xs) h (inl e) = subst P e h.0
  All-In P (x ∷ xs) h (inr m) = All-In P xs h.1 m

  pub All-of_In : (P : A → Type 0) (xs : List A) → ((a : A) → In a xs → P a) → All P xs
  All-of_In P [] h = tt
  All-of_In P (x ∷ xs) h = (h x (inl refl), All-of_In P xs (λ a m. h a (inr m)))

  pub In-filter : (p : A → Bool) (xs : List A) {x : A} → In x (filter p xs) → In x xs × (p x ≡ true)
  In-filter p [] m = elim m [ ]
  In-filter p (y ∷ xs) {x} m = elim (Bool-cases (p y)) [
    | inl kept ↦ keep kept (In-filter p xs {x = x}) (rw kept at m)
    | inr dropped ↦ let (q, e) = In-filter p xs {x = x} (rw dropped at m) in (inr q, e)
  ]
    where
      keep :
          p y ≡ true
          → (In x (filter p xs) → In x xs × (p x ≡ true))
          → In x (y ∷ filter p xs)
          → In x (y ∷ xs) × (p x ≡ true)
      keep kept ih (inl e) = (inl e, rw e at kept)
      keep kept ih (inr m) = let (q, e) = ih m in (inr q, e)

  pub filter-In : (p : A → Bool) (xs : List A) {x : A} → In x xs → p x ≡ true → In x (filter p xs)
  filter-In p [] m h = m
  filter-In p (y ∷ xs) (inl e) h = rw (rw (← e) at h) (inl e)
  filter-In p (y ∷ xs) {x} (inr m) h = elim (Bool-cases (p y)) [
    | inl kept ↦ rw kept (inr (filter-In p xs m h))
    | inr dropped ↦ rw dropped (filter-In p xs m h)
  ]

module _ {A B : Type 0} where
  pub In-map : (f : A → B) (xs : List A) {b : B} → In b (map f xs) → (a : A) × In a xs × (f a ≡ b)
  In-map f [] m = elim m [ ]
  In-map f (x ∷ xs) (inl e) = (x, inl refl, e)
  In-map f (x ∷ xs) (inr m) = let (a, n, e) = In-map f xs m in (a, inr n, e)

  pub map-In : (f : A → B) (xs : List A) (a : A) → In a xs → In (f a) (map f xs)
  map-In f [] a m = elim m [ ]
  map-In f (x ∷ xs) a (inl e) = inl (ap f e)
  map-In f (x ∷ xs) a (inr m) = inr (map-In f xs a m)

module _ {ℓ} {A : Type ℓ} where
  pub drop_cons :
      (xs : List A) (i : ℕ) {a : A} → get_elem? xs i ≡ some a → drop i xs ≡ a ∷ drop (suc i) xs
  drop_cons [] i h = cc
  drop_cons (x ∷ xs) zero h = cc
  drop_cons (x ∷ xs) (suc i) h = drop_cons xs i h

  pub drop_all : (xs : List A) (i : ℕ) → length xs ≤ i → drop i xs ≡ []
  drop_all [] zero h = refl
  drop_all [] (suc i) h = refl
  drop_all (x ∷ xs) zero h = absurd (omega arith)
  drop_all (x ∷ xs) (suc i) h = drop_all xs i (omega arith)

  pub take_cons :
      (xs : List A) (n : ℕ) {a : A}
      → get_elem? xs 0 ≡ some a
      → take (suc n) xs ≡ a ∷ take n (drop 1 xs)
  take_cons [] n h = cc
  take_cons (x ∷ xs) n h = cc
