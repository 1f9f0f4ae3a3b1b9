-- ===== src/LoadBalancing/LeastConnection/Sorting.antt =====
-- The sort by connection count of src/load_balancing/least_connection.rs, and the prefix of least
-- entries that is taken from it.
use mathlib.Core.Path.{subst}
use another_rust_load_balanc.Prelude.{
  ℕ, ◌≤◌, ◌≡◌, refl, Text, Bool, List, [], ◌∷◌, inl, done, take_while, eqb, In, All-In, All-of_In,
  All, arith, get_elem?, get_elem?_lt, some, ◌<◌, length,
}
use another_rust_load_balanc.LoadBalancing.LeastConnection.{
  Connections, insert_by_count, sort_by_count, least_entries,
}

abbrev Entry : Type 0
Entry = Text × ℕ

-- Every count of the list is at least `n`.
abbrev pub AllFrom : ℕ → List (Text × ℕ) → Type 0
AllFrom n = All (λ e. n ≤ e.1)

abbrev IsSorted : List Entry → Type 0
IsSorted [] = Unit
IsSorted (e ∷ l) = AllFrom e.1 l × IsSorted l

AllFrom-mono : (n m : ℕ) (l : List Entry) → m ≤ n → AllFrom n l → AllFrom m l
AllFrom-mono n m [] h a = tt
AllFrom-mono n m (e ∷ l) h (p, a) = (omega arith, AllFrom-mono n m l h a)

AllFrom-insert :
    (n : ℕ) (e : Entry) (l : List Entry) → n ≤ e.1 → AllFrom n l → AllFrom n (insert_by_count e l)
unfolding insert_by_count
AllFrom-insert n e [] h a = (h, tt)
AllFrom-insert n e (f ∷ l) h a = ground (arith, AllFrom-insert n e l)

insert-IsSorted : (e : Entry) (l : List Entry) → IsSorted l → IsSorted (insert_by_count e l)
unfolding insert_by_count
insert-IsSorted e [] s = (tt, tt)
insert-IsSorted e (f ∷ l) s =
    ground (arith, AllFrom-mono f.1 e.1 l, AllFrom-insert f.1 e l, insert-IsSorted e l)

sort-IsSorted : (l : List Entry) → IsSorted (sort_by_count l)
unfolding sort_by_count
sort-IsSorted [] = tt
sort-IsSorted (e ∷ l) = insert-IsSorted e (sort_by_count l) (sort-IsSorted l)

AllFrom-sort : (n : ℕ) (l : List Entry) → AllFrom n l → AllFrom n (sort_by_count l)
unfolding sort_by_count
AllFrom-sort n [] a = tt
AllFrom-sort n (e ∷ l) a = AllFrom-insert n e (sort_by_count l) a.0 (AllFrom-sort n l a.1)

-- Sorting keeps the entries, both ways.
In-insert : (e x : Entry) (l : List Entry) → In x (insert_by_count e l) → In x (e ∷ l)
unfolding insert_by_count
In-insert e x [] m = m
In-insert e x (f ∷ l) m = ground (arith, In-insert e x l)

insert-In : (e x : Entry) (l : List Entry) → In x (e ∷ l) → In x (insert_by_count e l)
unfolding insert_by_count
insert-In e x [] m = m
insert-In e x (f ∷ l) m = ground (arith, insert-In e x l)

In-sort : (x : Entry) (l : List Entry) → In x (sort_by_count l) → In x l
unfolding sort_by_count
In-sort x [] m = m
In-sort x (e ∷ l) m = ground (arith, In-insert e x (sort_by_count l) m, In-sort x l)

sort-In : (x : Entry) (l : List Entry) → In x l → In x (sort_by_count l)
unfolding sort_by_count
sort-In x [] m = m
sort-In x (e ∷ l) m = ground (arith, insert-In e x (sort_by_count l), sort-In x l)

abbrev has_count : ℕ → Entry → Bool
has_count n e = eqb e.1 n

In-take_while :
    (n : ℕ) (x : Entry) (l : List Entry) → In x (take_while (has_count n) l) → In x l × (x.1 ≡ n)
In-take_while n x [] m = elim m [ ]
In-take_while n x (e ∷ l) m = ground (arith, In-take_while n x l)

-- In a sorted list that starts at `n`, the entries of count `n` stand in front.
take_while-In :
    (n : ℕ) (x : Entry) (l : List Entry)
    → IsSorted l
    → AllFrom n l
    → In x l
    → x.1 ≡ n
    → In x (take_while (has_count n) l)
take_while-In n x [] s a m same = m
take_while-In n x (e ∷ l) s a m same =
    ground (arith, take_while-In n x l, All-In (λ (f : Entry). e.1 ≤ f.1) l {a = x} s.0)

sorted_first :
    (l : List Entry) {first : Entry} → IsSorted l → get_elem? l 0 ≡ some first → AllFrom first.1 l
sorted_first [] s h = cc
sorted_first (e ∷ l) {first} s h =
    let same : e ≡ first = cc in subst (λ (f : Entry). AllFrom f.1 (e ∷ l)) same (omega arith, s.0)

length_of_In : (x : Entry) (l : List Entry) → In x l → 0 < length l
length_of_In x [] m = elim m [ ]
length_of_In x (e ∷ l) m = omega arith

-- What is taken from the front of the sorted entries, for an entry list that is not empty.
pub record IsLeast (connections least : Connections) : Type 0 where
  pub first : Text × ℕ
  pub listed : In first connections
  pub not_empty : 0 < length least
  pub sound : (e : Text × ℕ) → In e least → In e connections × (e.1 ≡ first.1)
  pub complete : (e : Text × ℕ) → In e connections → e.1 ≡ first.1 → In e least
  pub lowest : AllFrom first.1 connections

pub least_entries-IsLeast :
    (connections : Connections)
    → 0 < length connections
    → (least : Connections) × (least_entries connections ≡ done least) × IsLeast connections least
unfolding least_entries
least_entries-IsLeast [] h = absurd (omega arith)
least_entries-IsLeast (e ∷ l) h =
    let sorted = sort_by_count (e ∷ l) in
    let s = sort-IsSorted (e ∷ l) in
    let (first, found, member) =
      get_elem?_lt sorted 0 (length_of_In e sorted (sort-In e (e ∷ l) (inl refl))) in
    let from = sorted_first sorted s found in
    let taken = take_while-In first.1 first sorted s from member refl in
    (
      take_while (has_count first.1) sorted,
      rw found,
      record {
        first = first;
        listed = In-sort first (e ∷ l) member;
        not_empty = length_of_In first _ taken;
        sound = λ x m.
            let (inside, same) = In-take_while first.1 x sorted m in
            (In-sort x (e ∷ l) inside, same);
        complete = λ x m same. take_while-In first.1 x sorted s from (sort-In x (e ∷ l) m) same;
        lowest =
            All-of_In (λ x. first.1 ≤ x.1) (e ∷ l)
              (λ x m. All-In (λ y. first.1 ≤ y.1) sorted from (sort-In x (e ∷ l) m));
      },
    )
