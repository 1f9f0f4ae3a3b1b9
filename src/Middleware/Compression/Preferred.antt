-- ===== src/Middleware/Compression/Preferred.antt =====
-- Which encoding src/middleware/compression.rs prefers: the first of those with the greatest weight.
use another_rust_load_balanc.Prelude.{
  ℕ, ◌≤◌, ◌<◌, ◌≡◌, ◌⊎◌, refl, ap, ◌∙◌, Text, Option, none, some, List, [], ◌∷◌, ◌++◌, map,
  filter_map, split, rev, All, ltb, arith, Bool-cases, inl, inr, if◌then◌else◌,
}
use another_rust_load_balanc.Prelude.Options.{◌>>=◌}
use another_rust_load_balanc.Prelude.FilterMaps.{All-filter_map, filter_map-split}
use another_rust_load_balanc.Http.{Http}
use another_rust_load_balanc.Middleware.Compression.{
  Encoding, max_from, max_by_key, trim, parse_encoding_and_qvalue, candidates, accept_encoding,
  get_preferred_encoding,
}
use another_rust_load_balanc.Middleware.Compression.Offers.{Offers, parse_encoding_and_qvalue_iff}

module _ {A : Type 0} (key : A → ℕ) where
  -- An element whose key exceeds those before it and is as great as those behind it.
  pub data FirstBest (xs : List A) (a : A) : Type 0 where
    first_best :
        (before after : List A)
        → xs ≡ before ++ a ∷ after
        → All (λ x. key x < key a) before
        → All (λ x. key x ≤ key a) after
        → FirstBest xs a

  max_from-append :
      (x y : A) (ys : List A)
      → max_from key x (ys ++ y ∷ [])
        ≡ (if ltb (key y) (key (max_from key x ys)) then max_from key x ys else y)
  unfolding max_from
  max_from-append x y [] = refl
  max_from-append x y (z ∷ ys) = max_from-append (if ltb (key z) (key x) then x else z) y ys

  step : Option A → A → Option A
  step none y = some y
  step (some x) y = some (if ltb (key y) (key x) then x else y)

  max_by_key-append :
      (xs : List A) (y : A) → max_by_key key (xs ++ y ∷ []) ≡ step (max_by_key key xs) y
  unfolding max_by_key step max_from
  max_by_key-append [] y = refl
  max_by_key-append (x ∷ xs) y = ap some (max_from-append x y xs)

  All-trans : (xs : List A) {m n : ℕ} → All (λ x. key x ≤ m) xs → m ≤ n → All (λ x. key x ≤ n) xs
  All-trans [] a h = tt
  All-trans (x ∷ xs) a h = (omega arith, All-trans xs a.1 h)

  All-join :
      (P : A → Type 0) (xs : List A) (a : A) (ys : List A)
      → All P xs
      → P a
      → All P ys
      → All P (xs ++ a ∷ ys)
  All-join P [] a ys h p k = (p, k)
  All-join P (x ∷ xs) a ys h p k = (h.0, All-join P xs a ys h.1 p k)

  All-weaken : (n : ℕ) (xs : List A) → All (λ x. key x < n) xs → All (λ x. key x ≤ n) xs
  All-weaken n [] a = tt
  All-weaken n (x ∷ xs) a = (omega arith, All-weaken n xs a.1)

  -- The element in front wins against what wins behind it, unless that is greater.
  front :
      (x : A) (xs : List A) {a : A}
      → FirstBest xs a
      → FirstBest (x ∷ xs) (if ltb (key x) (key a) then a else x)
  front x xs {a} (first_best before after at less most) = elim (Bool-cases (ltb (key x) (key a))) [
    | inl e ↦ rw e (first_best (x ∷ before) after (ap (λ l. x ∷ l) at) (ground arith, less) most)
    | inr e ↦ rw e (
        first_best [] xs refl tt (
          rw at (
            All-trans (before ++ a ∷ after)
              (All-join (λ y. key y ≤ key a) before a after (All-weaken (key a) before less)
                (omega arith) most)
              (ground arith))))
  ]

  max_by_key-rev :
      (x : A) (xs : List A)
      → (a : A) × (max_by_key key (rev (x ∷ xs)) ≡ some a) × FirstBest (x ∷ xs) a
  unfolding rev step max_by_key
  max_by_key-rev x [] = (x, max_by_key-append [] x, first_best [] [] refl tt tt)
  max_by_key-rev x (y ∷ xs) =
      let (a, e, best) = max_by_key-rev y xs in
      (
        if ltb (key x) (key a) then a else x,
        max_by_key-append (rev (y ∷ xs)) x ∙ ap (λ o. step o x) e,
        front x (y ∷ xs) best,
      )

-- A part that offers the encoding with this weight, before which all offers weigh less, and behind
-- which none weighs more.
pub data Preferred (parts : List Text) (e : Encoding) (q : ℕ) : Type 0 where
  preferred :
      (before : List Text) (part : Text) (after : List Text)
      → parts ≡ before ++ part ∷ after
      → Offers part e q
      → All (λ p. (d : Encoding) (r : ℕ) → Offers p d r → r < q) before
      → All (λ p. (d : Encoding) (r : ℕ) → Offers p d r → r ≤ q) after
      → Preferred parts e q

All-Offers :
    (P : ℕ → Type 0) (parts : List Text)
    → All (λ part. (c : Encoding × ℕ) → parse_encoding_and_qvalue part ≡ some c → P c.1) parts
    → All (λ part. (d : Encoding) (r : ℕ) → Offers part d r → P r) parts
All-Offers P [] h = tt
All-Offers P (part ∷ parts) h = (
  (λ d r offer. h.0 (d, r) ((parse_encoding_and_qvalue_iff part d r).1 offer)),
  All-Offers P parts h.1,
)

nothing_offered :
    (parts : List Text)
    → filter_map parse_encoding_and_qvalue parts ≡ []
    → All (λ part. (e : Encoding) (q : ℕ) → Offers part e q → ⊥) parts
nothing_offered parts h =
    All-Offers (λ q. ⊥) parts (All-filter_map parse_encoding_and_qvalue (λ c. ⊥) parts (rw h tt))

best_offered :
    (parts : List Text) {e : Encoding} {q : ℕ}
    → FirstBest (λ (c : Encoding × ℕ). c.1) (filter_map parse_encoding_and_qvalue parts) (e, q)
    → Preferred parts e q
best_offered parts {e} {q} (first_best before after is less most) =
    let f = parse_encoding_and_qvalue in
    let (front, part, back, at, gives, first, last) =
      filter_map-split f parts before (e, q) after is in
    preferred front part back at ((parse_encoding_and_qvalue_iff part e q).0 gives)
      (All-Offers (λ r. r < q) front (All-filter_map f (λ c. c.1 < q) front (rw first less)))
      (All-Offers (λ r. r ≤ q) back (All-filter_map f (λ c. c.1 ≤ q) back (rw last most)))

module _ {Headers Value Body : Type 0} (http : Http Headers Value Body) (headers : Headers) where
  chosen :
      (cs : List (Encoding × ℕ))
      → (((max_by_key (λ c. c.1) (rev cs) >>= λ best. some best.0) ≡ none) × (cs ≡ []))
        ⊎ ((e : Encoding) × (q : ℕ) × ((max_by_key (λ c. c.1) (rev cs) >>= λ best. some best.0)
              ≡ some e)
            × FirstBest (λ c. c.1) cs (e, q))
  unfolding rev max_by_key
  chosen [] = inl (refl, refl)
  chosen (c ∷ cs) =
      let ((e, q), greatest, best) = max_by_key-rev (λ (d : Encoding × ℕ). d.1) c cs in
      inr (e, q, rw greatest refl, best)

  -- When the header accept-encoding is a readable text, the encoding that is preferred is, of
  -- those that the parts between the commas of the text offer, white space around a part being
  -- ignored, the first with the greatest weight. A part offers an encoding by its name, with weight
  -- 1, or by its name, a semicolon and a weight above 0 that is written as `q=1` or as `q=0.` and at
  -- most three digits, or two behind a plus sign; no other part offers one. No encoding is preferred
  -- exactly in the case that no part offers one.
  pub get_preferred_encoding-FirstBest :
      {value : Value} {text : Text}
      → http.get accept_encoding headers ≡ some value
      → http.to_str value ≡ some text
      → let parts = map trim (split 44 text) in
        ((get_preferred_encoding http headers ≡ none)
          × All (λ part. (e : Encoding) (q : ℕ) → Offers part e q → ⊥) parts)
        ⊎ ((e : Encoding) × (q : ℕ) × (get_preferred_encoding http headers ≡ some e)
            × Preferred parts e q)
  unfolding get_preferred_encoding candidates
  get_preferred_encoding-FirstBest {value} {text} sent read =
      let parts = map trim (split 44 text) in
      rw (sent, get_preferred_encoding, read)
        (elim (chosen (candidates text)) [
          | inl (nothing, no_candidates) ↦ inl (nothing, nothing_offered parts no_candidates)
          | inr (e, q, found, best) ↦ inr (e, q, found, best_offered parts best)
        ])
