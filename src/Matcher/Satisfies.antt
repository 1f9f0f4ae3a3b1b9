-- ===== src/Matcher/Satisfies.antt =====
-- When a request satisfies a rule of src/backend_pool_matcher.rs, as a relation.
use mathlib.Core.Path.{subst}
use mathlib.Core.Bool.{and-eq-true_iff}
use another_rust_load_balanc.Prelude.{
  Text, ◌≡◌, ◌≢◌, ◌↔◌, refl, ◌∙◌, ap, true, some, List, [], ◌∷◌, ◌⊎◌, inl, inr, ◌==◌, eq_iff,
  eq_refl, arith, Option-cases, Bool-cases, All,
}
use another_rust_load_balanc.Prelude.Maps
use another_rust_load_balanc.Prelude.Maps.{get-insert}
use another_rust_load_balanc.Http.{Http, Request}
use another_rust_load_balanc.Matcher.{
  ComparableRegex, BackendPoolMatcher, host, host_regexp, method, path, path_regexp, query, and, or,
  Matching, host_header, query_params, matches,
}

-- The last pair of the key `k` has the value `v`.
abbrev pub LastPair : Text → Text → List (Text × Text) → Type 0
LastPair k v [] = ⊥
LastPair k v (e ∷ l) = LastPair k v l ⊎ ((e.0 ≡ k) × (e.1 ≡ v) × All (λ f. f.0 ≢ k) l)

collect-absent :
    (k : Text) (l : List (Text × Text)) (m : Maps.HashMap Text)
    → All (λ e. e.0 ≢ k) l
    → Maps.get k (Maps.collect m l) ≡ Maps.get k m
unfolding Maps.collect
collect-absent k [] m h = refl
collect-absent k ((j, w) ∷ l) m h =
    ground (arith, collect-absent k l (Maps.insert j w m) h.1, get-insert j k w m, eq_iff j k)

collect-LastPair :
    (k v : Text) (l : List (Text × Text)) (m : Maps.HashMap Text)
    → LastPair k v l
    → Maps.get k (Maps.collect m l) ≡ some v
unfolding Maps.collect
collect-LastPair k v [] m h = elim h [ ]
collect-LastPair k v ((j, w) ∷ l) m (inl h) = collect-LastPair k v l (Maps.insert j w m) h
collect-LastPair k v ((j, w) ∷ l) m (inr h) =
    collect-absent k l (Maps.insert j w m) h.2 ∙ ground (arith, get-insert j k w m, eq_iff j k)

LastPair-or-absent :
    (k : Text) (l : List (Text × Text)) → ((v : Text) × LastPair k v l) ⊎ All (λ e. e.0 ≢ k) l
LastPair-or-absent k [] = inr tt
LastPair-or-absent k ((j, w) ∷ l) = elim (LastPair-or-absent k l) [
  | inl (v, p) ↦ inl (v, inl p)
  | inr absent ↦ elim (Bool-cases (j == k)) [
    | inl same ↦ inl (w, inr ((eq_iff j k).0 same, refl, absent))
    | inr other ↦ inr ((λ e. cc (other, (eq_iff j k).1 e)), absent)
  ]
]

LastPair-collect :
    (k v : Text) (l : List (Text × Text)) → Maps.get k (Maps.collect [] l) ≡ some v → LastPair k v l
LastPair-collect k v l h = elim (LastPair-or-absent k l) [
  | inl (w, p) ↦
      let same : w ≡ v = cc (collect-LastPair k w l [] p) in
      subst (λ (t : Text). LastPair k t l) same p
  | inr absent ↦ absurd (nowhere (collect-absent k l [] absent))
]
  where
    nowhere : Maps.get k (Maps.collect [] l) ≡ Maps.get k [] → ⊥
    nowhere e = unfold Maps.get in cc

module _ {Headers Value Body : Type 0} (http : Http Headers Value Body) (matching : Matching) where
  pub data Satisfies (request : Request Headers Body) : BackendPoolMatcher → Type 0 where
    host_is :
        {name : Text} (h : Value)
        → http.get host_header request.headers ≡ some h
        → http.eq_str h name ≡ true
        → Satisfies request (host name)
    host_matches :
        {regex : ComparableRegex} (h : Value) (text : Text)
        → http.get host_header request.headers ≡ some h
        → http.to_str h ≡ some text
        → matching.is_match regex text ≡ true
        → Satisfies request (host_regexp regex)
    method_is : {name : Text} → request.method ≡ name → Satisfies request (method name)
    path_is : {text : Text} → request.uri.path ≡ text → Satisfies request (path text)
    path_matches :
        {regex : ComparableRegex}
        → matching.is_match regex request.uri.path ≡ true
        → Satisfies request (path_regexp regex)
    query_has :
        {key value : Text} (text : Text)
        → request.uri.query ≡ some text
        → LastPair key value (matching.query_pairs text)
        → Satisfies request (query key value)
    both :
        {left right : BackendPoolMatcher}
        → Satisfies request left
        → Satisfies request right
        → Satisfies request (and left right)
    on_left :
        {left right : BackendPoolMatcher}
        → Satisfies request left
        → Satisfies request (or left right)
    on_right :
        {left right : BackendPoolMatcher}
        → Satisfies request right
        → Satisfies request (or left right)

  module _ (request : Request Headers Body) where
    matches_sound :
        (m : BackendPoolMatcher) → matches http matching m request ≡ true → Satisfies request m
    unfolding matches
    matches_sound (host name) h = elim (Option-cases (http.get host_header request.headers)) [
      | inl missing ↦ cc (rw missing at h)
      | inr (v, found) ↦ host_is v found (rw found at h)
    ]
    matches_sound (host_regexp regex) h =
        elim (Option-cases (http.get host_header request.headers)) [
          | inl missing ↦ cc (rw missing at h)
          | inr (v, found) ↦ elim (Option-cases (http.to_str v)) [
            | inl unreadable ↦ cc (rw (found, unreadable) at h)
            | inr (text, readable) ↦ host_matches v text found readable (rw (found, readable) at h)
          ]
        ]
    matches_sound (method name) h = method_is ((eq_iff _ _).0 h)
    matches_sound (path text) h = path_is ((eq_iff _ _).0 h)
    matches_sound (path_regexp regex) h = path_matches h
    matches_sound (query key value) h = elim (Option-cases request.uri.query) [
      | inl missing ↦ unfold Maps.get in cc (rw (missing, query_params) at h)
      | inr (text, sent) ↦
          let pairs = matching.query_pairs text in
          let given = rw (sent, query_params) at h in
          elim (Option-cases (Maps.get key (Maps.collect [] pairs))) [
            | inl absent ↦ cc (rw absent at given)
            | inr (v, found) ↦
                let same : v ≡ value = (eq_iff v value).0 (rw found at given) in
                query_has text sent (LastPair-collect key value pairs (found ∙ ap some same))
          ]
    ]
    matches_sound (and left right) h =
        let (l, r) = (and-eq-true_iff _ _).0 h in
        both (matches_sound left l) (matches_sound right r)
    matches_sound (or left right) h = elim (Bool-cases (matches http matching left request)) [
      | inl l ↦ on_left (matches_sound left l)
      | inr l ↦ on_right (matches_sound right (ground arith))
    ]

    matches_complete :
        {m : BackendPoolMatcher} → Satisfies request m → matches http matching m request ≡ true
    unfolding matches
    matches_complete (host_is h found same) = rw found same
    matches_complete (host_matches h text found readable fits) = rw (found, readable) fits
    matches_complete (method_is same) = (eq_iff _ _).1 same
    matches_complete (path_is same) = (eq_iff _ _).1 same
    matches_complete (path_matches fits) = fits
    matches_complete (query_has {key} {value} text sent p) =
        rw (sent, collect-LastPair key value (matching.query_pairs text) [] p) (eq_refl value)
    matches_complete (both l r) = rw (matches_complete l) (matches_complete r)
    matches_complete (on_left l) = rw (matches_complete l)
    matches_complete (on_right r) = ground (arith, matches_complete r)

  -- A rule matches a request exactly when the request satisfies it. The host of a request is that of
  -- its Host header; the authority of its URI does not count.
  pub matches_iff :
      (m : BackendPoolMatcher) (request : Request Headers Body)
      → (matches http matching m request ≡ true) ↔ Satisfies request m
  matches_iff m request = (matches_sound request m, matches_complete request)
