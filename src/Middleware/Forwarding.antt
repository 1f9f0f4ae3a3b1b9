-- ===== src/Middleware/Forwarding.antt =====
-- The headers that src/middleware/mod.rs sends to a backend.
use text.Mathlib.Text.{◌==◌ as str_eq}
use mathlib.Core.List.{append-nil, append_assoc}
use another_rust_load_balanc.Prelude.{
  ◌≡◌, refl, sym, ap, ◌∙◌, Text, Bool, true, false, Option, some, List, [], ◌∷◌, ◌++◌, done, unwrap,
  arith, if◌then◌else◌, Option-cases, inl, inr,
}
use another_rust_load_balanc.Prelude.Panics.{>>=-eq-done, unwrap-eq-done, done-injective}
use another_rust_load_balanc.Http.{Request, HeaderName, values_of, Http, HttpLaws}
use another_rust_load_balanc.Middleware.{
  Context, added_headers, append_texts, append_values, backend_request,
}

module _ {Headers Value Body : Type 0} (hyper : Http Headers Value Body)
    (laws : HttpLaws hyper) where
  -- The values are the texts, under the same names.
  abbrev pub AreValues : List (HeaderName × Text) → List (HeaderName × Value) → Type 0
  AreValues [] [] = Unit
  AreValues ((k, t) ∷ ts) ((j, v) ∷ vs) = (k ≡ j) × (hyper.from_str t ≡ some v) × AreValues ts vs
  AreValues _ _ = ⊥

  get_all-append_values :
      (l : List (HeaderName × Value)) (m : Headers) (j : HeaderName)
      → hyper.get_all j (append_values hyper l m) ≡ hyper.get_all j m ++ values_of j l
  unfolding append_values
  get_all-append_values [] m j = sym (append-nil _)
  get_all-append_values ((k, v) ∷ l) m j =
      get_all-append_values l (hyper.append k v m) j
      ∙ rw (laws.get_all_append k j v m) (one (str_eq k j))
    where
      one :
          (b : Bool)
          → (if b then hyper.get_all j m ++ v ∷ [] else hyper.get_all j m) ++ values_of j l
            ≡ hyper.get_all j m ++ (if b then v ∷ values_of j l else values_of j l)
      one true = append_assoc (hyper.get_all j m) (v ∷ []) (values_of j l)
      one false = refl

  -- Copying the headers one by one keeps every value.
  get_all-copied :
      (m : Headers) (j : HeaderName)
      → hyper.get_all j (append_values hyper (hyper.iter m) hyper.empty) ≡ hyper.get_all j m
  get_all-copied m j =
      get_all-append_values (hyper.iter m) hyper.empty j
      ∙ rw (laws.get_all_empty j) (sym (laws.get_all_iter j m))

  append_texts-values :
      (l : List (HeaderName × Text)) (m : Headers) {m' : Headers}
      → append_texts hyper l m ≡ some m'
      → (vs : List (HeaderName × Value)) × AreValues l vs × (m' ≡ append_values hyper vs m)
  unfolding append_texts append_values
  append_texts-values [] m h = ([], tt, ground arith)
  append_texts-values ((k, t) ∷ l) m h = elim (Option-cases (hyper.from_str t)) [
    | inl invalid ↦ cc (rw invalid at h)
    | inr (v, valid) ↦
        let (vs, are, same) = append_texts-values l (hyper.append k v m) (rw valid at h) in
        ((k, v) ∷ vs, (refl, valid, are), same)
  ]

  -- If the request to the backend is built, it has the request's method and body, the backend's
  -- URI, and for each name the request's own values, in order, with the added values of that name
  -- behind them.
  pub backend_request-headers :
      (hostname : Option Text) (request : Request Headers Body) (context : Context Headers Body)
      {sent : Request Headers Body}
      → backend_request hyper hostname request context ≡ done sent
      → (sent.method ≡ request.method)
        × (sent.uri ≡ context.backend_uri)
        × (sent.body ≡ request.body)
        × (vs : List (HeaderName × Value)) × AreValues
            (added_headers hyper hostname request context)
            vs
        × ((j : HeaderName)
            → hyper.get_all j sent.headers ≡ hyper.get_all j request.headers ++ values_of j vs)
  unfolding backend_request
  backend_request-headers hostname request context {sent} h =
      let copied = append_values hyper (hyper.iter request.headers) hyper.empty in
      let added = added_headers hyper hostname request context in
      let (headers, valid, built) = >>=-eq-done (unwrap (append_texts hyper added copied)) _ h in
      let (vs, are, same) = append_texts-values added copied (unwrap-eq-done _ valid) in
      let made = sym (done-injective built) in
      (
        ap (λ (r : Request Headers Body). r.method) made,
        ap (λ (r : Request Headers Body). r.uri) made,
        ap (λ (r : Request Headers Body). r.body) made,
        vs,
        are,
        λ j.
            ap (λ (r : Request Headers Body). hyper.get_all j r.headers) made
            ∙ ap (hyper.get_all j) same
            ∙ get_all-append_values vs copied j
            ∙ ap (λ (l : List Value). l ++ values_of j vs) (get_all-copied request.headers j),
      )
