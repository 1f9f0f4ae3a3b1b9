-- ===== src/Acme/Answers.antt =====
-- The answers of src/acme.rs to the certificate authority.
use another_rust_load_balanc.Prelude.{
  Text, codes, ◌≡◌, refl, true, false, none, some, List, [], ◌∷◌, ◌++◌, All, split, strip_prefix,
  eqb, Bool-cases, inl, inr,
}
use another_rust_load_balanc.Http.{Http, Request}
use another_rust_load_balanc.ErrorResponse.{not_found}
use another_rust_load_balanc.Acme.{
  AcmeHandler, get_proof_for_challenge, challenge_path, last, is_challenge, respond_to_challenge,
}

-- A token holds no slash, code 47.
abbrev pub IsToken : Text → Type 0
IsToken = All (λ c. eqb c 47 ≡ false)

split-token : (token : Text) → IsToken token → split 47 token ≡ token ∷ []
unfolding split
split-token [] h = refl
split-token (c ∷ token) h = rw (h.0, split-token token h.1) refl

last-cons : {A : Type 0} (x : A) (xs : List A) {y : A} → last xs ≡ some y → last (x ∷ xs) ≡ some y
unfolding last
last-cons x xs h = rw h refl

-- Behind a slash, the last part is that of what follows.
split-append :
    (s t : Text) {token : Text}
    → last (split 47 t) ≡ some token
    → (p : Text) × (ps : List Text) × (split 47 (s ++ 47 ∷ t) ≡ p ∷ ps) × (last ps ≡ some token)
unfolding split
split-append [] t h = ([], split 47 t, refl, h)
split-append (c ∷ s) t h =
    let (p, ps, e, l) = split-append s t h in
    elim (Bool-cases (eqb c 47)) [
      | inl slash ↦ ([], p ∷ ps, rw (slash, e) refl, last-cons p ps l)
      | inr other ↦ (c ∷ p, ps, rw (other, e) refl, l)
    ]

last-split :
    (s t : Text) {token : Text}
    → last (split 47 t) ≡ some token
    → last (split 47 (s ++ 47 ∷ t)) ≡ some token
last-split s t h = let (p, ps, e, l) = split-append s t h in rw e (last-cons p ps l)

module _ {Headers Value Body : Type 0} (http : Http Headers Value Body) (challenges : AcmeHandler)
    (request : Request Headers Body) (token : Text) (is_token : IsToken token)
    (path : request.uri.path ≡ challenge_path ++ token) where
  known : is_challenge request ≡ true
  unfolding is_challenge strip_prefix
  known = rw path refl

  named : last (split 47 request.uri.path) ≡ some token
  unfolding last
  named = rw path (
      last-split (codes "/.well-known/acme-challenge") token (rw (split-token token is_token) refl))

  -- A request for a path of the well-known prefix and a token without a slash is answered: with
  -- status 200 and the proof of the first open challenge with that token, or, if there is none, with
  -- the response 404.
  pub respond_to_challenge-proof :
      respond_to_challenge http challenges request
      ≡ some (elim (get_proof_for_challenge token challenges) [
        | some proof ↦ record { status = 200; headers = http.empty; body = http.body_from proof }
        | none ↦ not_found http
      ])
  unfolding respond_to_challenge
  respond_to_challenge-proof = rw (known, respond_to_challenge, named) refl
