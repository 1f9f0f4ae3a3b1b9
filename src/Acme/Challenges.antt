-- ===== src/Acme/Challenges.antt =====
-- The open challenges of src/acme.rs.
use another_rust_load_balanc.Prelude.{
  Text, ◌≡◌, refl, ap, none, some, List, [], ◌∷◌, ◌++◌, ◌==◌, eq_refl, map, All, Result, done,
  if◌then◌else◌, Bool-cases, inl, inr,
}
use another_rust_load_balanc.Acme.{
  AcmeHandler, add_challenge, get_proof_for_challenge, remove_challenge, Message, left, right,
  receive,
}

-- With a token of which no challenge is open, a challenge that was added is found, and without it
-- the others are as before.
pub get_proof-add_challenge :
    (token proof other : Text) (challenges : AcmeHandler)
    → get_proof_for_challenge other (add_challenge token proof challenges)
      ≡ elim (get_proof_for_challenge other challenges) [
        | some p ↦ some p
        | none ↦ if token == other then some proof else none
      ]
unfolding get_proof_for_challenge add_challenge
get_proof-add_challenge token proof other [] = elim (Bool-cases (token == other)) [
  | inl e ↦ rw e refl
  | inr e ↦ rw e refl
]
get_proof-add_challenge token proof other (c ∷ challenges) = elim (Bool-cases (c.token == other)) [
  | inl e ↦ rw e refl
  | inr e ↦ rw e (get_proof-add_challenge token proof other challenges)
]

pub remove-add_challenge :
    (token proof : Text) (challenges : AcmeHandler)
    → get_proof_for_challenge token challenges ≡ none
    → remove_challenge token (add_challenge token proof challenges) ≡ challenges
unfolding get_proof_for_challenge add_challenge remove_challenge
remove-add_challenge token proof [] h = rw (eq_refl token) refl
remove-add_challenge token proof (c ∷ challenges) h = elim (Bool-cases (c.token == token)) [
  | inl e ↦ cc (rw e at h)
  | inr e ↦ rw e (ap (λ l. c ∷ l) (remove-add_challenge token proof challenges (rw e at h)))
]

-- A token of which no challenge is open.
abbrev pub IsFresh : AcmeHandler → Text × Text → Type 0
IsFresh challenges c = get_proof_for_challenge c.0 challenges ≡ none

module _ {Certificate : Type 0} (challenges : AcmeHandler) where
  abbrev opens : Text × Text → Message Certificate
  opens c = left c.0 c.1

  -- While a certificate is ordered, with tokens of which no challenge is open, the challenges that
  -- the order opens are closed again: the result that ends the order is returned, and the challenges
  -- are those of before.
  pub receive-closes :
      (token proof : Text) (opened : List (Text × Text)) (after : List (Message Certificate))
      (cert : Result Certificate Text)
      → All (IsFresh challenges) ((token, proof) ∷ opened)
      → receive (left token proof) (map opens opened ++ right cert ∷ after) challenges
        ≡ done (cert, challenges)
  unfolding receive
  receive-closes token proof [] after cert fresh =
      rw (remove-add_challenge token proof challenges fresh.0) refl
  receive-closes token proof ((t, p) ∷ opened) after cert fresh =
      rw (remove-add_challenge token proof challenges fresh.0)
        (receive-closes t p opened after cert fresh.1)
