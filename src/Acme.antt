-- ===== src/Acme.antt =====
-- src/acme.rs: the challenges that are open while a certificate is ordered, and the answers to them.
-- What the thread that talks to the certificate authority sends is a parameter.
pub mod Challenges
pub mod Answers
pub mod Ordering
pub mod Orders
mod Tests
use another_rust_load_balanc.Prelude.{
  ℕ, Text, codes, Bool, true, false, Option, none, some, List, [], ◌∷◌, ◌++◌, map, ◌==◌, find,
  is_some, split, strip_prefix, Result, Outcome, done, panic, if◌then◌else◌,
}
use another_rust_load_balanc.Http.{Http, Request, Response}
use another_rust_load_balanc.ErrorResponse.{bad_request, not_found}

pub record OpenChallenge : Type 0 where
  pub token : Text
  pub proof : Text

-- `AcmeHandler` is what its lock guards.
abbrev pub AcmeHandler : Type 0
AcmeHandler = List OpenChallenge

unfoldable pub new : AcmeHandler
new = []

unfoldable pub add_challenge : Text → Text → AcmeHandler → AcmeHandler
add_challenge token proof challenges = challenges ++ record { token = token; proof = proof } ∷ []

-- `Option::map`.
abbrev pub mapped : {A B : Type 0} → (A → B) → Option A → Option B
mapped f none = none
mapped f (some a) = some (f a)

unfoldable pub get_proof_for_challenge : Text → AcmeHandler → Option Text
get_proof_for_challenge token challenges =
    mapped (λ c. c.proof) (find (λ c. c.token == token) challenges)

-- The first challenge with the token is removed, if there is one.
unfoldable pub remove_challenge : Text → AcmeHandler → AcmeHandler
remove_challenge token [] = []
remove_challenge token (c ∷ challenges) =
    let rest = remove_challenge token challenges in
    if c.token == token then challenges else c ∷ rest

-- What the challenge thread sends: a challenge to open, or its result.
pub data Message (Certificate : Type 0) : Type 0 where
  left : Text → Text → Message Certificate
  right : Result Certificate Text → Message Certificate

-- The loop of `initiate_challenge`, from a message on, with those that follow it. The end of the
-- channel makes an `unwrap` panic.
unfoldable pub receive :
    {Certificate : Type 0}
    → Message Certificate
    → List (Message Certificate)
    → AcmeHandler
    → Outcome (Result Certificate Text × AcmeHandler)
receive (right cert) messages challenges = done (cert, challenges)
receive (left token proof) [] challenges = panic
receive (left token proof) (message ∷ messages) challenges =
    receive message messages (remove_challenge token (add_challenge token proof challenges))

abbrev pub challenge_path : Text
challenge_path = codes "/.well-known/acme-challenge/"

-- `Iterator::last`.
unfoldable pub last : {A : Type 0} → List A → Option A
last [] = none
last (x ∷ xs) = elim (last xs) [ none ↦ some x | some y ↦ some y ]

unfoldable pub is_challenge : {Headers Body : Type 0} → Request Headers Body → Bool
is_challenge request = is_some (strip_prefix challenge_path request.uri.path)

module _ {Headers Value Body : Type 0} (http : Http Headers Value Body) where
  unfoldable pub respond_to_challenge :
      AcmeHandler → Request Headers Body → Option (Response Headers Body)
  unfolding is_challenge last get_proof_for_challenge bad_request not_found
  respond_to_challenge challenges request =
      if is_challenge request
      then some (elim (last (split 47 request.uri.path)) [
        | none ↦ bad_request http (codes "Unable to extract token from last path param!")
        | some token ↦ elim (get_proof_for_challenge token challenges) [
          | none ↦ not_found http
          | some proof ↦ record { status = 200; headers = http.empty; body = http.body_from proof }
        ]
      ])
      else none
