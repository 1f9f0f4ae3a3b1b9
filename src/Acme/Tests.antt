-- ===== src/Acme/Tests.antt =====
-- Runs of the theorems on src/acme.rs at concrete inputs.
use another_rust_load_balanc.Prelude.{◌≡◌, refl, codes, none, [], ◌∷◌, ok, ◌==◌}
use another_rust_load_balanc.Prelude.Tasks.{ended}
use another_rust_load_balanc.Samples.{acme_lib, certificate}
use another_rust_load_balanc.Acme.Ordering.{generate_and_validate_challenge, order_certificate}
use another_rust_load_balanc.Acme.Orders.{order_certificate-answer}
use another_rust_load_balanc.Acme.{AcmeHandler, get_proof_for_challenge}

abbrev handler : AcmeHandler
handler = record { token = codes "t"; proof = codes "p" } ∷ []

fresh_u : get_proof_for_challenge (codes "u") handler ≡ none
unfolding get_proof_for_challenge ◌==◌
fresh_u = refl

order_certificate-answer_example :
    order_certificate acme_lib 2 [] (codes "name") handler ≡ ended (ok certificate, handler)
unfolding generate_and_validate_challenge
order_certificate-answer_example =
    order_certificate-answer acme_lib 2 [] (codes "name") handler 1 refl (fresh_u, tt)
