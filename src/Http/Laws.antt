-- ===== src/Http/Laws.antt =====
-- Consequences of the documented laws of header maps.
use text.Mathlib.Text.{◌==◌ as str_eq}
use text.Mathlib.TextEquality.{eq_iff as str_eq_iff}
use another_rust_load_balanc.Prelude.{
  ◌≡◌, refl, false, List, [], ◌∷◌, ◌++◌, is_some, arith, if◌then◌else◌, Bool-cases, inl, inr,
}
use another_rust_load_balanc.Http.{HeaderName, head?, Http, HttpLaws}

is_some-head {ℓ} : {A : Type ℓ} (l : List A) → is_some (head? l) ≡ false → l ≡ []
is_some-head [] h = refl
is_some-head (x ∷ l) h = cc

module _ {Headers Value Body : Type 0} (http : Http Headers Value Body) (laws : HttpLaws http)
    (k : HeaderName) (m : Headers) where
  pub get_all_of_missing : http.contains_key k m ≡ false → http.get_all k m ≡ []
  get_all_of_missing h =
      is_some-head (http.get_all k m) (rw (laws.contains_get k m, laws.get_first k m) at h)

  -- Appending where the name occurs and inserting where it does not both add one value at the end.
  pub get_all-append_or_insert :
      (j : HeaderName) (v : Value)
      → http.get_all j (if http.contains_key k m then http.append k v m else http.insert k v m)
        ≡ (if str_eq k j then http.get_all j m ++ v ∷ [] else http.get_all j m)
  get_all-append_or_insert j v = elim (Bool-cases (http.contains_key k m)) [
    | inl there ↦ rw there (laws.get_all_append k j v m)
    | inr missing ↦ rw missing (
        rw (laws.get_all_insert k j v m)
          (ground (arith, str_eq_iff k j, get_all_of_missing missing)))
  ]
