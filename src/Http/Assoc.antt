-- ===== src/Http/Assoc.antt =====
-- Header maps as association lists, header values and bodies as texts: an instance of the
-- interface in which the operations run.
use text.Mathlib.Text.{◌==◌ as str_eq}
use text.Mathlib.TextEquality.{eq_iff as str_eq_iff}
use another_rust_load_balanc.Prelude.{
  Text, none, some, List, [], ◌∷◌, ◌++◌, ◌≡◌, refl, is_some, eq_refl, arith, true, if◌then◌else◌,
  ◌==◌, codes,
}
use another_rust_load_balanc.Http.{Uri, HeaderName, head?, values_of, Http, HttpLaws}

abbrev pub Entries : Type 0
Entries = List (HeaderName × Text)

abbrev pub without : HeaderName → Entries → Entries
without k [] = []
without k ((j, v) ∷ m) = let rest = without k m in if str_eq j k then rest else (j, v) ∷ rest

abbrev pub simple_uri : Text → Text → Text → Uri
simple_uri scheme authority path = record {
  authority = some authority;
  path = path;
  query = none;
  path_and_query = some path;
}

abbrev pub show_uri : Uri → Text
show_uri u = elim u.authority [ none ↦ u.path | some a ↦ codes "https://" ++ (a ++ u.path) ]

abbrev pub assoc_http : Http Entries Text Text
assoc_http = record {
  empty = [];
  get = λ k m. head? (values_of k m);
  get_all = λ k m. values_of k m;
  contains_key = λ k m. is_some (head? (values_of k m));
  insert = λ k v m. without k m ++ (k, v) ∷ [];
  append = λ k v m. m ++ (k, v) ∷ [];
  remove = λ k m. without k m;
  iter = λ m. m;
  to_str = λ v. some v;
  from_str = λ t. some t;
  eq_str = λ v t. v == t;
  empty_body = [];
  body_from = λ t. t;
  build_uri = λ s a p. some (simple_uri s a p);
  uri_to_string = show_uri;
}

values_of-append :
    (k j : HeaderName) (v : Text) (m : Entries)
    → values_of j (m ++ (k, v) ∷ [])
      ≡ (if str_eq k j then values_of j m ++ v ∷ [] else values_of j m)
values_of-append k j v [] = ground arith
values_of-append k j v ((i, w) ∷ m) = ground (arith, values_of-append k j v m)

values_of-without :
    (k j : HeaderName) (m : Entries)
    → values_of j (without k m) ≡ (if str_eq k j then [] else values_of j m)
values_of-without k j [] = ground arith
values_of-without k j ((i, w) ∷ m) =
    ground (arith, values_of-without k j m, str_eq_iff i k, str_eq_iff i j, str_eq_iff k j)

values_of-insert :
    (k j : HeaderName) (v : Text) (m : Entries)
    → values_of j (without k m ++ (k, v) ∷ []) ≡ (if str_eq k j then v ∷ [] else values_of j m)
values_of-insert k j v m =
    ground (arith, values_of-append k j v (without k m), values_of-without k j m)

eq_of_some : (v t : Text) → some v ≡ some t → (v == t) ≡ true
eq_of_some v t h = ground (arith, eq_refl v)

pub assoc_laws : HttpLaws assoc_http
assoc_laws = record {
  get_first = λ k m. refl;
  contains_get = λ k m. refl;
  get_all_empty = λ k. refl;
  get_all_insert = values_of-insert;
  get_all_append = values_of-append;
  get_all_remove = values_of-without;
  get_all_iter = λ k m. refl;
  eq_str_to_str = eq_of_some;
}
