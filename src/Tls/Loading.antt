-- ===== src/Tls/Loading.antt =====
-- When src/tls.rs loads a certificate with its key, and when it panics.
use another_rust_load_balanc.Prelude.{
  ◌≡◌, ◌↔◌, refl, ap, ◌∙◌, Text, some, List, [], ◌∷◌, done, panic, ok, err, inl, inr, Option-cases,
}
use another_rust_load_balanc.Prelude.Results.{Result-cases}
use another_rust_load_balanc.Tls.{
  CertifiedKey, Files, IoError, load_certs, load_keys, load_key, load_certified_key,
}

module _ {Certificate SigningKey : Type 0} (files : Files Certificate SigningKey) where
  -- The file can be read, and what it holds decodes to these certificates or keys.
  abbrev pub HasCerts : Text → List Certificate → Type 0
  HasCerts path certificates =
      (content : Text) × (files.read path ≡ ok content) × (files.certs content ≡ some certificates)

  abbrev pub HasKeys : Text → List Text → Type 0
  HasKeys path keys =
      (content : Text) × (files.read path ≡ ok content)
      × (files.rsa_private_keys content ≡ some keys)

  load_certs_iff :
      (path : Text) (certificates : List Certificate)
      → (load_certs files path ≡ ok certificates) ↔ HasCerts path certificates
  unfolding load_certs
  load_certs_iff path certificates = elim (Result-cases (files.read path)) [
    | inr (e, bad) ↦ (λ h. cc (rw (bad, load_certs) at h), λ (content, good, _). cc)
    | inl (content, good) ↦ elim (Option-cases (files.certs content)) [
      | inl bad ↦ (λ h. cc (rw (good, bad, load_certs) at h), λ (other, read, decoded). cc)
      | inr (cs, decoded) ↦ (
        λ h. (content, good, cc (rw (good, decoded, load_certs) at h)),
        λ (other, read, again). rw (good, decoded, load_certs) cc,
      )
    ]
  ]

  load_keys_iff :
      (path : Text) (keys : List Text) → (load_keys files path ≡ ok keys) ↔ HasKeys path keys
  unfolding load_keys
  load_keys_iff path keys = elim (Result-cases (files.read path)) [
    | inr (e, bad) ↦ (λ h. cc (rw (bad, load_keys) at h), λ (content, good, _). cc)
    | inl (content, good) ↦ elim (Option-cases (files.rsa_private_keys content)) [
      | inl bad ↦ (λ h. cc (rw (good, bad, load_keys) at h), λ (other, read, decoded). cc)
      | inr (ks, decoded) ↦ (
        λ h. (content, good, cc (rw (good, decoded, load_keys) at h)),
        λ (other, read, again). rw (good, decoded, load_keys) cc,
      )
    ]
  ]

  -- How the loading of a key ends.
  data KeyLoaded (path : Text) : Type 0 where
    no_key : load_key files path ≡ panic → HasKeys path [] → KeyLoaded path
    fails : (e : IoError) → load_key files path ≡ done (err e) → KeyLoaded path
    first :
        (key : Text) (rest : List Text)
        → load_key files path ≡ done (ok key)
        → HasKeys path (key ∷ rest)
        → KeyLoaded path

  load_key-KeyLoaded : (path : Text) → KeyLoaded path
  unfolding load_key
  load_key-KeyLoaded path = elim (Result-cases (load_keys files path)) [
    | inr (e, bad) ↦ fails e (rw (bad, load_key) refl)
    | inl (keys, good) ↦ split keys good
  ]
    where
      split : (keys : List Text) → load_keys files path ≡ ok keys → KeyLoaded path
      split [] good = no_key (rw (good, load_key) refl) ((load_keys_iff path []).0 good)
      split (key ∷ rest) good =
          first key rest (rw (good, load_key) refl) ((load_keys_iff path (key ∷ rest)).0 good)

  module _ (certificate_path private_key_path : Text) where
    loading_panics :
        load_certified_key files certificate_path private_key_path ≡ panic
        → (certificates : List Certificate) × HasCerts certificate_path certificates
          × HasKeys private_key_path []
    unfolding load_certified_key load_key
    loading_panics h = elim (Result-cases (load_certs files certificate_path)) [
      | inr (e, bad) ↦ cc (rw (bad, load_certified_key) at h)
      | inl (cs, good) ↦ elim (load_key-KeyLoaded private_key_path) [
        | no_key _ none_there ↦ (cs, (load_certs_iff certificate_path cs).0 good, none_there)
        | fails e is ↦ cc (rw (good, is, load_certified_key) at h)
        | first key rest is _ ↦ cc (rw (good, is, load_certified_key) at h)
      ]
    ]

    -- The loading of a certified key panics just when the certificates decode and the file of the
    -- private key decodes to no key at all; in every other case it returns.
    pub load_certified_key_panic_iff :
        (load_certified_key files certificate_path private_key_path ≡ panic) ↔ (
          (certificates : List Certificate) × HasCerts certificate_path certificates
          × HasKeys private_key_path [])
    unfolding load_certified_key load_key
    load_certified_key_panic_iff = (
      loading_panics,
      λ (cs, has, none_there).
          rw
            (
              (load_certs_iff certificate_path cs).1 has,
              (load_keys_iff private_key_path []).1 none_there,
              load_certified_key,
              load_key,
            )
            refl,
    )

    loading_ends :
        (k : CertifiedKey Certificate SigningKey)
        → load_certified_key files certificate_path private_key_path ≡ done (ok k)
        → HasCerts certificate_path k.certificates
          × ((key : Text) × (rest : List Text) × HasKeys private_key_path (key ∷ rest)
              × (files.rsa_signing_key key ≡ some k.key))
    unfolding load_certified_key load_key
    loading_ends k h = elim (Result-cases (load_certs files certificate_path)) [
      | inr (e, bad) ↦ cc (rw (bad, load_certified_key) at h)
      | inl (cs, good) ↦ elim (load_key-KeyLoaded private_key_path) [
        | no_key is _ ↦ cc (rw (good, is, load_certified_key) at h)
        | fails e is ↦ cc (rw (good, is, load_certified_key) at h)
        | first key rest is has ↦ elim (Option-cases (files.rsa_signing_key key)) [
          | inl bad ↦ cc (rw (good, is, bad, load_certified_key) at h)
          | inr (signing, signs) ↦
              let same : record { certificates = cs; key = signing } ≡ k =
                cc (rw (good, is, signs, load_certified_key) at h) in
              (
                (load_certs_iff certificate_path k.certificates).0
                    (good ∙ ap ok (ap (λ c. c.certificates) same)),
                (key, rest, has, signs ∙ ap some (ap (λ c. c.key) same)),
              )
        ]
      ]
    ]

    -- The loading ends with a certified key just when its certificates are those that the first
    -- file decodes to, and its signing key is that of the first key of the second file.
    pub load_certified_key_iff :
        (k : CertifiedKey Certificate SigningKey)
        → (load_certified_key files certificate_path private_key_path ≡ done (ok k)) ↔ (
            HasCerts certificate_path k.certificates
            × ((key : Text) × (rest : List Text) × HasKeys private_key_path (key ∷ rest)
                × (files.rsa_signing_key key ≡ some k.key)))
    unfolding load_certified_key load_key
    load_certified_key_iff k = (
      loading_ends k,
      λ (has, (key, rest, keys, signs)).
          rw
            (
              (load_certs_iff certificate_path k.certificates).1 has,
              (load_keys_iff private_key_path (key ∷ rest)).1 keys,
              signs,
              load_certified_key,
              load_key,
            )
            refl,
    )
