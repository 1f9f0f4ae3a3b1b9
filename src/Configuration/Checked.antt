-- ===== src/Configuration/Checked.antt =====
-- Which certificates src/configuration.rs gives to the resolver of src/tls.rs.
use mathlib.Core.Path.{subst}
use another_rust_load_balanc.Prelude.{
  ℕ, Text, ◌≡◌, sym, Bool, not, ◌||◌, ◌==◌, eq_iff, Bool-cases, some, List, [], ◌∷◌, ok, inl, inr,
}
use another_rust_load_balanc.Prelude.Maps.{HashMap, get, insert, get-insert}
use another_rust_load_balanc.Prelude.Results.{Result-cases}
use another_rust_load_balanc.Prelude.Tasks.{ended}
use another_rust_load_balanc.Tls.{CertifiedKey, Files, resolve, load_certified_key}
use another_rust_load_balanc.Acme.{AcmeHandler}
use another_rust_load_balanc.Acme.Ordering.{AcmeLib}
use another_rust_load_balanc.Configuration.Loads.{lift, lift_outcome, >>=-eq-ok, lift-eq-ok}
use another_rust_load_balanc.Configuration.Runtime.{
  CertificateConfig, local, acme, Loading, is_acme,
}
use another_rust_load_balanc.Configuration.Certificates.{
  ordered, cross_checked, acme_key, create_certified_key, load_certificates,
}

module _ {Table Cert SigningKey : Type 0} (lib : AcmeLib) (rounds : ℕ)
    (files : Files Cert SigningKey) (loading : Loading Table Cert SigningKey) where
  abbrev IsChecked : Text → CertifiedKey Cert SigningKey → Type 0
  IsChecked name key = loading.cross_check key name ≡ ok tt

  -- Every key of the map was checked against the name it stands at.
  abbrev AreChecked : HashMap (CertifiedKey Cert SigningKey) → Type 0
  AreChecked certificates =
      (name : Text) (key : CertifiedKey Cert SigningKey)
      → get name certificates ≡ some key
      → IsChecked name key

  cross_checked-IsChecked :
      (name : Text) (a : CertifiedKey Cert SigningKey) (handler : AcmeHandler)
      {key : CertifiedKey Cert SigningKey} {after : AcmeHandler}
      → cross_checked lib rounds files loading name a handler ≡ ended (ok key, after)
      → IsChecked name key
  cross_checked-IsChecked name a handler {key} h =
      elim (Result-cases (loading.cross_check a name)) [
        | inr (e, bad) ↦ cc (rw bad at h)
        | inl (tt, good) ↦
            let same : a ≡ key = cc (rw good at h) in subst (IsChecked name) same good
      ]

  create-IsChecked :
      (config_dir : Text) (config : CertificateConfig) (name : Text) (handler : AcmeHandler)
      {key : CertifiedKey Cert SigningKey} {after : AcmeHandler}
      → create_certified_key lib rounds files loading config_dir config name handler
        ≡ ended (ok key, after)
      → IsChecked name key
  unfolding create_certified_key
  create-IsChecked dir (local c k) name handler h =
      let (a, between, _, last) =
        >>=-eq-ok
          (lift_outcome (load_certified_key files (loading.join dir c) (loading.join dir k)))
          (cross_checked lib rounds files loading name) handler h in
      cross_checked-IsChecked name a between last
  create-IsChecked dir (acme staging email persist_dir) name handler h =
      let (certificate, between, _, rest) =
        >>=-eq-ok
          (ordered lib rounds files loading staging (loading.join dir persist_dir) email name) _
          handler h in
      let (a, later, _, last) =
        >>=-eq-ok (lift (acme_key lib rounds files loading name certificate))
          (cross_checked lib rounds files loading name) between rest in
      cross_checked-IsChecked name a later last

  insert-AreChecked :
      (name : Text) (key : CertifiedKey Cert SigningKey)
      (certificates : HashMap (CertifiedKey Cert SigningKey))
      → IsChecked name key
      → AreChecked certificates
      → AreChecked (insert name key certificates)
  insert-AreChecked name key certificates checked all_checked asked found h =
      let at = rw (get-insert name asked key certificates) at h in
      elim (Bool-cases (name == asked)) [
        | inl same ↦
            let is : key ≡ found = cc (rw same at at) in
            rw (sym is, sym ((eq_iff name asked).0 same)) checked
        | inr differs ↦ all_checked asked found (rw differs at at)
      ]

  load-AreChecked :
      (init_acme : Bool) (config_dir : Text) (configs : List (Text × CertificateConfig))
      (certificates : HashMap (CertifiedKey Cert SigningKey)) (handler : AcmeHandler)
      {loaded : HashMap (CertifiedKey Cert SigningKey)} {after : AcmeHandler}
      → AreChecked certificates
      → load_certificates lib rounds files loading init_acme config_dir configs certificates handler
        ≡ ended (ok loaded, after)
      → AreChecked loaded
  unfolding load_certificates
  load-AreChecked init_acme dir [] certificates handler {loaded} all_checked h =
      let same : certificates ≡ loaded = cc (lift-eq-ok (ok certificates) handler h).0 in
      subst AreChecked same all_checked
  load-AreChecked init_acme dir ((sni, config) ∷ configs) certificates handler {loaded} {after}
        all_checked h =
      elim (Result-cases (loading.dns_name sni)) [
        | inr (e, bad) ↦ cc (rw bad at h)
        | inl (name, is) ↦ elim (Bool-cases (init_acme || not (is_acme config))) [
          | inr skipped ↦
              load-AreChecked init_acme dir configs certificates handler all_checked
                (rw (is, skipped) at h)
          | inl taken ↦
              let create = create_certified_key lib rounds files loading dir config name in
              let load = λ (key : CertifiedKey Cert SigningKey).
                load_certificates lib rounds files loading init_acme dir configs
                  (insert name key certificates) in
              let (key, between, first, last) =
                >>=-eq-ok create load handler (rw (is, taken) at h) in
              load-AreChecked init_acme dir configs (insert name key certificates) between
                (insert-AreChecked name key certificates
                  (create-IsChecked dir config name handler first) all_checked)
                last
        ]
      ]

  -- When the certificates of a file were loaded without an error, from files or by orders, a key
  -- that the resolver gives a client for a name has a certificate that was checked to be valid for
  -- that very name.
  pub load_certificates-resolve :
      (init_acme : Bool) (config_dir : Text) (configs : List (Text × CertificateConfig))
      (handler after : AcmeHandler) (loaded : HashMap (CertifiedKey Cert SigningKey)) (name : Text)
      (key : CertifiedKey Cert SigningKey)
      → load_certificates lib rounds files loading init_acme config_dir configs [] handler
        ≡ ended (ok loaded, after)
      → resolve loaded (some name) ≡ some key
      → loading.cross_check key name ≡ ok tt
  unfolding resolve get
  load_certificates-resolve init_acme dir configs handler after loaded name key h resolved =
      load-AreChecked init_acme dir configs [] handler (λ n k found. cc) h name key resolved
