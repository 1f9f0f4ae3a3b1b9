-- ===== src/Middleware/CustomErrorPages/Pages.antt =====
-- What src/middleware/custom_error_pages.rs keeps of a response and what it replaces.
use text.Mathlib.Text.{◌==◌ as str_eq}
use another_rust_load_balanc.Prelude.{
  Bool, false, ◌||◌, ◌&&◌, [], ◌≡◌, refl, any, eqb, arith, if◌then◌else◌, Bool-cases, inl, inr,
}
use another_rust_load_balanc.Http.{HeaderName, Http, HttpLaws, Response}
use another_rust_load_balanc.Middleware.CustomErrorPages.{CustomErrorPages, Files, modify_response}

module _ {Headers Value Body : Type 0} (http : Http Headers Value Body) (laws : HttpLaws http)
    (files : Files) (self : CustomErrorPages) (response : Response Headers Body) where
  abbrev replaced : Bool
  replaced = any (λ e. eqb e response.status) self.errors

  -- A response whose status is among the configured errors loses the headers content-length and
  -- content-encoding; its status and its other headers stay. Any other response is kept as it is.
  pub modify_response-headers :
      (j : HeaderName)
      → let after = modify_response http files self response in
        (after.status ≡ response.status)
        × (http.get_all j after.headers ≡ (
            if replaced && (str_eq "content-length" j || str_eq "content-encoding" j)
            then []
            else http.get_all j response.headers))
        × (replaced ≡ false → after ≡ response)
  unfolding modify_response
  modify_response-headers j = elim (Bool-cases replaced) [
    | inl e ↦ rw e (
      refl,
      rw
          (
            laws.get_all_remove "content-encoding" j
                (http.remove "content-length" response.headers),
            laws.get_all_remove "content-length" j response.headers,
          )
          (ground arith),
      λ h. cc,
    )
    | inr e ↦ rw e (refl, refl, λ h. refl)
  ]
