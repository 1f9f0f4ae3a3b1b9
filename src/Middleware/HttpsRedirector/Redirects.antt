-- ===== src/Middleware/HttpsRedirector/Redirects.antt =====
-- What src/middleware/https_redirector.rs answers.
use another_rust_load_balanc.Prelude.{
  none, Option, Text, codes, some, [], ◌∷◌, ◌≡◌, inl, inr, refl, Result, ok, err, Option-cases,
}
use another_rust_load_balanc.Prelude.Options.{unwrap_or}
use another_rust_load_balanc.Http.{Uri, Http, HttpLaws, Request, Response}
use another_rust_load_balanc.ErrorResponse.{
  bad_request, plain, internal_server_error, handle_internal_server_error,
}
use another_rust_load_balanc.Scheme.{http}
use another_rust_load_balanc.Middleware.HttpsRedirector.{
  Authorities, host_header, location_header, parse_host_header, modify_request,
}

the_same : {A : Type 0} {o : Option A} {a b : A} → o ≡ some a → o ≡ some b → a ≡ b
the_same h k = cc

module _ {Headers Value Body : Type 0} (hyper : Http Headers Value Body) (laws : HttpLaws hyper)
    (authorities : Authorities) (request : Request Headers Body) where
  -- The host header of the request is a text that is an authority.
  abbrev pub HostIs : Text → Type 0
  HostIs host =
      (value : Value) × (text : Text) × (hyper.get host_header request.headers ≡ some value)
      × (hyper.to_str value ≡ some text)
      × (authorities.try_from text ≡ some host)

  -- The https URI of the request's path and query, at the authority of the request's own URI, or
  -- else at that of the host header.
  abbrev pub target : Text → Text → Option Uri
  target host path = hyper.build_uri (codes "https") (unwrap_or request.uri.authority host) path

  -- What is answered, and in which case.
  pub data Answer (response : Response Headers Body) : Type 0 where
    moved :
        (host path : Text) (uri : Uri) (value : Value)
        → HostIs host
        → request.uri.path_and_query ≡ some path
        → target host path ≡ some uri
        → hyper.from_str (hyper.uri_to_string uri) ≡ some value
        → response.status ≡ 301
        → hyper.get_all location_header response.headers ≡ value ∷ []
        → Answer response
    no_host : ((host : Text) → HostIs host → ⊥) → response.status ≡ 400 → Answer response
    no_path :
        (host : Text)
        → HostIs host
        → request.uri.path_and_query ≡ none
        → response.status ≡ 500
        → Answer response
    no_uri :
        (host path : Text)
        → HostIs host
        → request.uri.path_and_query ≡ some path
        → target host path ≡ none
        → response.status ≡ 500
        → Answer response
    no_location :
        (host path : Text) (uri : Uri)
        → HostIs host
        → request.uri.path_and_query ≡ some path
        → target host path ≡ some uri
        → hyper.from_str (hyper.uri_to_string uri) ≡ none
        → response.status ≡ 500
        → Answer response

  -- The host header, as it is read.
  data Parsed (result : Result Text (Response Headers Body)) : Type 0 where
    host_read : (host : Text) → HostIs host → result ≡ ok host → Parsed result
    host_refused :
        (response : Response Headers Body)
        → ((host : Text) → HostIs host → ⊥)
        → response.status ≡ 400
        → result ≡ err response
        → Parsed result

  refuse :
      {result : Result Text (Response Headers Body)} (text : Text)
      → result ≡ err (bad_request hyper text)
      → ((host : Text) → HostIs host → ⊥)
      → Parsed result
  unfolding bad_request plain
  refuse text is never = host_refused (bad_request hyper text) never refl is

  parse_host_header-Parsed : Parsed (parse_host_header hyper authorities request)
  unfolding parse_host_header
  parse_host_header-Parsed = elim (Option-cases (hyper.get host_header request.headers)) [
    | inl missing ↦
        refuse (codes "missing host header") (rw (missing, parse_host_header) refl)
          (λ host h. let sent = h.2 in cc)
    | inr (value, sent) ↦ elim (Option-cases (hyper.to_str value)) [
      | inl unread ↦
          refuse authorities.to_str_error (rw (sent, parse_host_header, unread) refl) (λ host h.
            let read = h.3 in
            let same : value ≡ h.0 = the_same sent h.2 in
            let none_read : hyper.to_str h.0 ≡ none = rw same at unread in cc)
      | inr (text, read) ↦ elim (Option-cases (authorities.try_from text)) [
        | inl invalid ↦
            refuse (codes "invalid host header") (rw (sent, parse_host_header, read, invalid) refl)
              (λ host h.
                let same : value ≡ h.0 = the_same sent h.2 in
                let again : hyper.to_str h.0 ≡ some text = rw same at read in
                let same_text : text ≡ h.1 = the_same again h.3 in
                let valid = h.4 in
                let none_valid : authorities.try_from h.1 ≡ none = rw same_text at invalid in cc)
        | inr (host, valid) ↦
            host_read host (value, text, sent, read, valid)
              (rw (sent, parse_host_header, read, valid) refl)
      ]
    ]
  ]

  abbrev Answered : Type 0
  Answered =
      (response : Response Headers Body) × (modify_request hyper authorities http request
        ≡ err response)
      × Answer response

  located :
      (host path : Text) (uri : Uri)
      → HostIs host
      → parse_host_header hyper authorities request ≡ ok host
      → request.uri.path_and_query ≡ some path
      → target host path ≡ some uri
      → Answered
  unfolding modify_request internal_server_error plain handle_internal_server_error
  located host path uri is e e1 e2 =
      elim (Option-cases (hyper.from_str (hyper.uri_to_string uri))) [
        | inl invalid ↦ (
          internal_server_error hyper,
          rw (e, modify_request, e1, e2, invalid) refl,
          no_location host path uri is e1 e2 invalid refl,
        )
        | inr (value, valid) ↦ (
          record {
            status = 301;
            headers = hyper.append location_header value hyper.empty;
            body = hyper.empty_body;
          },
          rw (e, modify_request, e1, e2, valid) refl,
          moved host path uri value is e1 e2 valid refl (
              rw
                (
                  laws.get_all_append location_header location_header value hyper.empty,
                  laws.get_all_empty location_header,
                )
                refl),
        )
      ]

  accepted :
      (host : Text) → HostIs host → parse_host_header hyper authorities request ≡ ok host → Answered
  unfolding modify_request internal_server_error plain handle_internal_server_error
  accepted host is e = elim (Option-cases request.uri.path_and_query) [
    | inl missing ↦ (
      internal_server_error hyper,
      rw (e, modify_request, missing) refl,
      no_path host is missing refl,
    )
    | inr (path, e1) ↦ elim (Option-cases (target host path)) [
      | inl invalid ↦ (
        internal_server_error hyper,
        rw (e, modify_request, e1, invalid) refl,
        no_uri host path is e1 invalid refl,
      )
      | inr (uri, e2) ↦ located host path uri is e e1 e2
    ]
  ]

  -- A request over plain HTTP never passes. Its host header has to be a text that is an authority,
  -- else it is answered with status 400, also where its URI has an authority. With such a header it
  -- is answered with status 301 and the one location that is the https URI of the same path and
  -- query, at the authority of the request's URI or else of its host header; and with status 500
  -- just when it has no path, that URI cannot be built, or its text is no header value.
  pub modify_request-Answer : Answered
  unfolding modify_request
  modify_request-Answer = elim parse_host_header-Parsed [
    | host_read host is e ↦ accepted host is e
    | host_refused response never status e ↦ (response, rw e refl, no_host never status)
  ]
