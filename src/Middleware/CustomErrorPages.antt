-- ===== src/Middleware/CustomErrorPages.antt =====
-- src/middleware/custom_error_files.rs. The file system is a parameter.
pub mod Pages
use another_rust_load_balanc.Prelude.{
  ℕ, Text, codes, Bool, true, Option, none, some, List, ◌++◌, any, eqb, if◌then◌else◌,
}
use another_rust_load_balanc.Prelude.Options.{unwrap_or}
use another_rust_load_balanc.Http.{Http, Response}

pub record CustomErrorPages : Type 0 where
  pub location : Text
  pub errors : List ℕ

-- The http crate's texts of a status, and the file named by a status with the extension `html` in
-- a directory.
pub record Files : Type 0 where
  pub as_str : ℕ → Text
  pub canonical_reason : ℕ → Option Text
  pub read_to_string : Text → Text → Option Text

module _ {Headers Value Body : Type 0} (http : Http Headers Value Body) (files : Files) where
  unfoldable pub replace_response : CustomErrorPages → Response Headers Body → Response Headers Body
  replace_response self response =
      let custom_body = files.read_to_string self.location (files.as_str response.status) in
      let reason = unwrap_or (files.canonical_reason response.status) (codes "") in
      let canonical_body =
        files.as_str response.status ++ (codes " - " ++ (reason ++ codes "\n")) in
      record {
        status = response.status;
        headers = http.remove "content-encoding" (http.remove "content-length" response.headers);
        body = elim custom_body [
          | none ↦ http.body_from canonical_body
          | some payload ↦ http.body_from payload
        ];
      }

  unfoldable pub modify_response : CustomErrorPages → Response Headers Body → Response Headers Body
  unfolding replace_response
  modify_response self response =
      if any (λ e. eqb e response.status) self.errors
      then replace_response self response
      else response
