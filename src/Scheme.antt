-- ===== src/Scheme.antt =====
-- `Scheme` of src/server.rs.
use another_rust_load_balanc.Prelude.{Text, codes, Bool, true, false}

pub data Scheme : Type 0 where
  http https : Scheme

-- The derived `PartialEq`.
unfoldable pub scheme_eq : Scheme → Scheme → Bool
scheme_eq http http = true
scheme_eq https https = true
scheme_eq _ _ = false

-- `Display`.
unfoldable pub to_string : Scheme → Text
to_string http = codes "http"
to_string https = codes "https"
