-- ===== src/Samples.antt =====
-- Test data for src/: concrete instances of the parameters of the models.
use another_rust_load_balanc.Prelude.{
  ℕ, ◌-◌, eqb, if◌then◌else◌, refl, Text, codes, true, Option, none, some, List, [], ◌∷◌, ◌++◌,
  ◌==◌, ok,
}
use another_rust_load_balanc.Http.{Uri, Request, Response, SocketAddr}
use another_rust_load_balanc.Http.Assoc as Assoc
use another_rust_load_balanc.Utils.{split_once}
use another_rust_load_balanc.Matcher.{Matching}
use another_rust_load_balanc.Scheme.{http}
use another_rust_load_balanc.LoadBalancing as Balance
use another_rust_load_balanc.LoadBalancing.StickyCookie.{Cookie, Cookies, StickyCookie, lax}
use another_rust_load_balanc.LoadBalancing.Dispatch as Dispatch
use another_rust_load_balanc.Middleware as Ware
use another_rust_load_balanc.Middleware.Authentication.{Authentication, Ldap}
use another_rust_load_balanc.Middleware.CustomErrorPages.{Files}
use another_rust_load_balanc.Middleware.HttpsRedirector.{Authorities}
use another_rust_load_balanc.Middleware.RateLimiter as Rate
use another_rust_load_balanc.Middleware.RateLimiter.{
  LinkedHashMap, LinkedHashMapLaws, lookup, without,
}
use another_rust_load_balanc.Middleware.Chain as Chain
use another_rust_load_balanc.Prelude.Int.{pos}
use another_rust_load_balanc.Acme.Ordering as Ordering
use another_rust_load_balanc.Tls as Tls
use another_rust_load_balanc.Configuration.{Toml}

abbrev pub one : Text
one = codes "a"

abbrev pub two : Text
two = codes "b"

abbrev pub client : SocketAddr
client = record { ip = codes "9"; port = 5000 }

abbrev pub root : Uri
root = record {
  authority = none;
  path = codes "/";
  query = none;
  path_and_query = some (codes "/");
}

abbrev pub backend : Text → Uri
backend address = record root { authority = some address }

abbrev pub request : Request Assoc.Entries Text
request = record {
  method = codes "GET";
  uri = root;
  headers = ("host", codes "h") ∷ ("cookie", codes "s=b") ∷ ("accept-encoding", codes "gzip") ∷ [];
  body = [];
}

abbrev pub response : Response Assoc.Entries Text
response = record { status = 404; headers = ("content-length", codes "3") ∷ []; body = codes "abc" }

abbrev pub context : Balance.Context
context = record { client_address = client; backend_addresses = one ∷ two ∷ [] }

-- A cookie is a name, an equals sign and a value.
abbrev pub parse_cookie : Text → Option Cookie
parse_cookie text = elim (split_once text 61) [
  | none ↦ none
  | some (n, v) ↦ some (record { name = n; value = v })
]

abbrev pub cookies : Cookies
cookies = record {
  parse = parse_cookie;
  build = λ name value http_only secure same_site. name ++ codes "=" ++ value;
}

abbrev pub sticky : StickyCookie
sticky = record { cookie_name = codes "s"; http_only = true; secure = true; same_site = lax }

abbrev pub balancing : Dispatch.Outside
balancing = record { hash_ip = λ _. 5; gen_range = λ _. 0; cookies = cookies }

abbrev pub maps : LinkedHashMap Rate.Entries
maps = record {
  new = [];
  iter = λ m. m;
  remove = λ c m. (lookup c m, without c m);
  insert = λ c s m. without c m ++ (c, s) ∷ [];
}

abbrev pub maps_laws : LinkedHashMapLaws maps
maps_laws = record {
  iter_new = refl;
  removed = λ c m. refl;
  iter_remove = λ c m. refl;
  iter_insert = λ c s m. refl;
}

-- A directory of one name, whose password is `p`.
abbrev pub ldap : Ldap Text
ldap = record {
  from_header = λ t. some (record { user_id = codes "u"; password = t });
  connect = λ address. ok address;
  search = λ conn directory scope filter. ok (codes "n" ∷ []);
  simple_bind = λ conn dn password. ok (password == codes "p");
}

abbrev pub directory : Authentication
directory = record {
  ldap_address = codes "l";
  user_directory = codes "d";
  rdn_identifier = codes "cn";
  recursive = true;
}

abbrev pub files : Files
files = record {
  as_str = λ n. codes "s";
  canonical_reason = λ n. none;
  read_to_string = λ l s. none;
}

abbrev pub authorities : Authorities
authorities = record { try_from = λ t. some t; to_str_error = codes "unreadable" }

abbrev pub outside : Chain.Outside Text Text Rate.Entries Text
outside = record {
  ldap = ldap;
  encode = λ e b. b;
  from_static = λ t. t;
  files = files;
  authorities = authorities;
  maps = maps;
  hostname = none;
  now = 0;
}

abbrev pub ware_context : Ware.Context Assoc.Entries Text
ware_context = record {
  client_scheme = http;
  client_address = client;
  backend_uri = backend one;
  client = λ r. none;
}

abbrev pub matching : Matching
matching = record { is_match = λ r t. r.as_str == t; query_pairs = λ t. (t, t) ∷ [] }

abbrev pub certificate : Ordering.Certificate
certificate = record {
  certificate = codes "x509";
  private_key_der = codes "rsa";
  valid_days_left = pos 90;
}

-- An authority whose orders have one authorization to validate; an order is the number of those
-- that are left.
abbrev pub acme_lib : Ordering.AcmeLib
acme_lib = record {
  Directory = Text;
  Account = Text;
  NewOrder = ℕ;
  CsrOrder = Unit {0};
  CertOrder = Unit {0};
  Challenge = ℕ;
  create_dir_all = λ d. ok tt;
  from_url = λ d u. ok d;
  account = λ d e. ok e;
  existing = λ a n. ok none;
  new_order = λ a n. ok 1;
  confirm_validations = λ n. (if eqb n 0 then some tt else none);
  finalize_pkey = λ c. ok tt;
  download_and_save_cert = λ c. ok certificate;
  authorizations = λ n. ok (n ∷ []);
  http_token = λ n. codes "u";
  http_proof = λ n. codes "q";
  validate = λ n. ok tt;
  refresh = λ n. ok (n - 1);
}

-- Files that hold what their paths say.
abbrev pub key_files : Tls.Files Text Text
key_files = record {
  read = λ path. ok path;
  certs = λ content. some (content ∷ []);
  rsa_private_keys = λ content. some (content ∷ []);
  rsa_signing_key = λ key. some key;
}

-- Tables whose values are texts.
abbrev pub toml : Toml Text (List (Text × Text))
toml = record {
  as_table = λ v. some [];
  as_integer = λ v. some (pos 5);
  as_str = λ v. some v;
  as_bool = λ v. some true;
  as_array = λ v. some [];
  get = λ k t. some k;
  entries = λ t. t;
}
