-- ===== src/Logging.antt =====
-- src/logging.rs: the level of the log. What the log4rs crate sets up with it is left out.
use another_rust_load_balanc.Prelude.{
  ap, ◌∙◌, Bool-cases, inl, inr, eq_iff, ◌+◌, ◌≡◌, ◌↔◌, refl, Text, codes, ◌&&◌, Option, none, some,
  map, leb, ◌==◌, Outcome, unwrap, if◌then◌else◌,
}
use another_rust_load_balanc.Prelude.Options.{unwrap_or}

pub data LevelFilter : Type 0 where
  off error warn info debug trace : LevelFilter

-- `to_lowercase` of the letters of the names.
abbrev pub to_lowercase : Text → Text
to_lowercase str = map (λ c. if leb 65 c && leb c 90 then c + 32 else c) str

unfoldable pub parse_level_filter : Text → Option LevelFilter
parse_level_filter str =
    let lower = to_lowercase str in
    if lower == codes "off"
    then some off
    else if lower == codes "error"
    then some error
    else if lower == codes "warn"
    then some warn
    else if lower == codes "info"
    then some info
    else if lower == codes "debug"
    then some debug
    else if lower == codes "trace"
    then some trace
    else none

-- The level of `initialize`, by the variable `LOG_LEVEL`; one that cannot be parsed makes it panic.
unfoldable pub initialize : Option Text → Outcome LevelFilter
unfolding parse_level_filter
initialize log_level = unwrap (parse_level_filter (unwrap_or log_level (codes "INFO")))

abbrev pub name : LevelFilter → Text
name off = codes "off"
name error = codes "error"
name warn = codes "warn"
name info = codes "info"
name debug = codes "debug"
name trace = codes "trace"

parsed :
    (str : Text) (level : LevelFilter)
    → to_lowercase str ≡ name level
    → parse_level_filter str ≡ some level
unfolding parse_level_filter ◌==◌
parsed str off h = rw (h, parse_level_filter) refl
parsed str error h = rw (h, parse_level_filter) refl
parsed str warn h = rw (h, parse_level_filter) refl
parsed str info h = rw (h, parse_level_filter) refl
parsed str debug h = rw (h, parse_level_filter) refl
parsed str trace h = rw (h, parse_level_filter) refl

-- One test of the match.
branch :
    (lower text : Text) (found level : LevelFilter) (rest : Option LevelFilter)
    → text ≡ name found
    → (rest ≡ some level → lower ≡ name level)
    → (if lower == text then some found else rest) ≡ some level
    → lower ≡ name level
branch lower text found level rest named later h = elim (Bool-cases (lower == text)) [
  | inl e ↦
      let same : found ≡ level = cc (rw e at h) in (eq_iff lower text).0 e ∙ named ∙ ap name same
  | inr e ↦ later (rw e at h)
]

-- A text names a level exactly if it is its name in letters of any case.
pub parse_level_filter_iff :
    (str : Text) (level : LevelFilter)
    → (parse_level_filter str ≡ some level) ↔ (to_lowercase str ≡ name level)
unfolding parse_level_filter
parse_level_filter_iff str level =
    let test = branch (to_lowercase str) in
    (
      test (codes "off") off level _ refl (
          test (codes "error") error level _ refl (
            test (codes "warn") warn level _ refl (
              test (codes "info") info level _ refl (
                test (codes "debug") debug level _ refl
                  (test (codes "trace") trace level none refl (λ e. cc)))))),
      parsed str level,
    )
