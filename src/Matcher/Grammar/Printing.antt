-- ===== src/Matcher/Grammar/Printing.antt =====
-- A printer of rules, which the parser of src/backend_pool_matcher.rs inverts.
use another_rust_load_balanc.Prelude.{
  ◌≡◌, refl, sym, Text, codes, Bool, true, false, some, [], ◌∷◌, ◌++◌, eqb, arith, Bool-cases, inl,
  inr, if◌then◌else◌, strip_prefix, strip_prefix-append,
}
use mathlib.Core.Path.{subst}
use another_rust_load_balanc.Matcher.{
  ComparableRegex, BackendPoolMatcher, host, host_regexp, method, path, path_regexp, query, and, or,
}
use another_rust_load_balanc.Matcher.Grammar.{Accepted, new, method_from_str, quote, backslash}
use another_rust_load_balanc.Matcher.Grammar.Reading.{skip, next, chars, read_string, read_call}
use another_rust_load_balanc.Matcher.Grammar.Spelling.{
  Value, host_of, host_regexp_of, method_of, path_of, path_regexp_of, query_of, and_inside,
  or_inside, Rule, one, both, either, read_query,
}

-- A string with the quotes inside of it escaped, before the text that follows.
unfoldable pub escape : Text → Text → Text
escape [] rest = rest
escape (c ∷ t) rest =
    let more = escape t rest in if eqb c quote then backslash ∷ quote ∷ more else c ∷ more

unfoldable pub show_string : Text → Text → Text
unfolding escape
show_string t rest = quote ∷ escape t (quote ∷ rest)

unfoldable pub show : BackendPoolMatcher → Text → Text
unfolding show_string
show (host t) rest = codes "Host(" ++ show_string t (codes ")" ++ rest)
show (host_regexp regex) rest = codes "HostRegexp(" ++ show_string regex.as_str (codes ")" ++ rest)
show (method t) rest = codes "Method(" ++ show_string t (codes ")" ++ rest)
show (path t) rest = codes "Path(" ++ show_string t (codes ")" ++ rest)
show (path_regexp regex) rest = codes "PathRegexp(" ++ show_string regex.as_str (codes ")" ++ rest)
show (query k v) rest =
    codes "Query(" ++ show_string k (codes ", " ++ show_string v (codes ")" ++ rest))
show (and left right) rest = codes "(" ++ show left (codes " && " ++ show right (codes ")" ++ rest))
show (or left right) rest = codes "(" ++ show left (codes " || " ++ show right (codes ")" ++ rest))

unfoldable pub print : BackendPoolMatcher → Text
unfolding show
print (and left right) = show left (codes " && " ++ show right [])
print (or left right) = show left (codes " || " ++ show right [])
print m = show m []

-- Whether a backslash stands last, or stood before a text that is empty.
abbrev pub is_open : Bool → Text → Bool
is_open before [] = before
is_open before (c ∷ t) = is_open (eqb c backslash) t

-- No string of the rule ends in a backslash, and its regular expressions and methods are accepted.
abbrev pub IsWritable : Accepted → BackendPoolMatcher → Type 0
IsWritable accepted (host t) = is_open false t ≡ false
IsWritable accepted (host_regexp regex) =
    (is_open false regex.as_str ≡ false) × (accepted.regex regex.as_str ≡ true)
IsWritable accepted (method t) = (is_open false t ≡ false) × (accepted.method t ≡ true)
IsWritable accepted (path t) = is_open false t ≡ false
IsWritable accepted (path_regexp regex) =
    (is_open false regex.as_str ≡ false) × (accepted.regex regex.as_str ≡ true)
IsWritable accepted (query k v) = (is_open false k ≡ false) × (is_open false v ≡ false)
IsWritable accepted (and left right) = IsWritable accepted left × IsWritable accepted right
IsWritable accepted (or left right) = IsWritable accepted left × IsWritable accepted right

chars-escape :
    (before : Bool) (t rest : Text)
    → is_open before t ≡ false
    → chars before (escape t (quote ∷ rest)) ≡ (if before then backslash ∷ t else t, quote ∷ rest)
unfolding chars escape
chars-escape false [] rest h = refl
chars-escape true [] rest h = cc
chars-escape before (c ∷ t) rest h = elim (Bool-cases (eqb c quote)) [
  | inl q ↦
      let same : c ≡ quote = ground arith in
      rw same (split before (chars-escape false t rest (rw same at h)))
  | inr n ↦ elim (Bool-cases (eqb c backslash)) [
    | inl b ↦
        let same : c ≡ backslash = ground arith in
        rw same (open_ before (chars-escape true t rest (rw same at h)))
    | inr p ↦ rw n (plain before n p (chars-escape false t rest (rw p at h)))
  ]
]
  where
    split :
        (before : Bool)
        → chars false (escape t (quote ∷ rest)) ≡ (t, quote ∷ rest)
        → chars before (backslash ∷ quote ∷ escape t (quote ∷ rest))
          ≡ (if before then backslash ∷ quote ∷ t else quote ∷ t, quote ∷ rest)
    split true ih = rw ih refl
    split false ih = rw ih refl

    open_ :
        (before : Bool)
        → chars true (escape t (quote ∷ rest)) ≡ (backslash ∷ t, quote ∷ rest)
        → chars before (backslash ∷ escape t (quote ∷ rest))
          ≡ (if before then backslash ∷ backslash ∷ t else backslash ∷ t, quote ∷ rest)
    open_ true ih = rw ih refl
    open_ false ih = rw ih refl

    plain :
        (before : Bool)
        → eqb c quote ≡ false
        → eqb c backslash ≡ false
        → chars false (escape t (quote ∷ rest)) ≡ (t, quote ∷ rest)
        → chars before (c ∷ escape t (quote ∷ rest))
          ≡ (if before then backslash ∷ c ∷ t else c ∷ t, quote ∷ rest)
    plain true n p ih = rw (n, p, ih) refl
    plain false n p ih = rw (n, p, ih) refl

read_string-show :
    (t rest : Text) → is_open false t ≡ false → read_string (show_string t rest) ≡ some (t, rest)
unfolding read_string show_string next
read_string-show t rest h = rw (chars-escape false t rest h) refl

read_call-show :
    (name t rest : Text)
    → is_open false t ≡ false
    → read_call name (name ++ show_string t (codes ")" ++ rest)) ≡ some (t, rest)
unfolding read_call next
read_call-show name t rest h =
    rw
      (
        strip_prefix-append name (show_string t (codes ")" ++ rest)),
        read_string-show t (codes ")" ++ rest) h,
      )
      refl

read_query-show :
    (k v rest : Text)
    → is_open false k ≡ false
    → is_open false v ≡ false
    → read_query (show (query k v) rest) ≡ some ((k, v), rest)
unfolding read_query show next skip strip_prefix
read_query-show k v rest h h' =
    rw
      (
        read_string-show k (codes ", " ++ show_string v (codes ")" ++ rest)) h,
        read_string-show v (codes ")" ++ rest) h',
      )
      refl

-- A rule that is shown begins with no space.
skip-show : (m : BackendPoolMatcher) (rest : Text) → skip (show m rest) ≡ show m rest
unfolding skip show
skip-show (host t) rest = refl
skip-show (host_regexp regex) rest = refl
skip-show (method t) rest = refl
skip-show (path t) rest = refl
skip-show (path_regexp regex) rest = refl
skip-show (query k v) rest = refl
skip-show (and left right) rest = refl
skip-show (or left right) rest = refl

module _ (accepted : Accepted) where
  behind_spaces :
      (m : BackendPoolMatcher) {rest : Text}
      → Value accepted m (show m rest) rest
      → Value accepted m (skip (show m rest)) rest
  behind_spaces m {rest} v =
      subst (λ (s : Text). Value accepted m s rest) (sym (skip-show m rest)) v

  show-Value :
      (m : BackendPoolMatcher) (rest : Text)
      → IsWritable accepted m
      → Value accepted m (show m rest) rest
  unfolding show next strip_prefix skip
  show-Value (host t) rest w = host_of (read_call-show (codes "Host(") t rest w)
  show-Value (host_regexp regex) rest w =
      host_regexp_of (read_call-show (codes "HostRegexp(") regex.as_str rest w.0) (rw w.1 refl)
  show-Value (method t) rest w =
      method_of (read_call-show (codes "Method(") t rest w.0) (rw w.1 refl)
  show-Value (path t) rest w = path_of (read_call-show (codes "Path(") t rest w)
  show-Value (path_regexp regex) rest w =
      path_regexp_of (read_call-show (codes "PathRegexp(") regex.as_str rest w.0) (rw w.1 refl)
  show-Value (query k v) rest w = query_of (read_query-show k v rest w.0 w.1)
  show-Value (and left right) rest w =
      and_inside refl (behind_spaces left (show-Value left _ w.0)) refl
        (behind_spaces right (show-Value right _ w.1)) refl
  show-Value (or left right) rest w =
      or_inside refl (behind_spaces left (show-Value left _ w.0)) refl
        (behind_spaces right (show-Value right _ w.1)) refl

  alone : (m : BackendPoolMatcher) → IsWritable accepted m → Rule accepted m (show m [])
  alone m w = one (behind_spaces m (show-Value m [] w))

  pub print-Rule : (m : BackendPoolMatcher) → IsWritable accepted m → Rule accepted m (print m)
  unfolding print strip_prefix skip
  print-Rule (and left right) w =
      both (behind_spaces left (show-Value left _ w.0)) refl
        (behind_spaces right (show-Value right [] w.1))
  print-Rule (or left right) w =
      either (behind_spaces left (show-Value left _ w.0)) refl
        (behind_spaces right (show-Value right [] w.1))
  print-Rule (host t) w = alone (host t) w
  print-Rule (host_regexp regex) w = alone (host_regexp regex) w
  print-Rule (method t) w = alone (method t) w
  print-Rule (path t) w = alone (path t) w
  print-Rule (path_regexp regex) w = alone (path_regexp regex) w
  print-Rule (query k v) w = alone (query k v) w

  pub new-eq-some :
      (t : Text) {regex : ComparableRegex}
      → new accepted t ≡ some regex
      → (regex.as_str ≡ t) × (accepted.regex t ≡ true)
  new-eq-some t h = ground arith

  pub method_from_str-eq-some :
      (t : Text) {m : Text}
      → method_from_str accepted t ≡ some m
      → (m ≡ t) × (accepted.method t ≡ true)
  method_from_str-eq-some t h = ground arith
