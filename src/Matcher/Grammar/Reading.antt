-- ===== src/Matcher/Grammar/Reading.antt =====
-- What the parsers of spaces, strings and calls in src/backend_pool_matcher.rs read, as functions
-- on texts.
use another_rust_load_balanc.Prelude.{
  ℕ, ◌+◌, ◌<◌, ◌≤◌, ◌≡◌, ◌≢◌, refl, Text, Bool, true, false, Option, none, some, [], ◌∷◌, length,
  eqb, arith, inl, inr, Bool-cases, if◌then◌else◌, strip_prefix,
}
use another_rust_load_balanc.Prelude.Options.{◌>>=◌}
use another_rust_load_balanc.Matcher.Pom.{contains}
use another_rust_load_balanc.Matcher.Grammar.{backslash, quote, spaces}

-- The text behind the spaces at the front.
unfoldable pub skip : Text → Text
skip [] = []
skip (c ∷ s) = let rest = skip s in if contains spaces c then rest else c ∷ s

-- The text behind a symbol, if it stands at the front.
unfoldable pub next : ℕ → Text → Option Text
next c [] = none
next c (d ∷ s) = if eqb c d then some s else none

abbrev pub push : ℕ → Text × Text → Text × Text
push c (t, rest) = (c ∷ t, rest)

-- The characters up to a quote that no backslash stands before, and what is left from there on.
-- The test says whether a backslash has just been read.
unfoldable pub chars : Bool → Text → Text × Text
chars false [] = ([], [])
chars true [] = (backslash ∷ [], [])
chars false (c ∷ s) =
    let escaped = chars true s in
    let plain = push c (chars false s) in
    if eqb c quote then ([], c ∷ s) else if eqb c backslash then escaped else plain
chars true (c ∷ s) =
    let escaped = push backslash (chars true s) in
    let closed = push quote (chars false s) in
    let plain = push backslash (push c (chars false s)) in
    if eqb c quote then closed else if eqb c backslash then escaped else plain

unfoldable pub read_string : Text → Option (Text × Text)
read_string s = do
  inside ← next quote s
  rest ← next quote (chars false inside).1
  some ((chars false inside).0, rest)

-- A name with its parenthesis, a string and the closing parenthesis.
unfoldable pub read_call : Text → Text → Option (Text × Text)
unfolding read_string
read_call name s = do
  argument ← strip_prefix name s
  (t, close) ← read_string argument
  rest ← next b')' close
  some (t, rest)

pub length-skip : (s : Text) → length (skip s) ≤ length s
unfolding skip
length-skip [] = omega arith
length-skip (c ∷ s) = ground (arith, length-skip s)

pub length-next : (c : ℕ) (s : Text) {r : Text} → next c s ≡ some r → length s ≡ length r + 1
unfolding next
length-next c [] h = cc
length-next c (d ∷ s) h = ground arith

pub length-chars : (b : Bool) (s : Text) → length (chars b s).1 ≤ length s
unfolding chars
length-chars false [] = omega arith
length-chars true [] = omega arith
length-chars false (c ∷ s) = ground (arith, length-chars true s, length-chars false s)
length-chars true (c ∷ s) = ground (arith, length-chars true s, length-chars false s)

pub chars_progress :
    (s : Text) {a : ℕ} {t rest : Text} → chars false s ≡ (a ∷ t, rest) → length rest < length s
unfolding chars
chars_progress [] h = cc
chars_progress (c ∷ s) h = ground (arith, length-chars true s, length-chars false s)

pub chars_pending : (s : Text) {rest : Text} → chars true s ≢ ([], rest)
unfolding chars
chars_pending [] = ground arith
chars_pending (c ∷ s) = ground arith

pub chars_none : (s : Text) {rest : Text} → chars false s ≡ ([], rest) → s ≡ rest
unfolding chars
chars_none [] h = ground arith
chars_none (c ∷ s) {rest} h = ground (arith, chars_pending s {rest = rest})

-- Where the characters end, there is none.
pub chars_stop : (b : Bool) (s : Text) → chars false (chars b s).1 ≡ ([], (chars b s).1)
unfolding chars
chars_stop false [] = refl
chars_stop true [] = refl
chars_stop false (c ∷ s) = elim (Bool-cases (eqb c quote)) [
  | inl q ↦ rw (q, q) refl
  | inr n ↦ elim (Bool-cases (eqb c backslash)) [
    | inl q ↦ rw (n, q) (chars_stop true s)
    | inr p ↦ rw (n, p) (chars_stop false s)
  ]
]
chars_stop true (c ∷ s) = elim (Bool-cases (eqb c quote)) [
  | inl q ↦ rw (q) (chars_stop false s)
  | inr n ↦ elim (Bool-cases (eqb c backslash)) [
    | inl q ↦ rw (n, q) (chars_stop true s)
    | inr p ↦ rw (n, p) (chars_stop false s)
  ]
]
