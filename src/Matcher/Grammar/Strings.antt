-- ===== src/Matcher/Grammar/Strings.antt =====
-- What the parsers of spaces, strings and calls in src/backend_pool_matcher.rs reply.
use another_rust_load_balanc.Prelude.{
  ℕ, ◌<◌, ◌≡◌, refl, sym, ◌∙◌, ap, Text, true, false, not, Option, none, some, List, [], ◌∷◌,
  length, eqb, arith, inl, inr, Bool-cases, Option-cases,
}
use mathlib.Core.List.{append-nil}
use another_rust_load_balanc.Prelude.Options.{◌>>=◌, >>=_assoc}
use another_rust_load_balanc.Matcher.Pom.{
  Pom, PomLaws, contains, satisfy, or_else, item_and, nonempty,
}
use another_rust_load_balanc.Matcher.Grammar.{
  backslash, quote, spaces, space, special_char, char_string, string, quoted, concat,
}
use another_rust_load_balanc.Matcher.Grammar.Reading.{
  skip, next, push, chars, read_string, read_call, chars_progress, chars_none, chars_stop,
}

module _ (pom : Pom) (laws : PomLaws pom) where
  open laws use {
    reply-sym, reply-one_of, reply-none_of, reply-tag, reply-mul, reply-sub, reply-bitor,
    repeat_ends, repeat_goes_on, reply-repeat1, reply-discard, reply-map,
  }

  pub sym-next :
      (c : ℕ) (s : Text) → pom.reply (pom.sym c) s ≡ (next c s >>= λ rest. some (c, rest))
  unfolding next
  sym-next c [] = reply-sym c []
  sym-next c (d ∷ s) = ground (arith, reply-sym c (d ∷ s))

  repeat_spaces :
      (s : Text) → (l : Text) × (pom.reply (pom.repeat (pom.one_of spaces)) s ≡ some (l, skip s))
  unfolding skip
  repeat_spaces [] = ([], repeat_ends (pom.one_of spaces) [] (reply-one_of spaces []))
  repeat_spaces (c ∷ s) =
      let here = reply-one_of spaces (c ∷ s) in
      elim (Bool-cases (contains spaces c)) [
        | inl blank ↦
            let (l, more) = repeat_spaces s in
            (
              c ∷ l,
              rw (blank) (
                  repeat_goes_on (pom.one_of spaces) (c ∷ s) (here ∙ rw blank refl) (omega arith)
                  ∙ ap (item_and c) more),
            )
        | inr other ↦
            ([], rw other (repeat_ends (pom.one_of spaces) (c ∷ s) (here ∙ rw other refl)))
      ]

  pub space-skip : (s : Text) → pom.reply (space pom) s ≡ some (tt, skip s)
  unfolding space
  space-skip s =
      let (l, read) = repeat_spaces s in
      reply-discard (pom.repeat (pom.one_of spaces)) s ∙ rw read refl

  abbrev one_char : pom.Parser ℕ
  one_char = pom.bitor (pom.none_of (backslash ∷ quote ∷ [])) (special_char pom)

  one_char_lem :
      (s : Text)
      → pom.reply one_char s
        ≡ or_else (satisfy (λ c. not (contains (backslash ∷ quote ∷ []) c)) s) (
            or_else
              (next backslash s >>= λ r. next quote r >>= λ t. some (quote, t))
              (next backslash s >>= λ r. some (backslash, r)))
  unfolding special_char
  one_char_lem s = simp (reply-bitor, reply-none_of, reply-mul, sym-next, >>=_assoc)

  one_char-quote : (s : Text) → pom.reply one_char (quote ∷ s) ≡ none
  unfolding next
  one_char-quote s = one_char_lem (quote ∷ s)

  one_char-escaped : (s : Text) → pom.reply one_char (backslash ∷ quote ∷ s) ≡ some (quote, s)
  unfolding next
  one_char-escaped s = one_char_lem (backslash ∷ quote ∷ s)

  one_char-plain :
      (c : ℕ) (s : Text)
      → eqb c quote ≡ false
      → eqb c backslash ≡ false
      → pom.reply one_char (c ∷ s) ≡ some (c, s)
  unfolding next
  one_char-plain c s n p = ground (arith, one_char_lem (c ∷ s))

  one_char-backslash :
      (s : Text) → next quote s ≡ none → pom.reply one_char (backslash ∷ s) ≡ some (backslash, s)
  unfolding next
  one_char-backslash s h = one_char_lem (backslash ∷ s) ∙ rw h refl

  one_char-nil : pom.reply one_char [] ≡ none
  unfolding next
  one_char-nil = one_char_lem []

  chars_after_backslash :
      (c : ℕ) (s : Text)
      → eqb c quote ≡ false
      → chars true (c ∷ s) ≡ push backslash (chars false (c ∷ s))
  unfolding chars
  chars_after_backslash c s n = ground (arith, n)

  one_more :
      {a : ℕ} (s : Text) {rest : Text}
      → pom.reply one_char s ≡ some (a, rest)
      → length rest < length s
      → pom.reply (pom.repeat one_char) rest ≡ some (chars false rest)
      → pom.reply (pom.repeat one_char) s ≡ some (push a (chars false rest))
  one_more {a} s read less rec = repeat_goes_on one_char s read less ∙ ap (item_and a) rec

  repeat-chars : (s : Text) → pom.reply (pom.repeat one_char) s ≡ some (chars false s)
  unfolding chars next
  repeat-chars [] = repeat_ends one_char [] one_char-nil
  repeat-chars (c ∷ []) = elim (Bool-cases (eqb c quote)) [
    | inl q ↦
        let same : c ≡ quote = ground arith in
        rw same (repeat_ends one_char (quote ∷ []) (one_char-quote []))
    | inr n ↦ elim (Bool-cases (eqb c backslash)) [
      | inl b ↦
          let same : c ≡ backslash = ground arith in
          rw same
            (one_more (backslash ∷ []) (one_char-backslash [] refl) (omega arith) (repeat-chars []))
      | inr p ↦
          rw (n, p) (one_more (c ∷ []) (one_char-plain c [] n p) (omega arith) (repeat-chars []))
    ]
  ]
  repeat-chars (c ∷ d ∷ s) =
      let from_d = repeat-chars (d ∷ s) in
      let from_s = repeat-chars s in
      elim (Bool-cases (eqb c quote)) [
        | inl q ↦
            let same : c ≡ quote = ground arith in
            rw same (repeat_ends one_char (quote ∷ d ∷ s) (one_char-quote (d ∷ s)))
        | inr n ↦ elim (Bool-cases (eqb c backslash)) [
          | inl b ↦
              let same : c ≡ backslash = ground arith in
              elim (Bool-cases (eqb d quote)) [
                | inl e ↦
                    let also : d ≡ quote = ground arith in
                    rw (same, also)
                      (one_more (backslash ∷ quote ∷ s) (one_char-escaped s) (omega arith) from_s)
                | inr f ↦
                    let no_quote : next quote (d ∷ s) ≡ none = ground arith in
                    rw same (
                      one_more (backslash ∷ d ∷ s) (one_char-backslash (d ∷ s) no_quote)
                        (omega arith) from_d
                      ∙ ap some (sym (chars_after_backslash d s f)))
              ]
          | inr p ↦
              rw (n, p) (one_more (c ∷ d ∷ s) (one_char-plain c (d ∷ s) n p) (omega arith) from_d)
        ]
      ]

  char_string_lem : (s : Text) → pom.reply (char_string pom) s ≡ nonempty (some (chars false s))
  unfolding char_string
  char_string_lem s =
      simp (reply-map, reply-repeat1, repeat-chars s) (same_text (nonempty (some (chars false s))))
    where
      same_text : (o : Option (Text × Text)) → (o >>= λ a. some (a.0, a.1)) ≡ o
      same_text none = refl
      same_text (some a) = refl

  -- The strings of the repetition are one string, or there is none.
  repeat-strings :
      (s : Text) (t rest : Text)
      → chars false s ≡ (t, rest)
      → (l : List Text) × (pom.reply (pom.repeat (char_string pom)) s ≡ some (l, rest))
        × (concat l ≡ t)
  repeat-strings s [] rest read =
      let here = repeat_ends (char_string pom) s (char_string_lem s ∙ rw read refl) in
      ([], here ∙ ap (λ (r : Text). some ([], r)) (chars_none s read), refl)
  repeat-strings s (a ∷ t) rest read =
      let first = char_string_lem s ∙ rw read refl in
      let stop : chars false rest ≡ ([], rest) = rw read at (chars_stop false s) in
      let no_more = repeat_ends (char_string pom) rest (char_string_lem rest ∙ rw stop refl) in
      (
        (a ∷ t) ∷ [],
        repeat_goes_on (char_string pom) s {a = a ∷ t} {rest = rest} first (chars_progress s read)
            ∙ rw no_more refl,
        append-nil (a ∷ t),
      )

  pub string-read : (s : Text) → pom.reply (string pom) s ≡ read_string s
  unfolding string read_string
  string-read s = elim (Option-cases (next quote s)) [
    | inl unquoted ↦ simp (reply-map, reply-sub, reply-mul, sym-next, >>=_assoc, unquoted)
    | inr (inside, quoted) ↦
        let (l, read, same) =
          repeat-strings inside (chars false inside).0 (chars false inside).1 refl in
        simp (reply-map, reply-sub, reply-mul, sym-next, >>=_assoc, quoted, read, same)
  ]

  pub quoted-read : (name s : Text) → pom.reply (quoted pom name) s ≡ read_call name s
  unfolding read_call
  quoted-read name s = simp (reply-sub, reply-mul, reply-tag, string-read, sym-next, >>=_assoc)
