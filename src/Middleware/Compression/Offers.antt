-- ===== src/Middleware/Compression/Offers.antt =====
-- What a part of the header accept-encoding offers, as src/middleware/compression.rs reads it.
use another_rust_load_balanc.Prelude.{
  ℕ, ◌+◌, ◌-◌, ◌*◌, ◌/◌, ◌≤◌, ◌<◌, ◌≡◌, ◌⊎◌, ◌↔◌, refl, ap, ◌∙◌, Text, codes, true, false, Option,
  none, some, [], ◌∷◌, ◌++◌, All, ◌==◌, eq_iff, length, leb, eqb, arith, strip_prefix,
  strip_prefix-eq-some, inl, inr, Bool-cases, Option-cases,
}
use another_rust_load_balanc.Prelude.Numbers.{value, unsigned, strip_plus, parse_u32}
use another_rust_load_balanc.Prelude.Options.{◌>>=◌, and_then-eq-some}
use another_rust_load_balanc.Utils.{split_once}
use another_rust_load_balanc.Utils.SplitOnce.{split_once_iff}
use another_rust_load_balanc.Middleware.Compression.{
  padded, filtered, parse_qvalue, parse_encoding_and_qvalue, Encoding, brotli, deflate, gzip,
  to_str, from_str,
}
use another_rust_load_balanc.Middleware.Compression.Qvalues.{filtered-eq-some, from_str-to_str}

-- Decimal digits, and the number that they write when the first counts `unit`.
abbrev pub AreDigits : Text → Type 0
AreDigits = All (λ c. (48 ≤ c) × (c ≤ 57))

abbrev pub fraction : ℕ → Text → ℕ
fraction unit [] = 0
fraction unit (c ∷ s) = (c - 48) * unit + fraction (unit / 10) s

-- The weights that a text can write, in thousandths: 1, or up to three digits behind `0.`. A plus
-- sign in front of the digits, which u32's parser takes, leaves two of them.
pub data Weight (s : Text) (q : ℕ) : Type 0 where
  whole : s ≡ codes "q=1" → q ≡ 1000 → Weight s q
  thousandths :
      (digits : Text)
      → AreDigits digits
      → length digits ≤ 3
      → s ≡ codes "q=0." ++ digits
      → q ≡ fraction 100 digits
      → 0 < q
      → Weight s q
  plus_thousandths :
      (digits : Text)
      → AreDigits digits
      → length digits ≤ 2
      → s ≡ codes "q=0.+" ++ digits
      → q ≡ fraction 10 digits
      → 0 < q
      → Weight s q

-- An encoding by its name, which weighs 1, or by its name, a semicolon and a weight.
pub data Offers (part : Text) (encoding : Encoding) (q : ℕ) : Type 0 where
  by_name : part ≡ to_str encoding → q ≡ 1000 → Offers part encoding q
  by_weight : (w : Text) → part ≡ to_str encoding ++ 59 ∷ w → Weight w q → Offers part encoding q

read_three :
    (a b c : ℕ) {n : ℕ}
    → parse_u32 (a ∷ b ∷ c ∷ []) ≡ some n
    → (AreDigits (a ∷ b ∷ c ∷ []) × (n ≡ fraction 100 (a ∷ b ∷ c ∷ [])))
      ⊎ ((a ≡ 43) × AreDigits (b ∷ c ∷ []) × (n ≡ fraction 10 (b ∷ c ∷ [])))
unfolding parse_u32 strip_plus unsigned value strip_prefix
read_three a b c {n} h = ground arith

three_read :
    (a b c : ℕ)
    → AreDigits (a ∷ b ∷ c ∷ [])
    → parse_u32 (a ∷ b ∷ c ∷ []) ≡ some (fraction 100 (a ∷ b ∷ c ∷ []))
unfolding parse_u32 strip_plus unsigned value strip_prefix
three_read a b c h = ground arith

plus_read :
    (b c : ℕ)
    → AreDigits (b ∷ c ∷ [])
    → parse_u32 (43 ∷ b ∷ c ∷ []) ≡ some (fraction 10 (b ∷ c ∷ []))
unfolding parse_u32 strip_plus unsigned value strip_prefix
plus_read b c h = ground arith

digits-Weight :
    (s digits : Text) (q : ℕ)
    → length digits ≤ 3
    → parse_u32 (padded 3 digits) ≡ some q
    → 0 < q
    → s ≡ codes "q=0." ++ digits
    → Weight s q
unfolding padded
digits-Weight s [] q short read some_weight is = elim (read_three 48 48 48 read) [
  | inl h ↦ absurd (ground arith)
  | inr h ↦ absurd (ground arith)
]
digits-Weight s (a ∷ []) q short read some_weight is = elim (read_three a 48 48 read) [
  | inl (h, e) ↦ thousandths (a ∷ []) (h.0, tt) short is (ground arith) some_weight
  | inr h ↦ absurd (ground arith)
]
digits-Weight s (a ∷ b ∷ []) q short read some_weight is = elim (read_three a b 48 read) [
  | inl (h, e) ↦ thousandths (a ∷ b ∷ []) (h.0, (h.1.0, tt)) short is (ground arith) some_weight
  | inr (plus, h, e) ↦
      plus_thousandths (b ∷ []) (h.0, tt) (omega arith) (rw plus at is) (ground arith) some_weight
]
digits-Weight s (a ∷ b ∷ c ∷ []) q short read some_weight is = elim (read_three a b c read) [
  | inl (h, e) ↦ thousandths (a ∷ b ∷ c ∷ []) h short is e some_weight
  | inr (plus, h, e) ↦ plus_thousandths (b ∷ c ∷ []) h (omega arith) (rw plus at is) e some_weight
]
digits-Weight s (a ∷ b ∷ c ∷ d ∷ digits) q short read some_weight is = absurd (omega arith)

parse_qvalue-Weight : (s : Text) (q : ℕ) → parse_qvalue s ≡ some q → Weight s q
unfolding parse_qvalue
parse_qvalue-Weight s q h =
    let (rest, begins, h1) = and_then-eq-some (strip_prefix (codes "q=") s) _ h in
    let at = strip_prefix-eq-some (codes "q=") s begins in
    elim (Bool-cases (rest == codes "1")) [
      | inl one ↦
          whole (at ∙ ap (λ r. codes "q=" ++ r) ((eq_iff rest (codes "1")).0 one))
            (ground (arith, rw one at h1))
      | inr other ↦
          let (digits, short, h2) =
            and_then-eq-some
              (filtered (λ digits. leb (length digits) 3) (strip_prefix (codes "0.") rest)) _
              (rw other at h1) in
          let (behind, fits) = filtered-eq-some _ (strip_prefix (codes "0.") rest) short in
          let (read, some_weight) = filtered-eq-some _ (parse_u32 (padded 3 digits)) h2 in
          digits-Weight s digits q (ground arith) read (ground arith)
            (at ∙ ap (λ r. codes "q=" ++ r) (strip_prefix-eq-some (codes "0.") rest behind))
    ]

parse_digits :
    (digits : Text) (q : ℕ)
    → length digits ≤ 3
    → parse_u32 (padded 3 digits) ≡ some q
    → 0 < q
    → parse_qvalue (codes "q=0." ++ digits) ≡ some q
unfolding parse_qvalue strip_prefix ◌==◌
parse_digits digits q short read some_weight =
    let fits : leb (length digits) 3 ≡ true = ground arith in
    let counts : eqb q 0 ≡ false = ground arith in rw (fits, read, counts) refl

parse_whole : parse_qvalue (codes "q=1") ≡ some 1000
unfolding parse_qvalue strip_prefix ◌==◌
parse_whole = refl

Weight-parse_qvalue : (s : Text) (q : ℕ) → Weight s q → parse_qvalue s ≡ some q
unfolding padded
Weight-parse_qvalue s q (whole is e) = rw (is, e) parse_whole
Weight-parse_qvalue s q (thousandths [] h short is e some_weight) = absurd (omega arith)
Weight-parse_qvalue s q (thousandths (a ∷ []) h short is e some_weight) =
    rw is (parse_digits (a ∷ []) q short (ground (arith, three_read a 48 48)) some_weight)
Weight-parse_qvalue s q (thousandths (a ∷ b ∷ []) h short is e some_weight) =
    rw is (parse_digits (a ∷ b ∷ []) q short (ground (arith, three_read a b 48)) some_weight)
Weight-parse_qvalue s q (thousandths (a ∷ b ∷ c ∷ []) h short is e some_weight) =
    rw is (parse_digits (a ∷ b ∷ c ∷ []) q short (ground (arith, three_read a b c)) some_weight)
Weight-parse_qvalue s q (thousandths (a ∷ b ∷ c ∷ d ∷ ds) h short is e some_weight) =
    absurd (omega arith)
Weight-parse_qvalue s q (plus_thousandths [] h short is e some_weight) = absurd (omega arith)
Weight-parse_qvalue s q (plus_thousandths (b ∷ []) h short is e some_weight) =
    rw is (parse_digits (43 ∷ b ∷ []) q (omega arith) (ground (arith, plus_read b 48)) some_weight)
Weight-parse_qvalue s q (plus_thousandths (b ∷ c ∷ []) h short is e some_weight) =
    rw is
      (parse_digits (43 ∷ b ∷ c ∷ []) q (omega arith) (ground (arith, plus_read b c)) some_weight)
Weight-parse_qvalue s q (plus_thousandths (b ∷ c ∷ d ∷ ds) h short is e some_weight) =
    absurd (omega arith)

from_str-eq-some : (s : Text) {e : Encoding} → from_str s ≡ some e → s ≡ to_str e
unfolding from_str to_str
from_str-eq-some s {e} h = elim (Bool-cases (s == codes "br")) [
  | inl br ↦
      let same : brotli ≡ e = cc (rw br at h) in (eq_iff s (codes "br")).0 br ∙ ap to_str same
  | inr no_br ↦ elim (Bool-cases (s == codes "deflate")) [
    | inl is ↦
        let same : deflate ≡ e = cc (rw (no_br, is) at h) in
        (eq_iff s (codes "deflate")).0 is ∙ ap to_str same
    | inr no_deflate ↦ elim (Bool-cases (s == codes "gzip")) [
      | inl is ↦
          let same : gzip ≡ e = cc (rw (no_br, no_deflate, is) at h) in
          (eq_iff s (codes "gzip")).0 is ∙ ap to_str same
      | inr no_gzip ↦ cc (rw (no_br, no_deflate, no_gzip) at h)
    ]
  ]
]

named_alone : (e : Encoding) → split_once (to_str e) 59 ≡ none
unfolding to_str split_once
named_alone brotli = refl
named_alone deflate = refl
named_alone gzip = refl

named_with : (e : Encoding) (w : Text) → split_once (to_str e ++ 59 ∷ w) 59 ≡ some (to_str e, w)
unfolding to_str split_once
named_with brotli w = refl
named_with deflate w = refl
named_with gzip w = refl

abbrev pair : Encoding → ℕ → Option (Encoding × ℕ)
pair encoding qvalue = some (encoding, qvalue)

read_parts :
    (name w : Text) (e : Encoding) (q : ℕ)
    → (from_str name >>= λ encoding. parse_qvalue w >>= pair encoding) ≡ some (e, q)
    → (name ≡ to_str e) × (parse_qvalue w ≡ some q)
read_parts name w e q h =
    let (encoding, named, h1) = and_then-eq-some (from_str name) _ h in
    let (qvalue, weighs, h2) = and_then-eq-some (parse_qvalue w) _ h1 in
    (from_str-eq-some name (cc (named, h2)), cc (weighs, h2))

-- What a part offers is what is read from it.
pub parse_encoding_and_qvalue_iff :
    (part : Text) (e : Encoding) (q : ℕ)
    → (parse_encoding_and_qvalue part ≡ some (e, q)) ↔ Offers part e q
unfolding parse_encoding_and_qvalue
parse_encoding_and_qvalue_iff part e q = (to, from)
  where
    to : parse_encoding_and_qvalue part ≡ some (e, q) → Offers part e q
    to h = elim (Option-cases (split_once part 59)) [
      | inl alone ↦
          let (named, weighs) = read_parts part (codes "q=1") e q (rw alone at h) in
          by_name named (cc (weighs, parse_whole))
      | inr ((name, w), both) ↦
          let (named, weighs) = read_parts name w e q (rw both at h) in
          let (is, free) = ((split_once_iff part 59).0 name w).0 both in
          by_weight w (is ∙ ap (λ n. n ++ 59 ∷ w) named) (parse_qvalue-Weight w q weighs)
    ]

    from : Offers part e q → parse_encoding_and_qvalue part ≡ some (e, q)
    from (by_name is weight) = rw (is, named_alone e, from_str-to_str e, parse_whole, weight) refl
    from (by_weight w is weight) =
        rw (is, named_with e w, from_str-to_str e, Weight-parse_qvalue w q weight) refl
