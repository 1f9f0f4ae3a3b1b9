-- ===== src/Middleware/Compression/Qvalues.antt =====
-- The weights that src/middleware/compression.rs reads: thousandths, from 1 to 1000.
use another_rust_load_balanc.Prelude.{
  ℕ, ◌≤◌, ◌<◌, ◌≡◌, refl, Text, codes, Bool, true, Option, none, some, [], ◌∷◌, ◌==◌, length, leb,
  arith, strip_prefix, inl, inr, Bool-cases,
}
use another_rust_load_balanc.Prelude.Numbers.{value, unsigned, strip_plus, parse_u32}
use another_rust_load_balanc.Prelude.Options.{and_then-eq-some}
use another_rust_load_balanc.Middleware.Compression.{
  padded, filtered, parse_qvalue, Encoding, brotli, deflate, gzip, to_str, from_str,
}

three : (a b c : ℕ) {n : ℕ} → parse_u32 (a ∷ b ∷ c ∷ []) ≡ some n → n < 1000
unfolding parse_u32 strip_plus unsigned value strip_prefix
three a b c {n} h = ground arith

pub from_str-to_str : (e : Encoding) → from_str (to_str e) ≡ some e
unfolding from_str to_str ◌==◌
from_str-to_str brotli = refl
from_str-to_str deflate = refl
from_str-to_str gzip = refl

padded_lt : (s : Text) {n : ℕ} → length s ≤ 3 → parse_u32 (padded 3 s) ≡ some n → n < 1000
unfolding padded
padded_lt [] h p = three 48 48 48 p
padded_lt (a ∷ []) h p = three a 48 48 p
padded_lt (a ∷ b ∷ []) h p = three a b 48 p
padded_lt (a ∷ b ∷ c ∷ []) h p = three a b c p
padded_lt (a ∷ b ∷ c ∷ d ∷ s) h p = absurd (omega arith)

pub filtered-eq-some :
    {A : Type 0} (p : A → Bool) (o : Option A) {a : A}
    → filtered p o ≡ some a
    → (o ≡ some a) × (p a ≡ true)
filtered-eq-some p none h = cc
filtered-eq-some p (some b) h = elim (Bool-cases (p b)) [
  | inl e ↦ let same = rw e at h in (same, ground arith)
  | inr e ↦ cc (rw e at h)
]

-- A weight that is read lies between 1 and 1000: no weight of 0 counts, and none above one.
pub parse_qvalue-bounds : (s : Text) {q : ℕ} → parse_qvalue s ≡ some q → (0 < q) × (q ≤ 1000)
unfolding parse_qvalue
parse_qvalue-bounds s {q} h =
    let (rest, begins, h1) = and_then-eq-some (strip_prefix (codes "q=") s) _ h in
    elim (Bool-cases (rest == codes "1")) [
      | inl one ↦ ground (arith, rw one at h1)
      | inr other ↦
          let (digits, short, h2) =
            and_then-eq-some
              (filtered (λ digits. leb (length digits) 3) (strip_prefix (codes "0.") rest)) _
              (rw other at h1) in
          let (_, fits) = filtered-eq-some _ (strip_prefix (codes "0.") rest) short in
          let (read, some_weight) = filtered-eq-some _ (parse_u32 (padded 3 digits)) h2 in
          let below = padded_lt digits (ground arith) read in ground arith
    ]
