-- ===== src/Prelude/Numbers.antt =====
-- The parsing of decimal numbers, as `str::parse` does it for `u32` and `i64`.
use Prim.Native.Nat.{ℕ, zero, suc, ◌+◌, ◌-◌, ◌*◌, ◌^◌, ◌<◌}
use mathlib.Core.Path.{◌≡◌, refl}
use mathlib.Core.Bool.{Bool, ◌&&◌}
use mathlib.Core.Option.{Option, none, some}
use mathlib.Core.List.{List, [], ◌∷◌, map}
use native.Mathlib.Omega.{arith}
use another_rust_load_balanc.Prelude.Tests.{leb, if◌then◌else◌}
use another_rust_load_balanc.Prelude.Lists.{All}
use another_rust_load_balanc.Prelude.Texts.{Text, codes, strip_prefix}
use another_rust_load_balanc.Prelude.Options.{◌>>=◌}
use another_rust_load_balanc.Prelude.Int.{ℤ, pos, negsuc}

abbrev pub is_digit : ℕ → Bool
is_digit c = leb 48 c && leb c 57

-- The number that digits continue.
unfoldable pub value : ℕ → Text → Option ℕ
value acc [] = some acc
value acc (c ∷ s) = let rest = value (acc * 10 + (c - 48)) s in if is_digit c then rest else none

-- One digit at least.
unfoldable pub unsigned : Text → Option ℕ
unsigned [] = none
unsigned (c ∷ s) = value 0 (c ∷ s)

unfoldable pub strip_plus : Text → Text
strip_plus s = elim (strip_prefix (codes "+") s) [ none ↦ s | some r ↦ r ]

unfoldable pub parse_u32 : Text → Option ℕ
unfolding unsigned strip_plus
parse_u32 s = unsigned (strip_plus s) >>= λ n. if leb n (2 ^ 32 - 1) then some n else none

abbrev pub negated : ℕ → ℤ
negated zero = pos 0
negated (suc n) = negsuc n

unfoldable pub parse_i64 : Text → Option ℤ
unfolding unsigned strip_plus
parse_i64 s = elim (strip_prefix (codes "-") s) [
  | none ↦ unsigned (strip_plus s) >>= λ n. if leb n (2 ^ 63 - 1) then some (pos n) else none
  | some r ↦ unsigned r >>= λ n. if leb n (2 ^ 63) then some (negated n) else none
]

-- Decimal digits as numbers, and the number that they write.
abbrev pub Digits : List ℕ → Type 0
Digits = All (λ d. d < 10)

abbrev pub number : ℕ → List ℕ → ℕ
number acc [] = acc
number acc (d ∷ ds) = number (acc * 10 + d) ds

abbrev pub written : List ℕ → Text
written ds = map (λ d. 48 + d) ds

pub value-written :
    (acc : ℕ) (ds : List ℕ) → Digits ds → value acc (written ds) ≡ some (number acc ds)
unfolding value
value-written acc [] h = refl
value-written acc (d ∷ ds) h = ground (arith, value-written (acc * 10 + d) ds h.1)

pub parse_i64-written :
    (d : ℕ) (ds : List ℕ)
    → Digits (d ∷ ds)
    → parse_i64 (written (d ∷ ds))
      ≡ (if leb (number d ds) (2 ^ 63 - 1) then some (pos (number d ds)) else none)
unfolding parse_i64 strip_prefix
parse_i64-written d ds h = ground (arith, value-written 0 (d ∷ ds) h)
