-- ===== src/Utils/SplitOnce.antt =====
-- `split_once` of src/utils.rs against concatenation.
use another_rust_load_balanc.Prelude.{
  ℕ, ◌≡◌, ◌≢◌, ◌↔◌, refl, Text, none, some, [], ◌∷◌, ◌++◌, All, arith, eqb_refl,
}
use another_rust_load_balanc.Utils.{split_once}

-- No character of the text is `c`.
abbrev pub IsFree : ℕ → Text → Type 0
IsFree c = All (λ d. d ≢ c)

-- A text that is put together from a part without the pattern, the pattern and any rest is taken
-- apart again.
split_once-append :
    (first second : Text) (c : ℕ)
    → IsFree c first
    → split_once (first ++ c ∷ second) c ≡ some (first, second)
unfolding split_once
split_once-append [] second c free = rw (eqb_refl c)
split_once-append (d ∷ first) second c free =
    ground (arith, split_once-append first second c free.1)

split_once-some :
    (s : Text) (c : ℕ) {first second : Text}
    → split_once s c ≡ some (first, second)
    → (s ≡ first ++ c ∷ second) × IsFree c first
unfolding split_once
split_once-some [] c h = cc
split_once-some (d ∷ s) c {first = []} h = ground arith
split_once-some (d ∷ s) c {first = e ∷ first} {second} h =
    ground (arith, split_once-some s c {first = first} {second = second})

split_once-none : (s : Text) (c : ℕ) → split_once s c ≡ none → IsFree c s
unfolding split_once
split_once-none [] c h = tt
split_once-none (d ∷ s) c h = ground (arith, split_once-none s c)

none_of_free : (s : Text) (c : ℕ) → IsFree c s → split_once s c ≡ none
unfolding split_once
none_of_free [] c free = refl
none_of_free (d ∷ s) c free = ground (arith, none_of_free s c free.1)

-- `split_once` returns a pair exactly when the text is the first part, which is free of the
-- pattern, the pattern, and the second part; and nothing exactly when the pattern does not occur.
pub split_once_iff :
    (s : Text) (c : ℕ)
    → ((first second : Text)
        → (split_once s c ≡ some (first, second)) ↔ ((s ≡ first ++ c ∷ second) × IsFree c first))
      × ((split_once s c ≡ none) ↔ IsFree c s)
split_once_iff s c = (
  (λ first second. (split_once-some s c, λ h. rw h.0 (split_once-append first second c h.1))),
  (split_once-none s c, none_of_free s c),
)
