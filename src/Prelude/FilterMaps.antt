-- ===== src/Prelude/FilterMaps.antt =====
-- The elements of a list that give those of its `filter_map`.
use mathlib.Core.Path.{◌≡◌, refl, sym, ap, subst, ◌∙◌}
use mathlib.Core.Option.{Option, none, some}
use mathlib.Core.List.{List, [], ◌∷◌, ◌++◌}
use mathlib.Core.Logic.{inl, inr}
use another_rust_load_balanc.Prelude.Tests.{Option-cases}
use another_rust_load_balanc.Prelude.Lists.{All, filter_map}

module _ {A B : Type 0} (f : A → Option B) where
  passed : (x : A) (xs : List A) → f x ≡ none → filter_map f (x ∷ xs) ≡ filter_map f xs
  passed x xs e = rw (filter_map, e) refl

  kept : (x : A) (xs : List A) {b : B} → f x ≡ some b → filter_map f (x ∷ xs) ≡ b ∷ filter_map f xs
  kept x xs e = rw (filter_map, e) refl

  pub All-filter_map :
      (P : B → Type 0) (xs : List A)
      → All P (filter_map f xs)
      → All (λ x. (b : B) → f x ≡ some b → P b) xs
  All-filter_map P [] h = tt
  All-filter_map P (x ∷ xs) h = elim (Option-cases (f x)) [
    | inl e ↦ ((λ b g. cc (e, g)), All-filter_map P xs (subst (All P) (passed x xs e) h))
    | inr (c, e) ↦
        let both = subst (All P) (kept x xs e) h in
        ((λ b g. subst P (cc (e, g)) both.0), All-filter_map P xs both.1)
  ]

  -- The list around the element that gives `b`.
  abbrev pub Around : List A → List B → B → List B → Type 0
  Around xs before b after =
      (front : List A) × (x : A) × (back : List A) × (xs ≡ front ++ x ∷ back)
      × (f x ≡ some b)
      × (filter_map f front ≡ before)
      × (filter_map f back ≡ after)

  behind_passed :
      (x : A) {xs : List A} {before after : List B} {b : B}
      → f x ≡ none
      → Around xs before b after
      → Around (x ∷ xs) before b after
  behind_passed x e (front, y, back, is, gives, first, last) =
      (x ∷ front, y, back, ap (λ l. x ∷ l) is, gives, passed x front e ∙ first, last)

  behind_kept :
      (x : A) {xs : List A} {before after : List B} {b c : B}
      → f x ≡ some c
      → Around xs before b after
      → Around (x ∷ xs) (c ∷ before) b after
  behind_kept x {c = c} e (front, y, back, is, gives, first, last) =
      (x ∷ front, y, back, ap (λ l. x ∷ l) is, gives, kept x front e ∙ ap (λ l. c ∷ l) first, last)

  pub filter_map-split :
      (xs : List A) (before : List B) (b : B) (after : List B)
      → filter_map f xs ≡ before ++ b ∷ after
      → Around xs before b after
  filter_map-split [] [] b after h = cc
  filter_map-split [] (c ∷ before) b after h = cc
  filter_map-split (x ∷ xs) [] b after h = elim (Option-cases (f x)) [
    | inl e ↦ behind_passed x e (filter_map-split xs [] b after (sym (passed x xs e) ∙ h))
    | inr (c, e) ↦
        let same : c ∷ filter_map f xs ≡ b ∷ after = sym (kept x xs e) ∙ h in
        ([], x, xs, refl, cc (e, same), refl, cc same)
  ]
  filter_map-split (x ∷ xs) (d ∷ before) b after h = elim (Option-cases (f x)) [
    | inl e ↦ behind_passed x e (filter_map-split xs (d ∷ before) b after (sym (passed x xs e) ∙ h))
    | inr (c, e) ↦
        let same : c ∷ filter_map f xs ≡ d ∷ (before ++ b ∷ after) = sym (kept x xs e) ∙ h in
        behind_kept x (cc (e, same)) (filter_map-split xs before b after (cc same))
  ]
