-- ===== src/Base/First.antt =====
-- Laws of `first_by`, the model of `ORDER BY … LIMIT 1`.
use mathlib.Core.Path.{ap, ◌∙◌, ◌≡◌, refl, subst}
use mathlib.Core.Logic.{inl, inr}
use mathlib.Core.Bool.{Bool, true, false}
use mathlib.Core.Option.{Option, none, some, none-ne-some, some-ne-none, some-injective}
use mathlib.Core.List.{List, [], ◌∷◌}
use wikifame.Base.Tests.{if◌then◌else◌, Bool-cases, Option-cases}
use wikifame.Base.Lists.{filter, first_by, All}
use wikifame.Base.Rows.{All-filter, All-map}

module _ {ℓ} {A : Type ℓ} (before : A → A → Bool) where
  pub first_by-none : (xs : List A) → first_by before xs ≡ none → xs ≡ []
  unfolding first_by
  first_by-none [] e = refl
  first_by-none (x ∷ xs) e = absurd (go (first_by before xs) e)
    where
      go :
          (o : Option A)
          → elim o [ none ↦ some x | some y ↦ if before y x then some y else some x ] ≡ none
          → ⊥
      go none h = some-ne-none _ h
      go (some y) h = elim (Bool-cases (before y x)) [
        | inl t ↦ some-ne-none _ (rw t at h)
        | inr t ↦ some-ne-none _ (rw t at h)
      ]

  -- What holds of all rows holds of the first.
  pub All-first_by {κ} :
      (P : A → Type κ) (xs : List A) {x : A} → All P xs → first_by before xs ≡ some x → P x
  unfolding first_by
  All-first_by P [] h e = absurd (none-ne-some _ e)
  All-first_by P (z ∷ zs) {x} (hz, hs) e = elim (Option-cases (first_by before zs)) [
    | inl n ↦ subst P (some-injective _ _ (rw n at e)) hz
    | inr (y, s) ↦ elim (Bool-cases (before y z)) [
      | inl t ↦ subst P (some-injective _ _ (rw t at (rw s at e))) (All-first_by P zs hs s)
      | inr t ↦ subst P (some-injective _ _ (rw t at (rw s at e))) hz
    ]
  ]

module _ {ℓ} {A : Type ℓ} (before : A → A → Bool)
    (asym : (a b : A) → before a b ≡ true → before b a ≡ false)
    (back : (a b c : A) → before b a ≡ false → before c b ≡ false → before c a ≡ false) where
  irrefl : (a : A) → before a a ≡ false
  irrefl a = elim (Bool-cases (before a a)) [ inl t ↦ asym a a t | inr f ↦ f ]

  -- No row goes before the first.
  pub first_by-least :
      (xs : List A) {x : A} → first_by before xs ≡ some x → All (λ y. before y x ≡ false) xs
  unfolding first_by
  first_by-least [] e = tt
  first_by-least (z ∷ zs) {x} e = elim (Option-cases (first_by before zs)) [
    | inl n ↦
        let ends : All (λ y. before y z ≡ false) (z ∷ zs) =
          (irrefl z, rw (first_by-none before zs n) tt) in
        subst (λ w. All (λ y. before y w ≡ false) (z ∷ zs)) (some-injective _ _ (rw n at e)) ends
    | inr (y, s) ↦ elim (Bool-cases (before y z)) [
      | inl t ↦
          let ends : All (λ w. before w y ≡ false) (z ∷ zs) = (asym y z t, first_by-least zs s) in
          subst (λ v. All (λ w. before w v ≡ false) (z ∷ zs))
            (some-injective _ _ (rw t at (rw s at e))) ends
      | inr t ↦
          let ends : All (λ w. before w z ≡ false) (z ∷ zs) = (
            irrefl z,
            All-map (λ w. before w y ≡ false) zs (λ w h. back z y w t h) (first_by-least zs s),
          ) in
          subst (λ v. All (λ w. before w v ≡ false) (z ∷ zs))
            (some-injective _ _ (rw t at (rw s at e))) ends
    ]
  ]

  head_stays :
      (z : A) (zs : List A) → All (λ w. before w z ≡ false) zs → first_by before (z ∷ zs) ≡ some z
  unfolding first_by
  head_stays z zs low = elim (Option-cases (first_by before zs)) [
    | inl n ↦ rw n refl
    | inr (y, s) ↦
        let behind = All-first_by before (λ w. before w z ≡ false) zs low s in rw (s, behind) refl
  ]

  -- Leaving out rows other than the first keeps the first.
  pub first_by-filter :
      (keep : A → Bool) (xs : List A) {x : A}
      → first_by before xs ≡ some x
      → keep x ≡ true
      → first_by before (filter keep xs) ≡ some x
  unfolding first_by filter
  first_by-filter keep [] e k = e
  first_by-filter keep (z ∷ zs) {x} e k = elim (Option-cases (first_by before zs)) [
    | inl n ↦
        let same : z ≡ x = some-injective _ _ (rw n at e) in
        rw (first_by-none before zs n, same, k) refl
    | inr (y, s) ↦ elim (Bool-cases (before y z)) [
      | inl t ↦
          let same : y ≡ x = some-injective _ _ (rw t at (rw s at e)) in
          let rest = first_by-filter keep zs (s ∙ ap some same) k in
          let first : before x z ≡ true = rw same at t in
          elim (Bool-cases (keep z)) [
            | inl kept ↦ rw (kept, rest, first) refl
            | inr dropped ↦ rw dropped rest
          ]
      | inr t ↦
          let same : z ≡ x = some-injective _ _ (rw t at (rw s at e)) in
          let low : All (λ w. before w z ≡ false) zs =
            All-map (λ w. before w y ≡ false) zs (λ w h. back z y w t h) (first_by-least zs s) in
          let kept : keep z ≡ true = rw same k in
          rw kept (
            head_stays z (filter keep zs) (All-filter (λ w. before w z ≡ false) keep zs low)
            ∙ ap some same)
    ]
  ]
