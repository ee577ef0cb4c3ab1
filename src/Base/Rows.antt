-- ===== src/Base/Rows.antt =====
-- Laws of the selections and updates of `Lists`.
use mathlib.Core.Path.{◌≡◌, refl, sym, subst}
use mathlib.Core.Logic.{inl, inr, ◌≢◌}
use mathlib.Core.Bool.{Bool, true, false, false≢true}
use mathlib.Core.Option.{none, some, none-ne-some, some-ne-none, some-injective}
use mathlib.Core.List.{List, [], ◌∷◌, ◌++◌}
use wikifame.Base.Tests.{if◌then◌else◌, Bool-cases}
use wikifame.Base.Lists.{any, filter, find?, update_where, All}

module _ {ℓ κ} {A : Type ℓ} {B : Type κ} where
  -- No two rows agree in the column `f`.
  abbrev pub Distinct : (A → B) → List A → Type (ℓ ⊔ κ)
  Distinct f [] = Unit
  Distinct f (x ∷ xs) = All (λ y. f y ≢ f x) xs × Distinct f xs

module _ {ℓ κ} {A : Type ℓ} (P : A → Type κ) where
  pub All-filter : (p : A → Bool) (xs : List A) → All P xs → All P (filter p xs)
  unfolding filter
  All-filter p [] h = tt
  All-filter p (x ∷ xs) (hx, hs) = elim (Bool-cases (p x)) [
    | inl e ↦ rw e (hx, All-filter p xs hs)
    | inr e ↦ rw e (All-filter p xs hs)
  ]

  pub All-update_where :
      (p : A → Bool) (f : A → A) (xs : List A)
      → ((x : A) → P x → p x ≡ true → P (f x))
      → All P xs
      → All P (update_where p f xs)
  unfolding update_where
  All-update_where p f [] step h = tt
  All-update_where p f (x ∷ xs) step (hx, hs) = elim (Bool-cases (p x)) [
    | inl e ↦ rw e (step x hx e, All-update_where p f xs step hs)
    | inr e ↦ rw e (hx, All-update_where p f xs step hs)
  ]

  pub All-update_rows :
      (p : A → Bool) (f : A → A) (xs : List A)
      → All (λ x. p x ≡ true → P x → P (f x)) xs
      → All P xs
      → All P (update_where p f xs)
  unfolding update_where
  All-update_rows p f [] step h = tt
  All-update_rows p f (x ∷ xs) (sx, ss) (hx, hs) = elim (Bool-cases (p x)) [
    | inl e ↦ rw e (sx e hx, All-update_rows p f xs ss hs)
    | inr e ↦ rw e (hx, All-update_rows p f xs ss hs)
  ]

  pub All-any : (xs : List A) → ((x : A) → P x) → All P xs
  All-any [] h = tt
  All-any (x ∷ xs) h = (h x, All-any xs h)

  -- The same, where the update brings about another property.
  pub All-update_into {μ} :
      {Q : A → Type μ} (p : A → Bool) (f : A → A) (xs : List A)
      → ((x : A) → P x → p x ≡ true → Q (f x))
      → ((x : A) → P x → p x ≡ false → Q x)
      → All P xs
      → All Q (update_where p f xs)
  unfolding update_where
  All-update_into p f [] hit miss h = tt
  All-update_into p f (x ∷ xs) hit miss (hx, hs) = elim (Bool-cases (p x)) [
    | inl e ↦ rw e (hit x hx e, All-update_into p f xs hit miss hs)
    | inr e ↦ rw e (miss x hx e, All-update_into p f xs hit miss hs)
  ]

  pub All-map {μ} : {Q : A → Type μ} (xs : List A) → ((x : A) → P x → Q x) → All P xs → All Q xs
  All-map [] step h = tt
  All-map (x ∷ xs) step (hx, hs) = (step x hx, All-map xs step hs)

  pub All-append : (xs ys : List A) → All P xs → All P ys → All P (xs ++ ys)
  All-append [] ys hx hy = hy
  All-append (x ∷ xs) ys hx hy = (hx.0, All-append xs ys hx.1 hy)

  -- What holds of all rows holds of the one that a test finds.
  pub All-find? : (p : A → Bool) (xs : List A) {x : A} → All P xs → find? p xs ≡ some x → P x
  unfolding find?
  All-find? p [] h e = absurd (none-ne-some _ e)
  All-find? p (y ∷ ys) {x} (hy, hs) e = elim (Bool-cases (p y)) [
    | inl t ↦ subst P (some-injective _ _ (rw t at e)) hy
    | inr t ↦ All-find? p ys hs (rw t at e)
  ]

module _ {ℓ} {A : Type ℓ} where
  -- All rows satisfy a test that selects them.
  pub All-self : (p : A → Bool) (xs : List A) → All (λ x. p x ≡ true) (filter p xs)
  unfolding filter
  All-self p [] = tt
  All-self p (x ∷ xs) = elim (Bool-cases (p x)) [
    | inl e ↦ rw e (e, All-self p xs)
    | inr e ↦ rw e (All-self p xs)
  ]

  pub find?-holds : (p : A → Bool) (xs : List A) {x : A} → find? p xs ≡ some x → p x ≡ true
  unfolding find?
  find?-holds p [] e = absurd (none-ne-some _ e)
  find?-holds p (y ∷ ys) {x} e = elim (Bool-cases (p y)) [
    | inl t ↦ subst (λ z. p z ≡ true) (some-injective _ _ (rw t at e)) t
    | inr t ↦ find?-holds p ys (rw t at e)
  ]

  pub find?-none : (p : A → Bool) (xs : List A) → find? p xs ≡ none → All (λ x. p x ≡ false) xs
  unfolding find?
  find?-none p [] e = tt
  find?-none p (y ∷ ys) e = elim (Bool-cases (p y)) [
    | inl t ↦ absurd (some-ne-none _ (rw t at e))
    | inr t ↦ (t, find?-none p ys (rw t at e))
  ]

  pub find?-absent : (p : A → Bool) (xs : List A) → All (λ x. p x ≡ false) xs → find? p xs ≡ none
  unfolding find?
  find?-absent p [] h = refl
  find?-absent p (y ∷ ys) (hy, hs) = rw hy (find?-absent p ys hs)

  pub any-none : (p : A → Bool) (xs : List A) → any p xs ≡ false → All (λ x. p x ≡ false) xs
  unfolding any
  any-none p [] e = tt
  any-none p (y ∷ ys) e = elim (Bool-cases (p y)) [
    | inl t ↦ absurd (false≢true (sym (rw t at e)))
    | inr t ↦ (t, any-none p ys (rw t at e))
  ]

module _ {ℓ κ} {A : Type ℓ} {B : Type κ} (f : A → B) where
  pub Distinct-filter : (p : A → Bool) (xs : List A) → Distinct f xs → Distinct f (filter p xs)
  unfolding filter
  Distinct-filter p [] h = tt
  Distinct-filter p (x ∷ xs) (hx, hs) = elim (Bool-cases (p x)) [
    | inl e ↦ rw e (All-filter (λ y. f y ≢ f x) p xs hx, Distinct-filter p xs hs)
    | inr e ↦ rw e (Distinct-filter p xs hs)
  ]

  -- An update that leaves the column alone in the rows that it changes.
  pub Distinct-update_rows :
      (p : A → Bool) (g : A → A) (xs : List A)
      → All (λ x. p x ≡ true → f (g x) ≡ f x) xs
      → Distinct f xs
      → Distinct f (update_where p g xs)
  unfolding update_where
  Distinct-update_rows p g [] keep h = tt
  Distinct-update_rows p g (x ∷ xs) (kx, ks) (hx, hs) =
      let same : f (if p x then g x else x) ≡ f x = elim (Bool-cases (p x)) [
        | inl e ↦ rw e (kx e)
        | inr e ↦ rw e refl
      ] in
      (
        rw same (
            All-update_rows (λ y. f y ≢ f x) p g xs
              (All-map (λ y. p y ≡ true → f (g y) ≡ f y) xs (λ y k e n. rw (k e) n) ks) hx),
        Distinct-update_rows p g xs ks hs,
      )

  pub Distinct-update_where :
      (p : A → Bool) (g : A → A) (xs : List A)
      → ((x : A) → f (g x) ≡ f x)
      → Distinct f xs
      → Distinct f (update_where p g xs)
  Distinct-update_where p g xs keep =
      Distinct-update_rows p g xs (All-any (λ x. p x ≡ true → f (g x) ≡ f x) xs (λ x _. keep x))
