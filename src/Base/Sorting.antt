-- ===== src/Base/Sorting.antt =====
-- `sorted`, as insertion that keeps the order of ties.
use mathlib.Core.Logic.{inl, inr, ◌≢◌}
use mathlib.Core.Bool.{Bool, true, false, ◌&&◌}
use mathlib.Core.Path.{◌≡◌, ◌∙◌, ap, sym, refl}
use mathlib.Core.List.{List, [], ◌∷◌}
use wikifame.Base.Tests.{if◌then◌else◌, Bool-cases}
use wikifame.Base.Lists.{All, filter}
use wikifame.Base.Rows.{All-filter, All-map, Distinct}

module _ {ℓ} {A : Type ℓ} (le : A → A → Bool) where
  abbrev pub insert_by : A → List A → List A
  insert_by a [] = a ∷ []
  insert_by a (b ∷ rest) =
      let behind = insert_by a rest in if le a b then a ∷ b ∷ rest else b ∷ behind

  unfoldable pub sort_by : List A → List A
  sort_by [] = []
  sort_by (a ∷ rest) = insert_by a (sort_by rest)

  All-insert_by {κ} :
      (P : A → Type κ) (a : A) (rows : List A) → P a → All P rows → All P (insert_by a rows)
  All-insert_by P a [] h hs = (h, tt)
  All-insert_by P a (b ∷ rest) h (hb, hs) = elim (Bool-cases (le a b)) [
    | inl t ↦ rw t (h, (hb, hs))
    | inr t ↦ rw t (hb, All-insert_by P a rest h hs)
  ]

  pub All-sort_by {κ} : (P : A → Type κ) (rows : List A) → All P rows → All P (sort_by rows)
  unfolding sort_by
  All-sort_by P [] h = tt
  All-sort_by P (a ∷ rest) (h, hs) = All-insert_by P a (sort_by rest) h (All-sort_by P rest hs)

module _ {ℓ} {A : Type ℓ} (le : A → A → Bool) where
  abbrev pub Ordered : List A → Type 0
  Ordered [] = Unit
  Ordered (x ∷ xs) = All (λ y. le x y ≡ true) xs × Ordered xs

  -- In front of all others nothing is passed.
  insert_first : (x : A) (xs : List A) → All (λ y. le x y ≡ true) xs → insert_by le x xs ≡ x ∷ xs
  insert_first x [] h = refl
  insert_first x (y ∷ ys) (h, hs) = rw h refl

  module _ (total : (a b : A) → le a b ≡ false → le b a ≡ true)
      (trans : (a b c : A) → le a b ≡ true → le b c ≡ true → le a c ≡ true) where
    insert_by-Ordered : (a : A) (xs : List A) → Ordered xs → Ordered (insert_by le a xs)
    insert_by-Ordered a [] h = (tt, tt)
    insert_by-Ordered a (b ∷ rest) (hb, h) = elim (Bool-cases (le a b)) [
      | inl t ↦ rw t ((t, All-map (λ y. le b y ≡ true) rest (λ y k. trans a b y t k) hb), (hb, h))
      | inr f ↦ rw f (
        All-insert_by le (λ y. le b y ≡ true) a rest (total a b f) hb,
        insert_by-Ordered a rest h,
      )
    ]

    pub sort_by-Ordered : (xs : List A) → Ordered (sort_by le xs)
    unfolding sort_by
    sort_by-Ordered [] = tt
    sort_by-Ordered (a ∷ rest) = insert_by-Ordered a (sort_by le rest) (sort_by-Ordered rest)

    filter-insert_by :
        (p : A → Bool) (a : A) (xs : List A)
        → Ordered xs
        → filter p (insert_by le a xs) ≡ (if p a then insert_by le a (filter p xs) else filter p xs)
    unfolding filter
    filter-insert_by p a [] h = elim (Bool-cases (p a)) [ inl t ↦ rw t refl | inr f ↦ rw f refl ]
    filter-insert_by p a (b ∷ rest) (hb, h) =
        let step = filter-insert_by p a rest h in
        elim (Bool-cases (le a b)) [
          | inl t ↦ elim (Bool-cases (p a)) [
            | inr out ↦ rw (t, out) refl
            | inl kept ↦
                let ahead =
                  All-filter (λ y. le a y ≡ true) p (b ∷ rest)
                    (t, All-map (λ y. le b y ≡ true) rest (λ y k. trans a b y t k) hb) in
                rw (t, kept) (sym (insert_first a (filter p (b ∷ rest)) ahead))
          ]
          | inr f ↦ elim (Bool-cases (p a)) [
            | inl kept ↦ elim (Bool-cases (p b)) [
              | inl keep ↦ rw (f, kept, keep, f) (ap (λ l. b ∷ l) (rw kept at step))
              | inr drop ↦ rw (f, kept, drop) (rw kept at step)
            ]
            | inr out ↦ elim (Bool-cases (p b)) [
              | inl keep ↦ rw (f, out, keep) (ap (λ l. b ∷ l) (rw out at step))
              | inr drop ↦ rw (f, out, drop) (rw out at step)
            ]
          ]
        ]

    pub filter-sort_by :
        (p : A → Bool) (xs : List A) → filter p (sort_by le xs) ≡ sort_by le (filter p xs)
    unfolding filter sort_by
    filter-sort_by p [] = refl
    filter-sort_by p (a ∷ rest) =
        let first = filter-insert_by p a (sort_by le rest) (sort_by-Ordered rest) in
        elim (Bool-cases (p a)) [
          | inl t ↦ rw t ((rw t at first) ∙ ap (insert_by le a) (filter-sort_by p rest))
          | inr f ↦ rw f ((rw f at first) ∙ filter-sort_by p rest)
        ]

  module _ {K : Type 0} (key : A → K) where
    insert_by-Distinct :
        (a : A) (xs : List A) → Distinct key (a ∷ xs) → Distinct key (insert_by le a xs)
    insert_by-Distinct a [] h = h
    insert_by-Distinct a (b ∷ rest) ((other, others), (hb, h)) = elim (Bool-cases (le a b)) [
      | inl t ↦ rw t ((other, others), (hb, h))
      | inr f ↦ rw f (
        All-insert_by le (λ w. key w ≢ key b) a rest (λ same. other (sym same)) hb,
        insert_by-Distinct a rest (others, h),
      )
    ]

    pub sort_by-Distinct : (xs : List A) → Distinct key xs → Distinct key (sort_by le xs)
    unfolding sort_by
    sort_by-Distinct [] h = tt
    sort_by-Distinct (a ∷ rest) (h, hs) =
        insert_by-Distinct a (sort_by le rest)
          (All-sort_by le (λ w. key w ≢ key a) rest h, sort_by-Distinct rest hs)

module _ {ℓ} {A : Type ℓ} where
  -- Two selections, one after the other.
  pub filter-filter :
      (p q r : A → Bool) (xs : List A)
      → ((x : A) → r x ≡ (p x && q x))
      → filter q (filter p xs) ≡ filter r xs
  unfolding filter
  filter-filter p q r [] same = refl
  filter-filter p q r (x ∷ xs) same = elim (Bool-cases (p x)) [
    | inl t ↦ elim (Bool-cases (q x)) [
      | inl u ↦ rw (t, u, same x, t, u) (ap (λ l. x ∷ l) (filter-filter p q r xs same))
      | inr u ↦ rw (t, u, same x, t, u) (filter-filter p q r xs same)
    ]
    | inr t ↦ rw (t, same x, t) (filter-filter p q r xs same)
  ]
