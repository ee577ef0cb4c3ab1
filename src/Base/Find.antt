-- ===== src/Base/Find.antt =====
-- More laws of the selections: what is found after an update, and what a selection says of all rows.
use Prim.Native.Nat.{zero, suc, suc, ℕ, ◌≤◌}
use mathlib.Core.Path.{ap, ◌∙◌, ◌≡◌, refl, sym}
use mathlib.Core.Logic.{◌≢◌, inl, inr}
use mathlib.Core.Bool.{Bool, true, false}
use mathlib.Core.Option
use mathlib.Core.Option.{Option, none, some}
use mathlib.Core.List.{List, [], ◌∷◌}
use native.Mathlib.Omega.{arith}
use wikifame.Base.Tests.{if◌then◌else◌, Bool-cases}
use wikifame.Base.Rows.{Distinct, All-map, All-find?}
use mathlib.Core.List.{map}
use wikifame.Base.Lists.{length, take, any, filter, find?, update_where, All, Member}

module _ {ℓ κ} {A : Type ℓ} (P : A → Type κ) where
  -- What the rows are after an update, whatever they were before.
  pub All-updated :
      (p : A → Bool) (f : A → A) (xs : List A)
      → ((x : A) → p x ≡ true → P (f x))
      → ((x : A) → p x ≡ false → P x)
      → All P (update_where p f xs)
  unfolding update_where
  All-updated p f [] hit miss = tt
  All-updated p f (x ∷ xs) hit miss = elim (Bool-cases (p x)) [
    | inl e ↦ rw e (hit x e, All-updated p f xs hit miss)
    | inr e ↦ rw e (miss x e, All-updated p f xs hit miss)
  ]

  pub All-filter_if :
      (p : A → Bool) (xs : List A) → All (λ x. p x ≡ true → P x) xs → All P (filter p xs)
  unfolding filter
  All-filter_if p [] h = tt
  All-filter_if p (x ∷ xs) (hx, hs) = elim (Bool-cases (p x)) [
    | inl e ↦ rw e (hx e, All-filter_if p xs hs)
    | inr e ↦ rw e (All-filter_if p xs hs)
  ]

  pub All-take : (n : ℕ) (xs : List A) → All P xs → All P (take n xs)
  All-take zero xs h = tt
  All-take (suc n) [] h = tt
  All-take (suc n) (x ∷ xs) (hx, hs) = (hx, All-take n xs hs)

  -- What holds of the selected rows, as a statement on all.
  pub All-of_filter :
      (p : A → Bool) (xs : List A) → All P (filter p xs) → All (λ x. p x ≡ true → P x) xs
  unfolding filter
  All-of_filter p [] h = tt
  All-of_filter p (x ∷ xs) h = elim (Bool-cases (p x)) [
    | inl e ↦ let (hx, hs) = rw e at h in ((λ _. hx), All-of_filter p xs hs)
    | inr e ↦ ((λ t. absurd (cc)), All-of_filter p xs (rw e at h))
  ]

module _ {ℓ} {A : Type ℓ} where
  -- An update that the test does not see.
  pub find?-update_where :
      (p q : A → Bool) (f : A → A) (xs : List A)
      → ((x : A) → p (f x) ≡ p x)
      → find? p (update_where q f xs) ≡ Option.map (λ x. if q x then f x else x) (find? p xs)
  unfolding find? update_where
  find?-update_where p q f [] keep = refl
  find?-update_where p q f (x ∷ xs) keep = ground (arith, keep x, find?-update_where p q f xs keep)

  -- Selections that an update leaves alone.
  pub filter-update_where :
      (p q : A → Bool) (f : A → A) (xs : List A)
      → ((x : A) → p (f x) ≡ p x)
      → All (λ x. p x ≡ true → q x ≡ false) xs
      → filter p (update_where q f xs) ≡ filter p xs
  unfolding filter update_where
  filter-update_where p q f [] keep apart = refl
  filter-update_where p q f (x ∷ xs) keep (here, rest) =
      ground (arith, keep x, here, filter-update_where p q f xs keep rest)

  pub find?-update_apart :
      (p q : A → Bool) (f : A → A) (xs : List A)
      → ((x : A) → p (f x) ≡ p x)
      → ((x : A) → p x ≡ true → q x ≡ false)
      → find? p (update_where q f xs) ≡ find? p xs
  unfolding find? update_where
  find?-update_apart p q f [] keep apart = refl
  find?-update_apart p q f (x ∷ xs) keep apart =
      ground (arith, keep x, apart x, find?-update_apart p q f xs keep apart)

  pub find?-update_rows :
      (p q : A → Bool) (f : A → A) (xs : List A)
      → All (λ x. q x ≡ true → p (f x) ≡ p x) xs
      → find? p (update_where q f xs) ≡ Option.map (λ x. if q x then f x else x) (find? p xs)
  unfolding find? update_where
  find?-update_rows p q f [] keep = refl
  find?-update_rows p q f (x ∷ xs) (here, rest) =
      ground (arith, here, find?-update_rows p q f xs rest)

  -- Nothing is found in the rows that are updated, before or after.
  pub find?-update_off :
      (p q : A → Bool) (f : A → A) (xs : List A)
      → All (λ x. q x ≡ true → (p x ≡ false) × (p (f x) ≡ false)) xs
      → find? p (update_where q f xs) ≡ find? p xs
  unfolding find? update_where
  find?-update_off p q f [] apart = refl
  find?-update_off p q f (x ∷ xs) (here, rest) =
      ground (arith, here, find?-update_off p q f xs rest)

  pub any-absent : (p : A → Bool) (xs : List A) → All (λ x. p x ≡ false) xs → any p xs ≡ false
  unfolding any
  any-absent p [] h = refl
  any-absent p (x ∷ xs) (hx, hs) = rw hx (any-absent p xs hs)

  pub filter_comm : (p q : A → Bool) (xs : List A) → filter p (filter q xs) ≡ filter q (filter p xs)
  unfolding filter
  filter_comm p q [] = refl
  filter_comm p q (x ∷ xs) = ground (arith, filter_comm p q xs)

  pub filter-All : (p : A → Bool) (xs : List A) → All (λ x. p x ≡ true) xs → filter p xs ≡ xs
  unfolding filter
  filter-All p [] h = refl
  filter-All p (x ∷ xs) (hx, hs) = ground (arith, filter-All p xs hs)

  pub length-filter-le : (p : A → Bool) (xs : List A) → length (filter p xs) ≤ length xs
  unfolding filter
  length-filter-le p [] = omega arith
  length-filter-le p (x ∷ xs) = ground (arith, length-filter-le p xs)

pub any-map {ℓ κ} :
    {A : Type ℓ} {B : Type κ} (p : B → Bool) (f : A → B) (xs : List A)
    → any p (map f xs) ≡ any (λ x. p (f x)) xs
unfolding any
any-map p f [] = refl
any-map p f (x ∷ xs) = rw (any-map p f xs) refl

module _ {A : Type 0} where
  pub All-of_Member : (P : A → Type 0) (xs : List A) → ((x : A) → Member x xs → P x) → All P xs
  All-of_Member P [] h = tt
  All-of_Member P (x ∷ xs) h = (h x (inl refl), All-of_Member P xs (λ y m. h y (inr m)))

  pub Member-all : (P : A → Type 0) (xs : List A) {x : A} → Member x xs → All P xs → P x
  Member-all P [] m h = absurd m
  Member-all P (y ∷ ys) (inl e) (hy, hs) = rw e hy
  Member-all P (y ∷ ys) (inr m) (hy, hs) = Member-all P ys m hs

  pub All-Member : (xs : List A) → All (λ x. Member x xs) xs
  All-Member xs = All-of_Member (λ x. Member x xs) xs (λ x m. m)

  pub find?-Member : (p : A → Bool) (xs : List A) {x : A} → find? p xs ≡ some x → Member x xs
  find?-Member p xs e = All-find? (λ x. Member x xs) p xs (All-Member xs) e

  -- A row is told from the others by a column in which no two agree.
  pub Distinct-unique :
      {B : Type 0} (f : A → B) (xs : List A) (x : A)
      → Distinct f xs
      → Member x xs
      → All (λ y. f y ≡ f x → y ≡ x) xs
  Distinct-unique f [] x h m = absurd m
  Distinct-unique f (z ∷ zs) x (hz, hs) (inl e) =
      ((λ _. sym e), All-map (λ y. f y ≢ f z) zs (λ y n same. absurd (n (same ∙ ap f e))) hz)
  Distinct-unique f (z ∷ zs) x (hz, hs) (inr m) = (
    (λ same. absurd (Member-all (λ y. f y ≢ f z) zs m hz (sym same))),
    Distinct-unique f zs x hs m,
  )
