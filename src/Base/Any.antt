-- ===== src/Base/Any.antt =====
-- Laws of `any`, and of membership under the selections.
use mathlib.Core.Path.{◌≡◌, ◌∙◌, ap, ap₂, refl}
use mathlib.Core.Logic.{inl, inr}
use mathlib.Core.Bool.{not, false, Bool, true, ◌&&◌, ◌||◌}
use mathlib.Core.List.{List, [], ◌∷◌, ◌++◌}
use native.Mathlib.Omega.{arith}
use Prim.Native.Nat.{ℕ}
use wikifame.Base.Tests.{Bool-cases, ◌==◌, ==_iff}
use wikifame.Base.Lists.{All, any, filter, update_where}

module _ {ℓ} {A : Type ℓ} where
  pub any-append : (p : A → Bool) (xs ys : List A) → any p (xs ++ ys) ≡ (any p xs || any p ys)
  unfolding any
  any-append p [] ys = refl
  any-append p (x ∷ xs) ys = ground (arith, any-append p xs ys)

  -- A filter that treats all rows alike that a test selects.
  pub any-filter :
      (p q : A → Bool) (r : Bool) (xs : List A)
      → ((x : A) → p x ≡ true → q x ≡ r)
      → any p (filter q xs) ≡ (any p xs && r)
  unfolding any filter
  any-filter p q r [] same = refl
  any-filter p q r (x ∷ xs) same = elim (Bool-cases (p x)) [
    | inl t ↦ ground (arith, t, same x t, any-filter p q r xs same)
    | inr t ↦ ground (arith, t, any-filter p q r xs same)
  ]

  pub any-update_where :
      (p q : A → Bool) (f : A → A) (xs : List A)
      → ((x : A) → p (f x) ≡ p x)
      → any p (update_where q f xs) ≡ any p xs
  unfolding any update_where
  any-update_where p q f [] keep = refl
  any-update_where p q f (x ∷ xs) keep = ground (arith, keep x, any-update_where p q f xs keep)

  pub filter-none : (p : A → Bool) (xs : List A) → All (λ x. p x ≡ false) xs → filter p xs ≡ []
  unfolding filter
  filter-none p [] h = refl
  filter-none p (x ∷ xs) (h, hs) = rw (h, filter-none p xs hs) refl

  -- Whether a row is found after the rows of a group are replaced, where exactly the missing ones
  -- among those that are asked for have been added.
  pub any-replaced :
      (p keep on : A → Bool) (f : A → A) (asked : Bool) (added rows : List A)
      → ((x : A) → p (f x) ≡ p x)
      → ((x : A) → p x ≡ true → keep x ≡ asked)
      → any p added ≡ (asked && not (any p rows) && asked)
      → any p (added ++ update_where on f (filter keep rows)) ≡ asked
  any-replaced p keep on f asked added rows same kept new =
      any-append p added (update_where on f (filter keep rows))
      ∙ ap₂ (λ a b. a || b) new
          (any-update_where p on f (filter keep rows) same ∙ any-filter p keep asked rows kept)
      ∙ settle (any p rows) asked
    where
      settle : (listed asked : Bool) → ((asked && not listed && asked) || (listed && asked)) ≡ asked
      settle true true = refl
      settle true false = refl
      settle false true = refl
      settle false false = refl

-- The numbers of a list that a table does not have yet.
pub any-unlisted :
    (listed : ℕ → Bool) (ids : List ℕ) (k : ℕ)
    → any (λ id. id == k) (filter (λ id. not (listed id)) ids)
      ≡ (any (λ id. id == k) ids && not (listed k))
any-unlisted listed ids k =
    any-filter (λ id. id == k) (λ id. not (listed id)) (not (listed k)) ids
      (λ id same. ap (λ i. not (listed i)) ((==_iff id k).0 same))
