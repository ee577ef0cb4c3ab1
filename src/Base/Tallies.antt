-- ===== src/Base/Tallies.antt =====
-- `collections.Counter`: the keys in the order of their first sight, each with its count.
use Prim.Native.Nat.{suc, ℕ, ◌+◌, ◌≤◌}
use mathlib.Core.Path.{◌≡◌, refl}
use mathlib.Core.Bool.{true, Bool}
use mathlib.Core.Logic.{◌↔◌, inl, inr}
use mathlib.Core.List.{List, [], ◌∷◌}
use native.Mathlib.Omega.{arith}
use wikifame.Base.Tests.{leb, if◌then◌else◌, Bool-cases}
use wikifame.Base.Rows.{All-map}
use wikifame.Base.Lists.{All}

abbrev pub Counter : Type 0 → Type 0
Counter K = List (K × ℕ)

module _ {K : Type 0} (same : K → K → Bool) where
  -- `counts[key] += 1`
  unfoldable pub increment : K → Counter K → Counter K
  increment key [] = (key, 1) ∷ []
  increment key ((k, n) ∷ rest) =
      if same k key then (k, n + 1) ∷ rest else (k, n) ∷ increment key rest

  -- `counts[key]`
  unfoldable pub count_of : K → Counter K → ℕ
  count_of key [] = 0
  count_of key ((k, n) ∷ rest) = if same k key then n else count_of key rest

module _ {K : Type 0} where
  -- `sum(counts.values())`
  unfoldable pub total : Counter K → ℕ
  total [] = 0
  total ((k, n) ∷ rest) = n + total rest

  -- Behind those with at least as high a count.
  unfoldable pub place : K × ℕ → Counter K → Counter K
  place (key, n) [] = (key, n) ∷ []
  place (key, n) ((k, m) ∷ rest) =
      if leb n m then (k, m) ∷ place (key, n) rest else (key, n) ∷ (k, m) ∷ rest

  abbrev pub place_all : Counter K → Counter K → Counter K
  place_all [] sorted = sorted
  place_all (entry ∷ rest) sorted = place_all rest (place entry sorted)

  -- `counts.most_common()`: by falling count, and by first sight where counts are equal.
  unfoldable pub most_common : Counter K → Counter K
  unfolding place
  most_common counts = place_all counts []

  -- The counts fall.
  abbrev pub Falling : Counter K → Type 0
  Falling [] = Unit
  Falling ((k, n) ∷ rest) = All (λ e. e.1 ≤ n) rest × Falling rest

  pub All-place :
      (P : K × ℕ → Type 0) (entry : K × ℕ) (counts : Counter K)
      → P entry
      → All P counts
      → All P (place entry counts)
  unfolding place
  All-place P (key, n) [] h hs = (h, tt)
  All-place P (key, n) ((k, m) ∷ rest) h (hm, hs) = elim (Bool-cases (leb n m)) [
    | inl t ↦ rw t (hm, All-place P (key, n) rest h hs)
    | inr f ↦ rw f (h, (hm, hs))
  ]

  All-place_all :
      (P : K × ℕ → Type 0) (counts sorted : Counter K)
      → All P counts
      → All P sorted
      → All P (place_all counts sorted)
  All-place_all P [] sorted h hs = hs
  All-place_all P (e ∷ rest) sorted (h, hr) hs =
      All-place_all P rest (place e sorted) hr (All-place P e sorted h hs)

  pub All-most_common :
      (P : K × ℕ → Type 0) (counts : Counter K) → All P counts → All P (most_common counts)
  unfolding most_common
  All-most_common P counts h = All-place_all P counts [] h tt

  place-Falling :
      (entry : K × ℕ) (counts : Counter K) → Falling counts → Falling (place entry counts)
  unfolding place
  place-Falling (key, n) [] h = (tt, tt)
  place-Falling (key, n) ((k, m) ∷ rest) (hm, hs) = elim (Bool-cases (leb n m)) [
    | inl t ↦
        rw t
          (All-place (λ e. e.1 ≤ m) (key, n) rest (ground arith) hm, place-Falling (key, n) rest hs)
    | inr f ↦ rw f ((ground arith, All-map (λ e. e.1 ≤ m) rest (λ e b. ground arith) hm), (hm, hs))
  ]

  -- The first count bounds all.
  pub Falling-bounded : (counts : Counter K) → Falling counts → (b : ℕ) × All (λ e. e.1 ≤ b) counts
  Falling-bounded [] h = (0, tt)
  Falling-bounded ((k, n) ∷ rest) (h, hs) = (n, (omega arith, h))

  place_all-Falling :
      (counts sorted : Counter K) → Falling sorted → Falling (place_all counts sorted)
  place_all-Falling [] sorted h = h
  place_all-Falling (e ∷ rest) sorted h =
      place_all-Falling rest (place e sorted) (place-Falling e sorted h)

  pub most_common-Falling : (counts : Counter K) → Falling (most_common counts)
  unfolding most_common
  most_common-Falling counts = place_all-Falling counts [] tt

  total-place :
      (key : K) (n : ℕ) (counts : Counter K) → total (place (key, n) counts) ≡ n + total counts
  unfolding total place
  total-place key n [] = refl
  total-place key n ((k, m) ∷ rest) = ground (arith, total-place key n rest)

module _ {K : Type 0} (same : K → K → Bool)
    (same_iff : (a b : K) → (same a b ≡ true) ↔ (a ≡ b)) where
  pub total-increment :
      (key : K) (counts : Counter K) → total (increment same key counts) ≡ suc (total counts)
  unfolding total increment
  total-increment key [] = refl
  total-increment key ((k, n) ∷ rest) = ground (arith, total-increment key rest)

  pub count_of-increment :
      (key other : K) (counts : Counter K)
      → count_of same other (increment same key counts)
        ≡ (if same key other then 1 else 0) + count_of same other counts
  unfolding count_of increment
  count_of-increment key other [] = ground arith
  count_of-increment key other ((k, n) ∷ rest) = ground (
    arith,
    same_iff k key,
    same_iff k other,
    same_iff key other,
    count_of-increment key other rest,
  )
