-- ===== src/Base/Decimal.antt =====
-- `str` of a number, and `str.partition` at one character.
use Prim.Native.Nat.{ℕ, zero, suc, ◌+◌, ◌/◌, ◌%◌, ◌<◌}
use mathlib.Core.Path.{◌≡◌, refl}
use mathlib.Core.Logic.{inl, inr}
use mathlib.Core.Bool.{true, false}
use mathlib.Core.Option.{Option, none, some}
use mathlib.Core.List.{[], ◌∷◌, ◌++◌}
use native.Mathlib.Omega.{arith}
use wikifame.Base.Tests.{ltb, ◌==◌, if◌then◌else◌, Bool-cases}
use wikifame.Base.Lists.{All}
use wikifame.Base.Strings.{Text, codes}

-- The digits of `n`, with the fuel `f`, in front of `out`.
unfoldable pub digits : ℕ → ℕ → Text → Text
digits zero n out = out
digits (suc f) n out =
    let rest = digits f (n / 10) ((b'0' + n % 10) ∷ out) in
    if ltb n 10 then (b'0' + n) ∷ out else rest

-- `str(n)`; a number has at most as many digits as it counts, or one.
unfoldable pub decimal : ℕ → Text
unfolding digits
decimal n = digits (suc n) n []

-- `s.partition(c)`: the texts before and after the first `c`, if there is one.
unfoldable pub partition : ℕ → Text → Option (Text × Text)
partition c [] = none
partition c (d ∷ s) = elim (d == c) [
  | true ↦ some ([], s)
  | false ↦ elim (partition c s) [ none ↦ none | some (before, after) ↦ some (d ∷ before, after) ]
]

decimal_1234 : decimal 1234 ≡ codes "1234"
unfolding decimal
decimal_1234 = refl

module _ {ℓ} (P : ℕ → Type ℓ) (each : (d : ℕ) → d < 10 → P (b'0' + d)) where
  -- What holds of the ten digits holds of all characters that are printed.
  pub All-digits : (f n : ℕ) (out : Text) → All P out → All P (digits f n out)
  unfolding digits
  All-digits zero n out h = h
  All-digits (suc f) n out h = elim (Bool-cases (ltb n 10)) [
    | inl t ↦ rw t (each n (ground (arith, t)), h)
    | inr t ↦ rw t (All-digits f (n / 10) ((b'0' + n % 10) ∷ out) (each (n % 10) (omega arith), h))
  ]

  pub All-decimal : (n : ℕ) → All P (decimal n)
  unfolding decimal
  All-decimal n = All-digits (suc n) n [] tt

-- Where no character of the first part is `c`, the first `c` is the one between the parts.
pub partition-append :
    (c : ℕ) (s t : Text) → All (λ d. (d == c) ≡ false) s → partition c (s ++ c ∷ t) ≡ some (s, t)
unfolding partition
partition-append c [] t h = let same : (c == c) ≡ true = ground arith in rw (partition, same) refl
partition-append c (d ∷ s) t (hd, hs) = rw (partition, hd, partition-append c s t hs) refl
