-- ===== src/Batches.antt =====
-- src/wikipeople/clients.py and src/wikipeople/migrate.py: lists in batches.
use wikifame.Base.{
  ℕ, zero, suc, ◌+◌, ◌-◌, ◌≤◌, ◌<◌, ◌≡◌, refl, List, [], ◌∷◌, ◌++◌, append_assoc, arith, length,
  All, length-append,
}
use wikifame.Api.Handlers.{positive}

module _ {A : Type 0} where
  -- The batches behind `part`, which begins a batch and has `room` places left.
  unfoldable pub batches_from : ℕ → ℕ → List A → List A → List (List A)
  batches_from size room part [] = (part ∷ [])
  batches_from size zero part (x ∷ xs) = part ∷ batches_from size (size - 1) (x ∷ []) xs
  batches_from size (suc room) part (x ∷ xs) = batches_from size room (part ++ x ∷ []) xs

  -- `_batched`, for a positive size; also `values[start : start + size]` for the starts of a range.
  unfoldable pub batched : ℕ → List A → List (List A)
  unfolding batches_from
  batched size [] = []
  batched size (x ∷ xs) = batches_from size (size - 1) (x ∷ []) xs

  abbrev pub concat : List (List A) → List A
  concat [] = []
  concat (xs ∷ xss) = xs ++ concat xss

  concat-batches_from :
      (size room : ℕ) (part xs : List A) → concat (batches_from size room part xs) ≡ part ++ xs
  unfolding batches_from
  concat-batches_from size room part [] = refl
  concat-batches_from size zero part (x ∷ xs) =
      rw (concat-batches_from size (size - 1) (x ∷ []) xs) refl
  concat-batches_from size (suc room) part (x ∷ xs) =
      rw (concat-batches_from size room (part ++ x ∷ []) xs) (append_assoc part (x ∷ []) xs)

  -- A batch holds at least one value, and at most `size`.
  abbrev pub Fits : ℕ → List A → Type 0
  Fits size part = (0 < length part) × (length part ≤ size)

  batches_from-Fits :
      (size room : ℕ) (part xs : List A)
      → 0 < size
      → 0 < length part
      → length part + room ≡ size
      → All (Fits size) (batches_from size room part xs)
  unfolding batches_from
  batches_from-Fits size room part [] positive filled h = ((filled, omega arith), tt)
  batches_from-Fits size zero part (x ∷ xs) positive filled h = (
    (filled, omega arith),
    batches_from-Fits size (size - 1) (x ∷ []) xs positive (omega arith) (omega arith),
  )
  batches_from-Fits size (suc room) part (x ∷ xs) positive filled h =
      batches_from-Fits size room (part ++ x ∷ []) xs positive
        (omega (arith, length-append part (x ∷ []))) (omega (arith, length-append part (x ∷ [])))

  -- For a positive size, the batches together are the values in their order, and each holds at
  -- least one value and at most as many as the size.
  pub batched_lem :
      (size : ℕ) (xs : List A)
      → 0 < size
      → (concat (batched size xs) ≡ xs) × All (Fits size) (batched size xs)
  unfolding batched
  batched_lem size [] positive = (refl, tt)
  batched_lem size (x ∷ xs) positive = (
    concat-batches_from size (size - 1) (x ∷ []) xs,
    batches_from-Fits size (size - 1) (x ∷ []) xs positive (omega arith) (omega arith),
  )
