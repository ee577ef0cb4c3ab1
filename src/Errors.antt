-- ===== src/Errors.antt =====
-- src/wikipeople/errors.py: the exceptions, and the two ways in which the model raises them.
use wikifame.Base.{◌≡◌, refl, Bool, true, false, arith, Text, codes}

-- The classes of errors.py, each with its message, and any exception that is none of them.
pub data Failure : Type 0 where
  retryable_upstream : Text → Failure
  permanent_data : Text → Failure
  response_too_large : Text → Failure
  unexpected : Text → Failure

-- `error.code`; the worker's own code stands for an exception of another class.
unfoldable pub code : Failure → Text
code (retryable_upstream m) = codes "upstream_unavailable"
code (permanent_data m) = codes "invalid_page"
code (response_too_large m) = codes "wikiwho_response_too_large"
code (unexpected m) = codes "unexpected_error"

-- `error.permanent`
unfoldable pub permanent : Failure → Bool
permanent (retryable_upstream m) = false
permanent (permanent_data m) = true
permanent (response_too_large m) = true
permanent (unexpected m) = false

-- `str(error)`
unfoldable pub message : Failure → Text
message (retryable_upstream m) = m
message (permanent_data m) = m
message (response_too_large m) = m
message (unexpected m) = m

-- `except WikiPeopleError`
unfoldable pub is_wikipeople_error : Failure → Bool
is_wikipeople_error (unexpected m) = false
is_wikipeople_error _ = true

-- `except PermanentDataError`, which catches its subclass too.
unfoldable pub is_permanent_data_error : Failure → Bool
is_permanent_data_error (permanent_data m) = true
is_permanent_data_error (response_too_large m) = true
is_permanent_data_error _ = false

pub data Result (A : Type 0) : Type 0 where
  ok : A → Result A
  err : Failure → Result A

-- A computation that may raise, over a state that outlives the exception.
abbrev pub Exec : Type 0 → Type 0 → Type 0
Exec S A = S → Result A × S

module _ {S A : Type 0} where
  abbrev pub pure : A → Exec S A
  pure a s = (ok a, s)

  abbrev pub raise : Failure → Exec S A
  raise e s = (err e, s)

  abbrev pub lift : Result A → Exec S A
  lift r s = (r, s)

module _ {S A B : Type 0} where
  abbrev pub and_then : Result A → (A → Exec S B) → Exec S B
  and_then (ok a) f s = f a s
  and_then (err e) f s = (err e, s)

  infixl 5 ◌>>=◌ ◌>>◌
  abbrev pub ◌>>=◌ : Exec S A → (A → Exec S B) → Exec S B
  ◌>>=◌ m f s = let (r, s') = m s in and_then r f s'

  abbrev pub ◌>>◌ : Exec S A → Exec S B → Exec S B
  m >> k = m >>= λ _. k

module _ {A B : Type 0} where
  infixl 5 ◌>>>◌
  abbrev pub ◌>>>◌ : Result A → (A → Result B) → Result B
  ok a >>> f = f a
  err e >>> f = err e

pub ok-injective : {A : Type 0} {a b : A} → ok a ≡ ok b → a ≡ b
ok-injective e = ground arith

module _ {A B : Type 0} where
  -- A chain of results that has a value: both parts have one.
  pub >>>-eq-ok :
      (r : Result A) (f : A → Result B) {b : B}
      → (r >>> f) ≡ ok b
      → (a : A) × (r ≡ ok a) × (f a ≡ ok b)
  >>>-eq-ok (ok a) f e = (a, refl, e)
  >>>-eq-ok (err x) f e = cc

module _ {S A B : Type 0} where
  -- A sequence that returns: its first part does, and the rest goes on from there.
  pub >>=-eq-ok :
      (m : Exec S A) (f : A → Exec S B) (s : S) {b : B}
      → ((m >>= f) s).0 ≡ ok b
      → (a : A) × ((m s).0 ≡ ok a) × ((f a (m s).1).0 ≡ ok b)
  >>=-eq-ok m f s e = go (m s).0 e
    where
      go :
          (r : Result A) {b : B}
          → (and_then r f (m s).1).0 ≡ ok b
          → (a : A) × (r ≡ ok a) × ((f a (m s).1).0 ≡ ok b)
      go (ok a) h = (a, refl, h)
      go (err x) h = cc
