-- ===== src/Replica/Cursor.antt =====
-- A cursor is read back as it was written.
use wikifame.Base.{
  ℕ, zero, suc, ◌+◌, ◌*◌, ◌/◌, ◌%◌, ◌<◌, ◌≡◌, refl, sym, ap, ◌∙◌, inl, inr, true, false, not, some,
  [], ◌∷◌, ◌++◌, cons≢nil, arith, ltb, ◌==◌, Bool-cases, any, All, Text, digits, decimal,
  All-decimal, partition-append,
}
use wikifame.Policy.{Unicode, is_digits, digits_from, int_of}
use wikifame.Replica.{LengthCursor, encode, cursor_of, read_cursor, decode}
use wikifame.Errors.{ok}

-- The table of characters knows the ten ASCII digits.
pub record KnowsDigits (u : Unicode) : Type 0 where
  pub counted : (d : ℕ) → d < 10 → u.is_digit (b'0' + d) ≡ true
  pub valued : (d : ℕ) → d < 10 → u.decimal (b'0' + d) ≡ some d

digits-cons : (f n c : ℕ) (out : Text) → (d : ℕ) × (s : Text) × (digits f n (c ∷ out) ≡ d ∷ s)
unfolding digits
digits-cons zero n c out = (c, out, refl)
digits-cons (suc f) n c out = elim (Bool-cases (ltb n 10)) [
  | inl t ↦ rw t (b'0' + n, c ∷ out, refl)
  | inr t ↦ rw t (digits-cons f (n / 10) (b'0' + n % 10) (c ∷ out))
]

pub decimal-cons : (n : ℕ) → (d : ℕ) × (s : Text) × (decimal n ≡ d ∷ s)
unfolding decimal digits
decimal-cons n = elim (Bool-cases (ltb n 10)) [
  | inl t ↦ rw t (b'0' + n, [], refl)
  | inr t ↦ rw t (digits-cons n (n / 10) (b'0' + n % 10) [])
]

module _ (u : Unicode) (knows : KnowsDigits u) where
  digits_from-digits :
      (f n : ℕ) (out : Text) → n < f → digits_from u 0 (digits f n out) ≡ digits_from u n out
  unfolding digits
  digits_from-digits zero n out h = absurd (omega (arith, h))
  digits_from-digits (suc f) n out h = elim (Bool-cases (ltb n 10)) [
    | inl t ↦
        rw (t, knows.valued n (ground (arith, t)))
          (ap (λ m. digits_from u m out) (let same : 0 * 10 + n ≡ n = omega arith in same))
    | inr t ↦
        let low : n % 10 < 10 = omega arith in
        let sum : n / 10 * 10 + n % 10 ≡ n = omega arith in
        let front : digits_from u (n / 10) ((b'0' + n % 10) ∷ out) ≡ digits_from u n out =
          rw (digits_from, knows.valued (n % 10) low) (ap (λ m. digits_from u m out) sum) in
        rw t (digits_from-digits f (n / 10) ((b'0' + n % 10) ∷ out) (ground arith) ∙ front)
  ]

  pub digits_from-decimal : (n : ℕ) → digits_from u 0 (decimal n) ≡ some n
  unfolding decimal
  digits_from-decimal n = digits_from-digits (suc n) n [] (omega arith)

  int_of-decimal : (n : ℕ) → int_of u (decimal n) ≡ some n
  unfolding int_of
  int_of-decimal n =
      let (d, s, e) = decimal-cons n in rw (e, int_of) (rw e at (digits_from-decimal n))

  all_digits :
      (s : Text) → All (λ c. u.is_digit c ≡ true) s → any (λ d. not (u.is_digit d)) s ≡ false
  unfolding any
  all_digits [] h = refl
  all_digits (c ∷ s) (h, hs) = rw h (all_digits s hs)

  pub is_digits-decimal : (n : ℕ) → is_digits u (decimal n) ≡ true
  unfolding is_digits
  is_digits-decimal n =
      let (d, s, e) = decimal-cons n in
      let all = all_digits (decimal n) (All-decimal (λ c. u.is_digit c ≡ true) knows.counted n) in
      rw (e, is_digits) (rw (rw e at all) refl)

  read_cursor-decimal :
      (n id : ℕ) → read_cursor u (decimal n) (decimal id) ≡ ok (some (cursor_of n id))
  read_cursor-decimal n id =
      rw (is_digits-decimal n, is_digits-decimal id, int_of-decimal n, int_of-decimal id) refl

  decode-joined :
      (before behind : Text)
      → (d : ℕ) × (s : Text) × (before ≡ d ∷ s)
      → All (λ d. (d == b':') ≡ false) before
      → decode u (some (before ++ b':' ∷ behind)) ≡ read_cursor u before behind
  unfolding decode
  decode-joined [] behind (d, s, e) h = absurd (cons≢nil (sym e))
  decode-joined (c ∷ before) behind begun h =
      rw (decode, partition-append b':' (c ∷ before) behind h) refl

  encode-joined :
      (cursor : LengthCursor)
      → encode cursor ≡ decimal cursor.length ++ b':' ∷ decimal cursor.page_id
  unfolding encode
  encode-joined cursor = refl

  -- `decode` reads back every cursor that `encode` has written, if the table of characters knows
  -- the ten ASCII digits.
  pub decode-encode : (cursor : LengthCursor) → decode u (some (encode cursor)) ≡ ok (some cursor)
  decode-encode cursor =
      ap (λ t. decode u (some t)) (encode-joined cursor)
      ∙ decode-joined (decimal cursor.length) (decimal cursor.page_id) (decimal-cons cursor.length)
          (All-decimal (λ c. (c == b':') ≡ false) (λ d low. ground arith) cursor.length)
      ∙ read_cursor-decimal cursor.length cursor.page_id
