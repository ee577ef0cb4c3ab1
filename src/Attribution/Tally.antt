-- ===== src/Attribution/Tally.antt =====
-- What the tallies count.
use wikifame.Base.{
  ℕ, ◌+◌, ◌≡◌, refl, ◌∙◌, inl, inr, none, some, List, [], ◌∷◌, arith, if◌then◌else◌, Option-cases,
  Counter, increment, count_of, total, total-increment, any, Bool, true, false, ◌&&◌, Bool-cases,
  count_of-increment, Text, text_eq, text_eq_iff,
}
use wikifame.Policy.{Unicode, is_countable_token}
use wikifame.Attribution.{Token, counted_editor, count_loop, count_tokens}

-- Whether a token has a text with a letter or digit, and an editor of which `p` holds.
abbrev pub is_counted : Unicode → (Text → Bool) → Token → Bool
is_counted u p token =
    elim token.str [ none ↦ false | some value ↦ any u.is_alnum value ]
    && elim token.editor [ none ↦ false | some editor ↦ p editor ]

-- How many of the tokens have a text with a letter or digit, and an editor of which `p` holds.
unfoldable pub tokens_of : Unicode → (Text → Bool) → List Token → ℕ
tokens_of u p [] = 0
tokens_of u p (token ∷ tokens) = (if is_counted u p token then 1 else 0) + tokens_of u p tokens

module _ (u : Unicode) where
  loop-total :
      (counts : Counter Text) (n : ℕ) (tokens : List Token)
      → total counts ≡ n
      → total (count_loop u (counts, n) tokens).0 ≡ (count_loop u (counts, n) tokens).1
  loop-total counts n [] h = h
  loop-total counts n (token ∷ tokens) h = elim (Option-cases (counted_editor u token)) [
    | inl skipped ↦ rw skipped (loop-total counts n tokens h)
    | inr (e, counted) ↦ rw counted (
        loop-total (increment text_eq e counts) (n + 1) tokens
          (omega (arith, total-increment text_eq text_eq_iff e counts)))
  ]

  counted_cases :
      (token : Token) (p : Text → Bool)
      → is_counted u p token
        ≡ elim (counted_editor u token) as (λ _. Bool) [ none ↦ false | some e ↦ p e ]
  unfolding counted_editor is_countable_token any
  counted_cases token p = elim (Option-cases token.str) [
    | inl n ↦ rw n refl
    | inr (value, s) ↦ elim (Option-cases token.editor) [
      | inl n ↦ rw (s, n) (ground arith)
      | inr (editor, e) ↦ elim (Bool-cases (any u.is_alnum value)) [
        | inl t ↦ rw (s, e, t) refl
        | inr f ↦ rw (s, e, f) refl
      ]
    ]
  ]

  loop-tokens_of :
      (editor : Text) (counts : Counter Text) (n : ℕ) (tokens : List Token)
      → (count_of text_eq editor (count_loop u (counts, n) tokens).0
          ≡ count_of text_eq editor counts + tokens_of u (λ e. text_eq e editor) tokens)
        × ((count_loop u (counts, n) tokens).1 ≡ n + tokens_of u (λ e. true) tokens)
  unfolding tokens_of
  loop-tokens_of editor counts n [] = (omega arith, omega arith)
  loop-tokens_of editor counts n (token ∷ tokens) = elim (Option-cases (counted_editor u token)) [
    | inl skipped ↦
        let own = rw skipped at (counted_cases token (λ e. text_eq e editor)) in
        let every = rw skipped at (counted_cases token (λ e. true)) in
        let (rest, size) = loop-tokens_of editor counts n tokens in
        rw (tokens_of, skipped, own, every) (omega (arith, rest), omega (arith, size))
    | inr (e, counted) ↦
        let own = rw counted at (counted_cases token (λ e. text_eq e editor)) in
        let every = rw counted at (counted_cases token (λ e. true)) in
        let (rest, size) = loop-tokens_of editor (increment text_eq e counts) (n + 1) tokens in
        rw (tokens_of, counted, own, every)
          (
            omega (arith, rest, count_of-increment text_eq text_eq_iff e editor counts),
            omega (arith, size),
          )
  ]

  -- The count of each editor is the number of tokens of that editor that have a text with a letter
  -- or a digit, the total is the number of all tokens that have an editor and such a text, and it
  -- is the sum of the counts.
  pub count_tokens-tokens_of :
      (tokens : List Token) (editor : Text)
      → (count_of text_eq editor (count_tokens u tokens).0
          ≡ tokens_of u (λ e. text_eq e editor) tokens)
        × ((count_tokens u tokens).1 ≡ tokens_of u (λ e. true) tokens)
        × (total (count_tokens u tokens).0 ≡ (count_tokens u tokens).1)
  unfolding count_tokens
  count_tokens-tokens_of tokens editor =
      let (own, every) = loop-tokens_of editor [] 0 tokens in
      (
        own ∙ unfold count_of in omega arith,
        every ∙ omega arith,
        loop-total [] 0 tokens (unfold total in refl),
      )
