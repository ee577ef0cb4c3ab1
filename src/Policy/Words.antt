-- ===== src/Policy/Words.antt =====
-- The searches that the patterns of policy.py make, under IGNORECASE.
use wikifame.Base.{
  ℕ, ◌+◌, ◌*◌, String, xor, Bool, true, false, not, ◌&&◌, ◌||◌, Option, none, some, List, [], ◌∷◌,
  map, leb, ◌==◌, if◌then◌else◌, length, take, any, Text, codes, text_eq,
}

-- The character tables behind `str.isalnum`, `str.isdigit`, `int` and `str.strip`.
pub record Unicode : Type 0 where
  pub is_alnum : ℕ → Bool
  pub is_digit : ℕ → Bool
  pub decimal : ℕ → Option ℕ
  pub is_space : ℕ → Bool

-- The character of a pattern that a character stands for when case is ignored. Only the letters
-- that the patterns contain matter, so other scripts stay as they are.
unfoldable pub fold : ℕ → ℕ
fold c =
    if leb b'A' c && leb c b'Z'
    then c + 32
    else if leb 0xC0 c && leb c 0xDE && not (c == 0xD7)
    then c + 32
    else if leb 0x410 c && leb c 0x42F
    then c + 32
    else if c == 0x130 || c == 0x131
    then b'i'
    else if c == 0x17F
    then b's'
    else if c == 0x212A
    then b'k'
    else if c == 0x1C80
    then 0x432
    else if c == 0x1C81
    then 0x434
    else if c == 0x1C82
    then 0x43E
    else if c == 0x1C83
    then 0x441
    else if c == 0x1C84 || c == 0x1C85
    then 0x442
    else if c == 0x1C86
    then 0x44A
    else c

-- What follows a literal that a text begins with.
unfoldable pub rest_after : Text → Text → Option Text
unfolding fold
rest_after [] s = some s
rest_after (p ∷ ps) [] = none
rest_after (p ∷ ps) (c ∷ s) = let rest = rest_after ps s in if fold c == p then rest else none

-- One alternative of a pattern: a literal in lower case, with `\b` at either end or not.
pub record Wording : Type 0 where
  pub opens : Bool
  pub literal : Text
  pub closes : Bool

abbrev pub anywhere : String → Wording
anywhere s = record { opens = false; literal = codes s; closes = false }

-- `\bword`
abbrev pub at_start : String → Wording
at_start s = record { opens = true; literal = codes s; closes = false }

-- `\bword\b`
abbrev pub whole : String → Wording
whole s = record { opens = true; literal = codes s; closes = true }

abbrev pub head : Text → Option ℕ
head [] = none
head (c ∷ s) = some c

abbrev pub get_last : Option ℕ → Text → Option ℕ
get_last before [] = before
get_last before (c ∷ s) = get_last (some c) s

module _ (u : Unicode) where
  -- `\w`
  unfoldable pub is_word : ℕ → Bool
  is_word c = u.is_alnum c || c == b'_'

  abbrev pub word_at : Option ℕ → Bool
  word_at none = false
  word_at (some c) = is_word c

  -- `\b` between two characters, either of which may be an end of the text.
  unfoldable pub is_boundary : Option ℕ → Option ℕ → Bool
  unfolding is_word
  is_boundary before after = xor (word_at before) (word_at after)

  unfoldable pub matches_at : Wording → Option ℕ → Text → Bool
  unfolding rest_after is_boundary
  matches_at w before s = elim (rest_after w.literal s) [
    | none ↦ false
    | some rest ↦
        (not w.opens || is_boundary before (head s))
        && (not w.closes || is_boundary (get_last before (take (length w.literal) s)) (head rest))
  ]

  -- `PATTERN.search(text) is not None`, going on behind the character `before`.
  unfoldable pub search_from : List Wording → Option ℕ → Text → Bool
  unfolding any matches_at
  search_from words before [] = false
  search_from words before (c ∷ s) =
      any (λ w. matches_at w before (c ∷ s)) words || search_from words (some c) s

  unfoldable pub search : List Wording → Text → Bool
  unfolding search_from
  search words text = search_from words none text

  unfoldable pub is_digits : Text → Bool
  unfolding any
  is_digits [] = false
  is_digits (c ∷ s) = not (any (λ d. not (u.is_digit d)) (c ∷ s))

  abbrev pub digits_from : ℕ → Text → Option ℕ
  digits_from n [] = some n
  digits_from n (c ∷ s) = elim (u.decimal c) [ none ↦ none | some d ↦ digits_from (n * 10 + d) s ]

  -- `int(text)` of digits; `none` is a ValueError.
  unfoldable pub int_of : Text → Option ℕ
  int_of [] = none
  int_of (c ∷ s) = digits_from 0 (c ∷ s)

unfoldable pub starts_with : Text → Text → Bool
starts_with [] s = true
starts_with (p ∷ ps) [] = false
starts_with (p ∷ ps) (c ∷ s) = c == p && starts_with ps s

-- `re.search(literal + "$", text, IGNORECASE)` without the line feed that `$` allows.
unfoldable pub ends_with_ignore_case : Text → Text → Bool
unfolding rest_after
ends_with_ignore_case literal [] = text_eq literal []
ends_with_ignore_case literal (c ∷ s) =
    elim (rest_after literal (c ∷ s)) [ some [] ↦ true | _ ↦ false ]
    || ends_with_ignore_case literal s

abbrev pub ascii_lower : ℕ → ℕ
ascii_lower d = if leb b'A' d && leb d b'Z' then d + 32 else d

-- `literal in text.lower()`, for a literal of ASCII letters.
unfoldable pub contains_ignore_case : Text → Text → Bool
unfolding starts_with
contains_ignore_case literal [] = starts_with literal []
contains_ignore_case literal (c ∷ s) =
    starts_with literal (map ascii_lower (c ∷ s)) || contains_ignore_case literal s
