-- ===== src/Texts.antt =====
-- The methods of Python's `str` and the regular expressions that several parts call.
use wikifame.Base.{
  ℕ, zero, suc, ◌+◌, ◌*◌, ◌≡◌, refl, Bool, true, false, ◌&&◌, ◌||◌, Option, none, some, List, [],
  ◌∷◌, ◌++◌, map, leb, ◌==◌, if◌then◌else◌, Text, codes, decimal,
}
use mathlib.Core.List.{reverse}
use mathlib.Core.Option
use wikifame.Base.Int.{ℤ, pos, negsuc}
use wikifame.Policy.{Unicode, starts_with}

-- `s.split(",")`
unfoldable pub split_commas : Text → List Text
split_commas [] = [] ∷ []
split_commas (c ∷ s) = elim (split_commas s) [
  | [] ↦ (c ∷ []) ∷ []
  | part ∷ parts ↦ if c == b',' then [] ∷ part ∷ parts else (c ∷ part) ∷ parts
]

-- `s.lstrip()`, and what `\s*` leaves.
unfoldable pub drop_space : Unicode → Text → Text
drop_space u [] = []
drop_space u (c ∷ s) = let rest = drop_space u s in if u.is_space c then rest else c ∷ s

unfoldable pub strip : Unicode → Text → Text
unfolding drop_space
strip u s = reverse (drop_space u (reverse (drop_space u s)))

-- `s.lstrip(c)`, for one character.
unfoldable pub drop_char : ℕ → Text → Text
drop_char c [] = []
drop_char c (d ∷ s) = let rest = drop_char c s in if d == c then rest else d ∷ s

-- `s.replace(c, d)`, for single characters.
unfoldable pub replace_char : ℕ → ℕ → Text → Text
replace_char c d s = map (λ e. if e == c then d else e) s

-- The characters at which `splitlines` ends a line: `\n`, `\v`, `\f`, `\r`, the separators of ASCII
-- but the last, `\x85` and the two of Unicode.
unfoldable pub is_line_break : ℕ → Bool
is_line_break c =
    leb 10 c && leb c 13 || leb 28 c && leb c 30 || c == 0x85 || c == 0x2028 || c == 0x2029

-- The lines of `s` behind the characters `line`, last one first, of a line that has begun. A `\n`
-- after a `\r` ends no further line.
unfoldable pub lines_from : Bool → Text → Text → List Text
unfolding is_line_break
lines_from after_return [] [] = []
lines_from after_return (c ∷ line) [] = reverse (c ∷ line) ∷ []
lines_from after_return line (c ∷ s) = elim (after_return && c == 10) [
  | true ↦ lines_from false [] s
  | false ↦ elim (is_line_break c) [
    | true ↦ reverse line ∷ lines_from (c == 13) [] s
    | false ↦ lines_from false (c ∷ line) s
  ]
]

unfoldable pub split_lines : Text → List Text
unfolding lines_from
split_lines s = lines_from false [] s

-- `s.find(t)`
unfoldable pub index_of : Text → Text → Option ℕ
unfolding starts_with
index_of t [] = if starts_with t [] then some 0 else none
index_of t (c ∷ s) = elim (starts_with t (c ∷ s)) [
  | true ↦ some 0
  | false ↦ elim (index_of t s) [ none ↦ none | some n ↦ some (suc n) ]
]

-- The parts behind the first one, each behind a separator.
abbrev pub join_behind : Text → List Text → Text
join_behind separator [] = []
join_behind separator (s ∷ rest) = separator ++ s ++ join_behind separator rest

-- `separator.join(parts)`
unfoldable pub join : Text → List Text → Text
join separator [] = []
join separator (s ∷ rest) = s ++ join_behind separator rest

-- `str(n)` of an integer.
abbrev pub int_text : ℤ → Text
int_text (pos n) = decimal n
int_text (negsuc n) = b'-' ∷ decimal (n + 1)

-- The digits behind those that make up `n`. One underscore may stand between two digits.
unfoldable pub int_digits : Unicode → Bool → ℕ → Text → Option ℕ
int_digits u after_digit n [] = if after_digit then some n else none
int_digits u after_digit n (c ∷ s) = elim (u.decimal c) [
  | some d ↦ int_digits u true (n * 10 + d) s
  | none ↦ elim (c == b'_' && after_digit) [ true ↦ int_digits u false n s | false ↦ none ]
]

abbrev pub negate : ℕ → ℤ
negate zero = pos 0
negate (suc n) = negsuc n

-- `int(s)`, or none for a `ValueError`.
unfoldable pub read_int : Unicode → Text → Option ℤ
unfolding int_digits strip
read_int u s = elim (strip u s) [
  | [] ↦ none
  | c ∷ rest ↦
      if c == b'-'
      then Option.map negate (int_digits u false 0 rest)
      else if c == b'+'
      then Option.map pos (int_digits u false 0 rest)
      else Option.map pos (int_digits u false 0 (c ∷ rest))
]

lines_example : split_lines (codes "a\r\nb\n\nc") ≡ codes "a" ∷ codes "b" ∷ [] ∷ codes "c" ∷ []
unfolding split_lines
lines_example = refl
