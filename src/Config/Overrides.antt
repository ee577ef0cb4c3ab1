-- ===== src/Config/Overrides.antt =====
-- The overrides of wikis are read back as they are written.
use wikifame.Base.{
  ℕ, suc, ◌+◌, ◌*◌, ◌<◌, ◌≡◌, refl, ap, ◌∙◌, subst, inl, inr, true, false, some, List, [], ◌∷◌,
  ◌++◌, map, append-nil, arith, ◌==◌, Bool-cases, is_some, All, All-append, Text, codes, decimal,
  All-decimal, partition-append,
}
use mathlib.Core.Option
use mathlib.Core.List.{reverse, reverse-cons, reverse-reverse}
use wikifame.Base.Int.{ℤ, pos, negsuc}
use wikifame.Config.Environment.{
  given, strip_items, csv, int_setting, override_of, overrides_of, int_by_wiki,
}
use wikifame.Texts.{
  split_commas, drop_space, strip, drop_char, join, int_text, int_digits, negate, read_int,
}
use wikifame.Policy.{Unicode, is_digits, digits_from}
use wikifame.Replica.Cursor.{KnowsDigits, decimal-cons, digits_from-decimal, is_digits-decimal}
use wikifame.Errors.{ok}

-- The table of characters knows the ten ASCII digits, and that neither these nor the two signs of
-- an override are space.
pub record KnowsSigns (u : Unicode) : Type 0 where
  pub digits_known : KnowsDigits u
  pub digit_solid : (d : ℕ) → d < 10 → u.is_space (b'0' + d) ≡ false
  pub minus_solid : u.is_space b'-' ≡ false
  pub colon_solid : u.is_space b':' ≡ false

-- `"frwiki:2592000"`
abbrev pub override_text : Text × ℤ → Text
override_text (wiki, n) = wiki ++ b':' ∷ int_text n

split_commas-cons :
    (s : Text) → (part : Text) × (parts : List Text) × (split_commas s ≡ part ∷ parts)
unfolding split_commas
split_commas-cons [] = ([], [], refl)
split_commas-cons (c ∷ s) =
    let (part, parts, e) = split_commas-cons s in
    elim (Bool-cases (c == b',')) [
      | inl comma ↦ ([], part ∷ parts, rw (split_commas, e, comma) refl)
      | inr other ↦ (c ∷ part, parts, rw (split_commas, e, other) refl)
    ]

abbrev HasNoComma : Text → Type 0
HasNoComma s = All (λ c. (c == b',') ≡ false) s

split_commas-one : (s : Text) → HasNoComma s → split_commas s ≡ s ∷ []
unfolding split_commas
split_commas-one [] h = refl
split_commas-one (c ∷ s) (h, hs) = rw (split_commas, split_commas-one s hs, h) refl

split_commas-append :
    (s t : Text) → HasNoComma s → split_commas (s ++ b',' ∷ t) ≡ s ∷ split_commas t
unfolding split_commas
split_commas-append [] t h = let (part, parts, e) = split_commas-cons t in rw (split_commas, e) refl
split_commas-append (c ∷ s) t (h, hs) = rw (split_commas, split_commas-append s t hs, h) refl

split_commas-join :
    (s : Text) (rest : List Text)
    → All HasNoComma (s ∷ rest)
    → split_commas (join (codes ",") (s ∷ rest)) ≡ s ∷ rest
unfolding join
split_commas-join s [] (h, hs) = rw (append-nil s) (split_commas-one s h)
split_commas-join s (t ∷ rest) (h, hs) =
    split_commas-append s (join (codes ",") (t ∷ rest)) h
    ∙ ap (λ ts. s ∷ ts) (split_commas-join t rest hs)

module _ (u : Unicode) where
  abbrev IsSolid : Text → Type 0
  IsSolid s = All (λ c. u.is_space c ≡ false) s

  drop_space-solid : (s : Text) → IsSolid s → drop_space u s ≡ s
  unfolding drop_space
  drop_space-solid [] h = refl
  drop_space-solid (c ∷ s) (h, hs) = rw (drop_space, h) refl

  reverse-IsSolid : (s : Text) → IsSolid s → IsSolid (reverse s)
  reverse-IsSolid [] h = tt
  reverse-IsSolid (c ∷ s) (h, hs) =
      rw (reverse-cons c s)
        (All-append (λ c. u.is_space c ≡ false) (reverse s) (c ∷ []) (reverse-IsSolid s hs) (h, tt))

  strip-solid : (s : Text) → IsSolid s → strip u s ≡ s
  unfolding strip
  strip-solid s h =
      rw (strip, drop_space-solid s h, drop_space-solid (reverse s) (reverse-IsSolid s h))
        (reverse-reverse s)

  -- A text with a character and no space.
  abbrev IsItem : Text → Type 0
  IsItem s = IsSolid s × ((c : ℕ) × (t : Text) × (s ≡ c ∷ t))

  strip_items-solid : (items : List Text) → All IsItem items → strip_items u items ≡ items
  unfolding strip_items given
  strip_items-solid [] h = refl
  strip_items-solid (s ∷ items) ((solid, (c, t, e)), hs) =
      rw (strip_items, strip-solid s solid, strip_items-solid items hs, e) refl

module _ (u : Unicode) (knows : KnowsSigns u) where
  int_digits-digits_from :
      (s : Text) (n : ℕ)
      → All (λ c. (d : ℕ) × (u.decimal c ≡ some d)) s
      → int_digits u true n s ≡ digits_from u n s
  unfolding int_digits
  int_digits-digits_from [] n h = refl
  int_digits-digits_from (c ∷ s) n ((d, e), hs) =
      rw (int_digits, digits_from, e) (int_digits-digits_from s (n * 10 + d) hs)

  int_digits-decimal : (n : ℕ) → int_digits u false 0 (decimal n) ≡ some n
  unfolding int_digits
  int_digits-decimal n =
      let (c, s, begun) = decimal-cons n in
      let valued =
        All-decimal (λ c. (d : ℕ) × (u.decimal c ≡ some d))
          (λ d low. (d, knows.digits_known.valued d low)) n in
      let ((d, e), hs) = subst (All (λ c. (d : ℕ) × (u.decimal c ≡ some d))) begun valued in
      let read : digits_from u (0 * 10 + d) s ≡ some n =
        rw (begun, digits_from, e) at (digits_from-decimal u knows.digits_known n) in
      rw (begun, int_digits, e, int_digits-digits_from s (0 * 10 + d) hs) read

  int_text-IsSolid : (n : ℤ) → IsSolid u (int_text n)
  int_text-IsSolid (pos n) = All-decimal (λ c. u.is_space c ≡ false) knows.digit_solid n
  int_text-IsSolid (negsuc n) =
      (knows.minus_solid, All-decimal (λ c. u.is_space c ≡ false) knows.digit_solid (n + 1))

  -- A number is written with digits behind at most one minus sign.
  is_digits-int_text : (n : ℤ) → is_digits u (drop_char b'-' (int_text n)) ≡ true
  unfolding drop_char
  is_digits-int_text (pos n) =
      let (c, s, begun) = decimal-cons n in
      let (first, rest) =
        subst (All (λ c. (c == b'-') ≡ false)) begun
          (All-decimal (λ c. (c == b'-') ≡ false) (λ d low. ground arith) n) in
      rw (begun, drop_char, first) (rw begun at (is_digits-decimal u knows.digits_known n))
  is_digits-int_text (negsuc n) =
      let (c, s, begun) = decimal-cons (n + 1) in
      let (first, rest) =
        subst (All (λ c. (c == b'-') ≡ false)) begun
          (All-decimal (λ c. (c == b'-') ≡ false) (λ d low. ground arith) (n + 1)) in
      rw (begun, drop_char, first) (rw begun at (is_digits-decimal u knows.digits_known (n + 1)))

  read_int-int_text : (n : ℤ) → read_int u (int_text n) ≡ some n
  unfolding read_int
  read_int-int_text (pos n) =
      let (c, s, begun) = decimal-cons n in
      let (minus, rest) =
        subst (All (λ c. (c == b'-') ≡ false)) begun
          (All-decimal (λ c. (c == b'-') ≡ false) (λ d low. ground arith) n) in
      let (plus, rest') =
        subst (All (λ c. (c == b'+') ≡ false)) begun
          (All-decimal (λ c. (c == b'+') ≡ false) (λ d low. ground arith) n) in
      rw (read_int, strip-solid u (decimal n) (int_text-IsSolid (pos n)), begun, minus, plus)
        (ap (Option.map pos) (rw begun at (int_digits-decimal n)))
  read_int-int_text (negsuc n) =
      let next : n + 1 ≡ suc n = omega arith in
      rw
        (
          read_int,
          strip-solid u (int_text (negsuc n)) (int_text-IsSolid (negsuc n)),
          int_digits-decimal (n + 1),
        )
        (ap (λ m. some (negate m)) next)

  -- The name of a wiki: some characters, none of them space, a comma or a colon.
  abbrev pub IsName : Text → Type 0
  IsName wiki = IsItem u wiki × HasNoComma wiki × All (λ c. (c == b':') ≡ false) wiki

  override_of-override_text :
      (wiki : Text) (n : ℤ)
      → IsName wiki
      → override_of u (override_text (wiki, n)) ≡ ok (some (wiki, n))
  unfolding override_of given int_setting
  override_of-override_text wiki n ((solid, (c, t, e)), no_comma, no_colon) =
      let named : is_some (given (some wiki)) ≡ true = rw (e, given) refl in
      rw
        (
          override_of,
          partition-append b':' wiki (int_text n) no_colon,
          strip-solid u wiki solid,
          strip-solid u (int_text n) (int_text-IsSolid n),
          named,
          is_digits-int_text n,
          strip-solid u (int_text n) (int_text-IsSolid n),
          int_setting,
          read_int-int_text n,
          strip-solid u wiki solid,
        )
        refl

  abbrev pub AreNames : List (Text × ℤ) → Type 0
  AreNames overrides = All (λ o. IsName o.0) overrides

  overrides_of-map :
      (overrides : List (Text × ℤ))
      → AreNames overrides
      → overrides_of u (map override_text overrides) ≡ ok overrides
  unfolding overrides_of
  overrides_of-map [] h = refl
  overrides_of-map ((wiki, n) ∷ overrides) (h, hs) =
      rw (overrides_of, override_of-override_text wiki n h, overrides_of-map overrides hs) refl

  int_text-HasNoComma : (n : ℤ) → HasNoComma (int_text n)
  int_text-HasNoComma (pos n) = All-decimal (λ c. (c == b',') ≡ false) (λ d low. ground arith) n
  int_text-HasNoComma (negsuc n) =
      (refl, All-decimal (λ c. (c == b',') ≡ false) (λ d low. ground arith) (n + 1))

  texts-HaveNoComma :
      (overrides : List (Text × ℤ))
      → AreNames overrides
      → All HasNoComma (map override_text overrides)
  texts-HaveNoComma [] h = tt
  texts-HaveNoComma ((wiki, n) ∷ overrides) ((item, no_comma, no_colon), hs) = (
    All-append (λ c. (c == b',') ≡ false) wiki (b':' ∷ int_text n) no_comma
        (refl, int_text-HasNoComma n),
    texts-HaveNoComma overrides hs,
  )

  texts-AreItems :
      (overrides : List (Text × ℤ))
      → AreNames overrides
      → All (IsItem u) (map override_text overrides)
  texts-AreItems [] h = tt
  texts-AreItems ((wiki, n) ∷ overrides) (((solid, (c, t, e)), no_comma, no_colon), hs) = (
    (
      All-append (λ d. u.is_space d ≡ false) wiki (b':' ∷ int_text n) solid
          (knows.colon_solid, int_text-IsSolid n),
      (c, t ++ b':' ∷ int_text n, rw e refl),
    ),
    texts-AreItems overrides hs,
  )

  -- If the table of characters knows the digits and that the signs are no space, and each wiki is
  -- named by characters of which none is space, a comma or a colon, then `_int_by_wiki` reads back
  -- the overrides that are written as `wiki:seconds` between commas.
  pub int_by_wiki-override_text :
      (overrides : List (Text × ℤ))
      → AreNames overrides
      → int_by_wiki u (join (codes ",") (map override_text overrides)) ≡ ok overrides
  unfolding int_by_wiki csv split_commas strip_items strip drop_space overrides_of given join
  int_by_wiki-override_text [] h = refl
  int_by_wiki-override_text (o ∷ overrides) h =
      rw
        (
          int_by_wiki,
          csv,
          split_commas-join (override_text o) (map override_text overrides)
              (texts-HaveNoComma (o ∷ overrides) h),
          strip_items-solid u (map override_text (o ∷ overrides))
              (texts-AreItems (o ∷ overrides) h),
        )
        (overrides_of-map (o ∷ overrides) h)
