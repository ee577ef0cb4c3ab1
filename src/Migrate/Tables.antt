-- ===== src/Migrate/Tables.antt =====
-- What copying and emptying tables leaves.
use mathlib.Core.List.{reverse, reverse-cons}
use wikifame.Base.{
  ℕ, ◌+◌, ◌≡◌, refl, sym, ◌∙◌, subst, ◌≢◌, ◌⊎◌, inl, inr, Bool, true, false, ◌&&◌, List, [], ◌∷◌,
  ◌++◌, cons≢nil, append-nil, append_assoc, arith, ◌==◌, Bool-cases, length, filter, All,
  length-append, Member, All-of_Member, Member-all, Distinct, All-map, Text, text_eq, text_eq_iff,
  text_eq_refl,
}
use wikifame.Migrate.{
  TableOutcome, is_complete_outcome, batch_rows, Tables, Engine, set_table, empty_tables,
  copy_batches, copy_table, copy_tables,
}
use wikifame.Batches.{batched, concat, batched_lem}
use wikifame.Errors.{ok, ◌>>>◌, ok-injective, >>>-eq-ok}
use wikifame.Policy.{whole}

set_table-other :
    {Row : Type 0} (name other : Text) (rows : List Row) (tables : Tables Row)
    → other ≢ name
    → set_table name rows tables other ≡ tables other
unfolding set_table
set_table-other name other rows tables differs = elim (Bool-cases (text_eq other name)) [
  | inl same ↦ absurd (differs ((text_eq_iff other name).0 same))
  | inr differ ↦ rw (set_table, differ) refl
]

Member-end :
    {A : Type 0} (a x : A) (xs : List A) → (Member a xs) ⊎ (a ≡ x) → Member a (xs ++ x ∷ [])
Member-end a x [] (inl m) = absurd m
Member-end a x [] (inr e) = inl e
Member-end a x (y ∷ ys) (inl (inl e)) = inl e
Member-end a x (y ∷ ys) (inl (inr m)) = inr (Member-end a x ys (inl m))
Member-end a x (y ∷ ys) (inr e) = inr (Member-end a x ys (inr e))

pub Member-reverse : {A : Type 0} (a : A) (xs : List A) → Member a xs → Member a (reverse xs)
Member-reverse a [] m = absurd m
Member-reverse a (x ∷ xs) (inl e) = rw (reverse-cons x xs) (Member-end a x (reverse xs) (inr e))
Member-reverse a (x ∷ xs) (inr m) =
    rw (reverse-cons x xs) (Member-end a x (reverse xs) (inl (Member-reverse a xs m)))

pub none-filter :
    {A : Type 0} (p : A → Bool) (xs : List A) → filter p xs ≡ [] → All (λ x. p x ≡ false) xs
unfolding filter
none-filter p [] e = tt
none-filter p (x ∷ xs) e = elim (Bool-cases (p x)) [
  | inl t ↦ absurd (cons≢nil (rw t at e))
  | inr f ↦ (f, none-filter p xs (rw f at e))
]

module _ {Row : Type 0} (engine : Engine Row) where
  -- What the loop of a table leaves: all batches behind the rows, counted, and no other change.
  abbrev Appended : Text → List (List Row) → ℕ → Tables Row → ℕ × Tables Row → Type 0
  Appended name batches copied target (n, target') =
      (n ≡ copied + length (concat batches))
      × (target' name ≡ target name ++ concat batches)
      × ((other : Text) → other ≢ name → target' other ≡ target other)

  copy_batches-Appended :
      (name : Text) (batches : List (List Row)) (copied : ℕ) (target : Tables Row)
      (r : ℕ × Tables Row)
      → copy_batches engine name batches copied target ≡ ok r
      → Appended name batches copied target r
  unfolding copy_batches set_table
  copy_batches-Appended name [] copied target (n, target') e =
      let same : (copied, target) ≡ (n, target') = ground arith in
      subst (Appended name [] copied target) same
        (omega arith, sym (append-nil (target name)), λ other differs. refl)
  copy_batches-Appended name (rows ∷ batches) copied target (n, target') e =
      elim (Bool-cases (engine.accepts name (target name) rows)) [
        | inl accepted ↦
            let (count, all, others) =
              copy_batches-Appended name batches (copied + length rows)
                (set_table name (target name ++ rows) target) (n, target') (rw accepted at e) in
            (
              omega (arith, length-append rows (concat batches), count),
              all
                  ∙ rw (set_table, text_eq_refl name)
                      (append_assoc (target name) rows (concat batches)),
              λ other differs. others other differs ∙ set_table-other name other _ target differs,
            )
        | inr refused ↦ absurd (ground (arith, rw refused at e))
      ]

  -- A table that was empty holds the rows of the source, and the counts say so.
  abbrev pub Copied : Tables Row → Text → Tables Row → TableOutcome × Tables Row → Type 0
  Copied source name target (outcome, target') =
      (is_complete_outcome outcome ≡ true)
      × (target' name ≡ source name)
      × ((other : Text) → other ≢ name → target' other ≡ target other)

  pub copy_table-Copied :
      (source : Tables Row) (name : Text) (target : Tables Row) (r : TableOutcome × Tables Row)
      → target name ≡ []
      → copy_table engine source name target ≡ ok r
      → Copied source name target r
  unfolding copy_table is_complete_outcome
  copy_table-Copied source name target r vacant e =
      let batches = batched batch_rows (source name) in
      let ((n, target'), c, e') =
        >>>-eq-ok (copy_batches engine name batches 0 target)
          (λ (copied, target'). ok (
            record {
              name = name;
              source_rows = length (source name);
              copied_rows = copied;
              target_rows = length (target' name);
            },
            target',
          ))
          e in
      let (count, all, others) = copy_batches-Appended name batches 0 target (n, target') c in
      let whole = (batched_lem batch_rows (source name) (omega arith)).0 in
      let here : target' name ≡ source name = rw (vacant, whole) at all in
      let size : n ≡ length (source name) = omega (arith, rw whole at count) in
      let counts : (length (source name) == n && n == length (target' name)) ≡ true =
        rw (size, here) (ground arith) in
      subst (Copied source name target) (ok-injective e') (counts, here, others)

  -- The tables that were empty hold the rows of the source, and the others what they held.
  abbrev pub CopiedAll :
      Tables Row → List Text → Tables Row → List TableOutcome × Tables Row → Type 0
  CopiedAll source names target (outcomes, target') =
      All (λ outcome. is_complete_outcome outcome ≡ true) outcomes
      × All (λ name. target' name ≡ source name) names
      × ((other : Text) → All (λ name. other ≢ name) names → target' other ≡ target other)

  pub copy_tables-CopiedAll :
      (source : Tables Row) (names : List Text) (target : Tables Row)
      (r : List TableOutcome × Tables Row)
      → Distinct (λ name. name) names
      → All (λ name. target name ≡ []) names
      → copy_tables engine source names target ≡ ok r
      → CopiedAll source names target r
  unfolding copy_tables
  copy_tables-CopiedAll source [] target r distinct vacant e =
      subst (CopiedAll source [] target) (ok-injective e) (tt, tt, λ other h. refl)
  copy_tables-CopiedAll source (name ∷ names) target r (apart, distinct) (vacant, rest) e =
      let ((outcome, target'), c, e') =
        >>>-eq-ok (copy_table engine source name target)
          (λ (outcome, target'). copy_tables engine source names target' >>> λ (outcomes, target'').
            ok (outcome ∷ outcomes, target''))
          e in
      let ((outcomes, target''), cs, e'') =
        >>>-eq-ok (copy_tables engine source names target')
          (λ (outcomes, target''). ok (outcome ∷ outcomes, target'')) e' in
      let (whole, same, others) =
        copy_table-Copied source name target (outcome, target') vacant c in
      let (wholes, sames, others') =
        copy_tables-CopiedAll source names target' (outcomes, target'') distinct
          (All-of_Member (λ n. target' n ≡ []) names
            (λ n m.
              others n (Member-all (λ y. y ≢ name) names m apart)
              ∙ Member-all (λ n. target n ≡ []) names m rest))
          cs in
      subst (CopiedAll source (name ∷ names) target) (ok-injective e'') (
        (whole, wholes),
        (
          others' name (All-map (λ y. y ≢ name) names (λ y differs same. differs (sym same)) apart)
              ∙ same,
          sames,
        ),
        λ other (differs, h). others' other h ∙ others other differs,
      )

  pub empty_tables-empty :
      (names : List Text) (target : Tables Row) (name : Text)
      → (Member name names) ⊎ (target name ≡ [])
      → empty_tables names target name ≡ []
  unfolding empty_tables set_table
  empty_tables-empty [] target name (inl m) = absurd m
  empty_tables-empty [] target name (inr e) = e
  empty_tables-empty (n ∷ names) target name (inl (inl same)) =
      empty_tables-empty names (set_table n [] target) name
        (inr (rw (same, set_table, text_eq_refl n) refl))
  empty_tables-empty (n ∷ names) target name (inl (inr m)) =
      empty_tables-empty names (set_table n [] target) name (inl m)
  empty_tables-empty (n ∷ names) target name (inr e) = elim (Bool-cases (text_eq name n)) [
    | inl same ↦
        empty_tables-empty names (set_table n [] target) name (inr (rw (set_table, same) refl))
    | inr differ ↦
        empty_tables-empty names (set_table n [] target) name (inr (rw (set_table, differ) e))
  ]
