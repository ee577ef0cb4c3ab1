-- ===== src/Migrate/Copies.antt =====
-- That a migration copies every table, or changes nothing.
use mathlib.Core.List.{reverse}
use wikifame.Base.{
  ◌≡◌, refl, subst, inl, inr, Bool, true, false, not, List, [], ◌∷◌, arith, ltb, if◌then◌else◌,
  Bool-cases, length, All, All-of_Member, Distinct, All-map, Text,
}
use wikifame.Migrate.{
  TableOutcome, is_complete_outcome, Tables, Engine, refusal, empty_tables, copy_tables,
  occupied_tables, committed, migrate,
}
use wikifame.Errors.{Failure, Result, ok, err, ok-injective}
use wikifame.Migrate.Tables.{Member-reverse, none-filter, copy_tables-CopiedAll, empty_tables-empty}

module _ {Row : Type 0} (engine : Engine Row) where
  -- What a migration leaves: the rows of the source, or the target as it was.
  abbrev Settled : Tables Row → Tables Row → Result (List TableOutcome) × Tables Row → Type 0
  Settled source target (r, target') =
      ((outcomes : List TableOutcome)
        → r ≡ ok outcomes
        → All (λ outcome. is_complete_outcome outcome ≡ true) outcomes
          × All (λ name. target' name ≡ source name) engine.sorted_tables)
      × ((e : Failure) → r ≡ err e → target' ≡ target)

  committed-Settled :
      (source target start : Tables Row) (r : Result (List TableOutcome × Tables Row))
      → Distinct (λ name. name) engine.sorted_tables
      → All (λ name. start name ≡ []) engine.sorted_tables
      → copy_tables engine source engine.sorted_tables start ≡ r
      → Settled source target (committed engine target r)
  committed-Settled source target start (ok (outcomes, target')) distinct vacant e =
      let (wholes, sames, others) =
        copy_tables-CopiedAll engine source engine.sorted_tables start (outcomes, target') distinct
          vacant e in
      (
        λ outcomes' same. (
          subst (λ os. All (λ outcome. is_complete_outcome outcome ≡ true) os) (ok-injective same)
              wholes,
          sames,
        ),
        λ x raised. cc,
      )
  committed-Settled source target start (err x) distinct vacant e =
      (λ outcomes same. cc, λ y raised. refl)

  no_rows : (rows : List Row) → ltb 0 (length rows) ≡ false → rows ≡ []
  no_rows [] e = refl
  no_rows (row ∷ rows) e = absurd (ground arith)

  pub occupied-none :
      (target : Tables Row)
      → occupied_tables engine target ≡ []
      → All (λ name. target name ≡ []) engine.sorted_tables
  unfolding occupied_tables
  occupied-none target e =
      All-map (λ name. ltb 0 (length (target name)) ≡ false) engine.sorted_tables
        (λ name none_there. no_rows (target name) none_there)
        (none-filter (λ name. ltb 0 (length (target name))) engine.sorted_tables e)

  pub emptied :
      (target : Tables Row)
      → All
          (λ name. empty_tables (reverse engine.sorted_tables) target name ≡ [])
          engine.sorted_tables
  emptied target = All-of_Member _ engine.sorted_tables (λ name m.
      empty_tables-empty engine (reverse engine.sorted_tables) target name
        (inl (Member-reverse name engine.sorted_tables m)))

  -- If no two tables share a name and a migration returns, every table of the target holds the rows
  -- of the source in their order, whatever it held before, and no outcome is a mismatch; if the
  -- migration raises, the target is what it was.
  pub migrate-copies :
      (source target : Tables Row) (force_empty : Bool)
      → Distinct (λ name. name) engine.sorted_tables
      → let (r, target') = migrate engine source target force_empty in
        ((outcomes : List TableOutcome)
          → r ≡ ok outcomes
          → All (λ outcome. is_complete_outcome outcome ≡ true) outcomes
            × All (λ name. target' name ≡ source name) engine.sorted_tables)
        × ((e : Failure) → r ≡ err e → target' ≡ target)
  unfolding migrate
  migrate-copies source target force_empty distinct = go (occupied_tables engine target) refl
    where
      cleared : Tables Row
      cleared = empty_tables (reverse engine.sorted_tables) target

      go :
          (o : List Text)
          → occupied_tables engine target ≡ o
          → Settled source target (elim o [
            | [] ↦ committed engine target (copy_tables engine source engine.sorted_tables target)
            | name ∷ others ↦
                if not force_empty
                then (err (refusal (name ∷ others)), target)
                else committed engine target
                    (copy_tables engine source engine.sorted_tables cleared)
          ])
      go [] e =
          committed-Settled source target target
            (copy_tables engine source engine.sorted_tables target) distinct
            (occupied-none target e) refl
      go (name ∷ others) e = elim (Bool-cases (not force_empty)) [
        | inl refused ↦ rw refused (λ outcomes same. cc, λ x raised. refl)
        | inr forced ↦ rw forced (
            committed-Settled source target cleared
              (copy_tables engine source engine.sorted_tables cleared) distinct (emptied target)
              refl)
      ]
