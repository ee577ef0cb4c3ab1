-- ===== src/Migrate.antt =====
-- src/wikipeople/migrate.py: the copy of every table of one database into another.
pub mod Tables
pub mod Copies
pub mod Returns
use mathlib.Core.List.{reverse}
use wikifame.Base.{
  ℕ, ◌+◌, Bool, not, ◌&&◌, Option, some, List, [], ◌∷◌, ◌++◌, map, ltb, ◌==◌, if◌then◌else◌, length,
  filter, Text, codes, text_eq,
}
use wikifame.Errors.{Failure, unexpected, Result, ok, err, ◌>>>◌}
use wikifame.Batches.{batched}
use wikifame.Texts.{join}

pub record TableOutcome : Type 0 where
  pub name : Text
  pub source_rows : ℕ
  pub copied_rows : ℕ
  pub target_rows : ℕ

-- `TableOutcome.complete`
unfoldable pub is_complete_outcome : TableOutcome → Bool
is_complete_outcome outcome =
    outcome.source_rows == outcome.copied_rows && outcome.copied_rows == outcome.target_rows

abbrev pub batch_rows : ℕ
batch_rows = 500

-- A database, as the rows of its tables.
abbrev pub Tables : Type 0 → Type 0
Tables Row = Text → List Row

-- `INSERT` of a batch into a table that has rows already: whether the engine accepts it. The tables
-- that `models.py` declares come in the order of `sorted_tables`.
pub record Engine (Row : Type 0) : Type 0 where
  pub accepts : Text → List Row → List Row → Bool
  pub sorted_tables : List Text

unfoldable pub set_table : {Row : Type 0} → Text → List Row → Tables Row → Tables Row
set_table name rows tables other = if text_eq other name then rows else tables other

-- The refusal of a target with rows.
abbrev pub refusal : List Text → Failure
refusal names = unexpected (
    codes "target is not empty: "
    ++ join (codes ", ") names
    ++ codes " -- pass --force-empty to replace its contents")

-- `delete(table)`, for each.
unfoldable pub empty_tables : {Row : Type 0} → List Text → Tables Row → Tables Row
unfolding set_table
empty_tables [] target = target
empty_tables (name ∷ names) target = empty_tables names (set_table name [] target)

module _ {Row : Type 0} (engine : Engine Row) where
  -- The loop of `copy_table`, which counts what it has inserted.
  unfoldable pub copy_batches : Text → List (List Row) → ℕ → Tables Row → Result (ℕ × Tables Row)
  unfolding set_table
  copy_batches name [] copied target = ok (copied, target)
  copy_batches name (rows ∷ batches) copied target =
      if engine.accepts name (target name) rows
      then copy_batches name batches (copied + length rows)
          (set_table name (target name ++ rows) target)
      else err (unexpected (codes "IntegrityError"))

  unfoldable pub copy_table : Tables Row → Text → Tables Row → Result (TableOutcome × Tables Row)
  unfolding copy_batches batched
  copy_table source name target =
      copy_batches name (batched batch_rows (source name)) 0 target >>> λ (copied, target'). ok (
        record {
          name = name;
          source_rows = length (source name);
          copied_rows = copied;
          target_rows = length (target' name);
        },
        target',
      )

  unfoldable pub copy_tables :
      Tables Row → List Text → Tables Row → Result (List TableOutcome × Tables Row)
  unfolding copy_table
  copy_tables source [] target = ok ([], target)
  copy_tables source (name ∷ names) target = copy_table source name target >>> λ (outcome, target').
      copy_tables source names target' >>> λ (outcomes, target''). ok (outcome ∷ outcomes, target'')

  unfoldable pub occupied_tables : Tables Row → List Text
  unfolding filter
  occupied_tables target = filter (λ name. ltb 0 (length (target name))) engine.sorted_tables

  -- The `with`: the transaction on the target is rolled back when the body raises.
  abbrev pub committed :
      Tables Row → Result (List TableOutcome × Tables Row) → Result (List TableOutcome) × Tables Row
  committed target (ok (outcomes, target')) = (ok outcomes, target')
  committed target (err e) = (err e, target)

  unfoldable pub migrate : Tables Row → Tables Row → Bool → Result (List TableOutcome) × Tables Row
  unfolding occupied_tables empty_tables copy_tables join
  migrate source target force_empty = elim (occupied_tables target) [
    | [] ↦ committed target (copy_tables source engine.sorted_tables target)
    | name ∷ names ↦
        if not force_empty
        then (err (refusal (name ∷ names)), target)
        else committed target (
            copy_tables source engine.sorted_tables
              (empty_tables (reverse engine.sorted_tables) target))
  ]

  -- What `main` says of the outcomes: the number of rows, or the tables whose counts differ.
  unfoldable pub summary : List TableOutcome → Result ℕ
  unfolding filter is_complete_outcome join
  summary outcomes = elim (filter (λ outcome. not (is_complete_outcome outcome)) outcomes) [
    | [] ↦ ok (copied_total outcomes)
    | o ∷ os ↦ err (
        unexpected (
          codes "counts do not match for: "
          ++ join (codes ", ") (map (λ (outcome : TableOutcome). outcome.name) (o ∷ os))))
  ]
    where
      copied_total : List TableOutcome → ℕ
      copied_total [] = 0
      copied_total (outcome ∷ rest) = outcome.copied_rows + copied_total rest

  -- `main`, with the two addresses as the databases that they name.
  unfoldable pub run :
      Option (Tables Row) → Option (Tables Row) → Bool → Result ℕ × Option (Tables Row)
  unfolding migrate summary
  run (some source) (some target) force_empty =
      let (r, target') = migrate source target force_empty in (r >>> summary, some target')
  run source target force_empty =
      (err (unexpected (codes "set both MIGRATE_SOURCE_URL and MIGRATE_TARGET_URL")), target)
