-- ===== src/Repository/Results/Valid.antt =====
-- The well-formedness of `attribution_results`, and what `save_result` stores.
use mathlib.Core.Option
use wikifame.Base.{
  ℕ, ◌<◌, ◌≡◌, refl, sym, ap, ◌∙◌, ◌≢◌, inl, inr, false, none, some, List, arith, ◌==◌,
  if◌then◌else◌, ==_iff, Option-cases, find?, All, find?-update_rows, find?-update_off,
  find?-Member, Distinct-unique, Distinct, All-update_where, All-map, find?-holds, find?-none,
  Distinct-update_rows, Distinct-update_where,
}
use wikifame.Models.{
  RevisionKey, revision_eq, revision_eq_iff, revision_eq_refl, AttributionResult, Database,
}
use wikifame.Repository.Results.{
  at_key, get_result, ResultValues, row_of, insert_result, overwrite_result, save_result,
}

pub record IsResults (bound : ℕ) (rows : List AttributionResult) : Type 0 where
  pub known : All (λ (r : AttributionResult). r.id < bound) rows
  pub ids : Distinct (λ (r : AttributionResult). r.id) rows
  pub keys : Distinct (λ (r : AttributionResult). r.key) rows

abbrev pub IsResultsValid : Database → Type 0
IsResultsValid db = IsResults db.next_result_id db.attribution_results

-- In an overwritten row the key is the one that was looked up, so it stays the same.
get_result-key :
    (db : Database) (key : RevisionKey) {row : AttributionResult}
    → get_result db key ≡ some row
    → row.key ≡ key
unfolding get_result
get_result-key db key {row} e =
    (revision_eq_iff row.key key).0 (find?-holds (at_key key) db.attribution_results e)

pub insert_result-IsResultsValid :
    (db : Database) (v : ResultValues)
    → get_result db v.key ≡ none
    → IsResultsValid db
    → IsResultsValid (insert_result db v)
unfolding get_result
insert_result-IsResultsValid db v absent h =
    let rows = db.attribution_results in
    record {
      known =
          (omega arith, All-map (λ r. r.id < db.next_result_id) rows (λ r b. omega arith) h.known);
      ids = (All-map (λ r. r.id < db.next_result_id) rows (λ r b. omega arith) h.known, h.ids);
      keys = (
        All-map (λ r. at_key v.key r ≡ false) rows
            (λ r n. ground (arith, revision_eq_iff r.key v.key))
            (find?-none (at_key v.key) rows absent),
        h.keys,
      );
    }

-- The row that is overwritten is the only one with its `id`.
only_row :
    (db : Database) (key : RevisionKey) (existing : AttributionResult)
    → get_result db key ≡ some existing
    → IsResultsValid db
    → All (λ r. r.id ≡ existing.id → r ≡ existing) db.attribution_results
unfolding get_result
only_row db key existing found h =
    Distinct-unique (λ (r : AttributionResult). r.id) db.attribution_results existing h.ids
      (find?-Member (at_key key) db.attribution_results found)

pub overwrite_result-IsResultsValid :
    (db : Database) (v : ResultValues) (existing : AttributionResult)
    → get_result db v.key ≡ some existing
    → IsResultsValid db
    → IsResultsValid (overwrite_result db existing.id v)
overwrite_result-IsResultsValid db v existing found h =
    let rows = db.attribution_results in
    let same = get_result-key db v.key found in
    record {
      known =
          All-update_where (λ r. r.id < db.next_result_id) (λ r. r.id == existing.id)
            (λ r. row_of r.id v) rows (λ r b _. b) h.known;
      ids =
          Distinct-update_where (λ (r : AttributionResult). r.id) (λ r. r.id == existing.id)
            (λ r. row_of r.id v) rows (λ r. refl) h.ids;
      keys =
          Distinct-update_rows (λ (r : AttributionResult). r.key) (λ r. r.id == existing.id)
            (λ r. row_of r.id v) rows
            (All-map (λ r. r.id ≡ existing.id → r ≡ existing) rows
              (λ r one hit.
                sym (ap (λ (a : AttributionResult). a.key) (one ((==_iff _ _).0 hit)) ∙ same))
              (only_row db v.key existing found h))
            h.keys;
    }

-- `save_result` keeps well-formed results well formed: still one row for an id and for a revision
-- under a policy.
pub save_result-IsResultsValid :
    (db : Database) (v : ResultValues) → IsResultsValid db → IsResultsValid (save_result db v)
unfolding save_result
save_result-IsResultsValid db v h = elim (Option-cases (get_result db v.key)) [
  | inl absent ↦ rw (absent, save_result) (insert_result-IsResultsValid db v absent h)
  | inr (existing, found) ↦
      rw (found, save_result) (overwrite_result-IsResultsValid db v existing found h)
]

get_result_overwritten :
    (db : Database) (v : ResultValues) (existing : AttributionResult)
    → get_result db v.key ≡ some existing
    → IsResultsValid db
    → get_result (overwrite_result db existing.id v) v.key
      ≡ Option.map (λ r. if r.id == existing.id then row_of r.id v else r) (get_result db v.key)
unfolding get_result
get_result_overwritten db v existing found h =
    let same = get_result-key db v.key found in
    find?-update_rows (at_key v.key) (λ r. r.id == existing.id) (λ r. row_of r.id v)
      db.attribution_results
      (All-map (λ r. r.id ≡ existing.id → r ≡ existing) db.attribution_results
        (λ r one hit.
          ap (λ (k : RevisionKey). revision_eq k v.key)
            (sym (ap (λ (a : AttributionResult). a.key) (one ((==_iff _ _).0 hit)) ∙ same)))
        (only_row db v.key existing found h))

get_result-overwrite_ne :
    (db : Database) (v : ResultValues) (existing : AttributionResult) (key : RevisionKey)
    → get_result db v.key ≡ some existing
    → key ≢ v.key
    → IsResultsValid db
    → get_result (overwrite_result db existing.id v) key ≡ get_result db key
unfolding get_result
get_result-overwrite_ne db v existing key found other h =
    let same = get_result-key db v.key found in
    find?-update_off (at_key key) (λ r. r.id == existing.id) (λ r. row_of r.id v)
      db.attribution_results
      (All-map (λ r. r.id ≡ existing.id → r ≡ existing) db.attribution_results
        (λ r one hit.
          let there = ap (λ (a : AttributionResult). a.key) (one ((==_iff _ _).0 hit)) ∙ same in
          (ground (arith, revision_eq_iff r.key key), ground (arith, revision_eq_iff v.key key)))
        (only_row db v.key existing found h))

-- On well-formed results, after `save_result` the revision has a row with the values that were
-- saved, and every other revision has the row that it had.
pub get_result-save_result :
    (db : Database) (v : ResultValues) (key : RevisionKey)
    → IsResultsValid db
    → ((id : ℕ) × (get_result (save_result db v) v.key ≡ some (row_of id v)))
      × (key ≢ v.key → get_result (save_result db v) key ≡ get_result db key)
unfolding save_result
get_result-save_result db v key h = elim (Option-cases (get_result db v.key)) [
  | inl absent ↦ (
    (
      db.next_result_id,
      rw (absent, save_result) (unfold get_result in rw (revision_eq_refl, find?) refl),
    ),
    λ other. rw (absent, save_result) (ground (arith, revision_eq_iff v.key key)),
  )
  | inr (existing, found) ↦ (
    (
      existing.id,
      rw (found, save_result)
          (get_result_overwritten db v existing found h ∙ rw found (ground arith)),
    ),
    λ other. rw (found, save_result) (get_result-overwrite_ne db v existing key found other h),
  )
]
