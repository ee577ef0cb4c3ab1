-- ===== src/Repository/Counts/Totals.antt =====
-- What the figures of the statistics page count.
use wikifame.Base.{
  suc, ◌+◌, ◌≡◌, refl, ap, ◌∙◌, false, List, [], ◌∷◌, arith, if◌then◌else◌, length, filter,
  count_of, total, Text, codes, text_eq, text_eq_iff,
}
use wikifame.Repository.Counts.{add_to_group, group_by, group_counts, state_name, stats}
use wikifame.Models.{WorkState, pending, leased, dead, superseded, WorkItem, Database}

module _ {A : Type 0} (key_of_row : A → Text) where
  count_of-add_to_group :
      (key : Text) (row : A) (groups : List (Text × List A))
      → count_of text_eq key (group_counts (add_to_group key_of_row row groups))
        ≡ (if text_eq (key_of_row row) key then 1 else 0)
          + count_of text_eq key (group_counts groups)
  unfolding add_to_group group_counts count_of
  count_of-add_to_group key row [] = ground arith
  count_of-add_to_group key row ((k, rows) ∷ groups) = ground (
    arith,
    text_eq_iff k (key_of_row row),
    text_eq_iff k key,
    text_eq_iff (key_of_row row) key,
    count_of-add_to_group key row groups,
  )

  total-add_to_group :
      (row : A) (groups : List (Text × List A))
      → total (group_counts (add_to_group key_of_row row groups))
        ≡ suc (total (group_counts groups))
  unfolding add_to_group group_counts total
  total-add_to_group row [] = refl
  total-add_to_group row ((k, rows) ∷ groups) = ground (arith, total-add_to_group row groups)

  -- Each figure is the number of rows with its key, and together they are all rows.
  pub group_counts-group_by :
      (rows : List A)
      → ((key : Text)
          → count_of text_eq key (group_counts (group_by key_of_row rows))
            ≡ length (filter (λ row. text_eq (key_of_row row) key) rows))
        × (total (group_counts (group_by key_of_row rows)) ≡ length rows)
  unfolding group_by group_counts count_of total filter
  group_counts-group_by [] = (λ key. refl, refl)
  group_counts-group_by (row ∷ rows) =
      let groups = group_by key_of_row rows in
      let (each, all) = group_counts-group_by rows in
      (
        λ key. count_of-add_to_group key row groups ∙ ground (arith, each key),
        omega (arith, total-add_to_group row groups, all),
      )

ready_apart : (state : WorkState) → text_eq (codes "ready") (state_name state) ≡ false
unfolding text_eq state_name
ready_apart pending = refl
ready_apart leased = refl
ready_apart dead = refl
ready_apart superseded = refl

-- The statistics count every job once: the figure of a state is the number of jobs in it, and all
-- figures together are as many as the stored results and the jobs.
pub stats_lem :
    (db : Database)
    → ((state : WorkState)
        → count_of text_eq (state_name state) (stats db)
          ≡ length (
              filter
                (λ (w : WorkItem). text_eq (state_name w.state) (state_name state))
                db.work_queue))
      × (total (stats db) ≡ length db.attribution_results + length db.work_queue)
unfolding stats count_of total
stats_lem db =
    let (each, all) = group_counts-group_by (λ (w : WorkItem). state_name w.state) db.work_queue in
    (
      λ state. rw (ready_apart state) (each (state_name state)),
      ap (λ n. length db.attribution_results + n) all,
    )
