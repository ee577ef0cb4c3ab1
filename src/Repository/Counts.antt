-- ===== src/Repository/Counts.antt =====
-- `Repository.stats`, `optout_counts` and `standing_counts`: the figures of the statistics page.
pub mod Totals
use wikifame.Base.{
  ℕ, List, [], ◌∷◌, if◌then◌else◌, is_some, length, filter, Counter, Text, codes, text_eq,
}
use wikifame.Models.{
  WorkState, pending, leased, dead, superseded, WorkItem, PageOptOut, ContributorStanding, Database,
}

module _ {A : Type 0} (key_of_row : A → Text) where
  -- A row in front of those of its group.
  unfoldable pub add_to_group : A → List (Text × List A) → List (Text × List A)
  add_to_group row [] = (key_of_row row, row ∷ []) ∷ []
  add_to_group row ((key, rows) ∷ groups) =
      let rest = add_to_group row groups in
      if text_eq key (key_of_row row) then (key, row ∷ rows) ∷ groups else (key, rows) ∷ rest

  -- `GROUP BY`, with the rows of each group.
  unfoldable pub group_by : List A → List (Text × List A)
  unfolding add_to_group
  group_by [] = []
  group_by (row ∷ rows) = add_to_group row (group_by rows)

-- `func.count()` for each group.
unfoldable pub group_counts : {A : Type 0} → List (Text × List A) → Counter Text
group_counts [] = []
group_counts ((key, rows) ∷ groups) = (key, length rows) ∷ group_counts groups

-- `str(state)`
unfoldable pub state_name : WorkState → Text
state_name pending = codes "pending"
state_name leased = codes "leased"
state_name dead = codes "dead"
state_name superseded = codes "superseded"

unfoldable pub stats : Database → Counter Text
unfolding group_counts group_by state_name
stats db =
    (codes "ready", length db.attribution_results)
    ∷ group_counts (group_by (λ (w : WorkItem). state_name w.state) db.work_queue)

unfoldable pub optout_counts : Database → Counter Text
unfolding group_counts group_by
optout_counts db = group_counts (group_by (λ (row : PageOptOut). row.wiki) db.page_optout)

pub record StandingCounts : Type 0 where
  pub tracked : ℕ
  pub blocked : ℕ
  pub locked : ℕ

-- The three aggregates of a group.
unfoldable pub counts_of : List ContributorStanding → StandingCounts
unfolding filter
counts_of rows = record {
  tracked = length rows;
  blocked = length (filter (λ (row : ContributorStanding). is_some row.blocked_at) rows);
  locked = length (filter (λ (row : ContributorStanding). row.globally_locked) rows);
}

unfoldable pub counts_by_wiki :
    List (Text × List ContributorStanding) → List (Text × StandingCounts)
unfolding counts_of
counts_by_wiki [] = []
counts_by_wiki ((wiki, rows) ∷ groups) = (wiki, counts_of rows) ∷ counts_by_wiki groups

unfoldable pub standing_counts : Database → List (Text × StandingCounts)
unfolding counts_by_wiki group_by
standing_counts db =
    counts_by_wiki (group_by (λ (row : ContributorStanding). row.wiki) db.contributor_standing)
