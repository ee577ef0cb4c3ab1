-- ===== src/Repository/Results.antt =====
-- The methods of `Repository` on `attribution_results`.
pub mod Valid
use wikifame.Base.{
  ℕ, ◌+◌, Bool, ◌&&◌, ◌||◌, Option, none, some, List, ◌∷◌, ltb, ◌==◌, filter, find?, first_by,
  update_where, Text,
}
use wikifame.Models.{
  Time, PageKey, RevisionKey, page_eq, revision_eq, Contributor, AttributionResult, Database,
}

abbrev pub at_key : RevisionKey → AttributionResult → Bool
at_key key r = revision_eq r.key key

unfoldable pub get_result : Database → RevisionKey → Option AttributionResult
unfolding find?
get_result db key = find? (at_key key) db.attribution_results

-- `computed_at DESC, id DESC`
unfoldable pub is_newer : AttributionResult → AttributionResult → Bool
is_newer a b = ltb b.computed_at a.computed_at || (a.computed_at == b.computed_at && ltb b.id a.id)

abbrev pub on_page : PageKey → AttributionResult → Bool
on_page page r = page_eq r.page page

unfoldable pub get_latest_result : Database → PageKey → Option AttributionResult
unfolding first_by filter is_newer
get_latest_result db page = first_by is_newer (filter (on_page page) db.attribution_results)

-- The values that `save_result` is given: the columns of a row without its `id`.
pub record ResultValues : Type 0 where
  pub key : RevisionKey
  pub title : Text
  pub metric : Text
  pub contributors : List Contributor
  pub distinct_contributors : ℕ
  pub count_limited : Bool
  pub countable_tokens : ℕ
  pub wikiwho_revision_id : ℕ
  pub computed_at : Time

abbrev pub row_of : ℕ → ResultValues → AttributionResult
row_of id v = record {
  id = id;
  key = v.key;
  title = v.title;
  metric = v.metric;
  contributors = v.contributors;
  distinct_contributors = v.distinct_contributors;
  count_limited = v.count_limited;
  countable_tokens = v.countable_tokens;
  wikiwho_revision_id = v.wikiwho_revision_id;
  computed_at = v.computed_at;
}

abbrev pub insert_result : Database → ResultValues → Database
insert_result db v = record db {
  attribution_results = row_of db.next_result_id v ∷ db.attribution_results;
  next_result_id = db.next_result_id + 1;
}

abbrev pub overwrite_result : Database → ℕ → ResultValues → Database
overwrite_result db id v = record db {
  attribution_results = update_where (λ r. r.id == id) (λ r. row_of r.id v) db.attribution_results;
}

unfoldable pub save_result : Database → ResultValues → Database
unfolding get_result update_where
save_result db v = elim (get_result db v.key) [
  | none ↦ insert_result db v
  | some existing ↦ overwrite_result db existing.id v
]
