-- ===== src/Repository/OptOut.antt =====
-- The methods of `Repository` on `page_optout`.
pub mod Replace
pub mod Keys
use wikifame.Base.{
  ℕ, ◌-◌, Bool, not, ◌&&◌, Option, none, some, List, [], ◌∷◌, ◌++◌, ◌==◌, if◌then◌else◌, is_some,
  length, any, filter, update_where, Text, text_eq,
}
use wikifame.Models.{Time, Clock, PageOptOut, Database}

pub record OptOutEntry : Type 0 where
  pub page_id : ℕ
  pub title : Text
  pub source : Text

abbrev pub optout_at : Text → ℕ → PageOptOut → Bool
optout_at wiki page_id row = text_eq row.wiki wiki && row.page_id == page_id

abbrev pub optout_on : Text → PageOptOut → Bool
optout_on wiki row = text_eq row.wiki wiki

unfoldable pub is_opted_out : Database → Text → ℕ → Bool
unfolding any
is_opted_out db wiki page_id = any (optout_at wiki page_id) db.page_optout

-- `wanted = {entry.page_id: entry for entry in entries}`: the last entry of a page wins.
unfoldable pub wanted : List OptOutEntry → ℕ → Option OptOutEntry
wanted [] page_id = none
wanted (entry ∷ entries) page_id = elim (wanted entries page_id) [
  | some found ↦ some found
  | none ↦ if entry.page_id == page_id then some entry else none
]

-- The keys of `wanted`, each once.
unfoldable pub wanted_ids : List OptOutEntry → List ℕ
unfolding any
wanted_ids [] = []
wanted_ids (entry ∷ entries) =
    let rest = wanted_ids entries in
    if any (λ id. id == entry.page_id) rest then rest else entry.page_id ∷ rest

abbrev pub new_optout : Time → Text → ℕ → OptOutEntry → PageOptOut
new_optout now wiki page_id entry = record {
  wiki = wiki;
  page_id = page_id;
  title = entry.title;
  source = entry.source;
  synced_at = now;
}

abbrev pub refreshed_optout : Time → List OptOutEntry → PageOptOut → PageOptOut
refreshed_optout now entries row = elim (wanted entries row.page_id) [
  | none ↦ row
  | some entry ↦ record row { title = entry.title; source = entry.source; synced_at = now }
]

-- `existing`: the pages that the table lists for the wiki.
abbrev pub is_listed : Database → Text → ℕ → Bool
is_listed db wiki page_id = any (optout_at wiki page_id) db.page_optout

abbrev pub is_removed : Text → List OptOutEntry → PageOptOut → Bool
is_removed wiki entries row = optout_on wiki row && not (is_some (wanted entries row.page_id))

abbrev pub added_rows : Time → Text → List OptOutEntry → List ℕ → List PageOptOut
added_rows now wiki entries [] = []
added_rows now wiki entries (id ∷ ids) = elim (wanted entries id) [
  | none ↦ added_rows now wiki entries ids
  | some entry ↦ new_optout now wiki id entry ∷ added_rows now wiki entries ids
]

-- The new tables, and how many rows were added and removed.
unfoldable pub replace_optout : Clock → Text → List OptOutEntry → Database → Database × ℕ × ℕ
unfolding filter update_where wanted wanted_ids any
replace_optout clock wiki entries db =
    let now = clock 0 in
    let kept = filter (λ row. not (is_removed wiki entries row)) db.page_optout in
    let refreshed = update_where (optout_on wiki) (refreshed_optout now entries) kept in
    let fresh = filter (λ id. not (is_listed db wiki id)) (wanted_ids entries) in
    (
      record db { page_optout = added_rows now wiki entries fresh ++ refreshed },
      length fresh,
      length db.page_optout - length kept,
    )
