-- ===== src/Repository/Standing.antt =====
-- The methods of `Repository` on `contributor_standing`.
pub mod Replace
pub mod Keys
pub mod Named
use wikifame.Base.{
  ℕ, ◌-◌, Bool, true, false, not, ◌&&◌, Option, none, some, List, [], ◌∷◌, ◌++◌, map, ltb, leb,
  ◌==◌, if◌then◌else◌, is_some, length, take, any, filter, update_where, Text, text_eq, sort_by,
}
use wikifame.Models.{Time, Clock, Contributor, AttributionResult, ContributorStanding, Database}
use wikifame.Policy.Standing.{AccountStanding}

abbrev pub account_of : ContributorStanding → AccountStanding
account_of row = record {
  user_id = row.user_id;
  username = row.username;
  blocked_at = row.blocked_at;
  block_expires_at = row.block_expires_at;
  block_partial = row.block_partial;
  block_reason = row.block_reason;
  globally_locked = row.globally_locked;
  lock_reason = row.lock_reason;
}

-- The values of the dictionary that `standing_for` returns, whose keys are their `user_id`s.
unfoldable pub standing_for : Database → Text → List ℕ → List AccountStanding
unfolding filter any
standing_for db wiki user_ids = map account_of (
    filter (λ row. text_eq row.wiki wiki && any (λ id. row.user_id == id) user_ids)
      db.contributor_standing)

-- `standings.get(user_id)`: the last row of a key is the one that the dictionary keeps.
unfoldable pub standing_of : List AccountStanding → ℕ → Option AccountStanding
standing_of [] user_id = none
standing_of (standing ∷ standings) user_id = elim (standing_of standings user_id) [
  | some found ↦ some found
  | none ↦ if standing.user_id == user_id then some standing else none
]

pub record StandingRecord : Type 0 where
  pub standing : AccountStanding
  pub open standing use {user_id}
  pub lock_checked_at : Option Time

abbrev pub standing_at : Text → ℕ → ContributorStanding → Bool
standing_at wiki user_id row = text_eq row.wiki wiki && row.user_id == user_id

abbrev pub standing_on : Text → ContributorStanding → Bool
standing_on wiki row = text_eq row.wiki wiki

abbrev pub record_of : ContributorStanding → StandingRecord
record_of row = record { standing = account_of row; lock_checked_at = row.lock_checked_at }

-- The values of the dictionary that `standing_records` returns.
unfoldable pub standing_records : Database → Text → List StandingRecord
unfolding filter
standing_records db wiki = map record_of (filter (standing_on wiki) db.contributor_standing)

-- A dictionary of records by `user_id`: the last one of a key is kept.
unfoldable pub wanted_record : List StandingRecord → ℕ → Option StandingRecord
wanted_record [] user_id = none
wanted_record (r ∷ records) user_id = elim (wanted_record records user_id) [
  | some found ↦ some found
  | none ↦ if r.standing.user_id == user_id then some r else none
]

-- The keys of that dictionary, each once.
unfoldable pub record_ids : List StandingRecord → List ℕ
unfolding any
record_ids [] = []
record_ids (r ∷ records) =
    let rest = record_ids records in
    if any (λ id. id == r.standing.user_id) rest then rest else r.standing.user_id ∷ rest

-- `lock_checked_at IS NULL OR lock_checked_at < cutoff`
abbrev pub is_lock_due : Time → ContributorStanding → Bool
is_lock_due cutoff row = elim row.lock_checked_at [ none ↦ true | some at ↦ ltb at cutoff ]

-- `lock_checked_at IS NULL DESC, lock_checked_at ASC`
unfoldable pub is_checked_earlier : ContributorStanding → ContributorStanding → Bool
is_checked_earlier a b = elim a.lock_checked_at [
  | none ↦ true
  | some s ↦ elim b.lock_checked_at [ none ↦ false | some t ↦ leb s t ]
]

unfoldable pub lock_check_candidates : Database → Text → Time → ℕ → List ℕ
unfolding sort_by filter is_checked_earlier
lock_check_candidates db wiki cutoff limit =
    map (λ (row : ContributorStanding). row.user_id)
      (take limit (
        sort_by is_checked_earlier
          (filter (λ row. standing_on wiki row && is_lock_due cutoff row) db.contributor_standing)))

-- Adds the positive `user_id`s of one result to those that were seen.
unfoldable pub see_contributors : List Contributor → List ℕ → List ℕ
unfolding any
see_contributors [] seen = seen
see_contributors (c ∷ contributors) seen = see_contributors contributors (elim c.user_id [
  | none ↦ seen
  | some id ↦ if ltb 0 id && not (any (λ other. other == id) seen) then id ∷ seen else seen
])

unfoldable pub see_results : Text → List AttributionResult → List ℕ → List ℕ
unfolding see_contributors
see_results wiki [] seen = seen
see_results wiki (r ∷ results) seen =
    see_results wiki results
      (if text_eq r.wiki wiki then see_contributors r.contributors seen else seen)

unfoldable pub named_contributor_ids : Database → Text → List ℕ
unfolding sort_by see_results
named_contributor_ids db wiki = sort_by leb (see_results wiki db.attribution_results [])

abbrev pub standing_row : Time → Text → ℕ → StandingRecord → ContributorStanding
standing_row now wiki user_id r = record {
  wiki = wiki;
  user_id = user_id;
  username = r.standing.username;
  blocked_at = r.standing.blocked_at;
  block_expires_at = r.standing.block_expires_at;
  block_partial = r.standing.block_partial;
  block_reason = r.standing.block_reason;
  globally_locked = r.standing.globally_locked;
  lock_reason = r.standing.lock_reason;
  lock_checked_at = r.lock_checked_at;
  synced_at = now;
}

abbrev pub refreshed_standing :
    Time → List StandingRecord → ContributorStanding → ContributorStanding
refreshed_standing now records row = elim (wanted_record records row.user_id) [
  | none ↦ row
  | some r ↦ standing_row now row.wiki row.user_id r
]

-- `existing`: the accounts that the table lists for the wiki.
abbrev pub is_tracked : Database → Text → ℕ → Bool
is_tracked db wiki user_id = any (standing_at wiki user_id) db.contributor_standing

abbrev pub is_dropped : Text → List StandingRecord → ContributorStanding → Bool
is_dropped wiki records row =
    standing_on wiki row && not (is_some (wanted_record records row.user_id))

abbrev pub added_standings : Time → Text → List StandingRecord → List ℕ → List ContributorStanding
added_standings now wiki records [] = []
added_standings now wiki records (id ∷ ids) = elim (wanted_record records id) [
  | none ↦ added_standings now wiki records ids
  | some r ↦ standing_row now wiki id r ∷ added_standings now wiki records ids
]

-- The new tables, and how many rows were added and removed.
unfoldable pub replace_standing : Clock → Text → List StandingRecord → Database → Database × ℕ × ℕ
unfolding filter update_where wanted_record record_ids any
replace_standing clock wiki records db =
    let now = clock 0 in
    let kept = filter (λ row. not (is_dropped wiki records row)) db.contributor_standing in
    let refreshed = update_where (standing_on wiki) (refreshed_standing now records) kept in
    let fresh = filter (λ id. not (is_tracked db wiki id)) (record_ids records) in
    (
      record db { contributor_standing = added_standings now wiki records fresh ++ refreshed },
      length fresh,
      length db.contributor_standing - length kept,
    )
