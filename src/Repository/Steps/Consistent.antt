-- ===== src/Repository/Steps/Consistent.antt =====
-- What every history leaves true of the tables.
use wikifame.Base.{
  ℕ, ◌-◌, ◌≡◌, refl, sym, subst, inl, inr, Bool, true, not, ◌&&◌, List, leb, Bool-cases,
  Option-cases, is_some, any, Distinct, Text,
}
use wikifame.Repository.Cleanup.{cleanup}
use wikifame.Repository.Wikis.{register_active_wiki}
use wikifame.Repository.State.{set_state}
use wikifame.Repository.Results.{ResultValues, get_result, get_latest_result, save_result}
use wikifame.Repository.Steps.{
  enqueued, enqueued_if_stale, conflicted, claimed, completed, set_aside, failed, revived, saved,
  cleaned, registered, state_set, optouts_replaced, standings_replaced, Change, History, here, next,
}
use wikifame.Repository.OptOut.{replace_optout}
use wikifame.Repository.Standing.{replace_standing}
use wikifame.Repository.Queue.Valid.{
  IsQueueValid, filter-IsQueue, claim-IsQueueValid, complete-IsQueueValid, supersede-IsQueueValid,
  fail-IsQueueValid, revive-IsQueueValid, enqueue_conflict-IsQueueValid, enqueue-IsQueueValid,
  enqueue_if_stale-IsQueueValid,
}
use wikifame.Models.{
  seconds, Clock, later, RevisionKey, AttributionResult, PageOptOut, ContributorStanding,
  ActiveWiki, AppState, Database,
}
use wikifame.Repository.OptOut.Keys.{optout_key, replace_optout-Distinct}
use wikifame.Repository.Standing.Keys.{standing_key, replace_standing-Distinct}
use wikifame.Repository.Results.Valid.{IsResults}
use wikifame.Repository.Queue.{
  is_closed, get_work, is_newer_live, enqueue_row, enqueue, enqueue_conflict, enqueue_if_stale,
  next_item, claim, complete, supersede, fail, revive,
}
use wikifame.Errors.{code, permanent, message}
use wikifame.Repository.Standing.{replace_standing}
use wikifame.Repository.Steps.Tables.{
  IsConsistent, save_result-IsConsistent, cleanup-IsResultsValid, register_active_wiki-IsConsistent,
  set_state-IsConsistent,
}

-- The tables apart from the queue.
abbrev pub Elsewhere : Type 0
Elsewhere =
    List AttributionResult
    × ℕ
    × List ActiveWiki
    × List AppState
    × List PageOptOut
    × List ContributorStanding

abbrev pub elsewhere : Database → Elsewhere
elsewhere db = (
  db.attribution_results, db.next_result_id, db.active_wikis, db.app_state, db.page_optout,
  db.contributor_standing,
)

abbrev IsConsistentElsewhere : Elsewhere → Type 0
IsConsistentElsewhere (results, bound, wikis, states, optouts, standings) =
    IsResults bound results
    × Distinct (λ (row : ActiveWiki). row.wiki) wikis
    × Distinct (λ (row : AppState). row.key) states
    × Distinct optout_key optouts
    × Distinct standing_key standings

queue_only :
    (db db' : Database)
    → elsewhere db' ≡ elsewhere db
    → IsQueueValid db'
    → IsConsistent db
    → IsConsistent db'
queue_only db db' same q c =
    let (results, wikis, states, optouts, standings) =
      subst IsConsistentElsewhere (sym same)
        (c.results, c.wikis, c.states, c.optouts, c.standings) in
    record {
      queue = q;
      results = results;
      wikis = wikis;
      states = states;
      optouts = optouts;
      standings = standings;
    }

enqueue_row-elsewhere :
    (clock : Clock) (key : RevisionKey) (priority : ℕ) (db : Database)
    → elsewhere (enqueue_row clock key priority db) ≡ elsewhere db
unfolding enqueue_row
enqueue_row-elsewhere clock key priority db = elim (Option-cases (get_work db key)) [
  | inl absent ↦ elim (Bool-cases (any (is_newer_live key) db.work_queue)) [
    | inl newer ↦ rw (absent, newer, enqueue_row) refl
    | inr fresh ↦ rw (absent, fresh, enqueue_row) refl
  ]
  | inr (existing, found) ↦ elim (Bool-cases (is_closed existing.state)) [
    | inl closed ↦ rw (found, enqueue_row, closed) refl
    | inr open_row ↦ rw (found, enqueue_row, open_row) refl
  ]
]

pub enqueue-elsewhere :
    (clock : Clock) (key : RevisionKey) (priority : ℕ) (allow_cached_result : Bool) (db : Database)
    → elsewhere (enqueue clock key priority allow_cached_result db) ≡ elsewhere db
unfolding enqueue
enqueue-elsewhere clock key priority allow_cached_result db =
    elim (Bool-cases (not allow_cached_result && is_some (get_result db key))) [
      | inl cached ↦ rw (cached, enqueue) refl
      | inr needed ↦ rw (needed, enqueue) (enqueue_row-elsewhere clock key priority db)
    ]

pub enqueue_if_stale-elsewhere :
    (clock : Clock) (key : RevisionKey) (priority freshness_seconds : ℕ) (db : Database)
    → elsewhere (enqueue_if_stale clock key priority freshness_seconds db).0 ≡ elsewhere db
unfolding enqueue_if_stale
enqueue_if_stale-elsewhere clock key priority freshness_seconds db =
    let queued = enqueue-elsewhere (later 1 clock) key priority true db in
    elim (Option-cases (get_latest_result db key.page)) [
      | inl absent ↦ rw (absent, enqueue_if_stale) queued
      | inr (latest, found) ↦
          elim (Bool-cases (leb (clock 0 - seconds freshness_seconds) latest.computed_at)) [
            | inl fresh ↦ rw (found, fresh, enqueue_if_stale) refl
            | inr stale ↦ rw (found, stale, enqueue_if_stale) queued
          ]
    ]

pub claim-elsewhere :
    (clock : Clock) (worker_id : Text) (lease_seconds : ℕ) (db : Database)
    → elsewhere (claim clock worker_id lease_seconds db).0 ≡ elsewhere db
unfolding claim
claim-elsewhere clock worker_id lease_seconds db = elim (Option-cases (next_item (clock 0) db)) [
  | inl nothing ↦ rw (nothing, claim) refl
  | inr (item, chosen) ↦ rw (chosen, claim) refl
]

-- One call of any writing method, by whichever process, leaves the tables well formed.
pub Step-IsConsistent :
    {Saves : ResultValues → Type 0} {db db' : Database}
    → Change Saves db db'
    → IsConsistent db
    → IsConsistent db'
unfolding complete supersede fail revive enqueue_conflict cleanup register_active_wiki set_state
    replace_optout replace_standing save_result
Step-IsConsistent (enqueued clock key priority allow db) c =
    queue_only db _ (enqueue-elsewhere clock key priority allow db)
      (enqueue-IsQueueValid clock key priority allow db c.queue) c
Step-IsConsistent (enqueued_if_stale clock key priority fresh db) c =
    queue_only db _ (enqueue_if_stale-elsewhere clock key priority fresh db)
      (enqueue_if_stale-IsQueueValid clock key priority fresh db c.queue) c
Step-IsConsistent (conflicted clock key priority db) c =
    queue_only db _ refl (enqueue_conflict-IsQueueValid clock key priority db c.queue) c
Step-IsConsistent (claimed clock worker_id lease_seconds db) c =
    queue_only db _ (claim-elsewhere clock worker_id lease_seconds db)
      (claim-IsQueueValid clock worker_id lease_seconds db c.queue) c
Step-IsConsistent (completed work_id db) c =
    queue_only db _ refl (complete-IsQueueValid work_id db c.queue) c
Step-IsConsistent (set_aside clock work_id reason db) c =
    queue_only db _ refl (supersede-IsQueueValid clock work_id reason db c.queue) c
Step-IsConsistent (failed clock lease code message max_attempts permanent db) c =
    queue_only db _ refl
      (fail-IsQueueValid clock lease code message max_attempts permanent db c.queue) c
Step-IsConsistent (revived clock work_id priority db) c =
    queue_only db _ refl (revive-IsQueueValid clock work_id priority db c.queue) c
Step-IsConsistent (saved values db s) c = save_result-IsConsistent db values c
Step-IsConsistent (cleaned clock queue_days result_days db) c = record {
  queue = filter-IsQueue _ db.work_queue c.queue;
  results = cleanup-IsResultsValid clock queue_days result_days db c.results;
  wikis = c.wikis;
  states = c.states;
  optouts = c.optouts;
  standings = c.standings;
}
Step-IsConsistent (registered clock wiki db) c = register_active_wiki-IsConsistent clock wiki db c
Step-IsConsistent (state_set clock key value db) c = set_state-IsConsistent clock key value db c
Step-IsConsistent (optouts_replaced clock wiki entries db) c = record {
  queue = c.queue;
  results = c.results;
  wikis = c.wikis;
  states = c.states;
  optouts = replace_optout-Distinct clock wiki entries db c.optouts;
  standings = c.standings;
}
Step-IsConsistent (standings_replaced clock wiki records db) c = record {
  queue = c.queue;
  results = c.results;
  wikis = c.wikis;
  states = c.states;
  optouts = c.optouts;
  standings = replace_standing-Distinct clock wiki records db c.standings;
}

-- From well-formed tables, writing calls of `Repository`, in any order, by whichever processes and
-- with whatever values, lead to well-formed tables only: the ids of jobs and of results are unique
-- and below the next one, the keys of all six tables are unique, leases are on leased jobs alone,
-- which have been tried at least once, and dead jobs have an error.
pub Reach-IsConsistent :
    {Saves : ResultValues → Type 0} {start db : Database}
    → History Saves start db
    → IsConsistent start
    → IsConsistent db
Reach-IsConsistent here c = c
Reach-IsConsistent (next r step) c = Step-IsConsistent step (Reach-IsConsistent r c)
