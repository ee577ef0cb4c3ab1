-- ===== src/Repository/Steps.antt =====
-- Histories of the tables: the calls of `Repository` that write, in any order, by any process.
pub mod Tables
pub mod Consistent
use wikifame.Base.{ℕ, ◌≤◌, Bool, List, length, Text}
use wikifame.Repository.Queue.{
  WorkLease, enqueue, enqueue_conflict, enqueue_if_stale, claim, complete, supersede, fail, revive,
}
use wikifame.Repository.Cleanup.{cleanup}
use wikifame.Models.{Clock, RevisionKey, Contributor, Database}
use wikifame.Repository.State.{set_state}
use wikifame.Repository.OptOut.{OptOutEntry, replace_optout}
use wikifame.Errors.{code, permanent, message}
use wikifame.Repository.Standing.{StandingRecord, replace_standing}
use wikifame.Repository.Results.{ResultValues, save_result}
use wikifame.Repository.Wikis.{register_active_wiki}

-- At most three names, and no more than there are contributors.
abbrev pub IsSound : List Contributor → ℕ → Type 0
IsSound contributors distinct = (length contributors ≤ 3) × (length contributors ≤ distinct)

-- A call of a writing method, in which `Saves` holds of the values that are saved.
pub data Change (Saves : ResultValues → Type 0) : Database → Database → Type 0 where
  enqueued :
      (clock : Clock) (key : RevisionKey) (priority : ℕ) (allow_cached_result : Bool)
      (db : Database)
      → Change Saves db (enqueue clock key priority allow_cached_result db)
  enqueued_if_stale :
      (clock : Clock) (key : RevisionKey) (priority freshness_seconds : ℕ) (db : Database)
      → Change Saves db (enqueue_if_stale clock key priority freshness_seconds db).0
  conflicted :
      (clock : Clock) (key : RevisionKey) (priority : ℕ) (db : Database)
      → Change Saves db (enqueue_conflict clock key priority db)
  claimed :
      (clock : Clock) (worker_id : Text) (lease_seconds : ℕ) (db : Database)
      → Change Saves db (claim clock worker_id lease_seconds db).0
  completed : (work_id : ℕ) (db : Database) → Change Saves db (complete work_id db)
  set_aside :
      (clock : Clock) (work_id : ℕ) (reason : Text) (db : Database)
      → Change Saves db (supersede clock work_id reason db)
  failed :
      (clock : Clock) (lease : WorkLease) (code message : Text) (max_attempts : ℕ)
      (permanent : Bool) (db : Database)
      → Change Saves db (fail clock lease code message max_attempts permanent db)
  revived :
      (clock : Clock) (work_id priority : ℕ) (db : Database)
      → Change Saves db (revive clock work_id priority db)
  saved :
      (values : ResultValues) (db : Database)
      → Saves values
      → Change Saves db (save_result db values)
  cleaned :
      (clock : Clock) (queue_days result_days : ℕ) (db : Database)
      → Change Saves db (cleanup clock queue_days result_days db).0
  registered :
      (clock : Clock) (wiki : Text) (db : Database)
      → Change Saves db (register_active_wiki clock wiki db).0
  state_set :
      (clock : Clock) (key value : Text) (db : Database)
      → Change Saves db (set_state clock key value db)
  optouts_replaced :
      (clock : Clock) (wiki : Text) (entries : List OptOutEntry) (db : Database)
      → Change Saves db (replace_optout clock wiki entries db).0
  standings_replaced :
      (clock : Clock) (wiki : Text) (records : List StandingRecord) (db : Database)
      → Change Saves db (replace_standing clock wiki records db).0

-- Such calls, one after the other.
pub data History (Saves : ResultValues → Type 0) (start : Database) : Database → Type 0 where
  here : History Saves start start
  next :
      {db db' : Database} → History Saves start db → Change Saves db db' → History Saves start db'

-- Calls that only save results with at most three names, and no more than there are contributors.
abbrev pub SavesSound : ResultValues → Type 0
SavesSound values = IsSound values.contributors values.distinct_contributors

abbrev pub Step : Database → Database → Type 0
Step = Change SavesSound

abbrev pub Reach : Database → Database → Type 0
Reach = History SavesSound

pub Reach_trans :
    {Saves : ResultValues → Type 0} {a b c : Database}
    → History Saves a b
    → History Saves b c
    → History Saves a c
Reach_trans r here = r
Reach_trans r (next s step) = next (Reach_trans r s) step
