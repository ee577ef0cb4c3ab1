-- ===== src/Processes/Stored.antt =====
-- The results that the processes store.
use wikifame.Base.{
  ◌≡◌, inl, inr, List, All, All-filter, All-update_where, Bool-cases, Option-cases, ◌==◌, ap, sym,
  subst, any, find?,
}
use wikifame.Models.{AttributionResult, Database, empty_database}
use wikifame.Errors.{code, permanent, message}
use wikifame.Repository.Cleanup.{cleanup}
use wikifame.Repository.Queue.{
  enqueue, enqueue_if_stale, claim, complete, supersede, fail, revive, enqueue_conflict,
}
use wikifame.Repository.Wikis.{of_wiki, register_active_wiki}
use wikifame.Repository.State.{of_key, set_state}
use wikifame.Repository.OptOut.{replace_optout}
use wikifame.Repository.Standing.{replace_standing}
use wikifame.Repository.Results.{get_result, row_of, save_result}
use wikifame.Repository.Steps.{
  IsSound, enqueued, enqueued_if_stale, conflicted, claimed, completed, set_aside, failed, revived,
  saved, cleaned, registered, state_set, optouts_replaced, standings_replaced, Step, Reach, here,
  next,
}
use wikifame.Repository.Steps.Consistent.{
  enqueue-elsewhere, enqueue_if_stale-elsewhere, claim-elsewhere, elsewhere,
}
use wikifame.Processes.{Runs, Runs-Reach}

abbrev pub IsSoundRow : AttributionResult → Type 0
IsSoundRow r = IsSound r.contributors r.distinct_contributors

abbrev AreSound : Database → Type 0
AreSound db = All IsSoundRow db.attribution_results

queue_only : (db db' : Database) → elsewhere db' ≡ elsewhere db → AreSound db → AreSound db'
queue_only db db' same h =
    subst (λ (t : List AttributionResult). All IsSoundRow t) (ap (λ e. e.0) (sym same)) h

Step-AreSound : {db db' : Database} → Step db db' → AreSound db → AreSound db'
unfolding complete supersede fail revive enqueue_conflict cleanup register_active_wiki set_state
    replace_optout replace_standing save_result
Step-AreSound (enqueued clock key priority allow db) h =
    queue_only db (enqueue clock key priority allow db)
      (enqueue-elsewhere clock key priority allow db) h
Step-AreSound (enqueued_if_stale clock key priority fresh db) h =
    queue_only db (enqueue_if_stale clock key priority fresh db).0
      (enqueue_if_stale-elsewhere clock key priority fresh db) h
Step-AreSound (conflicted clock key priority db) h = h
Step-AreSound (claimed clock worker_id lease_seconds db) h =
    queue_only db (claim clock worker_id lease_seconds db).0
      (claim-elsewhere clock worker_id lease_seconds db) h
Step-AreSound (completed work_id db) h = h
Step-AreSound (set_aside clock work_id reason db) h = h
Step-AreSound (failed clock lease code message max_attempts permanent db) h = h
Step-AreSound (revived clock work_id priority db) h = h
Step-AreSound (saved v db s) h = elim (Option-cases (get_result db v.key)) [
  | inl absent ↦ rw (absent, save_result) (s, h)
  | inr (existing, found) ↦
      rw (found, save_result)
        (All-update_where IsSoundRow (λ r. r.id == existing.id) (λ r. row_of r.id v)
          db.attribution_results (λ r _ _. s) h)
]
Step-AreSound (cleaned clock queue_days result_days db) h =
    All-filter IsSoundRow _ db.attribution_results h
Step-AreSound (registered clock wiki db) h =
    elim (Bool-cases (any (of_wiki wiki) db.active_wikis)) [
      | inl known ↦ rw (known, register_active_wiki) h
      | inr new ↦ rw (new, register_active_wiki) h
    ]
Step-AreSound (state_set clock key value db) h =
    elim (Option-cases (find? (of_key key) db.app_state)) [
      | inl new ↦ rw (new, set_state) h
      | inr (row, known) ↦ rw (known, set_state) h
    ]
Step-AreSound (optouts_replaced clock wiki entries db) h = h
Step-AreSound (standings_replaced clock wiki records db) h = h

Reach-AreSound : {start db : Database} → Reach start db → AreSound start → AreSound db
Reach-AreSound here h = h
Reach-AreSound (next r step) h = Step-AreSound step (Reach-AreSound r h)

-- The results that the processes store, from empty tables on.
pub Runs-IsSoundRow :
    {S : Type 0} {db : Database} → Runs S empty_database db → All IsSoundRow db.attribution_results
Runs-IsSoundRow r = Reach-AreSound (Runs-Reach r) tt
