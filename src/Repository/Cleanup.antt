-- ===== src/Repository/Cleanup.antt =====
-- `Repository.cleanup`: the pruning of closed jobs and of results that a later one replaces.
pub mod Keeps
use wikifame.Base.{ℕ, ◌-◌, ◌*◌, Bool, not, ◌&&◌, List, map, ltb, ◌==◌, length, take, any, filter}
use wikifame.Models.{Time, seconds, Clock, page_eq, AttributionResult, WorkItem, Database}
use wikifame.Repository.Queue.{is_closed}

-- `timedelta(days=n)`
abbrev pub days : ℕ → Time
days n = seconds (n * 86400)

abbrev pub is_stale_job : Time → WorkItem → Bool
is_stale_job cutoff w = is_closed w.state && ltb w.updated_at cutoff

-- The self-join: some result of the same page and policy was computed later.
abbrev pub is_replaced : List AttributionResult → AttributionResult → Bool
is_replaced rows r =
    any (λ newer. page_eq newer.page r.page && ltb r.computed_at newer.computed_at) rows

unfoldable pub is_obsolete : Time → List AttributionResult → AttributionResult → Bool
unfolding any
is_obsolete cutoff rows r = is_replaced rows r && ltb r.computed_at cutoff

-- The `id`s that one run removes: at most ten thousand.
unfoldable pub obsolete_ids : Time → List AttributionResult → List ℕ
unfolding is_obsolete filter
obsolete_ids cutoff rows =
    map (λ (r : AttributionResult). r.id) (take 10000 (filter (is_obsolete cutoff rows) rows))

-- `AttributionResult.id.in_(ids)`
abbrev pub id_in : List ℕ → AttributionResult → Bool
id_in ids r = any (λ i. i == r.id) ids

unfoldable pub remaining_jobs : Clock → ℕ → Database → List WorkItem
unfolding filter
remaining_jobs clock queue_days db =
    filter (λ w. not (is_stale_job (clock 0 - days queue_days) w)) db.work_queue

unfoldable pub remaining_results : Clock → ℕ → Database → List AttributionResult
unfolding obsolete_ids filter any
remaining_results clock superseded_result_days db =
    let ids = obsolete_ids (clock 1 - days superseded_result_days) db.attribution_results in
    filter (λ r. not (id_in ids r)) db.attribution_results

-- The tables after the run, and the numbers of removed jobs and results.
unfoldable pub cleanup : Clock → ℕ → ℕ → Database → Database × ℕ × ℕ
unfolding remaining_jobs remaining_results
cleanup clock queue_days superseded_result_days db =
    let jobs = remaining_jobs clock queue_days db in
    let results = remaining_results clock superseded_result_days db in
    (
      record db { attribution_results = results; work_queue = jobs },
      length db.work_queue - length jobs,
      length db.attribution_results - length results,
    )
