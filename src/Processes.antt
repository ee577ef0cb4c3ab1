-- ===== src/Processes.antt =====
-- The processes of the program side by side: the handlers of app.py, the worker, the jobs, the
-- backfill and the cleanup, each run as a whole on the tables that the others leave.
pub mod Stored
use wikifame.Base.{
  ℕ, inl, inr, Bool, false, Option, List, Bool-cases, Option-cases, sym, subst, Text,
}
use wikifame.Models.{Clock, later, Database}
use wikifame.Sites.{SiteResolver, is_enabled}
use wikifame.Upstream.{World}
use wikifame.Worker.{Worker, run_forever}
use wikifame.Worker.Acts.{run_forever-Reach}
use wikifame.Jobs.OptOut.{OptOutJob, sync_optouts}
use wikifame.Jobs.Standing.{StandingJob, sync_standings}
use wikifame.Jobs.Prewarm.{PrewarmJob, prewarm}
use wikifame.Jobs.Together.{prewarm-Reach}
use wikifame.Jobs.Acts.{sync_optouts-Reach, sync_standings-Reach}
use wikifame.Backfill.{Backfill, backfill_wikis}
use wikifame.Backfill.Acts.{backfill_wikis-Reach}
use wikifame.Repository.Cleanup.{cleanup}
use wikifame.Repository.Results.{get_latest_result}
use wikifame.Repository.Steps.{
  enqueued, enqueued_if_stale, revived, cleaned, Reach, here, next, Reach_trans,
}
use wikifame.Api.{Runtime, PageRequest}
use wikifame.Api.Handlers.{
  positive, dead_work, is_retryable, is_fresh_at, requested, queue_exact, exact_page,
  queue_if_stale, revive_dead, latest_page, page_attribution, page_attribution_by_freshness,
}
use wikifame.Api.Replies.{gated, IsReady, exact_page-cases}

module _ (S : Type 0) where
  -- One process, from the tables that it finds to those that it leaves, whatever the clients answer
  -- or raise.
  pub data Run : Database → Database → Type 0 where
    worked :
        (worker : Worker S) (clocks : List Clock) (w : World S)
        → Run w.db (run_forever worker clocks w).db
    optouts_synced :
        (job : OptOutJob S) (clocks : Text → Clock) (dry_run : Bool) (resolver : SiteResolver)
        (explicit : Option Text) (w : World S)
        → Run w.db (sync_optouts job clocks dry_run resolver explicit w).1.db
    standings_synced :
        (job : StandingJob S) (clocks : Text → Clock) (dry_run : Bool) (resolver : SiteResolver)
        (explicit : Option Text) (w : World S)
        → Run w.db (sync_standings job clocks dry_run resolver explicit w).1.db
    prewarmed :
        (job : PrewarmJob S) (clocks : Text → Clock) (days today : ℕ) (explicit : Option Text)
        (w : World S)
        → Run w.db (prewarm job clocks days today explicit w).1.db
    backfilled :
        (backfill : Backfill S) (clocks : Text → List Clock) (wikis : List Text) (w : World S)
        → Run w.db (backfill_wikis backfill clocks wikis w).1.db
    cleaned_up :
        (clock : Clock) (queue_days result_days : ℕ) (db : Database)
        → Run db (cleanup clock queue_days result_days db).0
    asked :
        (runtime : Runtime) (clock : Clock) (request : PageRequest) (db : Database)
        → Run db (page_attribution runtime clock request db).0
    asked_latest :
        (runtime : Runtime) (clock : Clock) (request : PageRequest) (db : Database)
        → Run db (page_attribution_by_freshness runtime clock request db).0

  pub data Runs (start : Database) : Database → Type 0 where
    idle : Runs start start
    ran : {db db' : Database} → Runs start db → Run db db' → Runs start db'

page_attribution-Reach :
    (runtime : Runtime) (clock : Clock) (request : PageRequest) (db : Database)
    → Reach db (page_attribution runtime clock request db).0
unfolding page_attribution queue_exact
page_attribution-Reach runtime clock request db =
    gated (λ o. Reach db o.0)
      (is_enabled runtime.resolver request.wiki runtime.settings.supported_wikis)
      (positive request.page_id) (λ p. exact_page runtime clock request p db) db here here
      (λ p _.
        exact_page-cases (λ o. Reach db o.0) runtime clock request p db (λ _ _. here) (λ _. here)
          (λ db' _ r.
            next (ready-Reach p db' r)
              (enqueued (later 3 clock) (requested runtime clock request p db) 100 false db')))
  where
    ready-Reach : (p : ℕ) (db' : Database) → IsReady runtime clock request p db db' → Reach db db'
    ready-Reach p db' (inl (same, _)) = subst (λ d. Reach db d) (sym same) here
    ready-Reach p db' (inr (work, _, same)) =
        subst (λ d. Reach db d) (sym same) (next here (revived (later 1 clock) work.id 100 db))

module _ (runtime : Runtime) (clock : Clock) (request : PageRequest) (page_id : ℕ)
    (db : Database) where
  queue_if_stale-Reach :
      (db' : Database)
      → Reach db db'
      → Reach db (queue_if_stale runtime clock request page_id db db')
  unfolding queue_if_stale
  queue_if_stale-Reach db' r = next r (
      enqueued_if_stale (later 3 clock) (requested runtime clock request page_id db) 100
        runtime.settings.page_freshness_seconds db')

  revive_dead-Reach : Reach db (revive_dead runtime clock request page_id db)
  unfolding revive_dead
  revive_dead-Reach =
      elim (Option-cases (dead_work db (requested runtime clock request page_id db))) [
        | inl alive ↦ rw (revive_dead, alive) here
        | inr (work, d) ↦ elim (Bool-cases (is_retryable runtime (clock 0) work)) [
          | inl t ↦ rw (revive_dead, d, t) (next here (revived (later 1 clock) work.id 100 db))
          | inr f ↦ rw (revive_dead, d, f) here
        ]
      ]

  latest_page-Reach : Reach db (latest_page runtime clock request page_id db).0
  unfolding latest_page
  latest_page-Reach =
      let key = requested runtime clock request page_id db in
      elim (Option-cases (get_latest_result db key.page)) [
        | inr (result, s) ↦
            elim (Bool-cases (is_fresh_at runtime clock request page_id db result)) [
              | inl t ↦ rw (latest_page, s, t) here
              | inr f ↦ rw (latest_page, s, f) (queue_if_stale-Reach _ revive_dead-Reach)
            ]
        | inl n ↦ elim (Option-cases (dead_work db key)) [
          | inl alive ↦ rw (latest_page, n, alive) (queue_if_stale-Reach db here)
          | inr (work, d) ↦ elim (Bool-cases (is_retryable runtime (clock 0) work)) [
            | inl t ↦
                rw (latest_page, n, d, t)
                  (queue_if_stale-Reach _ (next here (revived (later 1 clock) work.id 100 db)))
            | inr f ↦ rw (latest_page, n, d, f) here
          ]
        ]
      ]

page_attribution_by_freshness-Reach :
    (runtime : Runtime) (clock : Clock) (request : PageRequest) (db : Database)
    → Reach db (page_attribution_by_freshness runtime clock request db).0
unfolding page_attribution_by_freshness
page_attribution_by_freshness-Reach runtime clock request db =
    gated (λ o. Reach db o.0)
      (is_enabled runtime.resolver request.wiki runtime.settings.supported_wikis)
      (positive request.page_id) (λ p. latest_page runtime clock request p db) db here here
      (λ p _. latest_page-Reach runtime clock request p db)

-- No process changes the tables but by writing methods, and none saves more than three names.
pub Run-Reach : {S : Type 0} {db db' : Database} → Run S db db' → Reach db db'
Run-Reach (worked worker clocks w) = run_forever-Reach worker clocks w
Run-Reach (optouts_synced job clocks dry_run resolver explicit w) =
    sync_optouts-Reach job clocks dry_run resolver explicit w
Run-Reach (standings_synced job clocks dry_run resolver explicit w) =
    sync_standings-Reach job clocks dry_run resolver explicit w
Run-Reach (prewarmed job clocks days today explicit w) =
    prewarm-Reach job clocks days today explicit w
Run-Reach (backfilled backfill clocks wikis w) = backfill_wikis-Reach backfill clocks wikis w
Run-Reach (cleaned_up clock queue_days result_days db) =
    next here (cleaned clock queue_days result_days db)
Run-Reach (asked runtime clock request db) = page_attribution-Reach runtime clock request db
Run-Reach (asked_latest runtime clock request db) =
    page_attribution_by_freshness-Reach runtime clock request db

pub Runs-Reach : {S : Type 0} {start db : Database} → Runs S start db → Reach start db
Runs-Reach idle = here
Runs-Reach (ran r run) = Reach_trans (Runs-Reach r) (Run-Reach run)
