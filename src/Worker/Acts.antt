-- ===== src/Worker/Acts.antt =====
-- The worker changes the tables by the calls of `Repository` only, with results that are sound.
use wikifame.Base.{
  ℕ, ◌≤◌, inl, inr, false, not, Option, none, some, List, [], ◌∷◌, arith, ◌==◌, Bool-cases, length,
  Text, codes,
}
use wikifame.Upstream.{PageMetadata, EditorCount, World, ask, is_namespace}
use wikifame.Errors.{Failure, code, permanent, message, is_wikipeople_error, Result, ok, err}
use wikifame.Repository.Steps.{
  Step, enqueued, claimed, completed, set_aside, failed, saved, registered, Reach, here, next,
  Reach_trans,
}
use wikifame.Models.{Clock, later, Contributor, Database}
use wikifame.Worker.{
  Worker, attribute, result_values, moved_reason, current_key, publish, process, report, settle,
  work_on, run_once, run_forever,
}
use wikifame.Repository.Queue.{WorkLease, claim}
use wikifame.Repository.Results.{save_result}
use wikifame.Repository.Queue.Enqueue.{elsewhere}
use wikifame.Worker.Names.{attribute-short}
use wikifame.Upstream.Advances.{Advances, ask-Advances, store-Advances, >>=-Advances}

module _ {S : Type 0} (worker : Worker S) (clock : Clock) (lease : WorkLease) where
  save_result-Step :
      (page : PageMetadata) (l : List Contributor) (tokens : ℕ) (metric : Text)
      (editors : EditorCount) (bots : ℕ)
      → length l ≤ 3
      → (db : Database)
      → Step db
          (save_result db (result_values worker clock lease page l tokens metric editors bots))
  save_result-Step page l tokens metric editors bots short db =
      saved (result_values worker clock lease page l tokens metric editors bots) db
        (short, ground arith)

  publish-Advances : (page : PageMetadata) → Advances (publish worker clock lease page)
  unfolding publish
  publish-Advances page =
      let counted = worker.mediawiki.get_editor_count lease.wiki page.title in
      let robots = worker.mediawiki.get_bot_contributor_count lease.wiki lease.page_id in
      >>=-Advances (ask (attribute worker lease)) _ (ask-Advances (attribute worker lease))
        (λ w (contributors, total_tokens, metric) e.
          let short = attribute-short worker lease w.net contributors total_tokens metric e in
          >>=-Advances (ask counted) _ (ask-Advances counted) (λ w' editors e'.
            >>=-Advances (ask robots) _ (ask-Advances robots) (λ w'' bots e''. λ now.
              next
                (next
                  (next here (
                    save_result-Step page contributors total_tokens metric editors bots short
                      now.db))
                  (completed lease.id _))
                (registered (later 1 clock) lease.wiki _))))

  process-Advances : Advances (process worker clock lease)
  unfolding process
  process-Advances =
      let got = worker.mediawiki.get_page lease.wiki lease.page_id in
      >>=-Advances (ask got) _ (ask-Advances got) (λ w page e.
        elim (Bool-cases (not (is_namespace 0 page.namespace))) [
          | inl elsewhere ↦ rw elsewhere (
              store-Advances _
                (set_aside clock lease.id (codes "La page n’est plus dans l’espace principal")))
          | inr article ↦ rw article (elim (Bool-cases page.is_redirect) [
            | inl redirect ↦
                rw redirect (
                  store-Advances _ (set_aside clock lease.id (codes "La page est une redirection")))
            | inr plain ↦
                rw plain (elim (Bool-cases (not (page.revision_id == lease.revision_id))) [
                  | inl moved ↦ rw moved (λ now.
                      next
                        (next here
                          (set_aside clock lease.id (moved_reason worker lease page) now.db))
                        (enqueued (later 1 clock) (current_key worker lease page) lease.priority
                          false _))
                  | inr current ↦ rw current (publish-Advances page)
                ])
          ])
        ])

module _ {S : Type 0} (worker : Worker S) where
  report-Step :
      (clock : Clock) (lease : WorkLease) (failure : Failure) (db : Database)
      → Step db (report worker clock lease failure db)
  unfolding report
  report-Step clock lease failure db = elim (Bool-cases (is_wikipeople_error failure)) [
    | inl known ↦
        rw (known, report)
          (failed clock lease (code failure) (message failure) worker.settings.worker_max_attempts
            (permanent failure) db)
    | inr unknown ↦
        rw (unknown, report)
          (failed clock lease (codes "unexpected_error") (message failure)
            worker.settings.worker_max_attempts false db)
  ]

  -- The rest of a round, behind `claim`.
  settle-Reach :
      (clock : Clock) (lease : WorkLease) (r : Result (Unit {0}) × World S) (db : Database)
      → Reach db r.1.db
      → Reach db (settle worker clock lease r).db
  settle-Reach clock lease (ok done, w) db reached = reached
  settle-Reach clock lease (err failure, w) db reached =
      next reached (report-Step (later 5 clock) lease failure w.db)

  work_on-Reach :
      (clock : Clock) (lease? : Option WorkLease) (w : World S)
      → Reach w.db (work_on worker clock lease? w).1.db
  work_on-Reach clock none w = here
  work_on-Reach clock (some lease) w =
      settle-Reach clock lease (process worker (later 1 clock) lease w) w.db
        (process-Advances worker (later 1 clock) lease w)

  run_once-Reach : (clock : Clock) (w : World S) → Reach w.db (run_once worker clock w).1.db
  unfolding run_once
  run_once-Reach clock w =
      let (db, lease?) = claim clock worker.worker_id worker.settings.worker_lease_seconds w.db in
      Reach_trans
        (next here (claimed clock worker.worker_id worker.settings.worker_lease_seconds w.db))
        (work_on-Reach clock lease? (record { db = db; net = w.net }))

  -- Whatever the clients answer or raise, all that a run of the worker does to the tables is a
  -- sequence of writing calls of `Repository`, in which every result that is saved has at most
  -- three names and at least as many contributors.
  pub run_forever-Reach :
      (clocks : List Clock) (w : World S) → Reach w.db (run_forever worker clocks w).db
  unfolding run_forever
  run_forever-Reach [] w = here
  run_forever-Reach (clock ∷ clocks) w =
      Reach_trans (run_once-Reach clock w) (run_forever-Reach clocks (run_once worker clock w).1)
