-- ===== src/Clients/Gone.antt =====
-- What becomes of the job of a page that MediaWiki does not have.
use wikifame.Base.{
  ℕ, ◌≡◌, refl, sym, subst, ◌⊎◌, inl, inr, true, false, some, ◌∷◌, ◌++◌, arith, Bool-cases, All,
  All-updated, Text, codes, decimal,
}
use wikifame.Worker.{Worker, process, report, run_once}
use wikifame.Repository.Queue.{WorkLease, with_id, claim, gives_up, failed_item, fail}
use wikifame.Models.{Clock, later, dead, WorkItem, Database}
use wikifame.Errors.{permanent_data, code, permanent, message, is_wikipeople_error, ok, err}
use wikifame.Upstream.{MediaWiki, World}
use wikifame.Json.{Json, null, get_or, at_zero, truthy}
use wikifame.Clients.{Net, MediaWikiClient, query_member, action}
use wikifame.Clients.Pages.{page_missing, no_pages, page_of, page_params, get_page}
use wikifame.Jobs.OptOut.{listed}
use wikifame.Clients.Wired.{mediawiki_of}

-- Every row with the id is a dead job.
abbrev pub IsDead : ℕ → Database → Type 0
IsDead id db = All (λ (w : WorkItem). w.id ≡ id → w.state ≡ dead) db.work_queue

fail-IsDead :
    (clock : Clock) (lease : WorkLease) (code message : Text) (max_attempts : ℕ) (db : Database)
    → IsDead lease.id (fail clock lease code message max_attempts true db)
unfolding fail gives_up
fail-IsDead clock lease code message max_attempts db =
    All-updated (λ w. w.id ≡ lease.id → w.state ≡ dead) (with_id lease.id)
      (failed_item clock lease code message max_attempts true) db.work_queue (λ w hit same. refl)
      (λ w miss same. absurd (ground arith))

module _ {S : Type 0} (worker : Worker S) where
  -- A page that is refused for good ends its job.
  run_once-IsDead :
      (clock : Clock) (w : World S) (lease : WorkLease) (m : Text)
      → (claim clock worker.worker_id worker.settings.worker_lease_seconds w.db).1 ≡ some lease
      → (worker.mediawiki.get_page lease.wiki lease.page_id w.net).0 ≡ err (permanent_data m)
      → IsDead lease.id (run_once worker clock w).1.db
  unfolding run_once process report code message permanent is_wikipeople_error
  run_once-IsDead clock w lease m taken refused =
      rw (run_once, taken, process, refused)
        (fail-IsDead (later 5 clock) lease (codes "invalid_page") m
          worker.settings.worker_max_attempts
          (claim clock worker.worker_id worker.settings.worker_lease_seconds w.db).0)

module _ {S : Type 0} (c : MediaWikiClient S) where
  -- The answer has no page, or one that it says is missing.
  abbrev pub SaysMissing : Json → Type 0
  SaysMissing received =
      (pages : Json) × (query_member (codes "pages") no_pages received ≡ ok pages)
      × ((truthy pages ≡ false)
          ⊎ ((page : Json) × (missing : Json) × (at_zero pages ≡ ok page)
              × (get_or (codes "missing") null page ≡ ok missing)
              × (truthy missing ≡ true)))

  page_of-missing :
      (wiki : Text) (page_id : ℕ) (received : Json)
      → SaysMissing received
      → page_of c wiki page_id received ≡ err (page_missing wiki page_id)
  unfolding page_of
  page_of-missing wiki page_id received (pages, listed, inl none_listed) =
      rw (page_of, listed, none_listed) refl
  page_of-missing wiki page_id received (pages, listed, inr (page, missing, first, flag, set)) =
      elim (Bool-cases (truthy pages)) [
        | inl some_listed ↦ rw (page_of, listed, some_listed, first, flag, set) refl
        | inr none_listed ↦ rw (page_of, listed, none_listed) refl
      ]

  -- If a worker over the client of MediaWiki claims a job, and the answer about its page has no
  -- page, or one that it says is missing, then every row with the id of the job is dead afterwards,
  -- whatever attempts were left.
  pub run_once-missing :
      (worker : Worker (Net S)) (clock : Clock) (w : World (Net S)) (lease : WorkLease)
      (received : Json)
      → worker.mediawiki ≡ mediawiki_of c
      → (claim clock worker.worker_id worker.settings.worker_lease_seconds w.db).1 ≡ some lease
      → (action c lease.wiki (page_params c lease.page_id) false w.net).0 ≡ ok received
      → SaysMissing received
      → IsDead lease.id (run_once worker clock w).1.db
  unfolding mediawiki_of get_page
  run_once-missing worker clock w lease received wired taken asked missing =
      run_once-IsDead worker clock w lease
        (codes "Page inexistante : " ++ lease.wiki ++ b'/' ∷ decimal lease.page_id) taken
        (subst
          (λ (m : MediaWiki (Net S)).
            (m.get_page lease.wiki lease.page_id w.net).0
            ≡ err (page_missing lease.wiki lease.page_id))
          (sym wired)
          (rw (get_page, asked) (page_of-missing lease.wiki lease.page_id received missing)))
