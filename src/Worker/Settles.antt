-- ===== src/Worker/Settles.antt =====
-- No round leaves the job it took in the hands of the worker.
use wikifame.Base.{
  ℕ, max, ◌≡◌, refl, subst, inl, inr, Bool, true, false, not, ◌&&◌, Option, none, some, arith, ◌==◌,
  Bool-cases, Option-cases, is_some, any, filter, All, All-updated, All-update_where, All-map,
  All-self, Text, codes,
}
use wikifame.Worker.{
  Worker, attribute, result_values, moved_reason, current_key, publish, process, report, settle,
  work_on, run_once,
}
use wikifame.Repository.Queue.{
  WorkLease, is_leased, is_closed, with_id, get_work, is_older_pending, is_newer_live, insert_item,
  set_priority, raise_priority, supersede_older, enqueue_row, enqueue, claim, complete,
  superseded_item, supersede, failed_item, fail,
}
use wikifame.Upstream.{PageMetadata, World, ask, is_namespace}
use wikifame.Models.{Time, Clock, later, RevisionKey, superseded, WorkItem, Database}
use wikifame.Repository.Wikis.{of_wiki, register_active_wiki}
use wikifame.Errors.{
  Failure, code, permanent, message, is_wikipeople_error, Result, ok, err, Exec, and_then, ◌>>=◌,
}
use wikifame.Repository.Results.{get_result, save_result}
use wikifame.Repository.Queue.Enqueue.{elsewhere}

-- No row with the id is leased.
abbrev pub IsSettled : ℕ → Database → Type 0
IsSettled id db = All (λ (w : WorkItem). w.id ≡ id → is_leased w.state ≡ false) db.work_queue

complete-IsSettled : (id : ℕ) (db : Database) → IsSettled id (complete id db)
unfolding complete
complete-IsSettled id db =
    All-map (λ w. not (with_id id w) ≡ true) (filter (λ w. not (with_id id w)) db.work_queue)
      (λ w kept same. absurd (ground arith)) (All-self (λ w. not (with_id id w)) db.work_queue)

supersede-IsSettled :
    (clock : Clock) (id : ℕ) (reason : Text) (db : Database)
    → IsSettled id (supersede clock id reason db)
unfolding supersede
supersede-IsSettled clock id reason db =
    All-updated (λ w. w.id ≡ id → is_leased w.state ≡ false) (with_id id)
      (superseded_item (clock 0) reason) db.work_queue (λ w hit same. refl)
      (λ w miss same. absurd (ground arith))

fail-IsSettled :
    (clock : Clock) (lease : WorkLease) (code message : Text) (max_attempts : ℕ) (permanent : Bool)
    (db : Database)
    → IsSettled lease.id (fail clock lease code message max_attempts permanent db)
unfolding fail
fail-IsSettled clock lease code message max_attempts permanent db =
    All-updated (λ w. w.id ≡ lease.id → is_leased w.state ≡ false) (with_id lease.id)
      (failed_item clock lease code message max_attempts permanent) db.work_queue
      (λ w hit same. ground arith) (λ w miss same. absurd (ground arith))

supersede_older-IsSettled :
    (id : ℕ) (now : Time) (key : RevisionKey) (db : Database)
    → IsSettled id db
    → IsSettled id (supersede_older now key db)
supersede_older-IsSettled id now key db s =
    All-update_where (λ w. w.id ≡ id → is_leased w.state ≡ false) (is_older_pending key)
      (λ w. record w { state = superseded; updated_at = now }) db.work_queue
      (λ w free hit same. refl) s

raise_priority-IsSettled :
    (id : ℕ) (now : Time) (priority : ℕ) (existing : WorkItem) (db : Database)
    → IsSettled id db
    → IsSettled id (raise_priority now priority existing db)
raise_priority-IsSettled id now priority existing db s =
    elim (Bool-cases (is_closed existing.state)) [
      | inl closed ↦ rw closed s
      | inr waiting ↦ rw waiting (
          All-update_where (λ w. w.id ≡ id → is_leased w.state ≡ false) (with_id existing.id)
            (set_priority now (max existing.priority priority)) db.work_queue (λ w free hit. free)
            s)
    ]

enqueue_row-IsSettled :
    (id : ℕ) (clock : Clock) (key : RevisionKey) (priority : ℕ) (db : Database)
    → IsSettled id db
    → IsSettled id (enqueue_row clock key priority db)
unfolding enqueue_row
enqueue_row-IsSettled id clock key priority db s = elim (Option-cases (get_work db key)) [
  | inl absent ↦ elim (Bool-cases (any (is_newer_live key) db.work_queue)) [
    | inl newer ↦ rw (absent, newer, enqueue_row) s
    | inr fresh ↦
        rw (absent, fresh, enqueue_row)
          (supersede_older-IsSettled id (clock 0) key (insert_item clock key priority db)
            ((λ same. refl), s))
  ]
  | inr (existing, found) ↦
      rw (found, enqueue_row)
        (supersede_older-IsSettled id (clock 0) key (raise_priority (clock 0) priority existing db)
          (raise_priority-IsSettled id (clock 0) priority existing db s))
]

enqueue-IsSettled :
    (id : ℕ) (clock : Clock) (key : RevisionKey) (priority : ℕ) (allow_cached_result : Bool)
    (db : Database)
    → IsSettled id db
    → IsSettled id (enqueue clock key priority allow_cached_result db)
unfolding enqueue
enqueue-IsSettled id clock key priority allow_cached_result db s =
    elim (Bool-cases (not allow_cached_result && is_some (get_result db key))) [
      | inl cached ↦ rw (cached, enqueue) s
      | inr needed ↦ rw (needed, enqueue) (enqueue_row-IsSettled id clock key priority db s)
    ]

register_active_wiki-IsSettled :
    (id : ℕ) (clock : Clock) (wiki : Text) (db : Database)
    → IsSettled id db
    → IsSettled id (register_active_wiki clock wiki db).0
unfolding register_active_wiki
register_active_wiki-IsSettled id clock wiki db s =
    elim (Bool-cases (any (of_wiki wiki) db.active_wikis)) [
      | inl known ↦ rw (known, register_active_wiki) s
      | inr new ↦ rw (new, register_active_wiki) s
    ]

module _ {S : Type 0} (worker : Worker S) (clock : Clock) (lease : WorkLease) where
  -- If the computation returns, the job is settled.
  abbrev Settles : {A : Type 0} → Exec (World S) A → Type 0
  Settles {A} m = (w : World S) (a : A) → (m w).0 ≡ ok a → IsSettled lease.id (m w).1.db

  >>=-Settles :
      {A B : Type 0} (m : Exec (World S) A) (f : A → Exec (World S) B)
      → ((a : A) → Settles (f a))
      → Settles (m >>= f)
  >>=-Settles {A} m f rest w b e = go (m w).0 e
    where
      go :
          (r : Result A)
          → (and_then r f (m w).1).0 ≡ ok b
          → IsSettled lease.id (and_then r f (m w).1).1.db
      go (ok a) e = rest a (m w).1 b e
      go (err x) e = absurd (ground arith)

  publish-Settles : (page : PageMetadata) → Settles (publish worker clock lease page)
  unfolding publish
  publish-Settles page =
      >>=-Settles (ask (attribute worker lease)) _ (λ (contributors, total_tokens, metric).
        >>=-Settles (ask (worker.mediawiki.get_editor_count lease.wiki page.title)) _ (λ editors.
          >>=-Settles (ask (worker.mediawiki.get_bot_contributor_count lease.wiki lease.page_id)) _
            (λ bots w a e. register_active_wiki-IsSettled lease.id (later 1 clock) lease.wiki _ (
              complete-IsSettled lease.id (
                save_result w.db (
                  result_values worker clock lease page contributors total_tokens metric editors
                    bots))))))

  process-Settles : Settles (process worker clock lease)
  unfolding process
  process-Settles =
      >>=-Settles (ask (worker.mediawiki.get_page lease.wiki lease.page_id)) _ (λ page w a.
        elim (Bool-cases (not (is_namespace 0 page.namespace))) [
          | inl elsewhere ↦ rw elsewhere (λ e.
              supersede-IsSettled clock lease.id
                (codes "La page n’est plus dans l’espace principal") w.db)
          | inr article ↦ rw article (elim (Bool-cases page.is_redirect) [
            | inl redirect ↦
                rw redirect (λ e.
                  supersede-IsSettled clock lease.id (codes "La page est une redirection") w.db)
            | inr plain ↦
                rw plain (elim (Bool-cases (not (page.revision_id == lease.revision_id))) [
                  | inl moved ↦ rw moved (λ e.
                      enqueue-IsSettled lease.id (later 1 clock) (current_key worker lease page)
                        lease.priority false _
                        (supersede-IsSettled clock lease.id (moved_reason worker lease page) w.db))
                  | inr current ↦ rw current (publish-Settles page w a)
                ])
          ])
        ])

module _ {S : Type 0} (worker : Worker S) where
  report-IsSettled :
      (clock : Clock) (lease : WorkLease) (failure : Failure) (db : Database)
      → IsSettled lease.id (report worker clock lease failure db)
  unfolding report
  report-IsSettled clock lease failure db = elim (Bool-cases (is_wikipeople_error failure)) [
    | inl known ↦
        rw (known, report)
          (fail-IsSettled clock lease (code failure) (message failure)
            worker.settings.worker_max_attempts (permanent failure) db)
    | inr unknown ↦
        rw (unknown, report)
          (fail-IsSettled clock lease (codes "unexpected_error") (message failure)
            worker.settings.worker_max_attempts false db)
  ]

  settle-IsSettled :
      (clock : Clock) (lease : WorkLease) (r : Result (Unit {0}) × World S)
      → ((done : Unit) → r.0 ≡ ok done → IsSettled lease.id r.1.db)
      → IsSettled lease.id (settle worker clock lease r).db
  settle-IsSettled clock lease (ok done, w) h = h done refl
  settle-IsSettled clock lease (err failure, w) h =
      report-IsSettled (later 5 clock) lease failure w.db

  -- If a round claims a job, then whatever the clients answer or raise, no row with its id is
  -- leased after the round, and the round answers that there was work.
  pub run_once-IsSettled :
      (clock : Clock) (w : World S) (lease : WorkLease)
      → (claim clock worker.worker_id worker.settings.worker_lease_seconds w.db).1 ≡ some lease
      → IsSettled lease.id (run_once worker clock w).1.db × ((run_once worker clock w).0 ≡ true)
  unfolding run_once
  run_once-IsSettled clock w lease taken =
      let (db, lease?) = claim clock worker.worker_id worker.settings.worker_lease_seconds w.db in
      go db lease? taken
    where
      go :
          (db : Database) (lease? : Option WorkLease)
          → lease? ≡ some lease
          → IsSettled lease.id (work_on worker clock lease? (record { db = db; net = w.net })).1.db
            × ((work_on worker clock lease? (record { db = db; net = w.net })).0 ≡ true)
      go db none taken = absurd (ground arith)
      go db (some other) taken =
          let same : other ≡ lease = ground arith in
          let start : World S = record { db = db; net = w.net } in
          (
            subst
                (λ l.
                  IsSettled l.id
                    (settle worker clock other (process worker (later 1 clock) other start)).db)
                same
                (settle-IsSettled clock other (process worker (later 1 clock) other start)
                  (process-Settles worker (later 1 clock) other start)),
            refl,
          )
