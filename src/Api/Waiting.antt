-- ===== src/Api/Waiting.antt =====
-- What the 202 of `page_attribution` promises.
use wikifame.Base.{
  ℕ, ◌≤◌, ◌≡◌, refl, sym, ap, ◌∙◌, subst, inl, inr, true, false, ◌&&◌, false≢true, none, some,
  none-ne-some, some-ne-none, some-injective, arith, if◌then◌else◌, Bool-cases, Option-cases, any,
  find?-update_where,
}
use mathlib.Core.Option
use wikifame.Models.{
  Clock, later, RevisionKey, WorkState, pending, leased, dead, superseded, WorkItem, Database,
}
use wikifame.Repository.Queue.{
  is_dead, is_live, is_closed, with_key, with_id, get_work, is_newer_live, enqueue_row, enqueue,
  revived_item, revive,
}
use wikifame.Repository.Queue.Enqueue.{get_work-enqueue_row}
use wikifame.Api.{Reply, Runtime, PageRequest}
use wikifame.Api.Replies.{is_waiting, gated, answer_settles, IsReady, exact_page-cases}
use wikifame.Repository.Results.{get_result}
use wikifame.Sites.{is_enabled}
use wikifame.Api.Handlers.{
  positive, dead_work, requested, queue_exact, exact_page, page_attribution,
}

dead_work_inv :
    (db : Database) (key : RevisionKey) (work : WorkItem)
    → dead_work db key ≡ some work
    → (get_work db key ≡ some work) × (is_dead work.state ≡ true)
dead_work_inv db key work e = elim (Option-cases (get_work db key)) [
  | inl n ↦ absurd (none-ne-some _ (rw (dead_work, n) at e))
  | inr (w, s) ↦ elim (Bool-cases (is_dead w.state)) [
    | inl t ↦
        let same : w ≡ work = some-injective _ _ (rw t at (rw (dead_work, s) at e)) in
        (s ∙ ap some same, subst (λ (x : WorkItem). is_dead x.state ≡ true) same t)
    | inr f ↦ absurd (none-ne-some _ (rw f at (rw (dead_work, s) at e)))
  ]
]

get_work-revive :
    (clock : Clock) (db : Database) (key : RevisionKey) (work : WorkItem)
    → get_work db key ≡ some work
    → is_dead work.state ≡ true
    → get_work (revive clock work.id 100 db) key ≡ some (revived_item clock 100 work)
unfolding get_work revive
get_work-revive clock db key work found is_gone =
    find?-update_where (with_key key) (λ w. with_id work.id w && is_dead w.state)
      (revived_item clock 100) db.work_queue (λ w. refl)
    ∙ ap
        (Option.map
          (λ w. if with_id work.id w && is_dead w.state then revived_item clock 100 w else w))
        found
    ∙ ap some (rw is_gone (ground arith))

-- Where a request stands after a 202: its own row is live with the priority of a reader's request,
-- or superseded, or there is none because a newer revision of the page is waiting.
pub data IsAwaited (key : RevisionKey) (db : Database) : Type 0 where
  live :
      (w : WorkItem)
      → get_work db key ≡ some w
      → is_live w.state ≡ true
      → 100 ≤ w.priority
      → IsAwaited key db
  replaced : (w : WorkItem) → get_work db key ≡ some w → w.state ≡ superseded → IsAwaited key db
  overtaken :
      get_work db key ≡ none → any (is_newer_live key) db.work_queue ≡ true → IsAwaited key db

closed_cases : (s : WorkState) → is_closed s ≡ true → is_dead s ≡ false → s ≡ superseded
closed_cases superseded c d = refl
closed_cases pending c d = absurd (false≢true c)
closed_cases leased c d = absurd (false≢true c)
closed_cases dead c d = absurd (false≢true (sym d))

not_dead :
    (db : Database) (key : RevisionKey) (w : WorkItem)
    → dead_work db key ≡ none
    → get_work db key ≡ some w
    → is_dead w.state ≡ false
not_dead db key w alive found = elim (Bool-cases (is_dead w.state)) [
  | inr f ↦ f
  | inl t ↦ absurd (some-ne-none _ (rw t at (rw (dead_work, found) at alive)))
]

enqueue_row-IsAwaited :
    (clock : Clock) (key : RevisionKey) (db : Database)
    → dead_work db key ≡ none
    → IsAwaited key (enqueue_row clock key 100 db)
enqueue_row-IsAwaited clock key db alive = elim (get_work-enqueue_row clock key 100 db) [
  | inl (w, found, inr (on, high)) ↦ live w found on high
  | inl (w, found, inl (shut, before)) ↦
      replaced w found (closed_cases w.state shut (not_dead db key w alive before))
  | inr (absent, newer) ↦
      overtaken (unfold enqueue_row in rw (absent, newer, enqueue_row) absent)
        (unfold enqueue_row in rw (absent, newer, enqueue_row) newer)
]

revived_row-IsAwaited :
    (clock clock' : Clock) (key : RevisionKey) (db : Database) (work : WorkItem)
    → dead_work db key ≡ some work
    → IsAwaited key (enqueue_row clock key 100 (revive clock' work.id 100 db))
revived_row-IsAwaited clock clock' key db work gone =
    let (found, is_gone) = dead_work_inv db key work gone in
    let again = get_work-revive clock' db key work found is_gone in
    enqueue_row-IsAwaited clock key (revive clock' work.id 100 db) (rw (dead_work, again) refl)

queue_exact-IsAwaited :
    (runtime : Runtime) (clock : Clock) (request : PageRequest) (page_id : ℕ) (db db' : Database)
    → get_result db (requested runtime clock request page_id db) ≡ none
    → IsReady runtime clock request page_id db db'
    → IsAwaited
        (requested runtime clock request page_id db)
        (queue_exact runtime clock request page_id db db')
unfolding queue_exact revive
queue_exact-IsAwaited runtime clock request page_id db db' n (inl (same, alive)) =
    rw (enqueue, same, n) (enqueue_row-IsAwaited (later 3 clock) _ db alive)
queue_exact-IsAwaited runtime clock request page_id db db' n (inr (work, gone, same)) =
    rw (enqueue, same, n) (revived_row-IsAwaited (later 3 clock) (later 1 clock) _ db work gone)

-- After a 202 of `GET /v1/…` the page number is positive and the revision that the request names
-- is awaited: its row is live with at least the priority of a reader, or superseded, or it has no
-- row and a newer revision of the page is waiting.
pub page_attribution-IsAwaited :
    (runtime : Runtime) (clock : Clock) (request : PageRequest) (db : Database)
    → is_waiting (page_attribution runtime clock request db).1 ≡ true
    → (page_id : ℕ) × (positive request.page_id ≡ some page_id)
      × IsAwaited
          (requested runtime clock request page_id db)
          (page_attribution runtime clock request db).0
unfolding page_attribution
page_attribution-IsAwaited runtime clock request db e =
    gated Goal (is_enabled runtime.resolver request.wiki runtime.settings.supported_wikis)
      (positive request.page_id) (λ p. exact_page runtime clock request p db) db
      (λ h. absurd (false≢true h)) (λ h. absurd (false≢true h))
      (λ p accepted.
        exact_page-cases Goal runtime clock request p db
          (λ result s h.
            absurd (false≢true (sym (answer_settles runtime request.if_none_match _ _) ∙ h)))
          (λ work h. absurd (false≢true h))
          (λ db' n r h. (p, accepted, queue_exact-IsAwaited runtime clock request p db db' n r)))
      e
  where
    Goal : Database × Reply → Type 0
    Goal o =
        is_waiting o.1 ≡ true
        → (page_id : ℕ) × (positive request.page_id ≡ some page_id)
          × IsAwaited (requested runtime clock request page_id db) o.0
