-- ===== src/Repository/Queue/Enqueue.antt =====
-- What `enqueue` does to the rows of its page and to all others.
use wikifame.Base.{
  ℕ, ◌≤◌, max, ◌≡◌, refl, ◌∙◌, ◌⊎◌, inl, inr, Bool, true, false, not, ◌&&◌, none, some, arith,
  if◌then◌else◌, Bool-cases, Option-cases, is_some, any, filter, find?, All, All-updated, All-any,
  find?-update_where, filter-update_where, find?-update_apart, find?-Member, Distinct-unique,
  All-map, find?-holds,
}
use wikifame.Models.{
  Time, Clock, RevisionKey, page_eq, page_eq_iff, revision_eq_iff, revision_eq_refl, superseded,
  WorkItem, Database,
}
use wikifame.Repository.Queue.Valid.{IsQueueValid}
use wikifame.Repository.Results.{get_result}
use wikifame.Repository.Queue.{
  is_live, is_closed, with_key, with_id, get_work, is_older_pending, is_newer_live, new_item,
  insert_item, set_priority, raise_priority, supersede_older, enqueue_row, enqueue,
}

supersede_older_lem :
    (now : Time) (key : RevisionKey) (db : Database)
    → All (λ w. is_older_pending key w ≡ false) (supersede_older now key db).work_queue
supersede_older_lem now key db =
    All-updated (λ w. is_older_pending key w ≡ false) (is_older_pending key)
      (λ w. record w { state = superseded; updated_at = now }) db.work_queue (λ w hit. ground arith)
      (λ w miss. miss)

-- After `enqueue_row` no older revision of the page is left pending, unless the key had no row and
-- a newer revision of the page was waiting: then nothing changes.
pub enqueue_row_supersedes :
    (clock : Clock) (key : RevisionKey) (priority : ℕ) (db : Database)
    → ((get_work db key ≡ none)
        × (any (is_newer_live key) db.work_queue ≡ true)
        × (enqueue_row clock key priority db ≡ db))
      ⊎ All (λ w. is_older_pending key w ≡ false) (enqueue_row clock key priority db).work_queue
unfolding enqueue_row
enqueue_row_supersedes clock key priority db = elim (Option-cases (get_work db key)) [
  | inl absent ↦ elim (Bool-cases (any (is_newer_live key) db.work_queue)) [
    | inl newer ↦ inl (absent, newer, rw (absent, newer, enqueue_row) refl)
    | inr fresh ↦ inr (
        rw (absent, fresh, enqueue_row)
          (supersede_older_lem (clock 0) key (insert_item clock key priority db)))
  ]
  | inr (existing, found) ↦ inr (
      rw (found, enqueue_row)
        (supersede_older_lem (clock 0) key (raise_priority (clock 0) priority existing db)))
]

-- The row of the key itself is not touched by superseding older ones.
get_work-supersede_older :
    (now : Time) (key : RevisionKey) (db : Database)
    → get_work (supersede_older now key db) key ≡ get_work db key
unfolding get_work
get_work-supersede_older now key db =
    find?-update_apart (with_key key) (is_older_pending key)
      (λ w. record w { state = superseded; updated_at = now }) db.work_queue (λ w. refl)
      (λ w hit. ground (arith, revision_eq_iff w.key key))

get_work-insert_item :
    (clock : Clock) (key : RevisionKey) (priority : ℕ) (db : Database)
    → get_work (insert_item clock key priority db) key
      ≡ some (new_item clock db.next_work_id key priority)
unfolding get_work
get_work-insert_item clock key priority db = rw (revision_eq_refl, find?) refl

get_work-raise_priority :
    (now : Time) (key : RevisionKey) (priority : ℕ) (existing : WorkItem) (db : Database)
    → get_work db key ≡ some existing
    → get_work (raise_priority now priority existing db) key
      ≡ some (
          if is_closed existing.state
          then existing
          else set_priority now (max existing.priority priority) existing)
unfolding get_work
get_work-raise_priority now key priority existing db found =
    elim (Bool-cases (is_closed existing.state)) [
      | inl closed ↦ rw closed found
      | inr open' ↦ rw open' (
          find?-update_where (with_key key) (with_id existing.id)
            (set_priority now (max existing.priority priority)) db.work_queue (λ w. refl)
          ∙ rw found (ground arith))
    ]

-- After `enqueue_row` the key has a row, which was closed and is as it was before or is live with
-- at least the priority asked for; or the key had no row and a newer revision of the page was
-- waiting.
pub get_work-enqueue_row :
    (clock : Clock) (key : RevisionKey) (priority : ℕ) (db : Database)
    → ((w : WorkItem) × (get_work (enqueue_row clock key priority db) key ≡ some w)
        × ((is_closed w.state ≡ true) × (get_work db key ≡ some w)
            ⊎ (is_live w.state ≡ true) × (priority ≤ w.priority)))
      ⊎ ((get_work db key ≡ none) × (any (is_newer_live key) db.work_queue ≡ true))
unfolding enqueue_row
get_work-enqueue_row clock key priority db = elim (Option-cases (get_work db key)) [
  | inl absent ↦ elim (Bool-cases (any (is_newer_live key) db.work_queue)) [
    | inl newer ↦ inr (absent, newer)
    | inr fresh ↦ inl (
      new_item clock db.next_work_id key priority,
      rw (absent, fresh, enqueue_row)
          (get_work-supersede_older (clock 0) key (insert_item clock key priority db)
            ∙ get_work-insert_item clock key priority db),
      inr (refl, omega arith),
    )
  ]
  | inr (existing, found) ↦
      let after : get_work (enqueue_row clock key priority db) key
          ≡ some (
              if is_closed existing.state
              then existing
              else set_priority (clock 0) (max existing.priority priority) existing) =
        rw (found, enqueue_row)
          (get_work-supersede_older (clock 0) key (raise_priority (clock 0) priority existing db)
            ∙ get_work-raise_priority (clock 0) key priority existing db found) in
      elim (Bool-cases (is_closed existing.state)) [
        | inl closed ↦ inl (existing, rw closed at after, inl (closed, found))
        | inr open' ↦ inl (
          set_priority (clock 0) (max existing.priority priority) existing,
          rw open' at after,
          inr (ground arith, omega arith),
        )
      ]
]

-- Rows of other pages.
abbrev pub elsewhere : RevisionKey → WorkItem → Bool
elsewhere key w = not (page_eq w.page key.page)

supersede_older_frame :
    (now : Time) (key : RevisionKey) (db : Database)
    → filter (elsewhere key) (supersede_older now key db).work_queue
      ≡ filter (elsewhere key) db.work_queue
supersede_older_frame now key db =
    filter-update_where (elsewhere key) (is_older_pending key)
      (λ w. record w { state = superseded; updated_at = now }) db.work_queue (λ w. refl)
      (All-any _ db.work_queue (λ w other. ground arith))

raise_priority_frame :
    (now : Time) (key : RevisionKey) (priority : ℕ) (existing : WorkItem) (db : Database)
    → IsQueueValid db
    → get_work db key ≡ some existing
    → filter (elsewhere key) (raise_priority now priority existing db).work_queue
      ≡ filter (elsewhere key) db.work_queue
unfolding get_work
raise_priority_frame now key priority existing db v found =
    let only =
      Distinct-unique (λ (w : WorkItem). w.id) db.work_queue existing v.ids
        (find?-Member (with_key key) db.work_queue found) in
    let here = find?-holds (with_key key) db.work_queue found in
    elim (Bool-cases (is_closed existing.state)) [
      | inl closed ↦ rw closed refl
      | inr open' ↦ rw open' (
          filter-update_where (elsewhere key) (with_id existing.id)
            (set_priority now (max existing.priority priority)) db.work_queue (λ w. refl)
            (All-map (λ w. w.id ≡ existing.id → w ≡ existing) db.work_queue
              (λ w one other.
                ground (arith, revision_eq_iff existing.key key, page_eq_iff w.page key.page))
              only))
    ]

enqueue_row_frame :
    (clock : Clock) (key : RevisionKey) (priority : ℕ) (db : Database)
    → IsQueueValid db
    → (filter (elsewhere key) (enqueue_row clock key priority db).work_queue
        ≡ filter (elsewhere key) db.work_queue)
      × ((enqueue_row clock key priority db).attribution_results ≡ db.attribution_results)
unfolding enqueue_row
enqueue_row_frame clock key priority db v = elim (Option-cases (get_work db key)) [
  | inl absent ↦ elim (Bool-cases (any (is_newer_live key) db.work_queue)) [
    | inl newer ↦ rw (absent, newer, enqueue_row) (refl, refl)
    | inr fresh ↦
        rw (absent, fresh, enqueue_row)
          (
            supersede_older_frame (clock 0) key (insert_item clock key priority db)
                ∙ unfold filter in ground (arith, page_eq_iff key.page key.page),
            refl,
          )
  ]
  | inr (existing, found) ↦
      rw (found, enqueue_row)
        (
          supersede_older_frame (clock 0) key (raise_priority (clock 0) priority existing db)
              ∙ raise_priority_frame (clock 0) key priority existing db v found,
          ground arith,
        )
]

-- On a well-formed queue `enqueue` leaves the rows of other pages, and the stored results, as they
-- are.
pub enqueue_frame :
    (clock : Clock) (key : RevisionKey) (priority : ℕ) (allow_cached_result : Bool) (db : Database)
    → IsQueueValid db
    → (filter (elsewhere key) (enqueue clock key priority allow_cached_result db).work_queue
        ≡ filter (elsewhere key) db.work_queue)
      × ((enqueue clock key priority allow_cached_result db).attribution_results
          ≡ db.attribution_results)
unfolding enqueue
enqueue_frame clock key priority allow_cached_result db v =
    elim (Bool-cases (not allow_cached_result && is_some (get_result db key))) [
      | inl cached ↦ rw (cached, enqueue) (refl, refl)
      | inr needed ↦ rw (needed, enqueue) (enqueue_row_frame clock key priority db v)
    ]
