-- ===== src/Repository/Queue/Valid.antt =====
-- The well-formedness of `work_queue`, and that every method keeps it.
use wikifame.Base.{
  ℕ, ◌-◌, ◌≤◌, ◌<◌, ◌≡◌, refl, inl, inr, Bool, true, false, not, ◌&&◌, none, List, arith, leb,
  Bool-cases, Option-cases, is_some, any, filter, update_where, All, Distinct, All-filter,
  All-update_where, All-map, find?-none, Distinct-filter, Distinct-update_where, Text,
}
use wikifame.Models.{Time, seconds, Clock, later, RevisionKey, revision_eq_iff, WorkItem, Database}
use wikifame.Repository.Results.{get_result, get_latest_result}
use wikifame.Repository.Queue.{
  WorkLease, is_leased, is_dead, is_closed, with_key, get_work, is_newer_live, insert_item,
  raise_priority, supersede_older, enqueue_row, enqueue, enqueue_conflict, enqueue_if_stale,
  next_item, claim, complete, supersede, fail, revive,
}

-- One row: its lease columns are set exactly while it is leased, a leased row has been attempted,
-- and a dead one says why.
pub record IsItem (bound : ℕ) (w : WorkItem) : Type 0 where
  pub id_known : w.id < bound
  pub leased_until : is_some w.lease_until ≡ is_leased w.state
  pub leased_by : is_some w.worker_id ≡ is_leased w.state
  pub attempted : is_leased w.state ≡ true → 1 ≤ w.attempts
  pub explained : is_dead w.state ≡ true → is_some w.error_code ≡ true

pub record IsQueue (bound : ℕ) (rows : List WorkItem) : Type 0 where
  pub items : All (IsItem bound) rows
  pub ids : Distinct (λ (w : WorkItem). w.id) rows
  pub keys : Distinct (λ (w : WorkItem). w.key) rows

abbrev pub IsQueueValid : Database → Type 0
IsQueueValid db = IsQueue db.next_work_id db.work_queue

-- An update keeps the invariant if it leaves `id` and the key alone and keeps each row well formed.
pub update_where-IsQueue :
    {bound : ℕ} (p : WorkItem → Bool) (f : WorkItem → WorkItem) (rows : List WorkItem)
    → ((w : WorkItem) → (f w).id ≡ w.id)
    → ((w : WorkItem) → (f w).key ≡ w.key)
    → ((w : WorkItem) → IsItem bound w → p w ≡ true → IsItem bound (f w))
    → IsQueue bound rows
    → IsQueue bound (update_where p f rows)
update_where-IsQueue {bound} p f rows same_id same_key keep v = record {
  items = All-update_where (IsItem bound) p f rows keep v.items;
  ids = Distinct-update_where (λ w. w.id) p f rows same_id v.ids;
  keys = Distinct-update_where (λ w. w.key) p f rows same_key v.keys;
}

pub filter-IsQueue :
    {bound : ℕ} (p : WorkItem → Bool) (rows : List WorkItem)
    → IsQueue bound rows
    → IsQueue bound (filter p rows)
filter-IsQueue {bound} p rows v = record {
  items = All-filter (IsItem bound) p rows v.items;
  ids = Distinct-filter (λ w. w.id) p rows v.ids;
  keys = Distinct-filter (λ w. w.key) p rows v.keys;
}

-- `claim` keeps a well-formed queue well formed: the row it takes gets a lease and a worker
-- together.
pub claim-IsQueueValid :
    (clock : Clock) (worker_id : Text) (lease_seconds : ℕ) (db : Database)
    → IsQueueValid db
    → IsQueueValid (claim clock worker_id lease_seconds db).0
unfolding claim
claim-IsQueueValid clock worker_id lease_seconds db v =
    elim (Option-cases (next_item (clock 0) db)) [
      | inl n ↦ rw (n, claim) v
      | inr (item, s) ↦
          rw (s, claim)
            (update_where-IsQueue _ _ db.work_queue (λ w. refl) (λ w. refl) (λ w i e. ground arith)
              v)
    ]

-- `complete` keeps a well-formed queue well formed.
pub complete-IsQueueValid :
    (work_id : ℕ) (db : Database) → IsQueueValid db → IsQueueValid (complete work_id db)
unfolding complete
complete-IsQueueValid work_id db v = filter-IsQueue _ db.work_queue v

-- `supersede` keeps a well-formed queue well formed: the row loses its lease.
pub supersede-IsQueueValid :
    (clock : Clock) (work_id : ℕ) (reason : Text) (db : Database)
    → IsQueueValid db
    → IsQueueValid (supersede clock work_id reason db)
unfolding supersede
supersede-IsQueueValid clock work_id reason db v =
    update_where-IsQueue _ _ db.work_queue (λ w. refl) (λ w. refl) (λ w i e. ground arith) v

-- `fail` keeps a well-formed queue well formed: a job that dies has an error code and no lease.
pub fail-IsQueueValid :
    (clock : Clock) (lease : WorkLease) (code message : Text) (max_attempts : ℕ) (permanent : Bool)
    (db : Database)
    → IsQueueValid db
    → IsQueueValid (fail clock lease code message max_attempts permanent db)
unfolding fail
fail-IsQueueValid clock lease code message max_attempts permanent db v =
    update_where-IsQueue _ _ db.work_queue (λ w. refl) (λ w. refl) (λ w i e. ground arith) v

-- `revive` keeps a well-formed queue well formed.
pub revive-IsQueueValid :
    (clock : Clock) (work_id priority : ℕ) (db : Database)
    → IsQueueValid db
    → IsQueueValid (revive clock work_id priority db)
unfolding revive
revive-IsQueueValid clock work_id priority db v =
    update_where-IsQueue _ _ db.work_queue (λ w. refl) (λ w. refl) (λ w i e. ground arith) v

-- The handler of `IntegrityError` keeps a well-formed queue well formed.
pub enqueue_conflict-IsQueueValid :
    (clock : Clock) (key : RevisionKey) (priority : ℕ) (db : Database)
    → IsQueueValid db
    → IsQueueValid (enqueue_conflict clock key priority db)
unfolding enqueue_conflict
enqueue_conflict-IsQueueValid clock key priority db v =
    update_where-IsQueue _ _ db.work_queue (λ w. refl) (λ w. refl) (λ w i e. ground arith) v

supersede_older-IsQueueValid :
    (now : Time) (key : RevisionKey) (db : Database)
    → IsQueueValid db
    → IsQueueValid (supersede_older now key db)
supersede_older-IsQueueValid now key db v =
    update_where-IsQueue _ _ db.work_queue (λ w. refl) (λ w. refl) (λ w i e. ground arith) v

raise_priority-IsQueueValid :
    (now : Time) (priority : ℕ) (existing : WorkItem) (db : Database)
    → IsQueueValid db
    → IsQueueValid (raise_priority now priority existing db)
raise_priority-IsQueueValid now priority existing db v =
    elim (Bool-cases (is_closed existing.state)) [
      | inl closed ↦ rw closed v
      | inr open' ↦
          rw open' (
            update_where-IsQueue _ _ db.work_queue (λ w. refl) (λ w. refl) (λ w i e. ground arith)
              v)
    ]

-- A new row: its id is above all others', and its key is new.
insert_item-IsQueueValid :
    (clock : Clock) (key : RevisionKey) (priority : ℕ) (db : Database)
    → get_work db key ≡ none
    → IsQueueValid db
    → IsQueueValid (insert_item clock key priority db)
unfolding get_work
insert_item-IsQueueValid clock key priority db absent v = record {
  items =
      (ground arith, All-map (IsItem db.next_work_id) db.work_queue (λ w i. ground arith) v.items);
  ids = (All-map (IsItem db.next_work_id) db.work_queue (λ w i. ground arith) v.items, v.ids);
  keys = (
    All-map (λ w. with_key key w ≡ false) db.work_queue
        (λ w n. ground (arith, revision_eq_iff w.key key))
        (find?-none (with_key key) db.work_queue absent),
    v.keys,
  );
}

pub enqueue_row-IsQueueValid :
    (clock : Clock) (key : RevisionKey) (priority : ℕ) (db : Database)
    → IsQueueValid db
    → IsQueueValid (enqueue_row clock key priority db)
unfolding enqueue_row
enqueue_row-IsQueueValid clock key priority db v = elim (Option-cases (get_work db key)) [
  | inl absent ↦ elim (Bool-cases (any (is_newer_live key) db.work_queue)) [
    | inl newer ↦ rw (absent, newer, enqueue_row) v
    | inr fresh ↦
        rw (absent, fresh, enqueue_row)
          (supersede_older-IsQueueValid (clock 0) key (insert_item clock key priority db)
            (insert_item-IsQueueValid clock key priority db absent v))
  ]
  | inr (existing, found) ↦
      rw (found, enqueue_row)
        (supersede_older-IsQueueValid (clock 0) key (raise_priority (clock 0) priority existing db)
          (raise_priority-IsQueueValid (clock 0) priority existing db v))
]

-- `enqueue` keeps a well-formed queue well formed: one row for an id and for a revision under a
-- policy, leases on leased rows only, an error on dead rows.
pub enqueue-IsQueueValid :
    (clock : Clock) (key : RevisionKey) (priority : ℕ) (allow_cached_result : Bool) (db : Database)
    → IsQueueValid db
    → IsQueueValid (enqueue clock key priority allow_cached_result db)
unfolding enqueue
enqueue-IsQueueValid clock key priority allow_cached_result db v =
    elim (Bool-cases (not allow_cached_result && is_some (get_result db key))) [
      | inl cached ↦ rw (cached, enqueue) v
      | inr needed ↦ rw (needed, enqueue) (enqueue_row-IsQueueValid clock key priority db v)
    ]

-- `enqueue_if_stale` keeps a well-formed queue well formed.
pub enqueue_if_stale-IsQueueValid :
    (clock : Clock) (key : RevisionKey) (priority freshness_seconds : ℕ) (db : Database)
    → IsQueueValid db
    → IsQueueValid (enqueue_if_stale clock key priority freshness_seconds db).0
unfolding enqueue_if_stale
enqueue_if_stale-IsQueueValid clock key priority freshness_seconds db v =
    let queued = enqueue-IsQueueValid (later 1 clock) key priority true db v in
    elim (Option-cases (get_latest_result db key.page)) [
      | inl absent ↦ rw (absent, enqueue_if_stale) queued
      | inr (latest, found) ↦
          elim (Bool-cases (leb (clock 0 - seconds freshness_seconds) latest.computed_at)) [
            | inl fresh ↦ rw (found, fresh, enqueue_if_stale) v
            | inr stale ↦ rw (found, stale, enqueue_if_stale) queued
          ]
    ]
