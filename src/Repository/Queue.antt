-- ===== src/Repository/Queue.antt =====
-- The methods of `Repository` on `work_queue`. Each takes the readings of `utcnow()` it makes.
pub mod Valid
pub mod Retry
pub mod Enqueue
pub mod Claim
use wikifame.Base.{
  ℕ, ◌+◌, ◌-◌, ◌*◌, ◌^◌, min, max, Bool, true, false, not, ◌&&◌, ◌||◌, Option, none, some, List,
  ◌∷◌, ltb, leb, ◌==◌, if◌then◌else◌, is_some, take, any, filter, find?, first_by, update_where,
  Text, codes,
}
use wikifame.Models.{
  Time, seconds, Clock, later, RevisionKey, page_eq, revision_eq, WorkState, pending, leased, dead,
  superseded, WorkItem, Database,
}
use wikifame.Repository.Results.{get_result, get_latest_result}

pub record WorkLease : Type 0 where
  pub id : ℕ
  pub key : RevisionKey
  pub open key use *
  pub priority : ℕ
  pub attempts : ℕ

abbrev pub is_pending : WorkState → Bool
is_pending pending = true
is_pending _ = false

abbrev pub is_leased : WorkState → Bool
is_leased leased = true
is_leased _ = false

abbrev pub is_dead : WorkState → Bool
is_dead dead = true
is_dead _ = false

-- `state in {"pending", "leased"}`
abbrev pub is_live : WorkState → Bool
is_live s = is_pending s || is_leased s

-- `state in {"dead", "superseded"}`
abbrev pub is_closed : WorkState → Bool
is_closed s = not (is_live s)

abbrev pub with_key : RevisionKey → WorkItem → Bool
with_key key w = revision_eq w.key key

abbrev pub with_id : ℕ → WorkItem → Bool
with_id id w = w.id == id

unfoldable pub get_work : Database → RevisionKey → Option WorkItem
unfolding find?
get_work db key = find? (with_key key) db.work_queue

abbrev pub set_queue : Database → List WorkItem → Database
set_queue db rows = record db { work_queue = rows }

-- The rows that a newer revision supersedes, and those that make an older one superfluous.
abbrev pub is_older_pending : RevisionKey → WorkItem → Bool
is_older_pending key w =
    page_eq w.page key.page && ltb w.revision_id key.revision_id && is_pending w.state

abbrev pub is_newer_live : RevisionKey → WorkItem → Bool
is_newer_live key w =
    page_eq w.page key.page && ltb key.revision_id w.revision_id && is_live w.state

abbrev pub new_item : Clock → ℕ → RevisionKey → ℕ → WorkItem
new_item clock id key priority = record {
  id = id;
  key = key;
  priority = priority;
  state = pending;
  attempts = 0;
  available_at = clock 0;
  lease_until = none;
  worker_id = none;
  error_code = none;
  last_error = none;
  is_permanent = false;
  created_at = clock 1;
  updated_at = clock 2;
}

abbrev pub insert_item : Clock → RevisionKey → ℕ → Database → Database
insert_item clock key priority db = record db {
  work_queue = new_item clock db.next_work_id key priority ∷ db.work_queue;
  next_work_id = db.next_work_id + 1;
}

abbrev pub set_priority : Time → ℕ → WorkItem → WorkItem
set_priority now priority w = record w { priority = priority; updated_at = now }

-- The branch `elif existing.state not in {"dead", "superseded"}`.
abbrev pub raise_priority : Time → ℕ → WorkItem → Database → Database
raise_priority now priority existing db =
    if is_closed existing.state
    then db
    else set_queue db (
        update_where (with_id existing.id) (set_priority now (max existing.priority priority))
          db.work_queue)

abbrev pub supersede_older : Time → RevisionKey → Database → Database
supersede_older now key db = set_queue db (
    update_where (is_older_pending key) (λ w. record w { state = superseded; updated_at = now })
      db.work_queue)

-- The transaction of `enqueue` on tables that no other session changes while it runs.
unfoldable pub enqueue_row : Clock → RevisionKey → ℕ → Database → Database
unfolding get_work update_where any
enqueue_row clock key priority db = elim (get_work db key) [
  | none ↦
      if any (is_newer_live key) db.work_queue
      then db
      else supersede_older (clock 0) key (insert_item clock key priority db)
  | some existing ↦ supersede_older (clock 0) key (raise_priority (clock 0) priority existing db)
]

unfoldable pub enqueue : Clock → RevisionKey → ℕ → Bool → Database → Database
unfolding get_result enqueue_row
enqueue clock key priority allow_cached_result db =
    if not allow_cached_result && is_some (get_result db key)
    then db
    else enqueue_row clock key priority db

-- The handler of `IntegrityError`: the insertion met a row that another session had added after
-- the transaction looked for one.
unfoldable pub enqueue_conflict : Clock → RevisionKey → ℕ → Database → Database
unfolding update_where
enqueue_conflict clock key priority db =
    set_queue db (update_where (with_key key) (set_priority (clock 0) priority) db.work_queue)

-- Reads the clock once itself; `enqueue` goes on from the second reading.
unfoldable pub enqueue_if_stale : Clock → RevisionKey → ℕ → ℕ → Database → Database × Bool
unfolding get_latest_result enqueue get_work
enqueue_if_stale clock key priority freshness_seconds db =
    let cutoff = clock 0 - seconds freshness_seconds in
    let db' = enqueue (later 1 clock) key priority true db in
    let queued : Bool = elim (get_work db' key) [ none ↦ false | some work ↦ is_live work.state ] in
    elim (get_latest_result db key.page) [
      | none ↦ (db', queued)
      | some latest ↦ if leb cutoff latest.computed_at then (db, false) else (db', queued)
    ]

-- What `claim` may take: due pending rows, and leased rows whose lease has run out.
unfoldable pub is_claimable : Time → WorkItem → Bool
is_claimable now w =
    (is_pending w.state && leb w.available_at now)
    || (is_leased w.state && elim w.lease_until [ none ↦ false | some t ↦ ltb t now ])

-- `priority DESC, created_at ASC`
unfoldable pub goes_before : WorkItem → WorkItem → Bool
goes_before a b =
    ltb b.priority a.priority || (a.priority == b.priority && ltb a.created_at b.created_at)

abbrev pub lease_item : Text → Time → ℕ → WorkItem → WorkItem
lease_item worker_id now lease_seconds w = record w {
  state = leased;
  worker_id = some worker_id;
  lease_until = some (now + seconds lease_seconds);
  attempts = w.attempts + 1;
  updated_at = now;
}

abbrev pub lease_of : WorkItem → WorkLease
lease_of w = record { id = w.id; key = w.key; priority = w.priority; attempts = w.attempts + 1 }

unfoldable pub next_item : Time → Database → Option WorkItem
unfolding first_by filter is_claimable goes_before
next_item now db = first_by goes_before (filter (is_claimable now) db.work_queue)

unfoldable pub claim : Clock → Text → ℕ → Database → Database × Option WorkLease
unfolding next_item update_where
claim clock worker_id lease_seconds db =
    let now = clock 0 in
    elim (next_item now db) [
      | none ↦ (db, none)
      | some item ↦ (
        set_queue db
            (update_where (with_id item.id) (lease_item worker_id now lease_seconds) db.work_queue),
        some (lease_of item),
      )
    ]

unfoldable pub complete : ℕ → Database → Database
unfolding filter
complete work_id db = set_queue db (filter (λ w. not (with_id work_id w)) db.work_queue)

abbrev pub superseded_item : Time → Text → WorkItem → WorkItem
superseded_item now reason w = record w {
  state = superseded;
  lease_until = none;
  worker_id = none;
  error_code = some (codes "revision_superseded");
  last_error = some (take 2000 reason);
  updated_at = now;
}

unfoldable pub supersede : Clock → ℕ → Text → Database → Database
unfolding update_where
supersede clock work_id reason db =
    set_queue db (update_where (with_id work_id) (superseded_item (clock 0) reason) db.work_queue)

-- `min(6 * 60 * 60, 30 * (2 ** max(0, lease.attempts - 1)))`
unfoldable pub delay_seconds : ℕ → ℕ
delay_seconds attempts = min 21600 (30 * 2 ^ (attempts - 1))

unfoldable pub gives_up : WorkLease → ℕ → Bool → Bool
gives_up lease max_attempts permanent = permanent || leb max_attempts lease.attempts

abbrev pub failed_item : Clock → WorkLease → Text → Text → ℕ → Bool → WorkItem → WorkItem
failed_item clock lease code message max_attempts permanent w = record w {
  state = if gives_up lease max_attempts permanent then dead else pending;
  available_at = clock 0 + seconds (delay_seconds lease.attempts);
  lease_until = none;
  worker_id = none;
  error_code = some (take 64 code);
  last_error = some (take 2000 message);
  is_permanent = permanent;
  updated_at = clock 1;
}

unfoldable pub fail : Clock → WorkLease → Text → Text → ℕ → Bool → Database → Database
unfolding update_where gives_up delay_seconds
fail clock lease code message max_attempts permanent db = set_queue db (
    update_where (with_id lease.id) (failed_item clock lease code message max_attempts permanent)
      db.work_queue)

abbrev pub revived_item : Clock → ℕ → WorkItem → WorkItem
revived_item clock priority w = record w {
  state = pending;
  attempts = 0;
  priority = priority;
  available_at = clock 0;
  error_code = none;
  last_error = none;
  updated_at = clock 1;
}

unfoldable pub revive : Clock → ℕ → ℕ → Database → Database
unfolding update_where
revive clock work_id priority db = set_queue db (
    update_where (λ w. with_id work_id w && is_dead w.state) (revived_item clock priority)
      db.work_queue)
