-- ===== src/Repository/Queue/Claim.antt =====
-- What `claim` hands out, and how `fail` and a lease keep a job from being handed out again.
use wikifame.Base.{
  ℕ, ◌+◌, ◌≤◌, ◌≡◌, refl, sym, ap, ◌∙◌, ◌≢◌, inl, inr, Bool, true, false, false≢true, none, some,
  none-ne-some, some-ne-none, some-injective, List, [], ◌∷◌, cons≢nil, arith, Bool-cases,
  Option-cases, filter, All, Member, All-updated, All-of_filter, Member-all, All-Member,
  first_by-none, All-first_by, first_by-least, All-filter, All-self, Text,
}
use wikifame.Models.{Time, seconds, Clock, WorkItem, Database}
use wikifame.Repository.Queue.{
  WorkLease, with_id, is_claimable, goes_before, lease_item, lease_of, next_item, claim,
}

goes_before_asym : (a b : WorkItem) → goes_before a b ≡ true → goes_before b a ≡ false
unfolding goes_before
goes_before_asym a b h = ground arith

goes_before_back :
    (a b c : WorkItem) → goes_before b a ≡ false → goes_before c b ≡ false → goes_before c a ≡ false
unfolding goes_before
goes_before_back a b c h k = ground arith

-- The row that `claim` takes is one of the queue, may be taken, and no such row goes before it.
pub record IsNext (now : Time) (db : Database) (item : WorkItem) : Type 0 where
  pub queued : Member item db.work_queue
  pub claimable : is_claimable now item ≡ true
  pub first : All (λ w. is_claimable now w ≡ true → goes_before w item ≡ false) db.work_queue

pub next_item-IsNext :
    (now : Time) (db : Database) {item : WorkItem}
    → next_item now db ≡ some item
    → IsNext now db item
unfolding next_item
next_item-IsNext now db {item} e =
    let rows = filter (is_claimable now) db.work_queue in
    record {
      queued =
          All-first_by goes_before (λ w. Member w db.work_queue) rows
            (All-filter (λ w. Member w db.work_queue) (is_claimable now) db.work_queue
              (All-Member db.work_queue))
            e;
      claimable =
          All-first_by goes_before (λ w. is_claimable now w ≡ true) rows
            (All-self (is_claimable now) db.work_queue) e;
      first =
          All-of_filter (λ w. goes_before w item ≡ false) (is_claimable now) db.work_queue
            (first_by-least goes_before goes_before_asym goes_before_back rows e);
    }

filter-eq-nil :
    (p : WorkItem → Bool) (rows : List WorkItem) → filter p rows ≡ [] → All (λ w. p w ≡ false) rows
unfolding filter
filter-eq-nil p [] e = tt
filter-eq-nil p (w ∷ rows) e = elim (Bool-cases (p w)) [
  | inl t ↦ absurd (cons≢nil (rw t at e))
  | inr t ↦ (t, filter-eq-nil p rows (rw t at e))
]

pub claim_cases :
    (clock : Clock) (worker_id : Text) (lease_seconds : ℕ) (db : Database) {lease : WorkLease}
    → (claim clock worker_id lease_seconds db).1 ≡ some lease
    → (item : WorkItem) × (next_item (clock 0) db ≡ some item) × (lease ≡ lease_of item)
unfolding claim
claim_cases clock worker_id lease_seconds db e = elim (Option-cases (next_item (clock 0) db)) [
  | inl n ↦ absurd (none-ne-some _ (rw (n, claim) at e))
  | inr (item, s) ↦ (item, s, sym (some-injective _ _ (rw (s, claim) at e)))
]

-- A lease is for a claimable row of the queue that no claimable row goes before by priority and,
-- at the same priority, by age, and it counts this attempt.
pub claim-IsNext :
    (clock : Clock) (worker_id : Text) (lease_seconds : ℕ) (db : Database) (lease : WorkLease)
    → (claim clock worker_id lease_seconds db).1 ≡ some lease
    → (item : WorkItem) × IsNext (clock 0) db item × (lease ≡ lease_of item)
claim-IsNext clock worker_id lease_seconds db lease e =
    let (item, s, same) = claim_cases clock worker_id lease_seconds db e in
    (item, next_item-IsNext (clock 0) db s, same)

-- `claim` returns no lease only if no row may be taken, and then it changes nothing.
pub claim_idle :
    (clock : Clock) (worker_id : Text) (lease_seconds : ℕ) (db : Database)
    → (claim clock worker_id lease_seconds db).1 ≡ none
    → All (λ w. is_claimable (clock 0) w ≡ false) db.work_queue
      × ((claim clock worker_id lease_seconds db).0 ≡ db)
unfolding claim
claim_idle clock worker_id lease_seconds db e = elim (Option-cases (next_item (clock 0) db)) [
  | inl n ↦ (
    filter-eq-nil (is_claimable (clock 0)) db.work_queue
        (unfold next_item in first_by-none goes_before _ n),
    rw (n, claim) refl,
  )
  | inr (item, s) ↦ absurd (some-ne-none _ (rw (s, claim) at e))
]

-- A row that is not claimable, whoever asks, is not leased.
pub resting :
    (clock : Clock) (worker_id : Text) (lease_seconds id : ℕ) (db : Database) (lease : WorkLease)
    → All (λ w. w.id ≡ id → is_claimable (clock 0) w ≡ false) db.work_queue
    → (claim clock worker_id lease_seconds db).1 ≡ some lease
    → lease.id ≢ id
resting clock worker_id lease_seconds id db lease rests e same =
    let (item, next, made) = claim-IsNext clock worker_id lease_seconds db lease e in
    let waits =
      Member-all (λ w. w.id ≡ id → is_claimable (clock 0) w ≡ false) db.work_queue next.queued
        rests in
    false≢true (sym (waits (ap (λ (l : WorkLease). l.id) (sym made) ∙ same)) ∙ next.claimable)

-- While the lease that a claim gave runs, the next claim does not hand out the same job.
pub claim_exclusive :
    (clock clock' : Clock) (worker worker' : Text) (secs secs' : ℕ) (db : Database)
    (lease lease' : WorkLease)
    → (claim clock worker secs db).1 ≡ some lease
    → (claim clock' worker' secs' (claim clock worker secs db).0).1 ≡ some lease'
    → clock' 0 ≤ clock 0 + seconds secs
    → lease'.id ≢ lease.id
claim_exclusive clock clock' worker worker' secs secs' db lease lease' e e' within =
    let (item, s, made) = claim_cases clock worker secs db e in
    resting clock' worker' secs' lease.id (claim clock worker secs db).0 lease'
      (rw made (
        unfold claim in
        rw (s, claim)
          (All-updated (λ w. w.id ≡ item.id → is_claimable (clock' 0) w ≡ false) (with_id item.id)
            (lease_item worker (clock 0) secs) db.work_queue
            (λ w hit _. unfold is_claimable in ground arith)
            (λ w miss same. absurd (ground arith)))))
      e'
