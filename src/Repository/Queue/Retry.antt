-- ===== src/Repository/Queue/Retry.antt =====
-- How often, and how soon, a failed job is handed out again.
use native.Mathlib.Nat.{pow-suc}
use wikifame.Base.{
  ℕ, zero, suc, ◌+◌, ◌-◌, ◌*◌, ◌^◌, ◌≤◌, ◌<◌, min, max, ◌≡◌, refl, sym, ap, ◌∙◌, inl, inr, Bool,
  true, false, some, arith, leb, Bool-cases, All, All-updated, All-any, Member-all,
  All-update_where, All-update_into, Text,
}
use wikifame.Models.{seconds, Clock, WorkItem, Database}
use wikifame.Repository.Queue.{
  WorkLease, with_id, is_claimable, lease_item, claim, delay_seconds, gives_up, failed_item, fail,
}
use wikifame.Repository.Queue.Claim.{next_item-IsNext, claim_cases, resting}

-- After `fail`, a claim hands out the same job only if the failure was not permanent and attempts
-- are left, and not before the delay has passed.
pub claim-fail :
    (clock clock' : Clock) (worker' code message : Text) (secs' max_attempts : ℕ) (permanent : Bool)
    (db : Database) (lease lease' : WorkLease)
    → (claim clock' worker' secs' (fail clock lease code message max_attempts permanent db)).1
      ≡ some lease'
    → lease'.id ≡ lease.id
    → (permanent ≡ false)
      × (lease.attempts < max_attempts)
      × (clock 0 + seconds (delay_seconds lease.attempts) ≤ clock' 0)
claim-fail clock clock' worker' code message secs' max_attempts permanent db lease lease' e same =
    elim (Bool-cases (gives_up lease max_attempts permanent)) [
      | inl dead' ↦ absurd (rests (λ w hit _. unfold is_claimable gives_up in ground arith))
      | inr live ↦
          elim (Bool-cases (leb (clock 0 + seconds (delay_seconds lease.attempts)) (clock' 0))) [
            | inl due ↦ unfold gives_up in ground arith
            | inr early ↦ absurd (rests (λ w hit _. unfold is_claimable in ground arith))
          ]
    ]
  where
    rests :
        ((w : WorkItem)
          → with_id lease.id w ≡ true
          → w.id ≡ lease.id
          → is_claimable (clock' 0) (failed_item clock lease code message max_attempts permanent w)
            ≡ false)
        → ⊥
    rests hit =
        resting clock' worker' secs' lease.id
          (fail clock lease code message max_attempts permanent db) lease'
          (unfold fail in
            (All-updated (λ w. w.id ≡ lease.id → is_claimable (clock' 0) w ≡ false)
              (with_id lease.id) (failed_item clock lease code message max_attempts permanent)
              db.work_queue hit (λ w miss here. absurd (ground arith))))
          e same

pow_mono : (a b : ℕ) → a ≤ b → 2 ^ a ≤ 2 ^ b
pow_mono zero zero h = omega arith
pow_mono zero (suc b) h = omega (arith, pow-suc 2 b, pow_mono zero b (omega arith))
pow_mono (suc a) zero h = absurd (omega arith)
pow_mono (suc a) (suc b) h = omega (arith, pow-suc 2 a, pow-suc 2 b, pow_mono a b (omega arith))

delay_seconds-suc : (n : ℕ) → delay_seconds (suc n) ≡ min 21600 (30 * 2 ^ n)
unfolding delay_seconds
delay_seconds-suc n =
    let less : suc n - 1 ≡ n = omega arith in ap (λ k. min 21600 (30 * 2 ^ k)) less

delay_doubles : (n : ℕ) → delay_seconds (suc (suc n)) ≡ min 21600 (2 * delay_seconds (suc n))
delay_doubles n = simp delay_seconds-suc (omega (arith, pow-suc 2 n))

-- The delay lies between half a minute and six hours, starts at half a minute, doubles from each
-- attempt to the next until it reaches the cap, and never falls as attempts are added.
pub delay_seconds_bounds :
    (attempts more : ℕ)
    → (delay_seconds 1 ≡ 30)
      × (30 ≤ delay_seconds attempts)
      × (delay_seconds attempts ≤ 21600)
      × (delay_seconds (suc (suc attempts)) ≡ min 21600 (2 * delay_seconds (suc attempts)))
      × (delay_seconds attempts ≤ delay_seconds (attempts + more))
unfolding delay_seconds
delay_seconds_bounds attempts more = (
  refl,
  omega (arith, pow_mono 0 (attempts - 1) (omega arith)),
  omega arith,
  delay_doubles attempts,
  omega (arith, pow_mono (attempts - 1) (attempts + more - 1) (omega arith)),
)

-- One job claimed and failed over and over, by any workers at any times, with no permanent error:
-- the number of claims, the last lease, and the tables after its failure.
pub data Rounds (max_attempts id : ℕ) (start : Database) : ℕ → WorkLease → Database → Type 0 where
  begin :
      (clock after : Clock) (worker code message : Text) (secs : ℕ) (lease : WorkLease)
      → (claim clock worker secs start).1 ≡ some lease
      → lease.id ≡ id
      → Rounds max_attempts id start 1 lease
          (fail after lease code message max_attempts false (claim clock worker secs start).0)
  again :
      {n : ℕ} {previous : WorkLease} {db : Database}
      → Rounds max_attempts id start n previous db
      → (clock after : Clock) (worker code message : Text) (secs : ℕ) (lease : WorkLease)
      → (claim clock worker secs db).1 ≡ some lease
      → lease.id ≡ id
      → Rounds max_attempts id start
          (suc n)
          lease
          (fail after lease code message max_attempts false (claim clock worker secs db).0)

-- How often the job has been attempted, on its row and on the lease, and that a claim that finds
-- it again leaves fewer than `max_attempts` behind it.
record Attempted (max_attempts n id : ℕ) (lease : WorkLease) (db : Database) : Type 0 where
  leased : n ≤ lease.attempts
  rows : All (λ w. w.id ≡ id → n ≤ w.attempts) db.work_queue
  again :
      (clock : Clock) (worker : Text) (secs : ℕ) (lease' : WorkLease)
      → (claim clock worker secs db).1 ≡ some lease'
      → lease'.id ≡ id
      → lease.attempts < max_attempts

claim-attempts :
    (n id : ℕ) (clock : Clock) (worker : Text) (secs : ℕ) (db : Database) (lease : WorkLease)
    → All (λ w. w.id ≡ id → n ≤ w.attempts) db.work_queue
    → (claim clock worker secs db).1 ≡ some lease
    → lease.id ≡ id
    → (suc n ≤ lease.attempts)
      × All (λ w. w.id ≡ id → suc n ≤ w.attempts) (claim clock worker secs db).0.work_queue
claim-attempts n id clock worker secs db lease low e same =
    let (item, s, made) = claim_cases clock worker secs db e in
    let next = next_item-IsNext (clock 0) db s in
    let here = Member-all (λ w. w.id ≡ id → n ≤ w.attempts) db.work_queue next.queued low in
    (
      rw made (ground (arith, here, made)),
      unfold claim in
          rw (s, claim)
            (All-update_into (λ w. w.id ≡ id → n ≤ w.attempts) (with_id item.id)
              (lease_item worker (clock 0) secs) db.work_queue (λ w h hit at. ground (arith, h at))
              (λ w h miss at. absurd (ground (arith, made))) low),
    )

claimed_again :
    (n id : ℕ) (clock after : Clock) (worker code message : Text) (secs max_attempts : ℕ)
    (db : Database) (lease : WorkLease)
    → All (λ w. w.id ≡ id → n ≤ w.attempts) db.work_queue
    → (claim clock worker secs db).1 ≡ some lease
    → lease.id ≡ id
    → Attempted max_attempts
        (suc n)
        id
        lease
        (fail after lease code message max_attempts false (claim clock worker secs db).0)
claimed_again n id clock after worker code message secs max_attempts db lease low e same =
    let (leased, rows) = claim-attempts n id clock worker secs db lease low e same in
    let db' = (claim clock worker secs db).0 in
    record {
      leased = leased;
      rows =
          unfold fail in
          All-update_where (λ w. w.id ≡ id → suc n ≤ w.attempts) (with_id lease.id)
            (failed_item after lease code message max_attempts false) db'.work_queue (λ w h _. h)
            rows;
      again = λ clock' worker' secs' lease' e' same'.
          (claim-fail after clock' worker' code message secs' max_attempts false db' lease lease' e'
            (same' ∙ sym same)).1;
    }

Rounds-Attempted :
    {max_attempts id : ℕ} {start : Database} {n : ℕ} {lease : WorkLease} {db : Database}
    → Rounds max_attempts id start n lease db
    → Attempted max_attempts n id lease db
Rounds-Attempted {max_attempts} {id} {start}
      (begin clock after worker code message secs lease e same) =
    claimed_again 0 id clock after worker code message secs max_attempts start lease
      (All-any _ start.work_queue (λ w _. omega arith)) e same
Rounds-Attempted {max_attempts} {id}
      (again {n = n} {db = db} r clock after worker code message secs lease e same) =
    claimed_again n id clock after worker code message secs max_attempts db lease
      (Rounds-Attempted r).rows e same

-- A job that is claimed and fails again and again, with nothing else done to the queue, is claimed
-- at most `max_attempts` times (once if that is zero).
pub Rounds-le :
    {max_attempts id : ℕ} {start : Database} {n : ℕ} {lease : WorkLease} {db : Database}
    → Rounds max_attempts id start n lease db
    → n ≤ max 1 max_attempts
Rounds-le (begin clock after worker code message secs lease e same) = omega arith
Rounds-le {max_attempts} (again r clock after worker code message secs lease e same) =
    let before = Rounds-Attempted r in
    omega (arith, before.leased, before.again clock worker secs lease e same)
