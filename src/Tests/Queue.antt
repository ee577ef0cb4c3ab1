-- ===== src/Tests/Queue.antt =====
-- The queue at concrete inputs.
use wikifame.Base.{
  ◌+◌, ◌≤◌, ◌<◌, max, ◌≡◌, refl, ◌≢◌, ◌⊎◌, true, false, none, some, arith, any, All, codes, text_eq,
}
use wikifame.Models.{seconds, page_eq, revision_eq, WorkItem, empty_database}
use wikifame.Repository.Queue.{
  get_work, is_older_pending, is_newer_live, enqueue_row, lease_of, claim, delay_seconds, fail,
}
use wikifame.Repository.Queue.Claim.{IsNext, claim-IsNext, claim_exclusive}
use wikifame.Repository.Queue.Retry.{claim-fail, begin, again, Rounds-le}
use wikifame.Repository.Queue.Enqueue.{enqueue_row_supersedes}
use wikifame.Repository.Queue.Valid.{IsQueueValid, enqueue_row-IsQueueValid}
use wikifame.Tests.Data.{
  clock_at, revision_of, queue_of_two, first_lease, second_lease, retry_lease, claimed_once,
  claimed_twice, failed_once,
}

first : (claim (clock_at 300) (codes "a") 300 queue_of_two).1 ≡ some first_lease
unfolding claim fail enqueue_row revision_eq page_eq text_eq
first = refl

second : (claim (clock_at 301) (codes "b") 300 claimed_once).1 ≡ some second_lease
unfolding claim fail enqueue_row revision_eq page_eq text_eq
second = refl

exhausted : (claim (clock_at 302) (codes "b") 300 claimed_twice).1 ≡ none
unfolding claim fail enqueue_row revision_eq page_eq text_eq
exhausted = refl

retried : (claim (clock_at 341) (codes "a") 300 failed_once).1 ≡ some retry_lease
unfolding claim fail enqueue_row revision_eq page_eq text_eq
retried = refl

claim_exclusive_example : second_lease.id ≢ first_lease.id
claim_exclusive_example =
    claim_exclusive (clock_at 300) (clock_at 301) (codes "a") (codes "b") 300 300 queue_of_two
      first_lease second_lease first second (omega arith)

claim-IsNext_example :
    (item : WorkItem) × IsNext (seconds 300) queue_of_two item × (first_lease ≡ lease_of item)
claim-IsNext_example = claim-IsNext (clock_at 300) (codes "a") 300 queue_of_two first_lease first

claim-fail_example :
    (false ≡ false) × (1 < 8) × (seconds 310 + seconds (delay_seconds 1) ≤ seconds 341)
claim-fail_example =
    claim-fail (clock_at 310) (clock_at 341) (codes "a") (codes "c") (codes "m") 300 8 false
      claimed_once first_lease retry_lease retried refl

Rounds-le_example : 2 ≤ max 1 8
Rounds-le_example = Rounds-le {max_attempts = 8} {id = 1} {start = queue_of_two} (
    again
      (begin (clock_at 300) (clock_at 310) (codes "a") (codes "c") (codes "m") 300 first_lease first
        refl)
      (clock_at 341) (clock_at 350) (codes "a") (codes "c") (codes "m") 300 retry_lease retried
      refl)

enqueue_row_supersedes_example :
    ((get_work queue_of_two (revision_of 7 31) ≡ none)
      × (any (is_newer_live (revision_of 7 31)) queue_of_two.work_queue ≡ true)
      × (enqueue_row (clock_at 300) (revision_of 7 31) 100 queue_of_two ≡ queue_of_two))
    ⊎ All
        (λ w. is_older_pending (revision_of 7 31) w ≡ false)
        (enqueue_row (clock_at 300) (revision_of 7 31) 100 queue_of_two).work_queue
enqueue_row_supersedes_example =
    enqueue_row_supersedes (clock_at 300) (revision_of 7 31) 100 queue_of_two

empty-IsQueueValid : IsQueueValid empty_database
empty-IsQueueValid = record { items = tt; ids = tt; keys = tt }

enqueue_row-IsQueueValid_first :
    IsQueueValid (enqueue_row (clock_at 100) (revision_of 7 30) 100 empty_database)
enqueue_row-IsQueueValid_first =
    enqueue_row-IsQueueValid (clock_at 100) (revision_of 7 30) 100 empty_database empty-IsQueueValid

queue_of_two-IsQueueValid : IsQueueValid queue_of_two
queue_of_two-IsQueueValid =
    enqueue_row-IsQueueValid (clock_at 200) (revision_of 8 40) 10
      (enqueue_row (clock_at 100) (revision_of 7 30) 100 empty_database)
      enqueue_row-IsQueueValid_first
