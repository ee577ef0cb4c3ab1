-- ===== src/Tests/Rounds.antt =====
-- The worker and the histories of the tables at concrete inputs.
use wikifame.Base.{
  ℕ, ◌≤◌, ◌≡◌, refl, true, false, none, some, List, [], ◌∷◌, arith, All, Counter, codes, text_eq,
}
use wikifame.Attribution.Editors.{IsEditor, select_top_editors-IsRanked}
use wikifame.Attribution.{Users, select_top_editors}
use wikifame.Tests.Services.{Still, shares, worker}
use wikifame.Worker.{run_once, run_forever}
use wikifame.Repository.Steps.{enqueued, claimed, completed, saved, Reach, History, here, next}
use wikifame.Repository.Queue.{enqueue_row, enqueue, claim, complete}
use wikifame.Repository.Steps.Tables.{IsConsistent, empty_database-IsConsistent}
use wikifame.Repository.Steps.Consistent.{Reach-IsConsistent}
use wikifame.Tests.Data.{clock_at, revision_of, queue_of_two, first_lease, values_of, ascii}
use wikifame.Repository.Results.{save_result}
use wikifame.Policy.{should_highlight_contributor}
use wikifame.Models.{page_eq, revision_eq, Contributor, empty_database}
use wikifame.Worker.Acts.{run_forever-Reach}
use wikifame.Errors.{ok}
use wikifame.Worker.Settles.{IsSettled, run_once-IsSettled}
use wikifame.Upstream.{World}
use wikifame.Attribution.Ranking.{FallingAmounts}

abbrev world : World Still
world = record { db = queue_of_two; net = tt }

taken : (claim (clock_at 300) (codes "a") 300 queue_of_two).1 ≡ some first_lease
unfolding claim enqueue_row revision_eq page_eq text_eq
taken = refl

run_once-IsSettled_example :
    IsSettled 1 (run_once worker (clock_at 300) world).1.db
    × ((run_once worker (clock_at 300) world).0 ≡ true)
run_once-IsSettled_example = run_once-IsSettled worker (clock_at 300) world first_lease taken

run_forever-Reach_example :
    Reach queue_of_two (run_forever worker (clock_at 300 ∷ clock_at 310 ∷ []) world).db
run_forever-Reach_example = run_forever-Reach worker (clock_at 300 ∷ clock_at 310 ∷ []) world

-- A job is queued, claimed and completed with its result stored.
history :
    History
      (λ v. Unit)
      empty_database
      (complete 1 (
        save_result
          (claim
            (clock_at 300)
            (codes "a")
            300
            (enqueue (clock_at 100) (revision_of 7 30) 100 false empty_database)).0
          (values_of 7 30 310)))
history =
    next
      (next
        (next (next here (enqueued (clock_at 100) (revision_of 7 30) 100 false empty_database)) (
          claimed (clock_at 300) (codes "a") 300
            (enqueue (clock_at 100) (revision_of 7 30) 100 false empty_database)))
        (saved (values_of 7 30 310) _ tt))
      (completed 1 _)

Reach-IsConsistent_example : IsConsistent (
    complete 1 (
      save_result
        (claim
          (clock_at 300)
          (codes "a")
          300
          (enqueue (clock_at 100) (revision_of 7 30) 100 false empty_database)).0
        (values_of 7 30 310)))
Reach-IsConsistent_example = Reach-IsConsistent history empty_database-IsConsistent

abbrev edits : Counter ℕ
edits = (5, 9) ∷ (6, 1) ∷ []

abbrev ranked : List Contributor
ranked =
    record { user_id = some 5; username = codes "Alice"; amount = 9; share = 10000 }
    ∷ record { user_id = some 6; username = codes "Alice"; amount = 1; share = 10000 }
    ∷ []

abbrev known : Users
known id = some (record { user_id = id; username = codes "Alice"; groups = []; missing = false })

ranking : (select_top_editors {S = Still} ascii shares known none 3 edits 10 tt).0 ≡ ok ranked
unfolding select_top_editors should_highlight_contributor text_eq
ranking = refl

select_top_editors-IsRanked_example :
    (2 ≤ 3) × FallingAmounts ranked × All (IsEditor shares known edits 10) ranked
select_top_editors-IsRanked_example =
    select_top_editors-IsRanked {S = Still} ascii shares known none 3 edits 10 tt ranked
      (omega arith) ranking
