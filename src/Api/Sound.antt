-- ===== src/Api/Sound.antt =====
-- What a 200 says of a page, on tables that the program itself has written.
use wikifame.Api.Replies.{page_attribution-IsServed}
use wikifame.Api.Latest.{page_attribution_by_freshness-IsLatest}
use wikifame.Base.{
  ℕ, ◌+◌, ◌≤◌, ◌≡◌, sym, ◌∙◌, some, arith, length, filter, All-first_by, All-filter, All, All-find?,
  Text,
}
use wikifame.Api.Handlers.{requested, page_attribution, page_attribution_by_freshness}
use wikifame.Models.{Time, Clock, PageKey, RevisionKey, AttributionResult, Database, empty_database}
use wikifame.Processes.{Runs}
use wikifame.Processes.Stored.{IsSoundRow, Runs-IsSoundRow}
use wikifame.Api.{AttributionFields, Payload, Headers, ready, Runtime, PageRequest}
use wikifame.Repository.Results.{at_key, get_result, is_newer, on_page, get_latest_result}
use wikifame.Api.Serving.{IsPresented}

-- At most three names, and the others are the contributors that are not named.
abbrev pub IsComplete : AttributionFields → Type 0
IsComplete fields =
    (length fields.contributors ≤ 3)
    × (length fields.contributors + fields.other_contributors ≡ fields.distinct_contributors)

IsPresented-IsComplete :
    {runtime : Runtime} {now : Time} {db : Database} {wiki : Text} {page_id : ℕ}
    {result : AttributionResult} {fields : AttributionFields}
    → IsPresented runtime now db wiki page_id result fields
    → IsSoundRow result
    → IsComplete fields
IsPresented-IsComplete p (short, bounded) =
    (omega (arith, short, p.shorter), p.divided bounded ∙ sym p.counted)

stored-IsSoundRow :
    (db : Database) (key : RevisionKey) {result : AttributionResult}
    → All IsSoundRow db.attribution_results
    → get_result db key ≡ some result
    → IsSoundRow result
unfolding get_result
stored-IsSoundRow db key h found = All-find? IsSoundRow (at_key key) db.attribution_results h found

latest-IsSoundRow :
    (db : Database) (page : PageKey) {result : AttributionResult}
    → All IsSoundRow db.attribution_results
    → get_latest_result db page ≡ some result
    → IsSoundRow result
unfolding get_latest_result
latest-IsSoundRow db page h found =
    All-first_by is_newer IsSoundRow (filter (on_page page) db.attribution_results)
      (All-filter IsSoundRow (on_page page) db.attribution_results h) found

module _ {S : Type 0} where
  -- On tables that come about from empty ones by runs of the worker, of the jobs, of the backfill,
  -- of the cleanup and of the two page handlers, in any order and whatever the clients answer or
  -- raise, a 200 of `GET /v1/…` has at most three names, and these and the others are as many as
  -- the contributors it counts.
  pub page_attribution-IsComplete :
      (runtime : Runtime) (clock : Clock) (request : PageRequest) (db : Database)
      (headers : Headers) (payload : Payload)
      → Runs S empty_database db
      → (page_attribution runtime clock request db).1 ≡ ready headers payload
      → IsComplete payload.attribution
  page_attribution-IsComplete runtime clock request db headers payload r e =
      let (page_id, accepted, served) =
        page_attribution-IsServed runtime clock request db headers payload e in
      IsPresented-IsComplete served.presented (
        stored-IsSoundRow db (requested runtime clock request page_id db) (Runs-IsSoundRow r)
          served.stored)

  -- On tables that come about from empty ones by runs of the worker, of the jobs, of the backfill,
  -- of the cleanup and of the two page handlers, in any order and whatever the clients answer or
  -- raise, a 200 of `GET /v2/…` has at most three names, and these and the others are as many as
  -- the contributors it counts.
  pub page_attribution_by_freshness-IsComplete :
      (runtime : Runtime) (clock : Clock) (request : PageRequest) (db : Database)
      (headers : Headers) (payload : Payload)
      → Runs S empty_database db
      → (page_attribution_by_freshness runtime clock request db).1 ≡ ready headers payload
      → IsComplete payload.attribution
  page_attribution_by_freshness-IsComplete runtime clock request db headers payload r e =
      let (page_id, accepted, served) =
        page_attribution_by_freshness-IsLatest runtime clock request db headers payload e in
      IsPresented-IsComplete served.presented (
        latest-IsSoundRow db (requested runtime clock request page_id db).page (Runs-IsSoundRow r)
          served.latest)
