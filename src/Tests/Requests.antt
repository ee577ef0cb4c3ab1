-- ===== src/Tests/Requests.antt =====
-- The requests at concrete inputs.
use wikifame.Base.{ℕ, ◌≡◌, refl, true, false, none, some, [], ◌∷◌, codes, text_eq}
use wikifame.Base.Int.{pos}
use wikifame.Models.{seconds, Clock, page_eq, revision_eq, Database}
use wikifame.Repository.Results.{row_of, save_result}
use wikifame.Repository.Queue.{enqueue_row, claim, fail}
use wikifame.Api.{Payload, ready, Runtime, PageRequest}
use wikifame.Api.Handlers.{
  payload_of, ready_headers, freshness_headers, requested, page_attribution,
  page_attribution_by_freshness,
}
use wikifame.Api.Replies.{is_waiting, IsServed, page_attribution-IsServed}
use wikifame.Api.Waiting.{IsAwaited, page_attribution-IsAwaited}
use wikifame.Api.Refusals.{is_refusal}
use wikifame.Api.Latest.{IsLatest, page_attribution_by_freshness-IsLatest}
use wikifame.Tests.Data.{
  clock_at, queue_of_two, first_lease, claimed_once, values_of, ascii, settings,
}

abbrev pub runtime : Runtime
runtime = record {
  settings = settings;
  resolver = record { languages = codes "fr" ∷ [] };
  unicode = ascii;
  digest = λ payload. codes "tag";
}

abbrev pub request : PageRequest
request = record {
  wiki = codes "frwiki";
  page_id = pos 7;
  revision_id = 30;
  if_none_match = some (codes "other, x");
}

abbrev stored : Database
stored = save_result queue_of_two (values_of 7 30 100)

abbrev payload : Payload
payload =
    payload_of runtime (seconds 500) stored (codes "frwiki") 7 (row_of 1 (values_of 7 30 100)) none

served :
    (page_attribution runtime (clock_at 500) request stored).1
    ≡ ready (ready_headers runtime payload) payload
unfolding page_attribution save_result revision_eq page_eq text_eq
served = refl

page_attribution-IsServed_example :
    (page_id : ℕ) × (some 7 ≡ some page_id)
    × IsServed runtime (clock_at 500) request page_id stored (ready_headers runtime payload) payload
page_attribution-IsServed_example =
    page_attribution-IsServed runtime (clock_at 500) request stored (ready_headers runtime payload)
      payload served

answered : is_waiting (page_attribution runtime (clock_at 500) request stored).1 ≡ false
answered = rw served refl

awaiting : is_waiting (page_attribution runtime (clock_at 500) request queue_of_two).1 ≡ true
unfolding page_attribution enqueue_row revision_eq page_eq text_eq
awaiting = refl

page_attribution-IsAwaited_example :
    (page_id : ℕ) × (some 7 ≡ some page_id)
    × IsAwaited
        (requested runtime (clock_at 500) request page_id queue_of_two)
        (page_attribution runtime (clock_at 500) request queue_of_two).0
page_attribution-IsAwaited_example =
    page_attribution-IsAwaited runtime (clock_at 500) request queue_of_two awaiting

-- The job of the request, failed for good a while ago.
abbrev broken : Database
broken = fail (clock_at 310) first_lease (codes "c") (codes "m") 1 false claimed_once

refused : is_refusal (page_attribution_by_freshness runtime (clock_at 500) request broken).1 ≡ true
unfolding page_attribution_by_freshness claim fail enqueue_row revision_eq page_eq text_eq
refused = refl

-- A result that is long out of date.
abbrev late : Clock
late = clock_at 99999999

abbrev after : Database
after = (page_attribution_by_freshness runtime late request stored).0

abbrev stale_payload : Payload
stale_payload =
    payload_of runtime (late 7) after (codes "frwiki") 7 (row_of 1 (values_of 7 30 100)) (
      some (record {
        requested_revision_id = 30;
        fresh_until = seconds 7776100;
        is_fresh = false;
        refreshing = true;
      }))

refreshing :
    (page_attribution_by_freshness runtime late request stored).1
    ≡ ready (freshness_headers runtime 30 stale_payload) stale_payload
unfolding page_attribution_by_freshness save_result enqueue_row revision_eq page_eq text_eq
refreshing = refl

page_attribution_by_freshness-IsLatest_example :
    (page_id : ℕ) × (some 7 ≡ some page_id)
    × IsLatest runtime late request page_id stored after
        (freshness_headers runtime 30 stale_payload)
        stale_payload
page_attribution_by_freshness-IsLatest_example =
    page_attribution_by_freshness-IsLatest runtime late request stored
      (freshness_headers runtime 30 stale_payload) stale_payload refreshing
