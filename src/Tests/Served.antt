-- ===== src/Tests/Served.antt =====
-- Pages served from tables with a history, at concrete inputs.
use wikifame.Base.{[], ◌∷◌, ◌≡◌, refl, true, false, none, some, codes, text_eq}
use wikifame.Tests.Requests.{runtime, request}
use wikifame.Processes.{worked, asked, Runs, idle, ran}
use wikifame.Tests.Services.{Still, worker}
use wikifame.Worker.{run_forever}
use wikifame.Attribution.{is_insignificant}
use wikifame.Policy.{should_highlight_contributor}
use wikifame.Policy.Standing.{is_nameable_account}
use wikifame.Repository.Standing.{standing_of, standing_for}
use wikifame.Upstream.{World}
use wikifame.Repository.Results.{row_of, save_result}
use wikifame.Models.{seconds, page_eq, revision_eq, Database, empty_database}
use wikifame.Api.Handlers.{
  payload_of, ready_headers, freshness_headers, page_attribution, page_attribution_by_freshness,
}
use wikifame.Api.{Payload, ready}
use wikifame.Tests.Data.{clock_at, revision_of, values_of}
use wikifame.Api.Sound.{IsComplete, page_attribution-IsComplete}

-- A reader asks for the page, and the worker processes the job.
abbrev requested_once : Database
requested_once = (page_attribution runtime (clock_at 100) request empty_database).0

abbrev world : World Still
world = record { db = requested_once; net = tt }

abbrev processed : Database
processed = (run_forever worker (clock_at 300 ∷ []) world).db

written : Runs Still empty_database processed
written =
    ran (ran idle (asked runtime (clock_at 100) request empty_database))
      (worked worker (clock_at 300 ∷ []) world)

abbrev body : Payload
body = record {
  key = revision_of 7 30;
  title = codes "A";
  metric = codes "mediawiki-revision-count";
  attribution = record {
    contributors =
        record { user_id = some 5; username = codes "Alice"; amount = 9; share = 10000 } ∷ [];
    distinct_contributors = 10;
    other_contributors = 9;
    opted_out = false;
  };
  count_limited = false;
  countable_tokens = 1;
  computed_at = seconds 301;
  methodology_url = codes "https://example.org";
  freshness = none;
}

served :
    (page_attribution runtime (clock_at 500) request processed).1
    ≡ ready (ready_headers runtime body) body
unfolding page_attribution run_forever revision_eq page_eq text_eq is_insignificant
    should_highlight_contributor is_nameable_account standing_of standing_for
served = refl

page_attribution-IsComplete_example : IsComplete body.attribution
page_attribution-IsComplete_example =
    page_attribution-IsComplete runtime (clock_at 500) request processed
      (ready_headers runtime body) body written served

abbrev saved_once : Database
saved_once = save_result empty_database (values_of 7 30 100)

abbrev fresh_body : Payload
fresh_body =
    payload_of runtime (seconds 507) saved_once (codes "frwiki") 7 (row_of 1 (values_of 7 30 100)) (
      some (record {
        requested_revision_id = 30;
        fresh_until = seconds 7776100;
        is_fresh = true;
        refreshing = false;
      }))

served_fresh :
    (page_attribution_by_freshness runtime (clock_at 500) request saved_once).1
    ≡ ready (freshness_headers runtime 30 fresh_body) fresh_body
unfolding page_attribution_by_freshness save_result revision_eq page_eq text_eq
served_fresh = refl
