-- ===== src/Api/Handlers.antt =====
-- src/wikipeople/app.py: `page_attribution` and `page_attribution_by_freshness`.
use wikifame.Base.{
  ℕ, suc, ◌+◌, ◌-◌, Bool, true, false, not, ◌&&◌, Option, none, some, List, [], ◌∷◌, ltb, leb,
  if◌then◌else◌, length, filter, Text,
}
use wikifame.Base.Int.{ℤ, pos}
use wikifame.Models.{
  Time, seconds, Clock, later, RevisionKey, Contributor, AttributionResult, WorkItem, Database,
}
use wikifame.Config.{max_visible_block_seconds_for}
use wikifame.Policy.Standing.{AccountStanding, is_nameable_account}
use wikifame.Repository.OptOut.{is_opted_out}
use wikifame.Repository.Queue.{is_dead, is_live, get_work, enqueue, enqueue_if_stale, revive}
use wikifame.Repository.Results.{get_result, get_latest_result}
use wikifame.Sites.{is_enabled}
use wikifame.Repository.Standing.{standing_for, standing_of}
use wikifame.Api.{
  AttributionFields, Freshness, Payload, Headers, Reply, not_found, unprocessable, ready,
  not_modified, unavailable, pending_reply, Runtime, PageRequest, matches_etag,
}

-- The integers among the `user_id`s.
unfoldable pub user_ids_of : List Contributor → List ℕ
user_ids_of [] = []
user_ids_of (c ∷ contributors) = elim c.user_id [
  | none ↦ user_ids_of contributors
  | some id ↦ id ∷ user_ids_of contributors
]

abbrev pub standing_entry : List AccountStanding → Option ℕ → Option AccountStanding
standing_entry standings none = none
standing_entry standings (some id) = standing_of standings id

abbrev pub is_nameable : Runtime → Text → Time → Database → List ℕ → Contributor → Bool
is_nameable runtime wiki now db user_ids c =
    is_nameable_account runtime.unicode (standing_entry (standing_for db wiki user_ids) c.user_id)
      (max_visible_block_seconds_for runtime.settings wiki) now

-- A list without entries needs no test: the comprehension keeps it as it is.
unfoldable pub nameable_contributors :
    Runtime → Time → Database → Text → List Contributor → List Contributor
unfolding filter user_ids_of
nameable_contributors runtime now db wiki contributors =
    if not runtime.settings.hide_sanctioned_contributors
    then contributors
    else filter (is_nameable runtime wiki now db (user_ids_of contributors)) contributors

unfoldable pub attribution_fields :
    Runtime → Time → Database → Text → ℕ → AttributionResult → AttributionFields
unfolding is_opted_out nameable_contributors
attribution_fields runtime now db wiki page_id result =
    let opted_out = is_opted_out db wiki page_id in
    let contributors =
      if opted_out then [] else nameable_contributors runtime now db wiki result.contributors in
    record {
      contributors = contributors;
      distinct_contributors = result.distinct_contributors;
      other_contributors = result.distinct_contributors - length contributors;
      opted_out = opted_out;
    }

-- `page_id`, unless it is refused.
abbrev pub positive : ℤ → Option ℕ
positive (pos (suc n)) = some (suc n)
positive _ = none

abbrev pub key_of : Runtime → Text → ℕ → ℕ → RevisionKey
key_of runtime wiki page_id revision_id = record {
  page = record {
    wiki = wiki;
    page_id = page_id;
    algorithm_version = runtime.settings.algorithm_version;
  };
  revision_id = revision_id;
}

abbrev pub payload_of :
    Runtime → Time → Database → Text → ℕ → AttributionResult → Option Freshness → Payload
payload_of runtime now db wiki page_id result freshness = record {
  key = result.key;
  title = result.title;
  metric = result.metric;
  attribution = attribution_fields runtime now db wiki page_id result;
  count_limited = result.count_limited;
  countable_tokens = result.countable_tokens;
  computed_at = result.computed_at;
  methodology_url = runtime.settings.methodology_url;
  freshness = freshness;
}

-- The body, or only the headers if the request shows that its sender has the body.
unfoldable pub answer : Runtime → Option Text → Headers → Payload → Reply
unfolding matches_etag
answer runtime if_none_match headers payload =
    if matches_etag runtime.unicode if_none_match headers.etag
    then not_modified headers
    else ready headers payload

abbrev pub ready_headers : Runtime → Payload → Headers
ready_headers runtime payload = record {
  max_age = runtime.settings.ready_cache_seconds;
  stale_while_revalidate = none;
  etag = runtime.digest payload;
  algorithm = runtime.settings.algorithm_version;
  source_revision = none;
}

abbrev pub freshness_headers : Runtime → ℕ → Payload → Headers
freshness_headers runtime source_revision payload = record {
  max_age = runtime.settings.page_cache_seconds;
  stale_while_revalidate = some runtime.settings.page_stale_while_revalidate_seconds;
  etag = runtime.digest payload;
  algorithm = runtime.settings.algorithm_version;
  source_revision = some source_revision;
}

-- `work is not None and work.state == "dead"`, and whether such a job may be tried again.
abbrev pub dead_work : Database → RevisionKey → Option WorkItem
dead_work db key = elim (get_work db key) [
  | none ↦ none
  | some work ↦ if is_dead work.state then some work else none
]

unfoldable pub is_retryable : Runtime → Time → WorkItem → Bool
is_retryable runtime now work =
    not work.is_permanent && leb (work.updated_at + seconds runtime.settings.dead_retry_seconds) now

-- The bodies of `GET /v1/{wiki}/pages/{page_id}` and `GET /v2/…`, once the wiki and the page are
-- accepted, with the tables that they leave.
module _ (runtime : Runtime) (clock : Clock) (request : PageRequest) (page_id : ℕ)
    (db : Database) where
  abbrev pub requested : RevisionKey
  requested = key_of runtime request.wiki page_id request.revision_id

  abbrev pub unavailable_reply : WorkItem → Reply
  unavailable_reply work = unavailable request.wiki page_id request.revision_id work.error_code

  abbrev pub waiting_reply : Reply
  waiting_reply = pending_reply request.wiki page_id request.revision_id

  abbrev pub exact_answer : AttributionResult → Reply
  exact_answer result =
      let payload = payload_of runtime (clock 0) db request.wiki page_id result none in
      answer runtime request.if_none_match (ready_headers runtime payload) payload

  unfoldable pub queue_exact : Database → Database
  unfolding enqueue
  queue_exact db' = enqueue (later 3 clock) requested 100 false db'

  unfoldable pub exact_page : Database × Reply
  unfolding get_result get_work revive is_retryable queue_exact answer attribution_fields
  exact_page = elim (get_result db requested) [
    | some result ↦ (db, exact_answer result)
    | none ↦ elim (dead_work db requested) [
      | none ↦ (queue_exact db, waiting_reply)
      | some work ↦
          if is_retryable runtime (clock 0) work
          then (queue_exact (revive (later 1 clock) work.id 100 db), waiting_reply)
          else (db, unavailable_reply work)
    ]
  ]

  unfoldable pub queue_if_stale : Database → Database
  unfolding enqueue_if_stale
  queue_if_stale db' =
      (enqueue_if_stale (later 3 clock) requested 100 runtime.settings.page_freshness_seconds db').0

  -- The revival of a dead job that a stale answer makes first.
  unfoldable pub revive_dead : Database
  unfolding get_work revive is_retryable
  revive_dead = elim (dead_work db requested) [
    | none ↦ db
    | some work ↦
        if is_retryable runtime (clock 0) work then revive (later 1 clock) work.id 100 db else db
  ]

  abbrev pub is_refreshing : Database → Bool
  is_refreshing db' = elim (get_work db' requested) [
    | none ↦ false
    | some work ↦ is_live work.state
  ]

  abbrev pub latest_answer : AttributionResult → Database → Bool → Reply
  latest_answer result db' is_fresh =
      let freshness : Freshness = record {
        requested_revision_id = request.revision_id;
        fresh_until = result.computed_at + seconds runtime.settings.page_freshness_seconds;
        is_fresh = is_fresh;
        refreshing = if is_fresh then false else is_refreshing db';
      } in
      let payload = payload_of runtime (clock 7) db' request.wiki page_id result (some freshness) in
      answer runtime request.if_none_match (freshness_headers runtime result.revision_id payload)
        payload

  -- `fresh_until > now`
  abbrev pub is_fresh_at : AttributionResult → Bool
  is_fresh_at result =
      ltb (clock 0) (result.computed_at + seconds runtime.settings.page_freshness_seconds)

  unfoldable pub latest_page : Database × Reply
  unfolding get_latest_result get_work revive is_retryable queue_if_stale revive_dead answer
  latest_page = elim (get_latest_result db requested.page) [
    | some result ↦
        if is_fresh_at result
        then (db, latest_answer result db true)
        else (queue_if_stale revive_dead, latest_answer result (queue_if_stale revive_dead) false)
    | none ↦ elim (dead_work db requested) [
      | none ↦ (queue_if_stale db, waiting_reply)
      | some work ↦
          if is_retryable runtime (clock 0) work
          then (queue_if_stale (revive (later 1 clock) work.id 100 db), waiting_reply)
          else (db, unavailable_reply work)
    ]
  ]

unfoldable pub page_attribution : Runtime → Clock → PageRequest → Database → Database × Reply
unfolding is_enabled exact_page
page_attribution runtime clock request db =
    if not (is_enabled runtime.resolver request.wiki runtime.settings.supported_wikis)
    then (db, not_found)
    else elim (positive request.page_id) [
      | none ↦ (db, unprocessable)
      | some page_id ↦ exact_page runtime clock request page_id db
    ]

unfoldable pub page_attribution_by_freshness :
    Runtime → Clock → PageRequest → Database → Database × Reply
unfolding is_enabled latest_page
page_attribution_by_freshness runtime clock request db =
    if not (is_enabled runtime.resolver request.wiki runtime.settings.supported_wikis)
    then (db, not_found)
    else elim (positive request.page_id) [
      | none ↦ (db, unprocessable)
      | some page_id ↦ latest_page runtime clock request page_id db
    ]
