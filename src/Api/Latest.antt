-- ===== src/Api/Latest.antt =====
-- What the 200 of `page_attribution_by_freshness` carries.
use wikifame.Base.{
  ℕ, ◌≡◌, refl, sym, ap, ◌∙◌, subst, inl, inr, Bool, true, false, false≢true, some, Bool-cases,
  Option-cases, ◌+◌, ◌<◌, ◌↔◌, Option, none-ne-some, some-injective, if◌then◌else◌, arith,
}
use wikifame.Models.{seconds, Clock, AttributionResult, WorkItem, Database}
use wikifame.Repository.Queue.{is_live, get_work}
use wikifame.Repository.Results.{get_latest_result}
use wikifame.Sites.{is_enabled}
use wikifame.Api.{Freshness, Payload, Headers, Reply, ready, Runtime, PageRequest}
use wikifame.Api.Handlers.{
  is_refreshing, positive, dead_work, is_retryable, requested, latest_answer, is_fresh_at,
  latest_page, page_attribution_by_freshness,
}
use wikifame.Api.Serving.{IsPresented, attribution_fields-IsPresented}
use wikifame.Api.Replies.{IsDescribed, payload_of-IsDescribed, gated, answer-ready}

-- What the body says of its age: the result is fresh while the time that it counts as fresh has not
-- run out, and it is being refreshed if it is not fresh and the job of the revision is live.
abbrev pub IsDated :
    Runtime
    → Clock
    → PageRequest
    → ℕ
    → Database
    → Database
    → AttributionResult
    → Option Freshness
    → Type 0
IsDated runtime clock request page_id before after result freshness =
    (f : Freshness) × (freshness ≡ some f)
    × (f.requested_revision_id ≡ request.revision_id)
    × (f.fresh_until ≡ result.computed_at + seconds runtime.settings.page_freshness_seconds)
    × ((f.is_fresh ≡ true) ↔ (clock 0 < f.fresh_until))
    × ((f.refreshing ≡ true) ↔ (
        (f.is_fresh ≡ false)
        × (work : WorkItem) × (get_work after (requested runtime clock request page_id before)
            ≡ some work)
        × (is_live work.state ≡ true)))

-- The body is that of the latest result of the page, presented as the tables then say, tagged with
-- its own digest, and says whether the result is younger than the time that it counts as fresh.
pub record IsLatest (runtime : Runtime) (clock : Clock) (request : PageRequest) (page_id : ℕ)
    (before after : Database) (headers : Headers) (payload : Payload) : Type 0 where
  pub result : AttributionResult
  pub latest :
      get_latest_result before (requested runtime clock request page_id before).page ≡ some result
  pub presented :
      IsPresented runtime (clock 7) after request.wiki page_id result payload.attribution
  pub described : IsDescribed runtime result payload
  pub dated : IsDated runtime clock request page_id before after result payload.freshness
  pub tagged : headers.etag ≡ runtime.digest payload
  pub kept : is_fresh_at runtime clock request page_id before result ≡ true → after ≡ before

module _ (runtime : Runtime) (clock : Clock) (request : PageRequest) (page_id : ℕ) (db : Database)
    (headers : Headers) (payload : Payload) where
  abbrev dates : AttributionResult → Database → Bool → Freshness
  dates result after fresh = record {
    requested_revision_id = request.revision_id;
    fresh_until = result.computed_at + seconds runtime.settings.page_freshness_seconds;
    is_fresh = fresh;
    refreshing = if fresh then false else is_refreshing runtime clock request page_id db after;
  }

  refreshing_iff :
      (after : Database) (fresh : Bool)
      → ((if fresh then false else is_refreshing runtime clock request page_id db after) ≡ true) ↔ (
          (fresh ≡ false)
          × (work : WorkItem) × (get_work after (requested runtime clock request page_id db)
              ≡ some work)
          × (is_live work.state ≡ true))
  refreshing_iff after true =
      (λ e. absurd (false≢true e), λ (e, work, s, l). absurd (false≢true (sym e)))
  refreshing_iff after false =
      elim (Option-cases (get_work after (requested runtime clock request page_id db))) [
        | inl n ↦
            rw (is_refreshing, n)
              (λ e. absurd (false≢true e), λ (e, work, s, l). absurd (none-ne-some _ s))
        | inr (found, s) ↦
            rw (is_refreshing, s)
              (
                λ e. (refl, found, refl, e),
                λ (e, work, s', l).
                    ap (λ (w : WorkItem). is_live w.state) (some-injective _ _ s') ∙ l,
              )
      ]

  dates-IsDated :
      (result : AttributionResult) (after : Database) (fresh : Bool)
      → is_fresh_at runtime clock request page_id db result ≡ fresh
      → IsDated runtime clock request page_id db after result (some (dates result after fresh))
  dates-IsDated result after fresh e = (
    dates result after fresh,
    refl,
    refl,
    refl,
    (λ t. ground (arith, e, t), λ h. ground (arith, e, h)),
    refreshing_iff after fresh,
  )

  latest_answer-IsLatest :
      (result : AttributionResult) (after : Database) (fresh : Bool)
      → get_latest_result db (requested runtime clock request page_id db).page ≡ some result
      → is_fresh_at runtime clock request page_id db result ≡ fresh
      → (is_fresh_at runtime clock request page_id db result ≡ true → after ≡ db)
      → latest_answer runtime clock request page_id db result after fresh ≡ ready headers payload
      → IsLatest runtime clock request page_id db after headers payload
  latest_answer-IsLatest result after fresh found age kept h =
      let (same_headers, same_payload) =
        answer-ready runtime request.if_none_match _ _ headers payload h in
      record {
        result = result;
        latest = found;
        presented =
            subst
              (λ (b : Payload).
                IsPresented runtime (clock 7) after request.wiki page_id result b.attribution)
              same_payload
              (attribution_fields-IsPresented runtime (clock 7) after request.wiki page_id result);
        described = subst (IsDescribed runtime result) same_payload (
            payload_of-IsDescribed runtime (clock 7) after request.wiki page_id result
              (some (dates result after fresh)));
        dated =
            subst
              (λ (b : Payload). IsDated runtime clock request page_id db after result b.freshness)
              same_payload (dates-IsDated result after fresh age);
        tagged = ap (λ (x : Headers). x.etag) (sym same_headers) ∙ ap runtime.digest same_payload;
        kept = kept;
      }

  latest_page-IsLatest :
      (latest_page runtime clock request page_id db).1 ≡ ready headers payload
      → IsLatest runtime clock request page_id db
          (latest_page runtime clock request page_id db).0
          headers
          payload
  unfolding latest_page
  latest_page-IsLatest e =
      let key = requested runtime clock request page_id db in
      elim (Option-cases (get_latest_result db key.page)) [
        | inr (result, s) ↦
            elim (Bool-cases (is_fresh_at runtime clock request page_id db result)) [
              | inl t ↦
                  rw (latest_page, s, t)
                    (latest_answer-IsLatest result _ true s t (λ _. refl)
                      (rw (latest_page, s, t) at e))
              | inr f ↦
                  rw (latest_page, s, f)
                    (latest_answer-IsLatest result _ false s f
                      (λ t. absurd (false≢true (sym f ∙ t))) (rw (latest_page, s, f) at e))
            ]
        | inl n ↦ absurd (elim (Option-cases (dead_work db key)) [
          | inl alive ↦ let h = rw (latest_page, n, alive) at e in cc
          | inr (work, d) ↦ elim (Bool-cases (is_retryable runtime (clock 0) work)) [
            | inl t ↦ let h = rw (latest_page, n, d, t) at e in cc
            | inr f ↦ let h = rw (latest_page, n, d, f) at e in cc
          ]
        ])
      ]

-- A 200 of `GET /v2/…` carries the latest result of the page: its key, title, metric, numbers and
-- time of computation, no names if the page is opted out, otherwise exactly the stored names that
-- may be shown, in their order, and the stored count. It says until when the result is fresh,
-- whether it still is, and, if not, whether the job of the requested revision is live; its tag is
-- the digest of the body, and if the result is still fresh, no table changes.
pub page_attribution_by_freshness-IsLatest :
    (runtime : Runtime) (clock : Clock) (request : PageRequest) (db : Database) (headers : Headers)
    (payload : Payload)
    → (page_attribution_by_freshness runtime clock request db).1 ≡ ready headers payload
    → (page_id : ℕ) × (positive request.page_id ≡ some page_id)
      × IsLatest runtime clock request page_id db
          (page_attribution_by_freshness runtime clock request db).0
          headers
          payload
unfolding page_attribution_by_freshness
page_attribution_by_freshness-IsLatest runtime clock request db headers payload e =
    gated Goal (is_enabled runtime.resolver request.wiki runtime.settings.supported_wikis)
      (positive request.page_id) (λ p. latest_page runtime clock request p db) db (λ h. absurd cc)
      (λ h. absurd cc)
      (λ p accepted h.
        (p, accepted, latest_page-IsLatest runtime clock request p db headers payload h))
      e
  where
    Goal : Database × Reply → Type 0
    Goal o =
        o.1 ≡ ready headers payload
        → (page_id : ℕ) × (positive request.page_id ≡ some page_id)
          × IsLatest runtime clock request page_id db o.0 headers payload
