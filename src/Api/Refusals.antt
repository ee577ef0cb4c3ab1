-- ===== src/Api/Refusals.antt =====
-- When `page_attribution_by_freshness` leaves the tables alone.
use wikifame.Base.{
  ℕ, ◌≡◌, refl, sym, ◌∙◌, inl, inr, Bool, true, false, false≢true, Option, Bool-cases, Option-cases,
  Text,
}
use wikifame.Models.{Clock, Database}
use wikifame.Repository.Results.{get_latest_result}
use wikifame.Sites.{is_enabled}
use wikifame.Api.{
  Payload, Headers, Reply, not_found, unprocessable, unavailable, Runtime, PageRequest,
  matches_etag,
}
use wikifame.Api.Handlers.{
  positive, answer, dead_work, is_retryable, requested, is_fresh_at, latest_page,
  page_attribution_by_freshness,
}
use wikifame.Api.Replies.{gated}

-- 404, 422 and 503
abbrev pub is_refusal : Reply → Bool
is_refusal not_found = true
is_refusal unprocessable = true
is_refusal (unavailable wiki page_id revision_id error_code) = true
is_refusal _ = false

answer_accepts :
    (runtime : Runtime) (if_none_match : Option Text) (headers : Headers) (payload : Payload)
    → is_refusal (answer runtime if_none_match headers payload) ≡ false
unfolding answer
answer_accepts runtime if_none_match headers payload =
    elim (Bool-cases (matches_etag runtime.unicode if_none_match headers.etag)) [
      | inl t ↦ rw (answer, t) refl
      | inr f ↦ rw (answer, f) refl
    ]

latest_page_frame :
    (runtime : Runtime) (clock : Clock) (request : PageRequest) (page_id : ℕ) (db : Database)
    → is_refusal (latest_page runtime clock request page_id db).1 ≡ true
    → (latest_page runtime clock request page_id db).0 ≡ db
unfolding latest_page
latest_page_frame runtime clock request page_id db e =
    let key = requested runtime clock request page_id db in
    elim (Option-cases (get_latest_result db key.page)) [
      | inr (result, s) ↦ elim (Bool-cases (is_fresh_at runtime clock request page_id db result)) [
        | inl t ↦ rw (latest_page, s, t) refl
        | inr f ↦ absurd (
            false≢true (
              sym (answer_accepts runtime request.if_none_match _ _) ∙ rw (latest_page, s, f) at e))
      ]
      | inl n ↦ elim (Option-cases (dead_work db key)) [
        | inl alive ↦ absurd (false≢true (rw (latest_page, n, alive) at e))
        | inr (work, d) ↦ elim (Bool-cases (is_retryable runtime (clock 0) work)) [
          | inl t ↦ absurd (false≢true (rw (latest_page, n, d, t) at e))
          | inr f ↦ rw (latest_page, n, d, f) refl
        ]
      ]
    ]

-- A 404, 422 or 503 of `GET /v2/…` comes with no change of any table.
pub page_attribution_by_freshness_frame :
    (runtime : Runtime) (clock : Clock) (request : PageRequest) (db : Database)
    → is_refusal (page_attribution_by_freshness runtime clock request db).1 ≡ true
    → (page_attribution_by_freshness runtime clock request db).0 ≡ db
unfolding page_attribution_by_freshness
page_attribution_by_freshness_frame runtime clock request db e =
    gated (λ o. is_refusal o.1 ≡ true → o.0 ≡ db)
      (is_enabled runtime.resolver request.wiki runtime.settings.supported_wikis)
      (positive request.page_id) (λ p. latest_page runtime clock request p db) db (λ _. refl)
      (λ _. refl) (λ p _. latest_page_frame runtime clock request p db) e
