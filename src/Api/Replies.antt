-- ===== src/Api/Replies.antt =====
-- Which tables the handlers of app.py change, and what a 202 promises.
use wikifame.Base.{
  ℕ, ◌≡◌, refl, sym, ap, ◌∙◌, subst, ◌⊎◌, inl, inr, Bool, true, false, not, false≢true, Option,
  none, some, if◌then◌else◌, Bool-cases, Option-cases, Text,
}
use wikifame.Models.{Time, Clock, later, AttributionResult, WorkItem, Database}
use wikifame.Repository.Queue.{revive}
use wikifame.Repository.Results.{get_result}
use wikifame.Sites.{is_enabled}
use wikifame.Api.Serving.{IsPresented, attribution_fields-IsPresented}
use wikifame.Api.{
  Freshness, Payload, Headers, Reply, not_found, unprocessable, ready, not_modified, pending_reply,
  Runtime, PageRequest, matches_etag,
}
use wikifame.Api.Handlers.{
  payload_of, positive, answer, dead_work, is_retryable, requested, unavailable_reply,
  waiting_reply, exact_answer, queue_exact, exact_page, page_attribution,
}

-- 202
abbrev pub is_waiting : Reply → Bool
is_waiting (pending_reply wiki page_id revision_id) = true
is_waiting _ = false

pub gated :
    (Q : Database × Reply → Type 0) (enabled : Bool) (page_id : Option ℕ)
    (page : ℕ → Database × Reply) (db : Database)
    → Q (db, not_found)
    → Q (db, unprocessable)
    → ((p : ℕ) → page_id ≡ some p → Q (page p))
    → Q (
        if not enabled
        then (db, not_found)
        else elim page_id [ none ↦ (db, unprocessable) | some p ↦ page p ])
gated Q false page_id page db missing refused served = missing
gated Q true none page db missing refused served = refused
gated Q true (some p) page db missing refused served = served p refl

pub answer_settles :
    (runtime : Runtime) (if_none_match : Option Text) (headers : Headers) (payload : Payload)
    → is_waiting (answer runtime if_none_match headers payload) ≡ false
unfolding answer
answer_settles runtime if_none_match headers payload =
    elim (Bool-cases (matches_etag runtime.unicode if_none_match headers.etag)) [
      | inl t ↦ rw (answer, t) refl
      | inr f ↦ rw (answer, f) refl
    ]

module _ (runtime : Runtime) (clock : Clock) (request : PageRequest) (page_id : ℕ)
    (db : Database) where
  -- The tables from which a 202 goes on: as they were, or with the dead job revived.
  abbrev pub IsReady : Database → Type 0
  IsReady db' =
      (db' ≡ db) × (dead_work db (requested runtime clock request page_id db) ≡ none)
      ⊎ (work : WorkItem) × (dead_work db (requested runtime clock request page_id db) ≡ some work)
        × (db' ≡ revive (later 1 clock) work.id 100 db)

module _ (Q : Database × Reply → Type 0) (runtime : Runtime) (clock : Clock) (request : PageRequest)
    (page_id : ℕ) (db : Database) where
  pub exact_page-cases :
      ((result : AttributionResult)
        → get_result db (requested runtime clock request page_id db) ≡ some result
        → Q (db, exact_answer runtime clock request page_id db result))
      → ((work : WorkItem) → Q (db, unavailable_reply runtime clock request page_id db work))
      → ((db' : Database)
          → get_result db (requested runtime clock request page_id db) ≡ none
          → IsReady runtime clock request page_id db db'
          → Q (
            queue_exact runtime clock request page_id db db',
            waiting_reply runtime clock request page_id db,
          ))
      → Q (exact_page runtime clock request page_id db)
  unfolding exact_page
  exact_page-cases stored refused waiting =
      let key = requested runtime clock request page_id db in
      elim (Option-cases (get_result db key)) [
        | inr (result, s) ↦ rw (exact_page, s) (stored result s)
        | inl n ↦ elim (Option-cases (dead_work db key)) [
          | inl alive ↦ rw (exact_page, n, alive) (waiting db n (inl (refl, alive)))
          | inr (work, d) ↦ elim (Bool-cases (is_retryable runtime (clock 0) work)) [
            | inl t ↦
                rw (exact_page, n, d, t)
                  (waiting (revive (later 1 clock) work.id 100 db) n (inr (work, d, refl)))
            | inr f ↦ rw (exact_page, n, d, f) (refused work)
          ]
        ]
      ]

-- `GET /v1/…` changes no table unless it answers 202.
pub page_attribution_frame :
    (runtime : Runtime) (clock : Clock) (request : PageRequest) (db : Database)
    → is_waiting (page_attribution runtime clock request db).1 ≡ false
    → (page_attribution runtime clock request db).0 ≡ db
unfolding page_attribution
page_attribution_frame runtime clock request db e =
    gated (λ o. is_waiting o.1 ≡ false → o.0 ≡ db)
      (is_enabled runtime.resolver request.wiki runtime.settings.supported_wikis)
      (positive request.page_id) (λ p. exact_page runtime clock request p db) db (λ _. refl)
      (λ _. refl)
      (λ p _.
        exact_page-cases (λ o. is_waiting o.1 ≡ false → o.0 ≡ db) runtime clock request p db
          (λ _ _ _. refl) (λ _ _. refl) (λ _ _ _ w. absurd (false≢true (sym w))))
      e

-- The parts of the body that are the row's, and the link to the method.
pub record IsDescribed (runtime : Runtime) (result : AttributionResult) (payload : Payload)
    : Type 0 where
  pub key : payload.key ≡ result.key
  pub title : payload.title ≡ result.title
  pub metric : payload.metric ≡ result.metric
  pub count_limited : payload.count_limited ≡ result.count_limited
  pub countable_tokens : payload.countable_tokens ≡ result.countable_tokens
  pub computed_at : payload.computed_at ≡ result.computed_at
  pub methodology_url : payload.methodology_url ≡ runtime.settings.methodology_url

pub payload_of-IsDescribed :
    (runtime : Runtime) (now : Time) (db : Database) (wiki : Text) (page_id : ℕ)
    (result : AttributionResult) (freshness : Option Freshness)
    → IsDescribed runtime result (payload_of runtime now db wiki page_id result freshness)
payload_of-IsDescribed runtime now db wiki page_id result freshness = record {
  key = refl;
  title = refl;
  metric = refl;
  count_limited = refl;
  countable_tokens = refl;
  computed_at = refl;
  methodology_url = refl;
}

-- What `GET /v1/…` serves is the stored row of the revision that was asked for, presented rightly,
-- and tagged with the digest of what is served.
pub record IsServed (runtime : Runtime) (clock : Clock) (request : PageRequest) (page_id : ℕ)
    (db : Database) (headers : Headers) (payload : Payload) : Type 0 where
  pub result : AttributionResult
  pub stored : get_result db (requested runtime clock request page_id db) ≡ some result
  pub presented : IsPresented runtime (clock 0) db request.wiki page_id result payload.attribution
  pub described : IsDescribed runtime result payload
  pub exact : payload.freshness ≡ none
  pub tagged : headers.etag ≡ runtime.digest payload

pub answer-ready :
    (runtime : Runtime) (if_none_match : Option Text) (h : Headers) (p : Payload)
    (headers : Headers) (payload : Payload)
    → answer runtime if_none_match h p ≡ ready headers payload
    → (h ≡ headers) × (p ≡ payload)
unfolding answer
answer-ready runtime if_none_match h p headers payload e =
    elim (Bool-cases (matches_etag runtime.unicode if_none_match h.etag)) [
      | inl t ↦ absurd (let e' : not_modified h ≡ ready headers payload = rw t at e in cc)
      | inr f ↦ let e' : ready h p ≡ ready headers payload = rw f at e in (cc, cc)
    ]

-- A 200 of `GET /v1/…` carries the stored row of the page and revision that the request names: its
-- key, title, metric, numbers and time of computation, no names if the page is opted out, otherwise
-- exactly the stored names that may be shown, in their order, the stored count and how many are not
-- named, and as its tag the digest of this body.
pub page_attribution-IsServed :
    (runtime : Runtime) (clock : Clock) (request : PageRequest) (db : Database) (headers : Headers)
    (payload : Payload)
    → (page_attribution runtime clock request db).1 ≡ ready headers payload
    → (page_id : ℕ) × (positive request.page_id ≡ some page_id)
      × IsServed runtime clock request page_id db headers payload
unfolding page_attribution
page_attribution-IsServed runtime clock request db headers payload e =
    gated Goal (is_enabled runtime.resolver request.wiki runtime.settings.supported_wikis)
      (positive request.page_id) (λ p. exact_page runtime clock request p db) db (λ h. absurd cc)
      (λ h. absurd cc)
      (λ p accepted.
        exact_page-cases Goal runtime clock request p db
          (λ result s h.
            let (same_headers, same_payload) =
              answer-ready runtime request.if_none_match _ _ headers payload h in
            (
              p,
              accepted,
              record {
                result = result;
                stored = s;
                presented =
                    subst
                      (λ (b : Payload).
                        IsPresented runtime (clock 0) db request.wiki p result b.attribution)
                      same_payload
                      (attribution_fields-IsPresented runtime (clock 0) db request.wiki p result);
                described =
                    subst (IsDescribed runtime result) same_payload
                      (payload_of-IsDescribed runtime (clock 0) db request.wiki p result none);
                exact = ap (λ (b : Payload). b.freshness) (sym same_payload);
                tagged =
                    ap (λ (x : Headers). x.etag) (sym same_headers)
                    ∙ ap runtime.digest same_payload;
              },
            ))
          (λ work h. absurd cc) (λ db' n r h. absurd cc))
      e
  where
    Goal : Database × Reply → Type 0
    Goal o =
        o.1 ≡ ready headers payload
        → (page_id : ℕ) × (positive request.page_id ≡ some page_id)
          × IsServed runtime clock request page_id db headers payload
