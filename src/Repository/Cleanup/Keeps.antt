-- ===== src/Repository/Cleanup/Keeps.antt =====
-- What a cleanup never removes.
use wikifame.Base.{
  ℕ, ◌-◌, ◌≡◌, refl, sym, ap, ◌∙◌, inl, inr, true, false, not, ◌&&◌, false≢true, some, List, arith,
  ltb, ◌==◌, ==_iff, Bool-cases, Option-cases, take, filter, first_by, All, Member, All-filter_if,
  All-take, All-of_filter, any-absent, filter_comm, any-map, All-Member, Distinct-unique,
  first_by-none, All-first_by, first_by-least, first_by-filter, All-filter, All-map, All-self,
}
use wikifame.Models.{Time, Clock, PageKey, page_eq, page_eq_iff, AttributionResult, Database}
use wikifame.Repository.Results.{is_newer, on_page, get_latest_result}
use wikifame.Repository.Results.Valid.{IsResultsValid}
use wikifame.Repository.Cleanup.{
  days, is_replaced, is_obsolete, obsolete_ids, id_in, remaining_results, cleanup,
}

is_newer_asym : (a b : AttributionResult) → is_newer a b ≡ true → is_newer b a ≡ false
unfolding is_newer
is_newer_asym a b h = ground arith

is_newer_back :
    (a b c : AttributionResult) → is_newer b a ≡ false → is_newer c b ≡ false → is_newer c a ≡ false
unfolding is_newer
is_newer_back a b c h k = ground arith

later_on_page :
    (page : PageKey) (latest r : AttributionResult)
    → on_page page latest ≡ true
    → (on_page page r ≡ true → is_newer r latest ≡ false)
    → (page_eq r.page latest.page && ltb latest.computed_at r.computed_at) ≡ false
unfolding is_newer
later_on_page page latest r here low =
    ground
      (arith, page_eq_iff latest.page page, page_eq_iff r.page page, page_eq_iff r.page latest.page)

-- The latest result of a page is not obsolete.
latest-not_obsolete :
    (cutoff : Time) (db : Database) (page : PageKey) (latest : AttributionResult)
    → get_latest_result db page ≡ some latest
    → is_obsolete cutoff db.attribution_results latest ≡ false
unfolding get_latest_result
latest-not_obsolete cutoff db page latest e =
    let rows = db.attribution_results in
    let here =
      All-first_by is_newer (λ r. on_page page r ≡ true) (filter (on_page page) rows)
        (All-self (on_page page) rows) e in
    let newest =
      All-of_filter (λ r. is_newer r latest ≡ false) (on_page page) rows
        (first_by-least is_newer is_newer_asym is_newer_back (filter (on_page page) rows) e) in
    let alone : is_replaced rows latest ≡ false =
      any-absent
        (λ newer. page_eq newer.page latest.page && ltb latest.computed_at newer.computed_at) rows
        (All-map (λ r. on_page page r ≡ true → is_newer r latest ≡ false) rows
          (λ r low. later_on_page page latest r here low) newest) in
    unfold is_obsolete in rw alone refl

apart :
    (rows : List AttributionResult) (cutoff : Time) (latest r : AttributionResult)
    → (r.id ≡ latest.id → r ≡ latest)
    → is_obsolete cutoff rows r ≡ true
    → is_obsolete cutoff rows latest ≡ false
    → (r.id == latest.id) ≡ false
apart rows cutoff latest r one hit safe = elim (Bool-cases (r.id == latest.id)) [
  | inl t ↦
      let same = one ((==_iff _ _).0 t) in
      absurd (false≢true (sym safe ∙ ap (is_obsolete cutoff rows) (sym same) ∙ hit))
  | inr f ↦ f
]

-- Nor is it removed with another row.
latest-kept :
    (cutoff : Time) (db : Database) (page : PageKey) (latest : AttributionResult)
    → IsResultsValid db
    → get_latest_result db page ≡ some latest
    → id_in (obsolete_ids cutoff db.attribution_results) latest ≡ false
unfolding get_latest_result
latest-kept cutoff db page latest v e =
    let rows = db.attribution_results in
    let member =
      All-first_by is_newer (λ r. Member r rows) (filter (on_page page) rows)
        (All-filter (λ r. Member r rows) (on_page page) rows (All-Member rows)) e in
    let only = Distinct-unique (λ (r : AttributionResult). r.id) rows latest v.ids member in
    let safe = latest-not_obsolete cutoff db page latest e in
    let others : All (λ r. is_obsolete cutoff rows r ≡ true → (r.id == latest.id) ≡ false) rows =
      All-map (λ r. r.id ≡ latest.id → r ≡ latest) rows
        (λ r one hit. apart rows cutoff latest r one hit safe) only in
    let picked =
      All-take (λ r. (r.id == latest.id) ≡ false) 10000 (filter (is_obsolete cutoff rows) rows)
        (All-filter_if (λ r. (r.id == latest.id) ≡ false) (is_obsolete cutoff rows) rows others) in
    unfold obsolete_ids in
    any-map (λ i. i == latest.id) (λ (r : AttributionResult). r.id)
      (take 10000 (filter (is_obsolete cutoff rows) rows))
    ∙ any-absent (λ r. r.id == latest.id) (take 10000 (filter (is_obsolete cutoff rows) rows))
        picked

-- On well-formed results a cleanup never changes the latest result of a page, whatever the
-- retention times.
pub get_latest_result-cleanup :
    (clock : Clock) (queue_days result_days : ℕ) (db : Database) (page : PageKey)
    → IsResultsValid db
    → get_latest_result (cleanup clock queue_days result_days db).0 page ≡ get_latest_result db page
unfolding cleanup
get_latest_result-cleanup clock queue_days result_days db page v =
    let cutoff = clock 1 - days result_days in
    let ids = obsolete_ids cutoff db.attribution_results in
    let keep = λ (r : AttributionResult). not (id_in ids r) in
    let rows = filter (on_page page) db.attribution_results in
    elim (Option-cases (get_latest_result db page)) [
      | inl n ↦
          unfold get_latest_result remaining_results in
          ap (first_by is_newer) (
            filter_comm (on_page page) keep db.attribution_results
            ∙ ap (filter keep) (first_by-none is_newer rows n))
          ∙ sym n
      | inr (latest, e) ↦
          let stays : keep latest ≡ true = ap not (latest-kept cutoff db page latest v e) in
          unfold get_latest_result remaining_results in
          ap (first_by is_newer) (filter_comm (on_page page) keep db.attribution_results)
          ∙ first_by-filter is_newer is_newer_asym is_newer_back keep rows e stays
          ∙ sym e
    ]
