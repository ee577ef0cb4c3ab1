-- ===== src/Repository/Standing/Named.antt =====
-- The accounts that are named, each once, and what the table says of one of them.
use mathlib.Core.Option
use wikifame.Base.{
  sort_by-Distinct, ℕ, ◌≡◌, refl, inl, inr, false, not, ◌&&◌, List, [], ◌∷◌, map, arith, ltb, leb,
  ◌==◌, Bool-cases, Option-cases, any, filter, Distinct, All-map, any-none, Text, text_eq,
}
use wikifame.Models.{Contributor, AttributionResult, ContributorStanding, Database}
use wikifame.Repository.Standing.{
  account_of, standing_for, standing_of, StandingRecord, standing_on, record_of, standing_records,
  wanted_record, see_contributors, see_results, named_contributor_ids,
}

see_contributors-Distinct :
    (contributors : List Contributor) (seen : List ℕ)
    → Distinct (λ (id : ℕ). id) seen
    → Distinct (λ (id : ℕ). id) (see_contributors contributors seen)
unfolding see_contributors
see_contributors-Distinct [] seen h = h
see_contributors-Distinct (c ∷ contributors) seen h = elim (Option-cases c.user_id) [
  | inl anonymous ↦ rw (see_contributors, anonymous) (see_contributors-Distinct contributors seen h)
  | inr (id, s) ↦ elim (Bool-cases (ltb 0 id && not (any (λ other. other == id) seen))) [
    | inr known ↦ rw (see_contributors, s, known) (see_contributors-Distinct contributors seen h)
    | inl new ↦
        let absent = any-none (λ other. other == id) seen (ground (arith, new)) in
        rw (see_contributors, s, new)
          (see_contributors-Distinct contributors (id ∷ seen) (
            All-map (λ other. (other == id) ≡ false) seen (λ other k same. absurd (ground arith))
                absent,
            h,
          ))
  ]
]

see_results-Distinct :
    (wiki : Text) (results : List AttributionResult) (seen : List ℕ)
    → Distinct (λ (id : ℕ). id) seen
    → Distinct (λ (id : ℕ). id) (see_results wiki results seen)
unfolding see_results
see_results-Distinct wiki [] seen h = h
see_results-Distinct wiki (r ∷ results) seen h = elim (Bool-cases (text_eq r.wiki wiki)) [
  | inl own ↦
      rw (see_results, own)
        (see_results-Distinct wiki results (see_contributors r.contributors seen)
          (see_contributors-Distinct r.contributors seen h))
  | inr other ↦ rw (see_results, other) (see_results-Distinct wiki results seen h)
]

pub named_contributor_ids-Distinct :
    (db : Database) (wiki : Text) → Distinct (λ (id : ℕ). id) (named_contributor_ids db wiki)
unfolding named_contributor_ids
named_contributor_ids-Distinct db wiki =
    sort_by-Distinct leb (λ id. id) (see_results wiki db.attribution_results [])
      (see_results-Distinct wiki db.attribution_results [] tt)

-- What serving reads of an account is what the job starts from.
rows_agree :
    (wiki : Text) (id : ℕ) (rows : List ContributorStanding)
    → standing_of
        (map account_of
          (filter (λ row. text_eq row.wiki wiki && any (λ i. row.user_id == i) (id ∷ [])) rows))
        id
      ≡ Option.map
          (λ (r : StandingRecord). r.standing)
          (wanted_record (map record_of (filter (standing_on wiki) rows)) id)
unfolding standing_of wanted_record filter any
rows_agree wiki id [] = refl
rows_agree wiki id (row ∷ rows) =
    let rest = rows_agree wiki id rows in
    let known = map record_of (filter (standing_on wiki) rows) in
    elim (Bool-cases (text_eq row.wiki wiki)) [
      | inr apart ↦ rw apart rest
      | inl same ↦ elim (Bool-cases (row.user_id == id)) [
        | inl own ↦ elim (Option-cases (wanted_record known id)) [
          | inl n ↦ rw (same, own, n, rw n at rest, own) refl
          | inr (found, s) ↦ rw (same, own, s, rw s at rest) refl
        ]
        | inr other ↦ elim (Option-cases (wanted_record known id)) [
          | inl n ↦ rw (same, other, n, other) (rw n at rest)
          | inr (found, s) ↦ rw (same, other, s) (rw s at rest)
        ]
      ]
    ]

pub standing_records-served :
    (db : Database) (wiki : Text) (id : ℕ)
    → standing_of (standing_for db wiki (id ∷ [])) id
      ≡ Option.map
          (λ (r : StandingRecord). r.standing)
          (wanted_record (standing_records db wiki) id)
unfolding standing_for standing_records
standing_records-served db wiki id = rows_agree wiki id db.contributor_standing
