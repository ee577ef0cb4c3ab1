-- ===== src/Repository/Standing/Keys.antt =====
-- The keys of `contributor_standing` after `replace_standing`.
use wikifame.Base.{
  ℕ, ◌≡◌, refl, sym, ap, ◌∙◌, ◌≢◌, inl, inr, true, false, not, false≢true, List, [], ◌∷◌, ◌++◌,
  arith, ◌==◌, ==_iff, Bool-cases, Option-cases, any, filter, update_where, All, All-filter,
  All-filter_if, All-update_where, All-map, All-any, any-none, Distinct, Distinct-filter,
  Distinct-update_where, Text, text_eq_iff,
}
use wikifame.Models.{Time, Clock, ContributorStanding, Database}
use wikifame.Repository.Standing.{
  StandingRecord, standing_at, standing_on, wanted_record, record_ids, refreshed_standing,
  is_tracked, is_dropped, added_standings, replace_standing,
}

abbrev pub standing_key : ContributorStanding → Text × ℕ
standing_key row = (row.wiki, row.user_id)

-- No row has this key.
abbrev IsFree : Text → ℕ → List ContributorStanding → Type 0
IsFree wiki id rows = All (λ row. standing_key row ≢ (wiki, id)) rows

record_ids-Distinct : (entries : List StandingRecord) → Distinct (λ id. id) (record_ids entries)
unfolding record_ids
record_ids-Distinct [] = tt
record_ids-Distinct (entry ∷ entries) =
    elim (Bool-cases (any (λ id. id == entry.standing.user_id) (record_ids entries))) [
      | inl t ↦ rw (record_ids, t) (record_ids-Distinct entries)
      | inr f ↦
          rw (record_ids, f)
            (
              All-map (λ id. (id == entry.standing.user_id) ≡ false) (record_ids entries)
                  (λ id off same. false≢true (sym off ∙ (==_iff id entry.standing.user_id).1 same))
                  (any-none (λ id. id == entry.standing.user_id) (record_ids entries) f),
              record_ids-Distinct entries,
            )
    ]

module _ (now : Time) (wiki : Text) (entries : List StandingRecord) where
  refreshed_standing_key :
      (row : ContributorStanding)
      → standing_key (refreshed_standing now entries row) ≡ standing_key row
  refreshed_standing_key row = elim (Option-cases (wanted_record entries row.user_id)) [
    | inl n ↦ rw (refreshed_standing, n) refl
    | inr (entry, s) ↦ rw (refreshed_standing, s) refl
  ]

  added_standings-IsFree :
      (id : ℕ) (ids : List ℕ) (rest : List ContributorStanding)
      → All (λ j. j ≢ id) ids
      → IsFree wiki id rest
      → IsFree wiki id (added_standings now wiki entries ids ++ rest)
  added_standings-IsFree id [] rest h free = free
  added_standings-IsFree id (j ∷ ids) rest (hj, h) free =
      elim (Option-cases (wanted_record entries j)) [
        | inl n ↦ rw (added_standings, n) (added_standings-IsFree id ids rest h free)
        | inr (entry, s) ↦
            rw (added_standings, s)
              (
                (λ same. hj (ap (λ (k : Text × ℕ). k.1) same)),
                added_standings-IsFree id ids rest h free,
              )
      ]

  added_standings-Distinct :
      (ids : List ℕ) (rest : List ContributorStanding)
      → Distinct (λ id. id) ids
      → All (λ id. IsFree wiki id rest) ids
      → Distinct standing_key rest
      → Distinct standing_key (added_standings now wiki entries ids ++ rest)
  added_standings-Distinct [] rest h free d = d
  added_standings-Distinct (id ∷ ids) rest (hid, h) (f, free) d =
      elim (Option-cases (wanted_record entries id)) [
        | inl n ↦ rw (added_standings, n) (added_standings-Distinct ids rest h free d)
        | inr (entry, s) ↦
            rw (added_standings, s)
              (added_standings-IsFree id ids rest hid f, added_standings-Distinct ids rest h free d)
      ]

  kept-IsFree :
      (db : Database) (id : ℕ)
      → not (is_tracked db wiki id) ≡ true
      → IsFree wiki id (
          update_where
            (standing_on wiki)
            (refreshed_standing now entries)
            (filter (λ row. not (is_dropped wiki entries row)) db.contributor_standing))
  kept-IsFree db id unlisted =
      All-update_where (λ row. standing_key row ≢ (wiki, id)) (standing_on wiki)
        (refreshed_standing now entries) _
        (λ row differs on same. differs (sym (refreshed_standing_key row) ∙ same))
        (All-filter (λ row. standing_key row ≢ (wiki, id)) _ db.contributor_standing
          (All-map (λ row. standing_at wiki id row ≡ false) db.contributor_standing
            (λ row off same.
              let on = (text_eq_iff row.wiki wiki).1 (ap (λ (k : Text × ℕ). k.0) same) in
              let own = (==_iff row.user_id id).1 (ap (λ (k : Text × ℕ). k.1) same) in
              absurd (ground (arith, off, on, own)))
            (any-none (standing_at wiki id) db.contributor_standing (ground (arith, unlisted)))))

-- Rows with different keys are replaced by rows with different keys.
pub replace_standing-Distinct :
    (clock : Clock) (wiki : Text) (entries : List StandingRecord) (db : Database)
    → Distinct standing_key db.contributor_standing
    → Distinct standing_key (replace_standing clock wiki entries db).0.contributor_standing
unfolding replace_standing
replace_standing-Distinct clock wiki entries db h =
    let fresh = filter (λ id. not (is_tracked db wiki id)) (record_ids entries) in
    let kept = filter (λ row. not (is_dropped wiki entries row)) db.contributor_standing in
    added_standings-Distinct (clock 0) wiki entries fresh _
      (Distinct-filter (λ id. id) _ (record_ids entries) (record_ids-Distinct entries))
      (All-filter_if
        (λ id.
          IsFree wiki id
            (update_where (standing_on wiki) (refreshed_standing (clock 0) entries) kept))
        (λ id. not (is_tracked db wiki id)) (record_ids entries)
        (All-any
          (λ id.
            not (is_tracked db wiki id) ≡ true
            → IsFree wiki id
                (update_where (standing_on wiki) (refreshed_standing (clock 0) entries) kept))
          (record_ids entries) (λ id off. kept-IsFree (clock 0) wiki entries db id off)))
      (Distinct-update_where standing_key (standing_on wiki) (refreshed_standing (clock 0) entries)
        kept (refreshed_standing_key (clock 0) wiki entries)
        (Distinct-filter standing_key _ db.contributor_standing h))
