-- ===== src/Repository/Standing/Replace.antt =====
-- What `replace_standing` leaves for serving to read.
use mathlib.Core.Bool
use mathlib.Core.Option
use wikifame.Base.{
  ℕ, ◌≡◌, refl, sym, ap, ◌∙◌, subst, inl, inr, true, false, not, ◌&&◌, none, some, none-ne-some,
  some-injective, List, [], ◌∷◌, ◌++◌, map, arith, ◌==◌, if◌then◌else◌, ==_iff, Bool-cases,
  Option-cases, is_some, any, filter, update_where, All, All-updated, filter-none, any-replaced,
  any-unlisted, All-map, All-append, any-none, Text, text_eq, text_eq_refl,
}
use wikifame.Repository.Standing.{
  account_of, standing_for, standing_of, StandingRecord, standing_at, standing_on, wanted_record,
  record_ids, refreshed_standing, is_tracked, is_dropped, added_standings, replace_standing,
}
use wikifame.Policy.Standing.{AccountStanding}
use wikifame.Models.{Time, Clock, ContributorStanding, Database}
use wikifame.Repository.OptOut.{wanted}

is_some-wanted_record :
    (records : List StandingRecord) (id : ℕ)
    → is_some (wanted_record records id) ≡ any (λ r. r.standing.user_id == id) records
unfolding wanted_record any
is_some-wanted_record [] id = refl
is_some-wanted_record (r ∷ records) id =
    let rest = is_some-wanted_record records id in
    elim (Option-cases (wanted_record records id)) [
      | inl n ↦ ground (arith, n, rest)
      | inr (found, s) ↦ ground (arith, s, rest)
    ]

any-record_ids :
    (records : List StandingRecord) (id : ℕ)
    → any (λ i. i == id) (record_ids records) ≡ any (λ r. r.standing.user_id == id) records
unfolding record_ids any
any-record_ids [] id = refl
any-record_ids (r ∷ records) id =
    let rest = any-record_ids records id in
    elim (Bool-cases (any (λ i. i == r.standing.user_id) (record_ids records))) [
      | inl t ↦ elim (Bool-cases (r.standing.user_id == id)) [
        | inl same ↦
            let eq : r.standing.user_id ≡ id = (==_iff r.standing.user_id id).0 same in
            rw t (rw same (subst (λ (k : ℕ). any (λ i. i == k) (record_ids records) ≡ true) eq t))
        | inr other ↦ rw t (rw other rest)
      ]
      | inr f ↦ rw f (rw rest refl)
    ]

-- The entry of an account all of whose rows say the same.
standing_of-agreed :
    (wiki : Text) (id : ℕ) (a : AccountStanding) (rows : List ContributorStanding)
    → All (λ row. standing_at wiki id row ≡ true → account_of row ≡ a) rows
    → standing_of
        (map account_of
          (filter (λ row. text_eq row.wiki wiki && any (λ i. row.user_id == i) (id ∷ [])) rows))
        id
      ≡ (if any (standing_at wiki id) rows then some a else none)
unfolding standing_of filter any
standing_of-agreed wiki id a [] h = refl
standing_of-agreed wiki id a (row ∷ rows) (h, hs) =
    let rest = standing_of-agreed wiki id a rows hs in
    elim (Bool-cases (text_eq row.wiki wiki)) [
      | inr off ↦ rw off rest
      | inl on ↦ elim (Bool-cases (row.user_id == id)) [
        | inr other ↦ rw (on, other) rest
        | inl own ↦
            let here : account_of row ≡ a = h (rw (on, own) refl) in
            elim (Bool-cases (any (standing_at wiki id) rows)) [
              | inl t ↦ let found = rw t at rest in rw (on, own) (rw (standing_of, found) refl)
              | inr f ↦
                  let gone = rw f at rest in
                  rw (on, own) (rw (standing_of, gone) (rw own (ap some here)))
            ]
      ]
    ]

refreshed_standing_at :
    (now : Time) (wiki : Text) (id : ℕ) (records : List StandingRecord) (row : ContributorStanding)
    → standing_at wiki id (refreshed_standing now records row) ≡ standing_at wiki id row
refreshed_standing_at now wiki id records row =
    elim (Option-cases (wanted_record records row.user_id)) [
      | inl n ↦ rw (refreshed_standing, n) refl
      | inr (found, s) ↦ rw (refreshed_standing, s) refl
    ]

wanted_record-own :
    (records : List StandingRecord) (id : ℕ) (r : StandingRecord)
    → wanted_record records id ≡ some r
    → r.standing.user_id ≡ id
unfolding wanted_record
wanted_record-own [] id r e = absurd (none-ne-some _ e)
wanted_record-own (x ∷ records) id r e = elim (Option-cases (wanted_record records id)) [
  | inr (found, s) ↦ wanted_record-own records id r (s ∙ rw (wanted_record, s) at e)
  | inl n ↦ elim (Bool-cases (x.standing.user_id == id)) [
    | inl t ↦
        let same : x ≡ r = some-injective _ _ (rw (wanted_record, n, t) at e) in
        sym (ap (λ (y : StandingRecord). y.standing.user_id) same) ∙ (==_iff _ id).0 t
    | inr f ↦ absurd (none-ne-some _ (rw (wanted_record, n, f) at e))
  ]
]

All-refreshed :
    (now : Time) (wiki : Text) (records : List StandingRecord) (id : ℕ) (r : StandingRecord)
    (rows : List ContributorStanding)
    → r.standing.user_id ≡ id
    → wanted_record records id ≡ some r
    → All
        (λ row. standing_at wiki id row ≡ true → account_of row ≡ r.standing)
        (update_where (standing_on wiki) (refreshed_standing now records) rows)
All-refreshed now wiki records id r rows own wanted =
    All-updated (λ row. standing_at wiki id row ≡ true → account_of row ≡ r.standing)
      (standing_on wiki) (refreshed_standing now records) rows
      (λ row on hit.
        let here : standing_at wiki id row ≡ true =
          sym (refreshed_standing_at now wiki id records row) ∙ hit in
        let eq : row.user_id ≡ id = ground (arith, here) in
        let found : wanted_record records row.user_id ≡ some r =
          ap (wanted_record records) eq ∙ wanted in
        rw (refreshed_standing, found)
          (ap (λ (k : ℕ). record r.standing { user_id = k }) (eq ∙ sym own)))
      (λ row off hit. absurd (ground (arith, off, hit)))

All-added :
    (now : Time) (wiki : Text) (records : List StandingRecord) (id : ℕ) (r : StandingRecord)
    (ids : List ℕ)
    → r.standing.user_id ≡ id
    → wanted_record records id ≡ some r
    → All
        (λ row. standing_at wiki id row ≡ true → account_of row ≡ r.standing)
        (added_standings now wiki records ids)
All-added now wiki records id r [] own wanted = tt
All-added now wiki records id r (other ∷ ids) own wanted =
    elim (Option-cases (wanted_record records other)) [
      | inl n ↦ rw (added_standings, n) (All-added now wiki records id r ids own wanted)
      | inr (x, s) ↦
          rw (added_standings, s)
            (
              (λ hit.
                  let eq : other ≡ id = ground (arith, hit) in
                  let same : x ≡ r =
                    some-injective _ _ (sym s ∙ ap (wanted_record records) eq ∙ wanted) in
                  rw same (ap (λ (k : ℕ). record r.standing { user_id = k }) (eq ∙ sym own))),
              All-added now wiki records id r ids own wanted,
            )
    ]

any-added_standings :
    (now : Time) (wiki : Text) (records : List StandingRecord) (ids : List ℕ) (id : ℕ)
    → any (standing_at wiki id) (added_standings now wiki records ids)
      ≡ (any (λ i. i == id) ids && is_some (wanted_record records id))
unfolding any
any-added_standings now wiki records [] id = refl
any-added_standings now wiki records (other ∷ ids) id =
    let rest = any-added_standings now wiki records ids id in
    elim (Option-cases (wanted_record records other)) [
      | inl n ↦ elim (Bool-cases (other == id)) [
        | inl same ↦
            let eq : other ≡ id = (==_iff other id).0 same in
            let gone : wanted_record records id ≡ none = rw eq at n in
            rw (any, n, same, rest, gone) (Bool.and_comm (any (λ i. i == id) ids) false)
        | inr apart ↦ rw (any, n, apart) rest
      ]
      | inr (found, s) ↦ elim (Bool-cases (other == id)) [
        | inl same ↦
            let eq : other ≡ id = (==_iff other id).0 same in
            let there : wanted_record records id ≡ some found = rw eq at s in
            rw (any, s, text_eq_refl wiki, same, there) refl
        | inr apart ↦ rw (any, s, text_eq_refl wiki, apart) rest
      ]
    ]

module _ (now : Time) (wiki : Text) (records : List StandingRecord) (db : Database) (id : ℕ) where
  replaced : List ContributorStanding
  replaced =
      added_standings now wiki records
        (filter (λ i. not (is_tracked db wiki i)) (record_ids records))
      ++ update_where (standing_on wiki) (refreshed_standing now records)
          (filter (λ row. not (is_dropped wiki records row)) db.contributor_standing)

  not-dropped :
      (row : ContributorStanding)
      → standing_at wiki id row ≡ true
      → not (is_dropped wiki records row) ≡ is_some (wanted_record records id)
  not-dropped row hit =
      let on : text_eq row.wiki wiki ≡ true = ground (arith, hit) in
      let eq : row.user_id ≡ id = ground (arith, hit) in
      rw (on, eq) (Bool.not-not (is_some (wanted_record records id)))

  any-replaced_standing : any (standing_at wiki id) replaced ≡ is_some (wanted_record records id)
  unfolding replaced
  any-replaced_standing =
      any-replaced (standing_at wiki id) (λ row. not (is_dropped wiki records row))
        (standing_on wiki) (refreshed_standing now records) (is_some (wanted_record records id)) _
        db.contributor_standing (refreshed_standing_at now wiki id records) not-dropped
        (any-added_standings now wiki records
            (filter (λ i. not (is_tracked db wiki i)) (record_ids records)) id
          ∙ ap (λ b. b && is_some (wanted_record records id))
              (any-unlisted (is_tracked db wiki) (record_ids records) id
                ∙ ap (λ b. b && not (is_tracked db wiki id))
                    (any-record_ids records id ∙ sym (is_some-wanted_record records id))))

  All-replaced :
      (r : StandingRecord)
      → wanted_record records id ≡ some r
      → All (λ row. standing_at wiki id row ≡ true → account_of row ≡ r.standing) replaced
  unfolding replaced
  All-replaced r s =
      let own = wanted_record-own records id r s in
      let fresh = filter (λ i. not (is_tracked db wiki i)) (record_ids records) in
      let kept = filter (λ row. not (is_dropped wiki records row)) db.contributor_standing in
      All-append (λ row. standing_at wiki id row ≡ true → account_of row ≡ r.standing)
        (added_standings now wiki records fresh)
        (update_where (standing_on wiki) (refreshed_standing now records) kept)
        (All-added now wiki records id r fresh own s)
        (All-refreshed now wiki records id r kept own s)

-- What serving reads of an account of the wiki after `replace_standing` is what the last record of
-- the account says, and nothing if no record is about it.
pub standing_for-replace_standing :
    (clock : Clock) (wiki : Text) (records : List StandingRecord) (db : Database) (id : ℕ)
    → standing_of (standing_for (replace_standing clock wiki records db).0 wiki (id ∷ [])) id
      ≡ Option.map (λ r. r.standing) (wanted_record records id)
unfolding replace_standing standing_for standing_of replaced
standing_for-replace_standing clock wiki records db id =
    let there = any-replaced_standing (clock 0) wiki records db id in
    elim (Option-cases (wanted_record records id)) [
      | inl n ↦
          let rows = replaced (clock 0) wiki records db id in
          let off = any-none (standing_at wiki id) rows (there ∙ ap is_some n) in
          ap (λ (found : List ContributorStanding). standing_of (map account_of found) id)
            (filter-none _ rows (
              All-map (λ row. standing_at wiki id row ≡ false) rows
                (λ row out. unfold any in ground (arith, out)) off))
          ∙ rw n refl
      | inr (r, s) ↦
          standing_of-agreed wiki id r.standing (replaced (clock 0) wiki records db id)
            (All-replaced (clock 0) wiki records db id r s)
          ∙ rw (there, s) refl
    ]
