-- ===== src/Jobs/Accounts.antt =====
-- What the standing job makes of the table.
use mathlib.Core.Option
use wikifame.Jobs.Standing.{
  StandingJob, due_ids, lock_known, refreshed_record, is_due, keep, Refreshed, check_lock, refresh,
  refresh_all, read_records, write_records, sync_wiki,
}
use wikifame.Base.{
  ℕ, ◌≡◌, refl, sym, ap, ◌∙◌, subst, ◌≢◌, inl, inr, Bool, true, false, Option, none, some,
  some-injective, List, [], ◌∷◌, arith, ◌==◌, Bool-cases, Option-cases, All, Member, Distinct, Text,
}
use wikifame.Jobs.Standing.{
  StandingJob, due_ids, lock_known, refreshed_record, is_due, keep, Refreshed, check_lock, refresh,
  refresh_all, read_records, write_records, sync_wiki,
}
use wikifame.Repository.Standing.{
  standing_for, standing_of, StandingRecord, standing_records, wanted_record, named_contributor_ids,
}
use wikifame.Policy.Standing.{AccountStanding}
use wikifame.Models.{Time, Clock, later}
use wikifame.Errors.{Failure, Result, ok, err, and_then, >>=-eq-ok}
use wikifame.Upstream.{Standings, World}
use wikifame.Repository.Standing.Named.{named_contributor_ids-Distinct, standing_records-served}
use wikifame.Repository.Standing.Replace.{standing_for-replace_standing}

wanted_record-id :
    (records : List StandingRecord) (id : ℕ) {found : StandingRecord}
    → wanted_record records id ≡ some found
    → found.standing.user_id ≡ id
unfolding wanted_record
wanted_record-id [] id e = absurd (ground arith)
wanted_record-id (r ∷ records) id {found} e = elim (Option-cases (wanted_record records id)) [
  | inr (other, s) ↦
      let same : other ≡ found = some-injective _ _ (rw (wanted_record, s) at e) in
      subst (λ (x : StandingRecord). x.standing.user_id ≡ id) same (wanted_record-id records id s)
  | inl n ↦ elim (Bool-cases (r.standing.user_id == id)) [
    | inl own ↦
        let same : r ≡ found = some-injective _ _ (rw (wanted_record, n, own) at e) in
        subst (λ (x : StandingRecord). x.standing.user_id ≡ id) same (ground (arith, own))
    | inr other ↦ absurd (let e' = rw (wanted_record, n, other) at e in ground arith)
  ]
]

-- A record of another account in front changes nothing.
wanted_record-other :
    (r : StandingRecord) (records : List StandingRecord) (id : ℕ)
    → r.standing.user_id == id ≡ false
    → wanted_record (r ∷ records) id ≡ wanted_record records id
unfolding wanted_record
wanted_record-other r records id other = elim (Option-cases (wanted_record records id)) [
  | inr (found, s) ↦ rw (wanted_record, s) refl
  | inl n ↦ rw (wanted_record, n, other) refl
]

wanted_record-first :
    (r : StandingRecord) (records : List StandingRecord) (id : ℕ)
    → r.standing.user_id ≡ id
    → wanted_record records id ≡ none
    → wanted_record (r ∷ records) id ≡ some r
unfolding wanted_record
wanted_record-first r records id own n =
    let same : (r.standing.user_id == id) ≡ true = ground (arith, own) in
    rw (wanted_record, n, same) refl

keep-other :
    (known : List StandingRecord) (u id : ℕ) (records : List StandingRecord)
    → u ≢ id
    → wanted_record (keep (wanted_record known u) records) id ≡ wanted_record records id
keep-other known u id records apart = elim (Option-cases (wanted_record known u)) [
  | inl n ↦ rw n refl
  | inr (r, s) ↦
      rw s (wanted_record-other r records id (ground (arith, apart, wanted_record-id known u s)))
]

keep-own :
    (known : List StandingRecord) (id : ℕ) (records : List StandingRecord)
    → wanted_record records id ≡ none
    → wanted_record (keep (wanted_record known id) records) id ≡ wanted_record known id
keep-own known id records n = elim (Option-cases (wanted_record known id)) [
  | inl none' ↦ rw none' n
  | inr (r, s) ↦ rw s (wanted_record-first r records id (wanted_record-id known id s) n)
]

apart_of : (ids : List ℕ) (u id : ℕ) → All (λ w. w ≢ u) ids → Member id ids → u ≢ id
apart_of [] u id h m = absurd m
apart_of (v ∷ ids) u id (h, hs) (inl same) = λ e. h (sym same ∙ sym e)
apart_of (v ∷ ids) u id (h, hs) (inr m) = apart_of ids u id hs m

module _ {S : Type 0} (job : StandingJob S) (wiki : Text) (now : Time) (known : List StandingRecord)
    (blocks : Standings) (due : List ℕ) where
  -- A refreshed record is about the account it was made for.
  refresh-id :
      (id : ℕ) (block : AccountStanding) (previous : Option StandingRecord) (s : S)
      (r : StandingRecord) (n : ℕ)
      → (refresh job wiki now due id block previous s).0 ≡ ok (r, n)
      → r.standing.user_id ≡ id
  unfolding refresh
  refresh-id id block previous s r n e = elim (Bool-cases (is_due due id)) [
    | inl asked ↦
        let ((lock, read), c, e') =
          >>=-eq-ok (check_lock job wiki now block.username (lock_known previous)) _ s
            (rw (refresh, asked) at e) in
        let same : refreshed_record block id lock ≡ r = ground arith in
        subst (λ (x : StandingRecord). x.standing.user_id ≡ id) same refl
    | inr kept ↦
        let e' = rw (refresh, kept) at e in
        let same : refreshed_record block id (lock_known previous) ≡ r = ground arith in
        subst (λ (x : StandingRecord). x.standing.user_id ≡ id) same refl
  ]

  -- What the loop says of one account: nothing if it is not listed, and what was known if MediaWiki
  -- did not answer for it.
  abbrev Agrees : ℕ → List ℕ → List StandingRecord → Type 0
  Agrees id ids records =
      (All (λ u. u ≢ id) ids → wanted_record records id ≡ none)
      × (Distinct (λ (u : ℕ). u) ids
          → Member id ids
          → blocks id ≡ none
          → wanted_record records id ≡ wanted_record known id)

  Agrees-kept :
      (id u : ℕ) (ids : List ℕ) (records : List StandingRecord)
      → blocks u ≡ none
      → Agrees id ids records
      → Agrees id (u ∷ ids) (keep (wanted_record known u) records)
  Agrees-kept id u ids records silent (outside, inside) = (
    λ (apart, all). keep-other known u id records apart ∙ outside all,
    λ (fresh, d) m n. elim m [
      | inl own ↦
          let others = subst (λ v. All (λ w. w ≢ v) ids) (sym own) fresh in
          rw (sym own) (keep-own known id records (outside others))
      | inr m' ↦ keep-other known u id records (apart_of ids u id fresh m') ∙ inside d m' n
    ],
  )

  Agrees-refreshed :
      (id u : ℕ) (ids : List ℕ) (block : AccountStanding) (r : StandingRecord)
      (records : List StandingRecord)
      → blocks u ≡ some block
      → r.standing.user_id ≡ u
      → Agrees id ids records
      → Agrees id (u ∷ ids) (r ∷ records)
  Agrees-refreshed id u ids block r records answered own (outside, inside) = (
    λ (apart, all). wanted_record-other r records id (ground (arith, apart, own)) ∙ outside all,
    λ (fresh, d) m n. elim m [
      | inl same ↦ absurd (ground arith)
      | inr m' ↦
          wanted_record-other r records id (ground (arith, own, apart_of ids u id fresh m'))
          ∙ inside d m' n
    ],
  )

  refresh_all-Agrees :
      (id : ℕ) (ids : List ℕ) (s : S) (records : List StandingRecord) (n : ℕ)
      → (refresh_all job wiki now known blocks due ids s).0 ≡ ok (records, n)
      → Agrees id ids records
  unfolding refresh_all
  refresh_all-Agrees id [] s records n e =
      let same : [] ≡ records = ground arith in
      subst (Agrees id []) same ((λ _. refl), (λ d m. absurd m))
  refresh_all-Agrees id (u ∷ ids) s records n e = elim (Option-cases (blocks u)) [
    | inl silent ↦
        let ((rest, k), r, e') =
          >>=-eq-ok (refresh_all job wiki now known blocks due ids) _ s
            (rw (refresh_all, silent) at e) in
        let same : keep (wanted_record known u) rest ≡ records = ground arith in
        subst (Agrees id (u ∷ ids)) same
          (Agrees-kept id u ids rest silent (refresh_all-Agrees id ids s rest k r))
    | inr (block, answered) ↦
        let ((first, read), f, e') =
          >>=-eq-ok (refresh job wiki now due u block (wanted_record known u)) _ s
            (rw (refresh_all, answered) at e) in
        let s' = (refresh job wiki now due u block (wanted_record known u) s).1 in
        let ((rest, k), r, e'') =
          >>=-eq-ok (refresh_all job wiki now known blocks due ids) _ s' e' in
        let same : first ∷ rest ≡ records = ground arith in
        subst (Agrees id (u ∷ ids)) same (
          Agrees-refreshed id u ids block first rest answered
            (refresh-id u block (wanted_record known u) s first read f)
            (refresh_all-Agrees id ids s' rest k r))
  ]

module _ {S : Type 0} (job : StandingJob S) (wiki : Text) (clock : Clock) where
  -- The rest of a run, once the records are read or are not.
  abbrev written : Bool → Result Refreshed → World S → Result (ℕ × ℕ × ℕ × ℕ) × World S
  written dry_run r w = and_then r (write_records wiki clock dry_run) w

  failed_unchanged :
      (dry_run : Bool) (r : Result Refreshed) (w : World S) (e : Failure)
      → (written dry_run r w).0 ≡ err e
      → (written dry_run r w).1.db ≡ w.db
  failed_unchanged dry_run (err x) w e h = refl
  failed_unchanged true (ok (records, n)) w e h = refl
  failed_unchanged false (ok (records, n)) w e h = absurd (ground arith)

  reported_unchanged : (r : Result Refreshed) (w : World S) → (written true r w).1.db ≡ w.db
  reported_unchanged (err x) w = refl
  reported_unchanged (ok (records, n)) w = refl

  -- A run of the standing job for a wiki changes no table if it raises, and a dry run changes none
  -- either way.
  pub sync_standing-unchanged :
      (dry_run : Bool) (w : World S)
      → ((e : Failure)
          → (sync_wiki job wiki clock dry_run w).0 ≡ err e
          → (sync_wiki job wiki clock dry_run w).1.db ≡ w.db)
        × ((sync_wiki job wiki clock true w).1.db ≡ w.db)
  unfolding sync_wiki
  sync_standing-unchanged dry_run w =
      let (r, net) = read_records job wiki (clock 0) w.db w.net in
      let start : World S = record { db = w.db; net = net } in
      (failed_unchanged dry_run r start, reported_unchanged r start)

  -- If the run of the standing job for a wiki has read its records, an account that stored results
  -- name and that MediaWiki did not answer for has, after the run, the standing for serving that
  -- it had before.
  pub sync_standing-keeps :
      (w : World S) (blocks : Standings) (records : List StandingRecord) (n : ℕ)
      → (job.mediawiki.fetch_standing wiki (named_contributor_ids w.db wiki) w.net).0 ≡ ok blocks
      → (read_records job wiki (clock 0) w.db w.net).0 ≡ ok (records, n)
      → (id : ℕ) → Member id (named_contributor_ids w.db wiki)
      → blocks id ≡ none
      → standing_of (standing_for (sync_wiki job wiki clock false w).1.db wiki (id ∷ [])) id
        ≡ standing_of (standing_for w.db wiki (id ∷ [])) id
  unfolding sync_wiki read_records
  sync_standing-keeps w blocks records n asked e id m silent =
      let ids = named_contributor_ids w.db wiki in
      let (blocks', b, e') =
        >>=-eq-ok (job.mediawiki.fetch_standing wiki ids)
          (λ blocks.
            refresh_all job wiki (clock 0) (standing_records w.db wiki) blocks
              (due_ids job.settings wiki (clock 0) w.db) ids)
          w.net e in
      let same : blocks ≡ blocks' = ground arith in
      let agrees =
        refresh_all-Agrees job wiki (clock 0) (standing_records w.db wiki) blocks'
          (due_ids job.settings wiki (clock 0) w.db) id ids
          (job.mediawiki.fetch_standing wiki ids w.net).1 records n e' in
      let kept =
        agrees.1 (named_contributor_ids-Distinct w.db wiki) m
          (subst (λ (b : Standings). b id ≡ none) same silent) in
      let net = (read_records job wiki (clock 0) w.db w.net).1 in
      subst
        (λ r.
          standing_of
            (standing_for (written false r (record { db = w.db; net = net })).1.db wiki (id ∷ []))
            id
          ≡ standing_of (standing_for w.db wiki (id ∷ [])) id)
        (sym e)
        (standing_for-replace_standing (later 1 clock) wiki records w.db id
          ∙ ap (Option.map (λ (r : StandingRecord). r.standing)) kept
          ∙ sym (standing_records-served w.db wiki id))
