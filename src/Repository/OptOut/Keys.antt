-- ===== src/Repository/OptOut/Keys.antt =====
-- The keys of `page_optout` after `replace_optout`.
use wikifame.Base.{
  ℕ, ◌≡◌, refl, sym, ap, ◌∙◌, ◌≢◌, inl, inr, true, false, not, false≢true, List, [], ◌∷◌, ◌++◌,
  arith, ◌==◌, ==_iff, Bool-cases, Option-cases, any, filter, update_where, All, All-filter,
  All-filter_if, All-update_where, All-map, All-any, any-none, Distinct, Distinct-filter,
  Distinct-update_where, Text, text_eq_iff,
}
use wikifame.Models.{Time, Clock, PageOptOut, Database}
use wikifame.Repository.OptOut.{
  OptOutEntry, optout_at, optout_on, wanted, wanted_ids, refreshed_optout, is_listed, is_removed,
  added_rows, replace_optout,
}

abbrev pub optout_key : PageOptOut → Text × ℕ
optout_key row = (row.wiki, row.page_id)

-- No row has this key.
abbrev IsFree : Text → ℕ → List PageOptOut → Type 0
IsFree wiki id rows = All (λ row. optout_key row ≢ (wiki, id)) rows

wanted_ids-Distinct : (entries : List OptOutEntry) → Distinct (λ id. id) (wanted_ids entries)
unfolding wanted_ids
wanted_ids-Distinct [] = tt
wanted_ids-Distinct (entry ∷ entries) =
    elim (Bool-cases (any (λ id. id == entry.page_id) (wanted_ids entries))) [
      | inl t ↦ rw (wanted_ids, t) (wanted_ids-Distinct entries)
      | inr f ↦
          rw (wanted_ids, f)
            (
              All-map (λ id. (id == entry.page_id) ≡ false) (wanted_ids entries)
                  (λ id off same. false≢true (sym off ∙ (==_iff id entry.page_id).1 same))
                  (any-none (λ id. id == entry.page_id) (wanted_ids entries) f),
              wanted_ids-Distinct entries,
            )
    ]

module _ (now : Time) (wiki : Text) (entries : List OptOutEntry) where
  refreshed_optout_key :
      (row : PageOptOut) → optout_key (refreshed_optout now entries row) ≡ optout_key row
  refreshed_optout_key row = elim (Option-cases (wanted entries row.page_id)) [
    | inl n ↦ rw (refreshed_optout, n) refl
    | inr (entry, s) ↦ rw (refreshed_optout, s) refl
  ]

  added_rows-IsFree :
      (id : ℕ) (ids : List ℕ) (rest : List PageOptOut)
      → All (λ j. j ≢ id) ids
      → IsFree wiki id rest
      → IsFree wiki id (added_rows now wiki entries ids ++ rest)
  added_rows-IsFree id [] rest h free = free
  added_rows-IsFree id (j ∷ ids) rest (hj, h) free = elim (Option-cases (wanted entries j)) [
    | inl n ↦ rw (added_rows, n) (added_rows-IsFree id ids rest h free)
    | inr (entry, s) ↦
        rw (added_rows, s)
          ((λ same. hj (ap (λ (k : Text × ℕ). k.1) same)), added_rows-IsFree id ids rest h free)
  ]

  added_rows-Distinct :
      (ids : List ℕ) (rest : List PageOptOut)
      → Distinct (λ id. id) ids
      → All (λ id. IsFree wiki id rest) ids
      → Distinct optout_key rest
      → Distinct optout_key (added_rows now wiki entries ids ++ rest)
  added_rows-Distinct [] rest h free d = d
  added_rows-Distinct (id ∷ ids) rest (hid, h) (f, free) d =
      elim (Option-cases (wanted entries id)) [
        | inl n ↦ rw (added_rows, n) (added_rows-Distinct ids rest h free d)
        | inr (entry, s) ↦
            rw (added_rows, s)
              (added_rows-IsFree id ids rest hid f, added_rows-Distinct ids rest h free d)
      ]

  kept-IsFree :
      (db : Database) (id : ℕ)
      → not (is_listed db wiki id) ≡ true
      → IsFree wiki id (
          update_where
            (optout_on wiki)
            (refreshed_optout now entries)
            (filter (λ row. not (is_removed wiki entries row)) db.page_optout))
  kept-IsFree db id unlisted =
      All-update_where (λ row. optout_key row ≢ (wiki, id)) (optout_on wiki)
        (refreshed_optout now entries) _
        (λ row differs on same. differs (sym (refreshed_optout_key row) ∙ same))
        (All-filter (λ row. optout_key row ≢ (wiki, id)) _ db.page_optout
          (All-map (λ row. optout_at wiki id row ≡ false) db.page_optout
            (λ row off same.
              let on = (text_eq_iff row.wiki wiki).1 (ap (λ (k : Text × ℕ). k.0) same) in
              let own = (==_iff row.page_id id).1 (ap (λ (k : Text × ℕ). k.1) same) in
              absurd (ground (arith, off, on, own)))
            (any-none (optout_at wiki id) db.page_optout (ground (arith, unlisted)))))

-- Rows with different keys are replaced by rows with different keys.
pub replace_optout-Distinct :
    (clock : Clock) (wiki : Text) (entries : List OptOutEntry) (db : Database)
    → Distinct optout_key db.page_optout
    → Distinct optout_key (replace_optout clock wiki entries db).0.page_optout
unfolding replace_optout
replace_optout-Distinct clock wiki entries db h =
    let fresh = filter (λ id. not (is_listed db wiki id)) (wanted_ids entries) in
    let kept = filter (λ row. not (is_removed wiki entries row)) db.page_optout in
    added_rows-Distinct (clock 0) wiki entries fresh _
      (Distinct-filter (λ id. id) _ (wanted_ids entries) (wanted_ids-Distinct entries))
      (All-filter_if
        (λ id.
          IsFree wiki id (update_where (optout_on wiki) (refreshed_optout (clock 0) entries) kept))
        (λ id. not (is_listed db wiki id)) (wanted_ids entries)
        (All-any
          (λ id.
            not (is_listed db wiki id) ≡ true
            → IsFree wiki id
                (update_where (optout_on wiki) (refreshed_optout (clock 0) entries) kept))
          (wanted_ids entries) (λ id off. kept-IsFree (clock 0) wiki entries db id off)))
      (Distinct-update_where optout_key (optout_on wiki) (refreshed_optout (clock 0) entries) kept
        (refreshed_optout_key (clock 0) wiki entries)
        (Distinct-filter optout_key _ db.page_optout h))
