-- ===== src/Repository/OptOut/Replace.antt =====
-- What `replace_optout` leaves in the table.
use wikifame.Base.{
  ℕ, ◌≡◌, refl, sym, ap, ◌∙◌, inl, inr, Bool, true, false, not, ◌&&◌, ◌||◌, false≢true, none, some,
  List, [], ◌∷◌, arith, ◌==◌, ==_iff, Bool-cases, Option-cases, is_some, any, filter, update_where,
  any-append, any-filter, any-update_where, any-replaced, any-unlisted, Text, text_eq, text_eq_iff,
  text_eq_refl,
}
use mathlib.Core.Bool
use mathlib.Core.Bool.{false≢true}
use mathlib.Core.Path.{ap₂}
use wikifame.Models.{Time, Clock, PageOptOut, Database}
use wikifame.Repository.OptOut.{
  OptOutEntry, optout_at, optout_on, is_opted_out, wanted, wanted_ids, refreshed_optout, is_listed,
  is_removed, added_rows, replace_optout,
}

is_some-wanted :
    (entries : List OptOutEntry) (page_id : ℕ)
    → is_some (wanted entries page_id) ≡ any (λ e. e.page_id == page_id) entries
unfolding wanted any
is_some-wanted [] page_id = refl
is_some-wanted (entry ∷ entries) page_id =
    let rest = is_some-wanted entries page_id in
    elim (Option-cases (wanted entries page_id)) [
      | inl n ↦ ground (arith, n, rest)
      | inr (found, s) ↦ ground (arith, s, rest)
    ]

any-wanted_ids :
    (entries : List OptOutEntry) (page_id : ℕ)
    → any (λ id. id == page_id) (wanted_ids entries) ≡ any (λ e. e.page_id == page_id) entries
unfolding wanted_ids any
any-wanted_ids [] page_id = refl
any-wanted_ids (entry ∷ entries) page_id =
    let rest = any-wanted_ids entries page_id in
    elim (Bool-cases (any (λ id. id == entry.page_id) (wanted_ids entries))) [
      | inl t ↦ elim (Bool-cases (entry.page_id == page_id)) [
        | inl same ↦
            let eq : entry.page_id ≡ page_id = (==_iff entry.page_id page_id).0 same in
            rw t (rw same (rw eq at t))
        | inr other ↦ rw t (rw other rest)
      ]
      | inr f ↦ rw f (rw rest refl)
    ]

any-added_rows :
    (now : Time) (wiki : Text) (entries : List OptOutEntry) (ids : List ℕ) (page_id : ℕ)
    → any (optout_at wiki page_id) (added_rows now wiki entries ids)
      ≡ (any (λ id. id == page_id) ids && is_some (wanted entries page_id))
unfolding any
any-added_rows now wiki entries [] page_id = refl
any-added_rows now wiki entries (id ∷ ids) page_id =
    let rest = any-added_rows now wiki entries ids page_id in
    elim (Option-cases (wanted entries id)) [
      | inl n ↦ elim (Bool-cases (id == page_id)) [
        | inl same ↦
            let eq : id ≡ page_id = (==_iff id page_id).0 same in
            let gone : wanted entries page_id ≡ none = rw eq at n in
            rw (any, n, same, rest, gone) (Bool.and_comm (any (λ i. i == page_id) ids) false)
        | inr other ↦ rw (any, n, other) rest
      ]
      | inr (found, s) ↦ elim (Bool-cases (id == page_id)) [
        | inl same ↦
            let eq : id ≡ page_id = (==_iff id page_id).0 same in
            let there : wanted entries page_id ≡ some found = rw eq at s in
            rw (any, s, text_eq_refl wiki, same, there) refl
        | inr other ↦ rw (any, s, text_eq_refl wiki, other) rest
      ]
    ]

added_elsewhere :
    (now : Time) (wiki other : Text) (entries : List OptOutEntry) (ids : List ℕ) (page_id : ℕ)
    → text_eq wiki other ≡ false
    → any (optout_at other page_id) (added_rows now wiki entries ids) ≡ false
unfolding any
added_elsewhere now wiki other entries [] page_id apart = refl
added_elsewhere now wiki other entries (id ∷ ids) page_id apart =
    let rest = added_elsewhere now wiki other entries ids page_id apart in
    elim (Option-cases (wanted entries id)) [
      | inl n ↦ rw (any, n) rest
      | inr (found, s) ↦ rw (any, s, apart) rest
    ]

refreshed_at :
    (now : Time) (wiki : Text) (page_id : ℕ) (entries : List OptOutEntry) (row : PageOptOut)
    → optout_at wiki page_id (refreshed_optout now entries row) ≡ optout_at wiki page_id row
refreshed_at now wiki page_id entries row = elim (Option-cases (wanted entries row.page_id)) [
  | inl n ↦ rw (refreshed_optout, n) refl
  | inr (found, s) ↦ rw (refreshed_optout, s) refl
]

module _ (now : Time) (wiki : Text) (entries : List OptOutEntry) (db : Database) (page_id : ℕ) where
  asked : Bool
  asked = any (λ e. e.page_id == page_id) entries

  fresh : List ℕ
  fresh = filter (λ id. not (is_listed db wiki id)) (wanted_ids entries)

  kept : List PageOptOut
  kept = filter (λ row. not (is_removed wiki entries row)) db.page_optout

  not-removed :
      (row : PageOptOut)
      → optout_at wiki page_id row ≡ true
      → not (is_removed wiki entries row) ≡ asked
  unfolding asked
  not-removed row hit =
      let (on, same) : (text_eq row.wiki wiki ≡ true) × (row.page_id == page_id ≡ true) =
        ground (arith, hit) in
      let eq : row.page_id ≡ page_id = (==_iff row.page_id page_id).0 same in
      rw (on, eq, is_some-wanted entries page_id) (Bool.not-not asked)

  any-added :
      any (optout_at wiki page_id) (added_rows now wiki entries fresh)
      ≡ (asked && not (is_listed db wiki page_id) && asked)
  unfolding asked fresh
  any-added =
      any-added_rows now wiki entries fresh page_id
      ∙ ap₂ (λ a b. a && b)
          (any-unlisted (is_listed db wiki) (wanted_ids entries) page_id
            ∙ ap (λ b. b && not (is_listed db wiki page_id)) (any-wanted_ids entries page_id))
          (is_some-wanted entries page_id)

  -- The rows of another wiki.
  kept_elsewhere :
      (other : Text)
      → text_eq wiki other ≡ false
      → any
          (optout_at other page_id)
          (update_where (optout_on wiki) (refreshed_optout now entries) kept)
        ≡ any (optout_at other page_id) db.page_optout
  unfolding kept
  kept_elsewhere other apart =
      any-update_where (optout_at other page_id) (optout_on wiki) (refreshed_optout now entries)
        kept (refreshed_at now other page_id entries)
      ∙ any-filter (optout_at other page_id) (λ row. not (is_removed wiki entries row)) true
          db.page_optout
          (λ row hit.
            let on : text_eq row.wiki other ≡ true = ground (arith, hit) in
            let same : row.wiki ≡ other = (text_eq_iff row.wiki other).0 on in
            let off : text_eq row.wiki wiki ≡ false = elim (Bool-cases (text_eq row.wiki wiki)) [
              | inr f ↦ f
              | inl t ↦ absurd (clash row.wiki same ((text_eq_iff row.wiki wiki).0 t))
            ] in
            rw off refl)
      ∙ Bool.and-true (any (optout_at other page_id) db.page_optout)
    where
      clash : (name : Text) → name ≡ other → name ≡ wiki → ⊥
      clash name e f = false≢true (sym apart ∙ (text_eq_iff wiki other).1 (sym f ∙ e))

-- After `replace_optout` the opted-out pages of the wiki are exactly those of the list, and those
-- of every other wiki are the ones that they were.
pub is_opted_out-replace_optout :
    (clock : Clock) (wiki other : Text) (entries : List OptOutEntry) (db : Database) (page_id : ℕ)
    → (is_opted_out (replace_optout clock wiki entries db).0 wiki page_id
        ≡ any (λ e. e.page_id == page_id) entries)
      × (text_eq wiki other ≡ false
          → is_opted_out (replace_optout clock wiki entries db).0 other page_id
            ≡ is_opted_out db other page_id)
unfolding replace_optout is_opted_out fresh kept asked
is_opted_out-replace_optout clock wiki other entries db page_id = (
  any-replaced (optout_at wiki page_id) (λ row. not (is_removed wiki entries row)) (optout_on wiki)
      (refreshed_optout (clock 0) entries) (asked (clock 0) wiki entries db page_id)
      (added_rows (clock 0) wiki entries (fresh (clock 0) wiki entries db page_id)) db.page_optout
      (refreshed_at (clock 0) wiki page_id entries) (not-removed (clock 0) wiki entries db page_id)
      (any-added (clock 0) wiki entries db page_id),
  λ apart.
      any-append (optout_at other page_id)
        (added_rows (clock 0) wiki entries (fresh (clock 0) wiki entries db page_id)) _
      ∙ ap₂ (λ a b. a || b)
          (added_elsewhere (clock 0) wiki other entries (fresh (clock 0) wiki entries db page_id)
            page_id apart)
          (kept_elsewhere (clock 0) wiki entries db page_id other apart),
)
