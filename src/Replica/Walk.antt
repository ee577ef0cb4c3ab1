-- ===== src/Replica/Walk.antt =====
-- A walk by cursors reads every article once, in the order of the whole list.
use wikifame.Base.{
  sort_by-Distinct, sort_by-Ordered, filter-sort_by, ℕ, zero, suc, ◌≡◌, refl, sym, ap, ◌∙◌, subst,
  ◌≢◌, Bool, true, false, ◌&&◌, Option, none, some, List, [], ◌∷◌, arith, filter, All, filter-All,
  Distinct, All-map, All-self, Distinct-filter, sort_by, All-sort_by, Ordered, filter-filter,
}
use wikifame.Replica.{
  PageRow, LengthCursor, cursor_of, is_article, is_behind, is_before, rows_behind,
}

total : (a b : PageRow) → is_before a b ≡ false → is_before b a ≡ true
unfolding is_before
total a b h = ground arith

trans : (a b c : PageRow) → is_before a b ≡ true → is_before b c ≡ true → is_before a c ≡ true
unfolding is_before
trans a b c h k = ground arith

abbrev behind : PageRow → PageRow → Bool
behind p row = is_behind (some (cursor_of p.len p.page_id)) row

-- In a list in order without ties, the rows behind one are those that follow it.
follows_behind : (p x : PageRow) → is_before p x ≡ true → x.page_id ≢ p.page_id → behind p x ≡ true
unfolding is_before is_behind
follows_behind p x h other = ground arith

precedes_not_behind : (p x : PageRow) → is_before x p ≡ true → behind p x ≡ false
unfolding is_before is_behind
precedes_not_behind p x h = ground arith

abbrev IsWalk : List PageRow → Type 0
IsWalk rows = Ordered is_before rows × Distinct (λ (r : PageRow). r.page_id) rows

-- The last of the first `k + 1` rows.
unfoldable pub last_row : ℕ → PageRow → List PageRow → PageRow
last_row zero x rows = x
last_row (suc k) x [] = x
last_row (suc k) x (y ∷ rows) = last_row k y rows

unfoldable pub rest_from : ℕ → PageRow → List PageRow → List PageRow
rest_from zero x rows = rows
rest_from (suc k) x [] = []
rest_from (suc k) x (y ∷ rows) = rest_from k y rows

All-last_row :
    (P : PageRow → Type 0) (k : ℕ) (x : PageRow) (rows : List PageRow)
    → P x
    → All P rows
    → P (last_row k x rows)
unfolding last_row
All-last_row P zero x rows h hs = h
All-last_row P (suc k) x [] h hs = h
All-last_row P (suc k) x (y ∷ rows) h (hy, hs) = All-last_row P k y rows hy hs

All-behind :
    (p : PageRow) (rows : List PageRow)
    → All (λ y. is_before p y ≡ true) rows
    → All (λ (y : PageRow). y.page_id ≢ p.page_id) rows
    → All (λ y. behind p y ≡ true) rows
All-behind p [] h d = tt
All-behind p (y ∷ rows) (h, hs) (d, ds) = (follows_behind p y h d, All-behind p rows hs ds)

is_before_refl : (x : PageRow) → is_before x x ≡ true
unfolding is_before
is_before_refl x = ground arith

filter-behind :
    (k : ℕ) (x : PageRow) (rows : List PageRow)
    → IsWalk (x ∷ rows)
    → filter (behind (last_row k x rows)) (x ∷ rows) ≡ rest_from k x rows
unfolding filter is_behind rest_from last_row
filter-behind zero x rows ((low, o), (apart, d)) =
    rw (precedes_not_behind x x (is_before_refl x))
      (filter-All (behind x) rows (All-behind x rows low apart))
filter-behind (suc k) x [] ((low, o), (apart, d)) =
    rw (precedes_not_behind x x (is_before_refl x)) refl
filter-behind (suc k) x (y ∷ rows) (((lx, low), o), (apart, d)) =
    rw
      (precedes_not_behind (last_row k y rows) x
        (All-last_row (λ y. is_before x y ≡ true) k y rows lx low))
      (filter-behind k y rows (o, d))

module _ (table : List PageRow) (apart : Distinct (λ (r : PageRow). r.page_id) table) where
  abbrev selected : Option LengthCursor → PageRow → Bool
  selected cursor r = is_article r && is_behind cursor r

  rows_behind-IsWalk : (cursor : Option LengthCursor) → IsWalk (rows_behind table cursor)
  unfolding rows_behind
  rows_behind-IsWalk cursor = (
    sort_by-Ordered is_before total trans (filter (selected cursor) table),
    sort_by-Distinct is_before (λ r. r.page_id) (filter (selected cursor) table)
        (Distinct-filter (λ r. r.page_id) (selected cursor) table apart),
  )

  rows_behind-All :
      (cursor : Option LengthCursor)
      → All (λ r. is_behind cursor r ≡ true) (rows_behind table cursor)
  unfolding rows_behind
  rows_behind-All cursor =
      All-sort_by is_before (λ r. is_behind cursor r ≡ true) (filter (selected cursor) table)
        (All-map (λ r. selected cursor r ≡ true) (filter (selected cursor) table)
          (λ r h. ground (arith, h)) (All-self (selected cursor) table))

  -- Behind a row that is behind a cursor there is nothing that is not.
  behind_both :
      (cursor : Option LengthCursor) (p r : PageRow)
      → is_behind cursor p ≡ true
      → selected (some (cursor_of p.len p.page_id)) r ≡ (selected cursor r && behind p r)
  unfolding is_behind
  behind_both none p r h = ground arith
  behind_both (some c) p r h = ground arith

  pub rows_behind-next :
      (cursor : Option LengthCursor) (k : ℕ) (x : PageRow) (rows : List PageRow)
      → rows_behind table cursor ≡ x ∷ rows
      → rows_behind table (some (cursor_of (last_row k x rows).len (last_row k x rows).page_id))
        ≡ rest_from k x rows
  unfolding rows_behind
  rows_behind-next cursor k x rows e =
      let p = last_row k x rows in
      let (h, hs) = subst (All (λ r. is_behind cursor r ≡ true)) e (rows_behind-All cursor) in
      ap (sort_by is_before) (
        sym (
          filter-filter (selected cursor) (behind p) (selected (some (cursor_of p.len p.page_id)))
            table
            (λ r.
              behind_both cursor p r
                (All-last_row (λ r. is_behind cursor r ≡ true) k x rows h hs))))
      ∙ sym (filter-sort_by is_before total trans (behind p) (filter (selected cursor) table))
      ∙ ap (filter (behind p)) e
      ∙ filter-behind k x rows (subst IsWalk e (rows_behind-IsWalk cursor))
