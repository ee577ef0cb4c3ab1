-- ===== src/Replica/Complete.antt =====
-- Reading batch after batch comes to the end, and reads every article once.
use wikifame.Base.{
  ℕ, zero, suc, ◌≤◌, ◌<◌, ◌≡◌, refl, sym, ap, ◌∙◌, inl, inr, true, false, Option, none, some, List,
  [], ◌∷◌, ◌++◌, map, arith, ltb, Bool-cases, length, take, Distinct, Text, length-map,
}
use wikifame.Replica.Walk.{last_row, rest_from, rows_behind-next}
use wikifame.Replica.{
  PageRow, ReplicaPage, LengthCursor, cursor_of, ReplicaClient, rows_behind, read_row, last, batch,
  pages_by_descending_length,
}
use wikifame.Errors.{Result, ok, err}

length-rest_from :
    (k : ℕ) (x : PageRow) (rows : List PageRow) → length (rest_from k x rows) ≤ length rows
unfolding rest_from
length-rest_from zero x rows = omega arith
length-rest_from (suc k) x [] = omega arith
length-rest_from (suc k) x (y ∷ rows) = omega (arith, length-rest_from k y rows)

take-rest_from :
    (k : ℕ) (x : PageRow) (rows : List PageRow)
    → map read_row (take (suc k) (x ∷ rows)) ++ map read_row (rest_from k x rows)
      ≡ map read_row (x ∷ rows)
unfolding rest_from
take-rest_from zero x rows = refl
take-rest_from (suc k) x [] = refl
take-rest_from (suc k) x (y ∷ rows) = ap (λ l. read_row x ∷ l) (take-rest_from k y rows)

last-take :
    (k : ℕ) (x : PageRow) (rows : List PageRow)
    → last (map read_row (take (suc k) (x ∷ rows))) ≡ some (read_row (last_row k x rows))
unfolding last last_row
last-take zero x rows = refl
last-take (suc k) x [] = refl
last-take (suc k) x (y ∷ rows) = rw (last-take k y rows) refl

-- One batch after the other, at most `n`, from a cursor: their pages, and where they stopped.
unfoldable pub read_batches :
    ReplicaClient
    → Text
    → ℕ
    → ℕ
    → Option LengthCursor
    → Result (List ReplicaPage × Option LengthCursor)
unfolding pages_by_descending_length
read_batches replica wiki limit zero cursor = ok ([], cursor)
read_batches replica wiki limit (suc n) cursor =
    elim (pages_by_descending_length replica wiki cursor limit) [
      | err e ↦ err e
      | ok (pages, none) ↦ ok (pages, none)
      | ok (pages, some c) ↦ elim (read_batches replica wiki limit n (some c)) [
        | err e ↦ err e
        | ok (more, stop) ↦ ok (pages ++ more, stop)
      ]
    ]

take-short : (n : ℕ) (rows : List PageRow) → length (take n rows) < n → take n rows ≡ rows
take-short zero rows h = absurd (omega arith)
take-short (suc n) [] h = refl
take-short (suc n) (x ∷ rows) h = ap (λ l. x ∷ l) (take-short n rows (omega arith))

module _ (replica : ReplicaClient) (wiki : Text)
    (apart : Distinct (λ (r : PageRow). r.page_id) (replica.page wiki)) (k : ℕ) where
  abbrev rows_from : Option LengthCursor → List PageRow
  rows_from cursor = rows_behind (replica.page wiki) cursor

  -- A batch that is not full is the rest, and says so.
  short_batch :
      (cursor : Option LengthCursor)
      → ltb (length (map read_row (take (suc k) (rows_from cursor)))) (suc k) ≡ true
      → pages_by_descending_length replica wiki cursor (suc k)
        ≡ ok (map read_row (rows_from cursor), none)
  unfolding pages_by_descending_length
  short_batch cursor short =
      let few : length (take (suc k) (rows_from cursor)) < suc k =
        ground (arith, length-map read_row (take (suc k) (rows_from cursor)), short) in
      rw (pages_by_descending_length, short)
        (ap (λ rows. ok (map read_row rows, none)) (take-short (suc k) (rows_from cursor) few))

  full_batch :
      (x : PageRow) (rows : List PageRow)
      → ltb (length (map read_row (take (suc k) (x ∷ rows)))) (suc k) ≡ false
      → batch (suc k) (map read_row (take (suc k) (x ∷ rows)))
        ≡ ok (
          map read_row (take (suc k) (x ∷ rows)),
          some (cursor_of (last_row k x rows).len (last_row k x rows).page_id),
        )
  full_batch x rows full = rw full (rw (last-take k x rows) refl)

  next_batch :
      (cursor : Option LengthCursor) (x : PageRow) (rows : List PageRow)
      → rows_from cursor ≡ x ∷ rows
      → ltb (length (map read_row (take (suc k) (x ∷ rows)))) (suc k) ≡ false
      → pages_by_descending_length replica wiki cursor (suc k)
        ≡ ok (
          map read_row (take (suc k) (x ∷ rows)),
          some (cursor_of (last_row k x rows).len (last_row k x rows).page_id),
        )
  unfolding pages_by_descending_length
  next_batch cursor x rows e full =
      ap (λ rows. batch (suc k) (map read_row (take (suc k) rows))) e ∙ full_batch x rows full

  -- What is true of the batches of a cursor.
  abbrev Reads : ℕ → Option LengthCursor → Type 0
  Reads n cursor =
      read_batches replica wiki (suc k) n cursor ≡ ok (map read_row (rows_from cursor), none)

  read_full :
      (n : ℕ) (cursor : Option LengthCursor) (rows : List PageRow)
      → rows_from cursor ≡ rows
      → length rows < suc n
      → ltb (length (map read_row (take (suc k) rows))) (suc k) ≡ false
      → ((c : Option LengthCursor) → length (rows_from c) < n → Reads n c)
      → Reads (suc n) cursor
  unfolding read_batches
  read_full n cursor [] e h full rest = absurd (ground arith)
  read_full n cursor (x ∷ rows) e h full rest =
      let c = some (cursor_of (last_row k x rows).len (last_row k x rows).page_id) in
      let left : rows_from c ≡ rest_from k x rows =
        rows_behind-next (replica.page wiki) apart cursor k x rows e in
      let more : read_batches replica wiki (suc k) n c
          ≡ ok (map read_row (rest_from k x rows), none) =
        rest c (rw left (omega (arith, h, length-rest_from k x rows)))
        ∙ ap (λ rows. ok (map read_row rows, none)) left in
      rw (read_batches, next_batch cursor x rows e full, more)
        (ap (λ pages. ok (pages, none)) (take-rest_from k x rows ∙ ap (map read_row) (sym e)))

  -- If no two rows of a wiki share their `page_id`, then with a positive limit and more batches
  -- than articles behind the cursor, the batches come to an end, and together they are all
  -- articles behind the cursor in the order of the statement.
  pub read_batches_lem :
      (n : ℕ) (cursor : Option LengthCursor) → length (rows_from cursor) < n → Reads n cursor
  unfolding read_batches
  read_batches_lem zero cursor h = absurd (omega arith)
  read_batches_lem (suc n) cursor h =
      elim (Bool-cases (ltb (length (map read_row (take (suc k) (rows_from cursor)))) (suc k))) [
        | inl short ↦ rw (read_batches, short_batch cursor short) refl
        | inr full ↦ read_full n cursor (rows_from cursor) refl h full (read_batches_lem n)
      ]
