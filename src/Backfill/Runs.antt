-- ===== src/Backfill/Runs.antt =====
-- The backfill goes on where the last run stopped, and comes to its end.
use wikifame.Base.{
  ℕ, suc, ◌<◌, ◌≡◌, refl, sym, ap, ◌∙◌, false, Option, none, some, List, [], ◌∷◌, ◌++◌, cons≢nil,
  arith, ◌==◌, length, All, Distinct, Text, text_eq, decimal, All-decimal,
}
use wikifame.Replica.Cursor.{KnowsDigits, decimal-cons, decode-encode}
use wikifame.Errors.{Result, ok}
use wikifame.Models.{Clock, Database}
use wikifame.Backfill.Progress.{length_batches-state}
use wikifame.Replica.{PageRow, ReplicaPage, LengthCursor, encode, decode, rows_behind}
use wikifame.Backfill.{
  complete_mark, length_cursor_key, Backfill, length_batches, from_length, is_complete,
  backfill_by_length,
}
use wikifame.Replica.Complete.{read_batches, read_batches_lem}
use wikifame.Repository.State.{get_state}

unlike_mark :
    (s behind : Text)
    → (d : ℕ) × (t : Text) × (s ≡ d ∷ t)
    → All (λ d. (d == b'_') ≡ false) s
    → text_eq (s ++ behind) complete_mark ≡ false
unfolding text_eq
unlike_mark [] behind (d, t, e) h = absurd (cons≢nil (sym e))
unlike_mark (c ∷ s) behind begun (h, hs) = rw h refl

module _ {S : Type 0} (backfill : Backfill S) (wiki : Text) where
  not_complete : (cursor : LengthCursor) → is_complete backfill wiki (some (encode cursor)) ≡ false
  unfolding encode
  not_complete cursor =
      unlike_mark (decimal cursor.length) (b':' ∷ decimal cursor.page_id)
        (decimal-cons cursor.length)
        (All-decimal (λ d. (d == b'_') ≡ false) (λ d low. ground arith) cursor.length)

  started :
      (clocks : List Clock) (db : Database) (cursor : Option LengthCursor)
      → is_complete backfill wiki (get_state db (length_cursor_key wiki)) ≡ false
      → decode backfill.unicode (get_state db (length_cursor_key wiki)) ≡ ok cursor
      → backfill_by_length backfill wiki clocks db ≡ length_batches backfill wiki clocks cursor db
  unfolding backfill_by_length
  started clocks db cursor open_state d = rw (open_state, from_length, d) refl

  -- If the table of characters knows the ten ASCII digits, and a run of at least one batch from a
  -- stored cursor that is read stops before the end, then the next run goes on at the cursor where
  -- it stopped.
  pub backfill_by_length-resumes :
      KnowsDigits backfill.unicode
      → (clocks later_clocks : List Clock) (cursor : Option LengthCursor) (db : Database)
        (pages : List ReplicaPage) (c : LengthCursor)
      → is_complete backfill wiki (get_state db (length_cursor_key wiki)) ≡ false
      → decode backfill.unicode (get_state db (length_cursor_key wiki)) ≡ ok cursor
      → 0 < length clocks
      → read_batches backfill.replica wiki backfill.settings.backfill_batch_size
          (length clocks)
          cursor
        ≡ ok (pages, some c)
      → backfill_by_length backfill wiki later_clocks (backfill_by_length backfill wiki clocks db).1
        ≡ length_batches backfill wiki later_clocks
            (some c)
            (backfill_by_length backfill wiki clocks db).1
  backfill_by_length-resumes knows clocks later_clocks cursor db pages c unfinished d some' e =
      let (n, returned, state) =
        length_batches-state backfill wiki clocks cursor db pages (some c)
          (λ empty. absurd (let bad : 0 < 0 = rw empty at some' in omega (arith, bad))) e in
      let after' : get_state (backfill_by_length backfill wiki clocks db).1 (length_cursor_key wiki)
          ≡ some (encode c) =
        ap (λ r. get_state r.1 (length_cursor_key wiki)) (started clocks db cursor unfinished d)
        ∙ state in
      started later_clocks (backfill_by_length backfill wiki clocks db).1 (some c)
        (ap (is_complete backfill wiki) after' ∙ not_complete c)
        (ap (decode backfill.unicode) after' ∙ decode-encode backfill.unicode knows c)

  -- If no two rows of a wiki share their `page_id`, the size of a batch is positive, the state is
  -- read as a cursor or as none, and there are more batches than articles behind it, then the run
  -- returns and leaves the state that says the wiki is complete.
  pub backfill_by_length-completes :
      (k : ℕ) (clocks : List Clock) (cursor : Option LengthCursor) (db : Database)
      → Distinct (λ (r : PageRow). r.page_id) (backfill.replica.page wiki)
      → backfill.settings.backfill_batch_size ≡ suc k
      → is_complete backfill wiki (get_state db (length_cursor_key wiki)) ≡ false
      → decode backfill.unicode (get_state db (length_cursor_key wiki)) ≡ ok cursor
      → length (rows_behind (backfill.replica.page wiki) cursor) < length clocks
      → (n : ℕ) × ((backfill_by_length backfill wiki clocks db).0 ≡ ok n)
        × (get_state (backfill_by_length backfill wiki clocks db).1 (length_cursor_key wiki)
            ≡ some complete_mark)
  backfill_by_length-completes k clocks cursor db apart size unfinished d enough =
      let reads = read_batches_lem backfill.replica wiki apart k (length clocks) cursor enough in
      let reads' = rw (sym size) at reads in
      let (n, returned, state) =
        length_batches-state backfill wiki clocks cursor db _ none
          (λ empty. absurd (let bad = rw empty at enough in omega (arith, bad))) reads' in
      let same = started clocks db cursor unfinished d in
      (
        n,
        ap (λ (r : Result ℕ × Database). r.0) same ∙ returned,
        ap (λ r. get_state r.1 (length_cursor_key wiki)) same ∙ state,
      )
