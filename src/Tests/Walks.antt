-- ===== src/Tests/Walks.antt =====
-- The replica and the backfill at concrete inputs.
use wikifame.Base.{
  ℕ, ◌+◌, ◌-◌, ◌<◌, ◌≡◌, refl, ap, true, false, ◌&&◌, none, some, List, [], ◌∷◌, map, arith, leb,
  length, take, Distinct, codes,
}
use wikifame.Replica.{PageRow, ReplicaPage, LengthCursor, encode, decode, rows_behind, read_row}
use wikifame.Replica.Cursor.{KnowsDigits, decode-encode}
use wikifame.Replica.Complete.{read_batches, read_batches_lem}
use wikifame.Backfill.Runs.{backfill_by_length-resumes, backfill_by_length-completes}
use wikifame.Tests.Services.{replica, backfill}
use wikifame.Models.{Clock, empty_database}
use wikifame.Backfill.{
  complete_mark, length_cursor_key, length_batches, is_complete, backfill_by_length,
}
use wikifame.Tests.Data.{clock_at, ascii}
use wikifame.Errors.{ok}
use wikifame.Repository.State.{get_state}

ascii_digit : (d : ℕ) → d < 10 → (leb b'0' (b'0' + d) && leb (b'0' + d) b'9') ≡ true
ascii_digit d low = ground arith

pub ascii-KnowsDigits : KnowsDigits ascii
ascii-KnowsDigits = record {
  counted = ascii_digit;
  valued = λ d low.
      rw (ascii_digit d low) (ap some (let same : b'0' + d - b'0' ≡ d = omega arith in same));
}

abbrev cursor : LengthCursor
cursor = record { length = 500; page_id = 4 }

decode-encode_example : decode ascii (some (encode cursor)) ≡ ok (some cursor)
decode-encode_example = decode-encode ascii ascii-KnowsDigits cursor

apart : Distinct (λ (r : PageRow). r.page_id) (replica.page (codes "frwiki"))
apart = (
  (
    (λ e. absurd (ground arith)),
    ((λ e. absurd (ground arith)), ((λ e. absurd (ground arith)), tt)),
  ),
  (
    ((λ e. absurd (ground arith)), ((λ e. absurd (ground arith)), tt)),
    (((λ e. absurd (ground arith)), tt), (tt, tt)),
  ),
)

abbrev pages : List ReplicaPage
pages =
    record { page_id = 2; revision_id = 20; length = 900 }
    ∷ record { page_id = 4; revision_id = 40; length = 500 }
    ∷ record { page_id = 1; revision_id = 10; length = 500 }
    ∷ []

three_left : length (rows_behind (replica.page (codes "frwiki")) none) < 4
unfolding rows_behind
three_left = omega arith

abbrev order : List ReplicaPage
order = map read_row (rows_behind (replica.page (codes "frwiki")) none)

in_order : order ≡ pages
unfolding rows_behind
in_order = refl

read_batches_lem_example : read_batches replica (codes "frwiki") 2 4 none ≡ ok (order, none)
read_batches_lem_example = read_batches_lem replica (codes "frwiki") apart 1 4 none three_left

nothing_stored : get_state empty_database (length_cursor_key (codes "frwiki")) ≡ none
unfolding get_state
nothing_stored = refl

abbrev one_clock : List Clock
one_clock = clock_at 100 ∷ []

abbrev four_clocks : List Clock
four_clocks = clock_at 100 ∷ clock_at 200 ∷ clock_at 300 ∷ clock_at 400 ∷ []

unfinished :
    is_complete backfill
      (codes "frwiki")
      (get_state empty_database (length_cursor_key (codes "frwiki")))
    ≡ false
unfinished = ap (is_complete backfill (codes "frwiki")) nothing_stored

anew : decode ascii (get_state empty_database (length_cursor_key (codes "frwiki"))) ≡ ok none
unfolding decode
anew = ap (decode ascii) nothing_stored

first_batch : read_batches replica (codes "frwiki") 2 1 none ≡ ok (take 2 pages, some cursor)
unfolding read_batches
first_batch = refl

backfill_by_length-resumes_example :
    backfill_by_length backfill
      (codes "frwiki")
      one_clock
      (backfill_by_length backfill (codes "frwiki") one_clock empty_database).1
    ≡ length_batches backfill
        (codes "frwiki")
        one_clock
        (some cursor)
        (backfill_by_length backfill (codes "frwiki") one_clock empty_database).1
backfill_by_length-resumes_example =
    backfill_by_length-resumes backfill (codes "frwiki") ascii-KnowsDigits one_clock one_clock none
      empty_database (take 2 pages) cursor unfinished anew (omega arith) first_batch

backfill_by_length-completes_example :
    (n : ℕ) × ((backfill_by_length backfill (codes "frwiki") four_clocks empty_database).0 ≡ ok n)
    × (get_state
          (backfill_by_length backfill (codes "frwiki") four_clocks empty_database).1
          (length_cursor_key (codes "frwiki"))
        ≡ some complete_mark)
backfill_by_length-completes_example =
    backfill_by_length-completes backfill (codes "frwiki") 1 four_clocks none empty_database apart
      refl unfinished anew three_left
