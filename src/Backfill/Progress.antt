-- ===== src/Backfill/Progress.antt =====
-- What a backfill leaves as its state.
use wikifame.Base.{
  ℕ, suc, ◌+◌, ◌*◌, ◌≡◌, refl, ap, ◌∙◌, subst, Option, none, some, List, [], ◌∷◌, ◌++◌, map, arith,
  length, Text,
}
use wikifame.Replica.{ReplicaPage, LengthCursor, pages_by_descending_length}
use wikifame.Replica.Complete.{read_batches}
use wikifame.Models.{Clock, later, Database}
use wikifame.Backfill.{
  length_cursor_key, progress, Backfill, enqueue_pages, offer, of_replica, add_queued,
  length_batches,
}
use wikifame.Errors.{Result, ok, err}
use wikifame.Repository.State.{get_state}
use wikifame.Repository.State.Lookup.{get_state-set_state}

module _ {S : Type 0} (backfill : Backfill S) (wiki : Text) where
  abbrev limit : ℕ
  limit = backfill.settings.backfill_batch_size

  -- The batches return, and store where they stopped.
  abbrev Stops : List Clock → Option LengthCursor → Database → Option LengthCursor → Type 0
  Stops clocks cursor db stop =
      (n : ℕ) × ((length_batches backfill wiki clocks cursor db).0 ≡ ok n)
      × (get_state (length_batches backfill wiki clocks cursor db).1 (length_cursor_key wiki)
          ≡ some (progress stop))

  add_queued-Stops :
      (queued n : ℕ) (r : Result ℕ × Database) (stop : Option LengthCursor)
      → r.0 ≡ ok n
      → get_state r.1 (length_cursor_key wiki) ≡ some (progress stop)
      → (n : ℕ) × ((add_queued queued r).0 ≡ ok n)
        × (get_state (add_queued queued r).1 (length_cursor_key wiki) ≡ some (progress stop))
  add_queued-Stops queued n (ok m, db) stop e h = (queued + m, refl, h)
  add_queued-Stops queued n (err x, db) stop e h = absurd (ground arith)

  stored :
      (clock : Clock) (pages : List ReplicaPage) (stop : Option LengthCursor) (db : Database)
      → get_state
          (offer clock backfill.settings wiki
            (length_cursor_key wiki)
            (map of_replica pages)
            (progress stop)
            db).0
          (length_cursor_key wiki)
        ≡ some (progress stop)
  stored clock pages stop db =
      (get_state-set_state (later (4 * length (map of_replica pages)) clock)
        (length_cursor_key wiki) (progress stop)
        (enqueue_pages clock backfill.settings wiki (map of_replica pages) db).0).0

  continued :
      (found : List ReplicaPage) (r : Result (List ReplicaPage × Option LengthCursor))
      (pages : List ReplicaPage) (stop : Option LengthCursor)
      → elim r as (λ _. Result (List ReplicaPage × Option LengthCursor)) [
        | err e ↦ err e
        | ok (more, stop) ↦ ok (found ++ more, stop)
      ]
        ≡ ok (pages, stop)
      → (more : List ReplicaPage) × (r ≡ ok (more, stop))
  continued found (err x) pages stop e = absurd (ground arith)
  continued found (ok (more, stop')) pages stop e =
      let same : stop' ≡ stop = ground arith in (more, ap (λ c. ok (more, c)) same)

  first_batch :
      (clock : Clock) (clocks : List Clock) (cursor : Option LengthCursor) (db : Database)
      (pages : List ReplicaPage) (stop : Option LengthCursor)
      (r : Result (List ReplicaPage × Option LengthCursor))
      → pages_by_descending_length backfill.replica wiki cursor limit ≡ r
      → read_batches backfill.replica wiki limit (suc (length clocks)) cursor ≡ ok (pages, stop)
      → ((c : LengthCursor) (db : Database) (pages : List ReplicaPage) (stop : Option LengthCursor)
          → get_state db (length_cursor_key wiki) ≡ some (progress (some c))
          → read_batches backfill.replica wiki limit (length clocks) (some c) ≡ ok (pages, stop)
          → Stops clocks (some c) db stop)
      → Stops (clock ∷ clocks) cursor db stop
  unfolding length_batches read_batches
  first_batch clock clocks cursor db pages stop (err x) r e rest =
      absurd (let e' = rw (read_batches, r) at e in ground arith)
  first_batch clock clocks cursor db pages stop (ok (found, none)) r e rest =
      let e' = rw (read_batches, r) at e in
      let same : ◌≡◌ {A = Option LengthCursor} none stop = ground arith in
      rw (length_batches, r)
        (
          (offer clock backfill.settings wiki (length_cursor_key wiki) (map of_replica found)
              (progress none) db).1,
          refl,
          stored clock found none db ∙ ap (λ c. some (progress c)) same,
        )
  first_batch clock clocks cursor db pages stop (ok (found, some c)) r e rest =
      let db' =
        (offer clock backfill.settings wiki (length_cursor_key wiki) (map of_replica found)
          (progress (some c)) db).0 in
      let queued =
        (offer clock backfill.settings wiki (length_cursor_key wiki) (map of_replica found)
          (progress (some c)) db).1 in
      let (more, e') =
        continued found (read_batches backfill.replica wiki limit (length clocks) (some c)) pages
          stop (rw (read_batches, r) at e) in
      let (n, returned, state) = rest c db' more stop (stored clock found (some c) db) e' in
      rw (length_batches, r)
        (add_queued-Stops queued n (length_batches backfill wiki clocks (some c) db') stop returned
          state)

  pub length_batches-state :
      (clocks : List Clock) (cursor : Option LengthCursor) (db : Database)
      (pages : List ReplicaPage) (stop : Option LengthCursor)
      → (clocks ≡ [] → get_state db (length_cursor_key wiki) ≡ some (progress cursor))
      → read_batches backfill.replica wiki limit (length clocks) cursor ≡ ok (pages, stop)
      → Stops clocks cursor db stop
  unfolding length_batches read_batches
  length_batches-state [] cursor db pages stop h e =
      let same : cursor ≡ stop = ground arith in
      (
        0,
        refl,
        subst (λ c. get_state db (length_cursor_key wiki) ≡ some (progress c)) same (h refl),
      )
  length_batches-state (clock ∷ clocks) cursor db pages stop h e =
      first_batch clock clocks cursor db pages stop
        (pages_by_descending_length backfill.replica wiki cursor limit) refl e
        (λ c db' pages' stop' stored.
          length_batches-state clocks (some c) db' pages' stop' (λ _. stored))
