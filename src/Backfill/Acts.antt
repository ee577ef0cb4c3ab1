-- ===== src/Backfill/Acts.antt =====
-- The backfill changes the tables by calls of `Repository` only.
use wikifame.Base.{
  ℕ, ◌*◌, ◌≡◌, refl, inl, inr, Option, none, some, List, [], ◌∷◌, map, Bool-cases, length, Text,
}
use wikifame.Backfill.{
  title_cursor_key, length_cursor_key, progress, title_progress, title_start, Backfill, article_key,
  enqueue_pages, offer, of_replica, of_metadata, add_queued, onward, length_batches, from_length,
  is_complete, backfill_by_length, title_batches, backfill_by_title, backfill_wiki, backfill_wikis,
}
use wikifame.Upstream.{PageMetadata, World, ask}
use wikifame.Config.{Settings}
use wikifame.Repository.Steps.{enqueued_if_stale, state_set, Reach, here, next, Reach_trans}
use wikifame.Upstream.Advances.{Advances, ask-Advances, >>=-Advances}
use wikifame.Errors.{Result, ok, err}
use wikifame.Replica.{ReplicaPage, LengthCursor, decode, available, pages_by_descending_length}
use wikifame.Models.{Clock, later, Database}
use wikifame.Repository.State.{get_state}

enqueue_pages-Reach :
    (clock : Clock) (settings : Settings) (wiki : Text) (pages : List (ℕ × ℕ)) (db : Database)
    → Reach db (enqueue_pages clock settings wiki pages db).0
unfolding enqueue_pages
enqueue_pages-Reach clock settings wiki [] db = here
enqueue_pages-Reach clock settings wiki (page ∷ pages) db =
    Reach_trans
      (next here (
        enqueued_if_stale clock (article_key settings wiki page) 10 settings.page_freshness_seconds
          db))
      (enqueue_pages-Reach (later 4 clock) settings wiki pages _)

offer-Reach :
    (clock : Clock) (settings : Settings) (wiki key : Text) (pages : List (ℕ × ℕ)) (stop : Text)
    (db : Database)
    → Reach db (offer clock settings wiki key pages stop db).0
offer-Reach clock settings wiki key pages stop db =
    next (enqueue_pages-Reach clock settings wiki pages db)
      (state_set (later (4 * length pages) clock) key stop _)

add_queued_tables :
    (n : ℕ) (r : Result ℕ × Database) (start : Database)
    → Reach start r.1
    → Reach start (add_queued n r).1
add_queued_tables n (ok more, db) start h = h
add_queued_tables n (err e, db) start h = h

add_queued-Reach :
    {S : Type 0} (n : ℕ) (r : Result ℕ × World S) (start : Database)
    → Reach start r.1.db
    → Reach start (add_queued n r).1.db
add_queued-Reach n (ok more, w) start h = h
add_queued-Reach n (err e, w) start h = h

module _ {S : Type 0} (backfill : Backfill S) (wiki : Text) where
  length_batches-Reach :
      (clocks : List Clock) (cursor : Option LengthCursor) (db : Database)
      → Reach db (length_batches backfill wiki clocks cursor db).1
  unfolding length_batches
  length_batches-Reach [] cursor db = here
  length_batches-Reach (clock ∷ clocks) cursor db =
      go
        (pages_by_descending_length backfill.replica wiki cursor
          backfill.settings.backfill_batch_size)
        refl (length_batches-Reach clocks)
    where
      go :
          (r : Result (List ReplicaPage × Option LengthCursor))
          → pages_by_descending_length backfill.replica wiki cursor
              backfill.settings.backfill_batch_size
            ≡ r
          → ((c : Option LengthCursor) (db : Database)
              → Reach db (length_batches backfill wiki clocks c db).1)
          → Reach db (length_batches backfill wiki (clock ∷ clocks) cursor db).1
      go (err e) r more = rw (length_batches, r) here
      go (ok (pages, none)) r more =
          rw (length_batches, r)
            (offer-Reach clock backfill.settings wiki (length_cursor_key wiki)
              (map of_replica pages) (progress none) db)
      go (ok (pages, some c)) r more =
          let offered =
            offer-Reach clock backfill.settings wiki (length_cursor_key wiki) (map of_replica pages)
              (progress (some c)) db in
          rw (length_batches, r)
            (add_queued_tables _ (length_batches backfill wiki clocks (some c) _) db
              (Reach_trans offered (more (some c) _)))

  from_length-Reach :
      (clocks : List Clock) (raw : Option Text) (db : Database)
      → Reach db (from_length backfill wiki clocks raw db).1
  from_length-Reach clocks raw db = go (decode backfill.unicode raw)
    where
      go :
          (r : Result (Option LengthCursor))
          → Reach db
              (elim r as (λ _. Result ℕ × Database) [
                | err e ↦ (err e, db)
                | ok cursor ↦ length_batches backfill wiki clocks cursor db
              ]).1
      go (err e) = here
      go (ok cursor) = length_batches-Reach clocks cursor db

  backfill_by_length-Reach :
      (clocks : List Clock) (db : Database)
      → Reach db (backfill_by_length backfill wiki clocks db).1
  unfolding backfill_by_length
  backfill_by_length-Reach clocks db =
      elim (Bool-cases (is_complete backfill wiki (get_state db (length_cursor_key wiki)))) [
        | inl done ↦ rw (backfill_by_length, done) here
        | inr left ↦
            rw (backfill_by_length, left)
              (from_length-Reach clocks (get_state db (length_cursor_key wiki)) db)
      ]

  -- The state behind one batch of titles, and the batches that follow.
  title_rest :
      (clock : Clock) (clocks : List Clock) (pages : List PageMetadata) (following : Option Text)
      (w : World S)
      → ((c : Option Text) → Advances (title_batches backfill wiki clocks c))
      → Reach w.db
          (onward
            (title_batches backfill wiki clocks)
            following
            (offer clock backfill.settings wiki
              (title_cursor_key wiki)
              (map of_metadata pages)
              (title_progress following)
              w.db).1
            (record {
              db =
                  (offer clock backfill.settings wiki
                    (title_cursor_key wiki)
                    (map of_metadata pages)
                    (title_progress following)
                    w.db).0;
              net = w.net;
            })).1.db
  title_rest clock clocks pages none w more =
      offer-Reach clock backfill.settings wiki (title_cursor_key wiki) (map of_metadata pages)
        (title_progress none) w.db
  title_rest clock clocks pages (some c) w more =
      add_queued-Reach _ (title_batches backfill wiki clocks (some c) _) w.db (
        Reach_trans
          (offer-Reach clock backfill.settings wiki (title_cursor_key wiki) (map of_metadata pages)
            (title_progress (some c)) w.db)
          (more (some c) _))

  title_batches-Advances :
      (clocks : List Clock) (cursor : Option Text)
      → Advances (title_batches backfill wiki clocks cursor)
  unfolding title_batches
  title_batches-Advances [] cursor = λ w. here
  title_batches-Advances (clock ∷ clocks) cursor =
      >>=-Advances (ask (backfill.mediawiki.all_pages_batch wiki (title_start cursor))) _
        (ask-Advances (backfill.mediawiki.all_pages_batch wiki (title_start cursor)))
        (λ w (pages, following) e now.
          title_rest clock clocks pages following now (title_batches-Advances clocks))

  backfill_by_title-Advances :
      (clocks : List Clock) → Advances (backfill_by_title backfill wiki clocks)
  unfolding backfill_by_title
  backfill_by_title-Advances clocks w =
      elim (Bool-cases (is_complete backfill wiki (get_state w.db (title_cursor_key wiki)))) [
        | inl done ↦ rw (backfill_by_title, done) here
        | inr left ↦
            rw (backfill_by_title, left)
              (title_batches-Advances clocks (get_state w.db (title_cursor_key wiki)) w)
      ]

  backfill_wiki-Advances : (clocks : List Clock) → Advances (backfill_wiki backfill wiki clocks)
  unfolding backfill_wiki
  backfill_wiki-Advances clocks w = elim (Bool-cases (available backfill.replica)) [
    | inl replica ↦ rw (backfill_wiki, replica) (backfill_by_length-Reach clocks w.db)
    | inr api ↦ rw (backfill_wiki, api) (backfill_by_title-Advances clocks w)
  ]

-- Whatever the replica holds and MediaWiki answers or raises, all that a backfill does to the
-- tables is a sequence of writing calls of `Repository`.
pub backfill_wikis-Reach :
    {S : Type 0} (backfill : Backfill S) (clocks : Text → List Clock) (wikis : List Text)
    (w : World S)
    → Reach w.db (backfill_wikis backfill clocks wikis w).1.db
unfolding backfill_wikis
backfill_wikis-Reach backfill clocks [] w = here
backfill_wikis-Reach backfill clocks (wiki ∷ wikis) w =
    >>=-Advances (backfill_wiki backfill wiki (clocks wiki)) _
      (backfill_wiki-Advances backfill wiki (clocks wiki))
      (λ w' n e now.
        add_queued-Reach n (backfill_wikis backfill clocks wikis now) now.db
          (backfill_wikis-Reach backfill clocks wikis now))
      w
