-- ===== src/Backfill.antt =====
-- src/wikipeople/backfill.py: enqueueing the articles of a wiki, the largest first.
pub mod Acts
pub mod Progress
pub mod Runs
use wikifame.Base.{
  ℕ, suc, ◌+◌, ◌*◌, Bool, false, Option, none, some, List, [], ◌∷◌, ◌++◌, map, if◌then◌else◌,
  length, filter, Text, codes, text_eq,
}
use wikifame.Replica.{
  ReplicaPage, LengthCursor, encode, decode, ReplicaClient, available, pages_by_descending_length,
}
use wikifame.Upstream.{PageMetadata, MediaWiki, World, ask, query}
use wikifame.Policy.{Unicode}
use wikifame.Repository.Queue.{enqueue_if_stale}
use wikifame.Errors.{Result, ok, err, Exec, pure, ◌>>=◌}
use wikifame.Models.{Clock, later, RevisionKey, Database}
use wikifame.Repository.State.{get_state, set_state}
use wikifame.Sites.{SiteResolver, is_capable}
use wikifame.Config.{Settings}

abbrev pub complete_mark : Text
complete_mark = codes "__COMPLETE__"

unfoldable pub title_cursor_key : Text → Text
title_cursor_key wiki = codes "backfill:" ++ wiki ++ codes ":cursor"

unfoldable pub length_cursor_key : Text → Text
length_cursor_key wiki = codes "backfill:" ++ wiki ++ codes ":length-cursor"

-- What is stored behind a batch.
abbrev pub progress : Option LengthCursor → Text
progress none = complete_mark
progress (some cursor) = encode cursor

-- `cursor or COMPLETE`
abbrev pub title_progress : Option Text → Text
title_progress none = complete_mark
title_progress (some []) = complete_mark
title_progress (some (c ∷ s)) = c ∷ s

-- `cursor or None`
abbrev pub title_start : Option Text → Option Text
title_start none = none
title_start (some []) = none
title_start (some (c ∷ s)) = some (c ∷ s)

-- What the run of a backfill is built from.
pub record Backfill (S : Type 0) : Type 0 where
  pub settings : Settings
  pub resolver : SiteResolver
  pub unicode : Unicode
  pub mediawiki : MediaWiki S
  pub replica : ReplicaClient

abbrev pub article_key : Settings → Text → ℕ × ℕ → RevisionKey
article_key settings wiki (page_id, revision_id) = record {
  page = record { wiki = wiki; page_id = page_id; algorithm_version = settings.algorithm_version };
  revision_id = revision_id;
}

-- Each call of `enqueue_if_stale` has the following four readings of the clock.
unfoldable pub enqueue_pages : Clock → Settings → Text → List (ℕ × ℕ) → Database → Database × ℕ
unfolding enqueue_if_stale
enqueue_pages clock settings wiki [] db = (db, 0)
enqueue_pages clock settings wiki (page ∷ pages) db =
    let (db', queued) =
      enqueue_if_stale clock (article_key settings wiki page) 10 settings.page_freshness_seconds
        db in
    let (db'', more) = enqueue_pages (later 4 clock) settings wiki pages db' in
    (db'', if queued then suc more else more)

-- The pages of one batch, and the state behind them, which is stored with the clock's readings behind those of the pages.
abbrev pub offer : Clock → Settings → Text → Text → List (ℕ × ℕ) → Text → Database → Database × ℕ
offer clock settings wiki key pages progress db =
    let (db', queued) = enqueue_pages clock settings wiki pages db in
    (set_state (later (4 * length pages) clock) key progress db', queued)

abbrev pub of_replica : ReplicaPage → ℕ × ℕ
of_replica page = (page.page_id, page.revision_id)

abbrev pub of_metadata : PageMetadata → ℕ × ℕ
of_metadata page = (page.page_id, page.revision_id)

abbrev pub add_queued : {S : Type 0} → ℕ → Result ℕ × S → Result ℕ × S
add_queued n (ok more, s) = (ok (n + more), s)
add_queued n (err e, s) = (err e, s)

-- The batches behind one of titles, if there are any.
abbrev pub onward :
    {S : Type 0} → (Option Text → Exec (World S) ℕ) → Option Text → ℕ → Exec (World S) ℕ
onward more none queued w = (ok queued, w)
onward more (some c) queued w = add_queued queued (more (some c) w)

module _ {S : Type 0} (backfill : Backfill S) (wiki : Text) where
  -- The loop of `backfill_by_length`, each batch with its clock.
  unfoldable pub length_batches : List Clock → Option LengthCursor → Exec Database ℕ
  unfolding pages_by_descending_length enqueue_pages set_state
  length_batches [] cursor db = (ok 0, db)
  length_batches (clock ∷ clocks) cursor db =
      elim (pages_by_descending_length backfill.replica wiki cursor
        backfill.settings.backfill_batch_size) [
          | err e ↦ (err e, db)
          | ok (pages, following) ↦
              let (db', queued) =
                offer clock backfill.settings wiki (length_cursor_key wiki) (map of_replica pages)
                  (progress following) db in
              elim following [
                | none ↦ (ok queued, db')
                | some c ↦ add_queued queued (length_batches clocks (some c) db')
              ]
        ]

  -- A text that `decode` does not accept starts the walk anew.
  abbrev pub from_length : List Clock → Option Text → Exec Database ℕ
  from_length clocks raw db = elim (decode backfill.unicode raw) [
    | err e ↦ (err e, db)
    | ok cursor ↦ length_batches clocks cursor db
  ]

  abbrev pub is_complete : Option Text → Bool
  is_complete none = false
  is_complete (some raw) = text_eq raw complete_mark

  unfoldable pub backfill_by_length : List Clock → Exec Database ℕ
  unfolding get_state decode length_batches
  backfill_by_length clocks db =
      let raw = get_state db (length_cursor_key wiki) in
      if is_complete raw then (ok 0, db) else from_length clocks raw db

  -- The loop of `backfill_by_title`.
  unfoldable pub title_batches : List Clock → Option Text → Exec (World S) ℕ
  title_batches [] cursor = pure 0
  title_batches (clock ∷ clocks) cursor =
      ask (backfill.mediawiki.all_pages_batch wiki (title_start cursor)) >>= λ (pages, following).
      query (
        offer clock backfill.settings wiki (title_cursor_key wiki) (map of_metadata pages)
          (title_progress following))
      >>= onward (title_batches clocks) following

  unfoldable pub backfill_by_title : List Clock → Exec (World S) ℕ
  unfolding get_state title_batches
  backfill_by_title clocks w =
      let raw = get_state w.db (title_cursor_key wiki) in
      if is_complete raw then (ok 0, w) else title_batches clocks raw w

  -- A computation on the tables alone.
  abbrev pub on_tables : Exec Database ℕ → Exec (World S) ℕ
  on_tables m w = let (r, db) = m w.db in (r, record { db = db; net = w.net })

  unfoldable pub backfill_wiki : List Clock → Exec (World S) ℕ
  unfolding available backfill_by_length backfill_by_title
  backfill_wiki clocks =
      if available backfill.replica
      then on_tables (backfill_by_length clocks)
      else backfill_by_title clocks

module _ {S : Type 0} (backfill : Backfill S) where
  -- `BACKFILL_WIKIS`, or the one of `--wiki`, without those that cannot be served.
  unfoldable pub target_wikis : Option Text → List Text
  unfolding filter is_capable
  target_wikis none = filter (is_capable backfill.resolver) backfill.settings.backfill_wikis
  target_wikis (some []) = filter (is_capable backfill.resolver) backfill.settings.backfill_wikis
  target_wikis (some (c ∷ s)) = filter (is_capable backfill.resolver) ((c ∷ s) ∷ [])

  -- `--restart`
  unfoldable pub restart : Clock → List Text → Database → Database
  unfolding set_state
  restart clock [] db = db
  restart clock (wiki ∷ wikis) db = restart (later 2 clock) wikis (
      set_state (later 1 clock) (length_cursor_key wiki) []
        (set_state clock (title_cursor_key wiki) [] db))

  -- One wiki after the other, each with as many clocks as batches.
  unfoldable pub backfill_wikis : (Text → List Clock) → List Text → Exec (World S) ℕ
  unfolding backfill_wiki
  backfill_wikis clocks [] = pure 0
  backfill_wikis clocks (wiki ∷ wikis) = backfill_wiki backfill wiki (clocks wiki) >>= λ queued.
      λ w. add_queued queued (backfill_wikis clocks wikis w)
