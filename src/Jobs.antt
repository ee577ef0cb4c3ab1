-- ===== src/Jobs.antt =====
-- The scheduled jobs: which wikis they visit, and how they go on after one that fails.
pub mod OptOut
pub mod Standing
pub mod Entries
pub mod Prewarm
pub mod Days
pub mod Together
pub mod Frames
pub mod Articles
pub mod Accounts
pub mod Acts
pub mod Bounds
use wikifame.Base.{ℕ, ◌+◌, Option, none, some, List, [], ◌∷◌, if◌then◌else◌, filter, Text}
use wikifame.Errors.{is_wikipeople_error, Result, ok, err, Exec}
use wikifame.Models.{Database}
use wikifame.Sites.{SiteResolver, is_capable}
use wikifame.Repository.Wikis.{active_wikis}

-- `resolve_target_wikis` of src/wikipeople/optout.py and of src/wikipeople/standing.py.
unfoldable pub resolve_target_wikis : SiteResolver → Database → Option Text → List Text
unfolding filter is_capable active_wikis
resolve_target_wikis resolver db none = filter (is_capable resolver) (active_wikis db)
resolve_target_wikis resolver db (some []) = filter (is_capable resolver) (active_wikis db)
resolve_target_wikis resolver db (some (c ∷ s)) = (c ∷ s) ∷ []

module _ {S : Type 0} where
  abbrev pub add_count : ℕ → Result ℕ × S → Result ℕ × S
  add_count n (ok more, s) = (ok (n + more), s)
  add_count n (err e, s) = (err e, s)

  -- The rest of a loop whose body catches `WikiPeopleError`.
  abbrev pub go_on : Result ℕ × S → Exec S ℕ → Result ℕ × S
  go_on (ok n, s) rest = add_count n (rest s)
  go_on (err e, s) rest = if is_wikipeople_error e then rest s else (err e, s)

  -- `for wiki in wikis: try: total += sync(wiki) except WikiPeopleError: …`
  unfoldable pub sync_each : (Text → Exec S ℕ) → List Text → Exec S ℕ
  sync_each sync [] s = (ok 0, s)
  sync_each sync (wiki ∷ wikis) s = go_on (sync wiki s) (sync_each sync wikis)

-- The two counts that a replacement of rows returns.
abbrev pub counted : (Database → Database × ℕ × ℕ) → Database → Database × (ℕ × ℕ)
counted f db = let (db', added, removed) = f db in (db', (added, removed))
