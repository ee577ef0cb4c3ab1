-- ===== src/Jobs/Prewarm.antt =====
-- src/wikipeople/prewarm.py: queueing the pages that were read most in the last days.
use wikifame.Repository.Queue.{enqueue_if_stale}
use wikifame.Base.{
  ℕ, zero, suc, ◌+◌, ◌-◌, ◌*◌, max, true, false, Option, none, some, List, [], ◌∷◌, ◌++◌, ◌==◌,
  if◌then◌else◌, length, filter, Text, codes, sort_by,
}
use wikifame.Jobs.{sync_each}
use wikifame.Models.{Clock, later, Database}
use wikifame.Errors.{retryable_upstream, Exec, pure, raise, ◌>>=◌}
use wikifame.Sites.{SiteResolver, text_in, is_capable}
use wikifame.Backfill.{article_key}
use wikifame.Upstream.{PageMetadata, MediaWiki, World, ask, query, is_namespace}
use wikifame.Repository.Wikis.{text_le, active_wikis}
use wikifame.Repository.Cleanup.{days}
use wikifame.Config.{Settings}

-- The client of the page views: the articles of a wiki on a day, or none if not yet published. A
-- day is its number in the calendar.
pub record PrewarmJob (S : Type 0) : Type 0 where
  pub settings : Settings
  pub resolver : SiteResolver
  pub mediawiki : MediaWiki S
  pub top_pages : Text → ℕ → Exec S (Option (List Text))

-- The `days` days before `today`, behind the first `offset` of them.
abbrev pub days_from : ℕ → ℕ → ℕ → List ℕ
days_from zero offset today = []
days_from (suc days) offset today = (today - suc offset) ∷ days_from days (suc offset) today

unfoldable pub previous_days : ℕ → ℕ → List ℕ
previous_days days today = days_from days 0 today

-- `titles.update(articles)`
unfoldable pub update_titles : List Text → List Text → List Text
unfolding text_in
update_titles [] titles = titles
update_titles (t ∷ articles) titles =
    update_titles articles (if text_in t titles then titles else t ∷ titles)

abbrev pub Loaded : Type 0
Loaded = List Text × List ℕ

module _ {S : Type 0} (job : PrewarmJob S) (wiki : Text) where
  -- Behind the answer for one day: the rest of the loop, unless enough days are loaded.
  abbrev pub day_loaded :
      ℕ → ℕ → Option (List Text) → Loaded → (Loaded → Exec S Loaded) → Exec S Loaded
  day_loaded target day none found more = more found
  day_loaded target day (some articles) (titles, loaded) more =
      let found : Loaded = (update_titles articles titles, loaded ++ day ∷ []) in
      if length loaded + 1 == target then pure found else more found

  unfoldable pub load_days : ℕ → List ℕ → Loaded → Exec S Loaded
  unfolding update_titles
  load_days target [] found = pure found
  load_days target (day ∷ days) found = job.top_pages wiki day >>= λ articles.
      day_loaded target day articles found (load_days target days)

  -- `if not loaded_days: raise …`
  abbrev pub some_day : Loaded → Exec S Loaded
  some_day (titles, []) =
      raise (retryable_upstream (codes "Aucun classement Pageviews récent disponible"))
  some_day (titles, day ∷ days) = pure (titles, day ∷ days)

  unfoldable pub collect_recent_top_titles : ℕ → ℕ → Exec S Loaded
  unfolding previous_days load_days
  collect_recent_top_titles days today =
      let target_days = max 1 days in
      load_days target_days (previous_days (max 14 (target_days * 3)) today) ([], []) >>= some_day

  -- The articles among the pages, each with four readings of the clock for `enqueue_if_stale`.
  unfoldable pub queue_pages : Clock → List PageMetadata → Database → Database × ℕ
  unfolding enqueue_if_stale is_namespace
  queue_pages clock [] db = (db, 0)
  queue_pages clock (page ∷ pages) db = elim (is_namespace 0 page.namespace) [
    | false ↦ queue_pages clock pages db
    | true ↦
        let (db', queued) =
          enqueue_if_stale clock (article_key job.settings wiki (page.page_id, page.revision_id)) 50
            job.settings.page_freshness_seconds db in
        let (db'', more) = queue_pages (later 4 clock) pages db' in
        (db'', if queued then suc more else more)
  ]

  unfoldable pub prewarm_wiki : Clock → ℕ → ℕ → Exec (World S) ℕ
  unfolding collect_recent_top_titles queue_pages sort_by text_le
  prewarm_wiki clock days today = ask (collect_recent_top_titles days today) >>= λ (titles, loaded).
      ask (job.mediawiki.resolve_titles wiki (sort_by text_le titles)) >>= λ pages.
      query (queue_pages clock pages)

-- Every active wiki and every one of the settings, once, in order.
unfoldable pub prewarm_targets : {S : Type 0} → PrewarmJob S → Database → Option Text → List Text
unfolding update_titles active_wikis filter is_capable sort_by text_le
prewarm_targets job db none = sort_by text_le (
    filter (is_capable job.resolver)
      (update_titles job.settings.prewarm_wikis (update_titles (active_wikis db) [])))
prewarm_targets job db (some []) = sort_by text_le (
    filter (is_capable job.resolver)
      (update_titles job.settings.prewarm_wikis (update_titles (active_wikis db) [])))
prewarm_targets job db (some (c ∷ s)) = (c ∷ s) ∷ []

unfoldable pub prewarm :
    {S : Type 0} → PrewarmJob S → (Text → Clock) → ℕ → ℕ → Option Text → Exec (World S) ℕ
unfolding sync_each prewarm_wiki prewarm_targets
prewarm job clocks days today explicit w =
    sync_each (λ wiki. prewarm_wiki job wiki (clocks wiki) (max 1 days) today)
      (prewarm_targets job w.db explicit) w
