-- ===== src/Jobs/Together.antt =====
-- The job on popular pages changes the tables by calls of `Repository` only.
use wikifame.Base.{ℕ, max, inl, inr, Option, List, [], ◌∷◌, Bool-cases, Text, sort_by}
use wikifame.Jobs.Prewarm.{
  PrewarmJob, collect_recent_top_titles, queue_pages, prewarm_wiki, prewarm_targets, prewarm,
}
use wikifame.Jobs.Acts.{sync_each-Advances}
use wikifame.Upstream.Advances.{Advances, ask-Advances, >>=-Advances}
use wikifame.Models.{Clock, later, Database}
use wikifame.Upstream.{PageMetadata, World, ask, is_namespace}
use wikifame.Repository.Cleanup.{days}
use wikifame.Repository.Steps.{enqueued_if_stale, Reach, here, next, Reach_trans}
use wikifame.Backfill.{article_key}
use wikifame.Repository.Wikis.{text_le}

module _ {S : Type 0} (job : PrewarmJob S) (wiki : Text) where
  queue_pages-Reach :
      (pages : List PageMetadata) (clock : Clock) (db : Database)
      → Reach db (queue_pages job wiki clock pages db).0
  unfolding queue_pages
  queue_pages-Reach [] clock db = here
  queue_pages-Reach (page ∷ pages) clock db = elim (Bool-cases (is_namespace 0 page.namespace)) [
    | inr other ↦ rw (queue_pages, other) (queue_pages-Reach pages clock db)
    | inl article ↦
        rw (queue_pages, article)
          (Reach_trans
            (next here (
              enqueued_if_stale clock
                (article_key job.settings wiki (page.page_id, page.revision_id)) 50
                job.settings.page_freshness_seconds db))
            (queue_pages-Reach pages (later 4 clock) _))
  ]

  prewarm_wiki-Advances :
      (clock : Clock) (days today : ℕ) → Advances (prewarm_wiki job wiki clock days today)
  unfolding prewarm_wiki
  prewarm_wiki-Advances clock days today =
      >>=-Advances (ask (collect_recent_top_titles job wiki days today)) _
        (ask-Advances (collect_recent_top_titles job wiki days today))
        (λ w (titles, loaded) e.
          let resolved = job.mediawiki.resolve_titles wiki (sort_by text_le titles) in
          >>=-Advances (ask resolved) _ (ask-Advances resolved)
            (λ w' pages e' now. queue_pages-Reach pages clock now.db))

-- Whatever the services answer or raise, all that the job on popular pages does to the tables is a
-- sequence of writing calls of `Repository`.
pub prewarm-Reach :
    {S : Type 0} (job : PrewarmJob S) (clocks : Text → Clock) (days today : ℕ)
    (explicit : Option Text) (w : World S)
    → Reach w.db (prewarm job clocks days today explicit w).1.db
unfolding prewarm
prewarm-Reach job clocks days today explicit w =
    sync_each-Advances (λ wiki. prewarm_wiki job wiki (clocks wiki) (max 1 days) today)
      (prewarm_targets job w.db explicit)
      (λ wiki. prewarm_wiki-Advances job wiki (clocks wiki) (max 1 days) today) w
