-- ===== src/Jobs/Frames.antt =====
-- Which tables a job leaves as they are.
use wikifame.Base.{
  ℕ, max, ◌≡◌, refl, ◌∙◌, inl, inr, Bool, true, false, Option, List, [], ◌∷◌, Bool-cases, Text,
  sort_by,
}
use wikifame.Jobs.{resolve_target_wikis, add_count, go_on, sync_each}
use wikifame.Errors.{is_wikipeople_error, Result, ok, err, Exec, and_then, ◌>>=◌}
use wikifame.Models.{Clock, later, Database}
use wikifame.Upstream.{PageMetadata, World, ask, is_namespace}
use wikifame.Jobs.OptOut.{
  Collected, OptOutJob, read_entries, write_entries, covered_by, sync_optouts,
  sync_wiki as sync_optout,
}
use wikifame.Jobs.Standing.{
  StandingJob, Refreshed, on_wiki, write_records, tracked_by, sync_standings,
  sync_wiki as sync_standing,
}
use wikifame.Jobs.Prewarm.{
  PrewarmJob, collect_recent_top_titles, queue_pages, prewarm_wiki, prewarm_targets, prewarm,
}
use wikifame.Repository.OptOut.{replace_optout}
use wikifame.Repository.Standing.{replace_standing}
use wikifame.Repository.Steps.Consistent.{elsewhere, enqueue_if_stale-elsewhere}
use wikifame.Repository.Wikis.{text_le}
use wikifame.Backfill.{article_key}
use wikifame.Sites.{SiteResolver}

-- However the computation ends, what `view` reads of the tables stays the same.
abbrev Keeps : {S A T : Type 0} → (Database → T) → Exec (World S) A → Type 0
Keeps {S} view m = (w : World S) → view (m w).1.db ≡ view w.db

module _ {S T : Type 0} (view : Database → T) where
  >>=-Keeps :
      {A B : Type 0} (m : Exec (World S) A) (f : A → Exec (World S) B)
      → Keeps view m
      → ((a : A) → Keeps view (f a))
      → Keeps view (m >>= f)
  >>=-Keeps {A} m f first rest w = go (m w).0
    where
      go : (r : Result A) → view (and_then r f (m w).1).1.db ≡ view w.db
      go (ok a) = rest a (m w).1 ∙ first w
      go (err x) = first w

  add_count-Keeps : (n : ℕ) (r : Result ℕ × World S) → view (add_count n r).1.db ≡ view r.1.db
  add_count-Keeps n (ok more, w) = refl
  add_count-Keeps n (err e, w) = refl

  go_on-Keeps :
      (r : Result ℕ × World S) (rest : Exec (World S) ℕ)
      → Keeps view rest
      → view (go_on r rest).1.db ≡ view r.1.db
  go_on-Keeps (ok n, w) rest more = add_count-Keeps n (rest w) ∙ more w
  go_on-Keeps (err e, w) rest more = elim (Bool-cases (is_wikipeople_error e)) [
    | inl caught ↦ rw caught (more w)
    | inr raised ↦ rw raised refl
  ]

  sync_each-Keeps :
      (sync : Text → Exec (World S) ℕ) (wikis : List Text)
      → ((wiki : Text) → Keeps view (sync wiki))
      → Keeps view (sync_each sync wikis)
  unfolding sync_each
  sync_each-Keeps sync [] each w = refl
  sync_each-Keeps sync (wiki ∷ wikis) each w =
      go_on-Keeps (sync wiki w) (sync_each sync wikis) (sync_each-Keeps sync wikis each)
      ∙ each wiki w

  -- A job on opt-outs keeps what writing its entries keeps, and so for standings.
  sync_optouts-Keeps :
      (job : OptOutJob S) (clocks : Text → Clock) (dry_run : Bool) (resolver : SiteResolver)
      (explicit : Option Text)
      → ((wiki : Text) (c : Collected)
          → Keeps view (write_entries job wiki (clocks wiki) dry_run c))
      → Keeps view (sync_optouts job clocks dry_run resolver explicit)
  unfolding sync_optouts sync_optout
  sync_optouts-Keeps job clocks dry_run resolver explicit writes w =
      sync_each-Keeps (covered_by job clocks dry_run) (resolve_target_wikis resolver w.db explicit)
        (λ wiki.
          >>=-Keeps (sync_optout job wiki (clocks wiki) dry_run) _
            (>>=-Keeps (ask (read_entries job wiki)) (write_entries job wiki (clocks wiki) dry_run)
              (λ w'. refl) (writes wiki))
            (λ n w'. refl))
        w

  sync_standings-Keeps :
      (job : StandingJob S) (clocks : Text → Clock) (dry_run : Bool) (resolver : SiteResolver)
      (explicit : Option Text)
      → ((wiki : Text) (r : Refreshed)
          → Keeps {S = S} view (write_records wiki (clocks wiki) dry_run r))
      → Keeps view (sync_standings job clocks dry_run resolver explicit)
  unfolding sync_standings sync_standing
  sync_standings-Keeps job clocks dry_run resolver explicit writes w =
      sync_each-Keeps (tracked_by job clocks dry_run) (resolve_target_wikis resolver w.db explicit)
        (λ wiki.
          >>=-Keeps (sync_standing job wiki (clocks wiki) dry_run) _
            (>>=-Keeps (on_wiki job wiki (clocks wiki 0)) (write_records wiki (clocks wiki) dry_run)
              (λ w'. refl) (writes wiki))
            (λ n w'. refl))
        w

-- All but the opt-outs, and all but the standings.
abbrev pub but_optouts : Database → Database
but_optouts db = record db { page_optout = [] }

abbrev pub but_standings : Database → Database
but_standings db = record db { contributor_standing = [] }

module _ {S : Type 0} (job : PrewarmJob S) (wiki : Text) where
  queue_pages-elsewhere :
      (pages : List PageMetadata) (clock : Clock) (db : Database)
      → elsewhere (queue_pages job wiki clock pages db).0 ≡ elsewhere db
  unfolding queue_pages
  queue_pages-elsewhere [] clock db = refl
  queue_pages-elsewhere (page ∷ pages) clock db =
      elim (Bool-cases (is_namespace 0 page.namespace)) [
        | inr other ↦ rw (queue_pages, other) (queue_pages-elsewhere pages clock db)
        | inl article ↦
            rw (queue_pages, article)
              (queue_pages-elsewhere pages (later 4 clock) _
                ∙ enqueue_if_stale-elsewhere clock
                    (article_key job.settings wiki (page.page_id, page.revision_id)) 50
                    job.settings.page_freshness_seconds db)
      ]

  prewarm_wiki-Keeps :
      (clock : Clock) (days today : ℕ) → Keeps elsewhere (prewarm_wiki job wiki clock days today)
  unfolding prewarm_wiki
  prewarm_wiki-Keeps clock days today =
      >>=-Keeps elsewhere (ask (collect_recent_top_titles job wiki days today)) _ (λ w. refl)
        (λ (titles, loaded).
          >>=-Keeps elsewhere (ask (job.mediawiki.resolve_titles wiki (sort_by text_le titles))) _
            (λ w. refl) (λ pages now. queue_pages-elsewhere pages clock now.db))

-- Whatever the services answer or raise: a dry run of the job on opt-outs or of the one on standings
-- changes no table; a real run of the former changes the opt-outs alone, and of the latter the
-- standings alone; and the job on popular pages changes the work queue alone.
pub jobs_frame :
    {S : Type 0} (optouts : OptOutJob S) (standings : StandingJob S) (popular : PrewarmJob S)
    (clocks : Text → Clock) (days today : ℕ) (resolver : SiteResolver) (explicit : Option Text)
    (w : World S)
    → ((sync_optouts optouts clocks true resolver explicit w).1.db ≡ w.db)
      × ((sync_standings standings clocks true resolver explicit w).1.db ≡ w.db)
      × (but_optouts (sync_optouts optouts clocks false resolver explicit w).1.db
          ≡ but_optouts w.db)
      × (but_standings (sync_standings standings clocks false resolver explicit w).1.db
          ≡ but_standings w.db)
      × (elsewhere (prewarm popular clocks days today explicit w).1.db ≡ elsewhere w.db)
unfolding prewarm replace_optout replace_standing
jobs_frame optouts standings popular clocks days today resolver explicit w = (
  sync_optouts-Keeps (λ db. db) optouts clocks true resolver explicit (λ wiki c w'. refl) w,
  sync_standings-Keeps (λ db. db) standings clocks true resolver explicit (λ wiki r w'. refl) w,
  sync_optouts-Keeps but_optouts optouts clocks false resolver explicit (λ wiki c w'. refl) w,
  sync_standings-Keeps but_standings standings clocks false resolver explicit (λ wiki r w'. refl) w,
  sync_each-Keeps elsewhere (λ wiki. prewarm_wiki popular wiki (clocks wiki) (max 1 days) today)
      (prewarm_targets popular w.db explicit)
      (λ wiki. prewarm_wiki-Keeps popular wiki (clocks wiki) (max 1 days) today) w,
)
