-- ===== src/Tests/Lists.antt =====
-- The jobs and the pages that are served at concrete inputs.
use wikifame.Base.Int.{pos}
use wikifame.Repository.Standing.Replace.{standing_for-replace_standing}
use wikifame.Jobs.Frames.{but_optouts, but_standings, jobs_frame}
use wikifame.Repository.Steps.Consistent.{elsewhere}
use wikifame.Jobs.Prewarm.{Loaded, collect_recent_top_titles, prewarm}
use wikifame.Base.{
  ◌≡◌, refl, sym, subst, inl, true, false, none, some, List, [], ◌∷◌, ◌==◌, if◌then◌else◌, any,
  Member, Text, codes, text_eq,
}
use mathlib.Core.Option
use wikifame.Jobs.OptOut.{
  parse_optout_page, page_entry, category_entry, collect_entries, read_entries, sync_wiki,
  sync_optouts,
}
use wikifame.Jobs.Standing.{read_records, sync_standings, sync_wiki as sync_standing}
use wikifame.Jobs.Articles.{sync_wiki-covers}
use wikifame.Jobs.Entries.{covers, collect_entries-covers}
use wikifame.Jobs.Accounts.{sync_standing-keeps}
use wikifame.Tests.Services.{Still, unblocked, optout_job, standing_job, prewarm_job}
use wikifame.Models.{seconds, page_eq, revision_eq, empty_database}
use wikifame.Repository.Standing.{
  standing_for, standing_of, wanted_record, named_contributor_ids, replace_standing,
}
use wikifame.Repository.OptOut.{OptOutEntry, is_opted_out}
use wikifame.Upstream.{TitleInfo, Standings, World, is_namespace}
use wikifame.Errors.{ok}
use wikifame.Tests.Data.{clock_at, values_of, ascii}
use wikifame.Repository.Results.{save_result}
use wikifame.Sites.{SiteResolver, text_in}

abbrev wiki : Text
wiki = codes "frwiki"

abbrev start : World Still
start = record { db = save_result empty_database (values_of 7 30 100); net = tt }

abbrev targets : List Text
targets = codes "A" ∷ codes "Catégorie:C" ∷ []

read_targets : parse_optout_page ascii (codes "* [[A]]\n* [[:Catégorie:C]]") ≡ targets
unfolding parse_optout_page text_eq
read_targets = refl

abbrev entries : List OptOutEntry
entries =
    page_entry 7 (codes "A")
    ∷ category_entry (codes "Catégorie:C") (record { page_id = 9; title = codes "B" })
    ∷ []

collected : (read_entries optout_job wiki tt).0 ≡ ok (entries, [])
unfolding read_entries text_eq
collected = refl

sync_wiki-covers_example :
    (is_opted_out (sync_wiki optout_job wiki (clock_at 100) false start).1.db wiki 9
      ≡ any (λ e. e.page_id == 9) entries)
    × (text_eq wiki (codes "dewiki") ≡ false
        → is_opted_out
            (sync_wiki optout_job wiki (clock_at 100) false start).1.db
            (codes "dewiki")
            9
          ≡ is_opted_out start.db (codes "dewiki") 9)
sync_wiki-covers_example =
    sync_wiki-covers optout_job wiki (clock_at 100) start entries [] collected 9 (codes "dewiki")

abbrev infos : List TitleInfo
infos =
    record { title = codes "A"; namespace = pos 0; page_id = some 7 }
    ∷ record { title = codes "Catégorie:C"; namespace = pos 14; page_id = some 70 }
    ∷ []

gathered : (collect_entries optout_job wiki targets tt).0 ≡ ok (entries, [])
unfolding collect_entries text_eq
gathered = refl

article : is_namespace 0 (pos 0) ≡ true
unfolding is_namespace
article = refl

collect_entries-covers_example : covers 7 entries ≡ true
collect_entries-covers_example =
    collect_entries-covers optout_job wiki targets tt infos (entries, []) refl gathered
      (record { title = codes "A"; namespace = pos 0; page_id = some 7 }) 7 (inl refl) article refl

abbrev answers : Standings
answers id = if id == 5 then none else some (unblocked id)

five : named_contributor_ids start.db wiki ≡ 5 ∷ []
unfolding named_contributor_ids save_result revision_eq page_eq text_eq
five = refl

nothing : (read_records standing_job wiki (seconds 100) start.db tt).0 ≡ ok ([], 0)
unfolding read_records save_result revision_eq page_eq text_eq
nothing = refl

sync_standing-keeps_example :
    standing_of
      (standing_for (sync_standing standing_job wiki (clock_at 100) false start).1.db wiki (5 ∷ []))
      5
    ≡ standing_of (standing_for start.db wiki (5 ∷ [])) 5
sync_standing-keeps_example =
    sync_standing-keeps standing_job wiki (clock_at 100) start answers [] 0 refl nothing 5
      (subst (Member 5) (sym five) (inl refl)) refl

standing_for-replace_standing_example :
    standing_of
      (standing_for
        (replace_standing
          (clock_at 100)
          wiki
          (record { standing = unblocked 5; lock_checked_at = none } ∷ [])
          start.db).0
        wiki
        (5 ∷ []))
      5
    ≡ Option.map
        (λ r. r.standing)
        (wanted_record (record { standing = unblocked 5; lock_checked_at = none } ∷ []) 5)
standing_for-replace_standing_example =
    standing_for-replace_standing (clock_at 100) wiki
      (record { standing = unblocked 5; lock_checked_at = none } ∷ []) start.db 5

abbrev languages : SiteResolver
languages = record { languages = codes "fr" ∷ [] }

jobs_frame_example :
    ((sync_optouts optout_job (λ wiki. clock_at 100) true languages (some wiki) start).1.db
      ≡ start.db)
    × ((sync_standings standing_job (λ wiki. clock_at 100) true languages (some wiki) start).1.db
        ≡ start.db)
    × (but_optouts
          (sync_optouts optout_job (λ wiki. clock_at 100) false languages (some wiki) start).1.db
        ≡ but_optouts start.db)
    × (but_standings
          (sync_standings standing_job
            (λ wiki. clock_at 100)
            false
            languages
            (some wiki)
            start).1.db
        ≡ but_standings start.db)
    × (elsewhere (prewarm prewarm_job (λ wiki. clock_at 100) 2 100 (some wiki) start).1.db
        ≡ elsewhere start.db)
jobs_frame_example =
    jobs_frame optout_job standing_job prewarm_job (λ wiki. clock_at 100) 2 100 languages
      (some wiki) start

abbrev loaded : Loaded
loaded = (codes "A" ∷ [], 98 ∷ 97 ∷ [])

two_days : (collect_recent_top_titles prewarm_job wiki 2 100 tt).0 ≡ ok loaded
unfolding collect_recent_top_titles text_eq text_in
two_days = refl
