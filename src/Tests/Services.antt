-- ===== src/Tests/Services.antt =====
-- Services that answer at once, for the jobs of the examples.
use wikifame.Errors.{pure}
use wikifame.Base.{
  ℕ, ◌*◌, true, false, none, some, [], ◌∷◌, leb, ◌==◌, if◌then◌else◌, length, codes,
}
use wikifame.Base.Int.{pos}
use wikifame.Replica.{PageRow, ReplicaClient}
use wikifame.Attribution.{Shares}
use wikifame.Policy.Standing.{AccountStanding}
use wikifame.Jobs.Standing.{StandingJob}
use wikifame.Upstream.{MediaWiki, WikiWho}
use wikifame.Backfill.{Backfill}
use wikifame.Worker.{Worker}
use wikifame.Jobs.OptOut.{OptOutJob}
use wikifame.Tests.Data.{ascii, settings}
use wikifame.Jobs.Prewarm.{PrewarmJob}

abbrev pub Still : Type 0
Still = Unit {0}

abbrev pub unblocked : ℕ → AccountStanding
unblocked id = record {
  user_id = id;
  username = codes "Alice";
  blocked_at = none;
  block_expires_at = none;
  block_partial = false;
  block_reason = none;
  globally_locked = false;
  lock_reason = none;
}

-- Page 7 is the article A at revision 30, edited by account 5; the list names it and a category.
abbrev pub mediawiki : MediaWiki Still
mediawiki = record {
  get_page = λ wiki page_id. pure (record {
    page_id = page_id;
    revision_id = 30;
    title = codes "A";
    namespace = pos 0;
    is_redirect = false;
  });
  get_editor_count = λ wiki title. pure (record { count = 12; limited = false });
  get_bot_contributor_count = λ wiki page_id. pure 2;
  get_editor_history =
      λ wiki page_id limit. pure (record { counts = (5, 9) ∷ []; revisions = 10; complete = true });
  resolve_users = λ wiki ids. pure (λ id.
      some (record { user_id = id; username = codes "Alice"; groups = []; missing = false }));
  fetch_standing = λ wiki ids. pure (λ id. if id == 5 then none else some (unblocked id));
  global_lock_reason = λ username. pure none;
  global_user_info = λ wiki username. pure (record { groups = []; locked = false });
  get_wikitext = λ wiki title. pure (some (codes "* [[A]]\n* [[:Catégorie:C]]"));
  classify_titles = λ wiki titles. pure (
      record { title = codes "A"; namespace = pos 0; page_id = some 7 }
      ∷ record { title = codes "Catégorie:C"; namespace = pos 14; page_id = some 70 }
      ∷ []);
  category_members =
      λ wiki title limit. pure (record { page_id = 9; title = codes "B" } ∷ [], false);
  resolve_titles = λ wiki titles. pure [];
  all_pages_batch = λ wiki cursor. pure ([], none);
}

abbrev pub wikiwho : WikiWho Still
wikiwho = record {
  fetch_revision = λ wiki revision_id.
      pure (record { str = some (codes "mot"); editor = some (codes "5") } ∷ []);
}

abbrev pub shares : Shares
shares = record { below_minimum = λ a b. false; rounded = λ a b. 10000 }

abbrev pub worker : Worker Still
worker = record {
  settings = settings;
  worker_id = codes "a";
  mediawiki = mediawiki;
  wikiwho = wikiwho;
  unicode = ascii;
  shares = shares;
}

abbrev pub row_of_length : ℕ → ℕ → PageRow
row_of_length id length = record {
  page_id = id;
  latest = id * 10;
  len = length;
  namespace = pos 0;
  is_redirect = false;
}

-- Three articles, two of them of the same size, and a redirect.
abbrev pub replica : ReplicaClient
replica = record {
  user = codes "u";
  password = codes "p";
  page = λ wiki.
      row_of_length 1 500
      ∷ row_of_length 2 900
      ∷ record (row_of_length 3 950) { is_redirect = true }
      ∷ row_of_length 4 500
      ∷ [];
}

abbrev pub backfill : Backfill Still
backfill = record {
  settings = settings;
  resolver = record { languages = codes "fr" ∷ [] };
  unicode = ascii;
  mediawiki = mediawiki;
  replica = replica;
}

abbrev pub optout_job : OptOutJob Still
optout_job = record { settings = settings; unicode = ascii; mediawiki = mediawiki }

abbrev pub standing_job : StandingJob Still
standing_job = record { settings = settings; mediawiki = mediawiki }

-- Page views are published for the days before the last two.
abbrev pub prewarm_job : PrewarmJob Still
prewarm_job = record {
  settings = settings;
  resolver = record { languages = codes "fr" ∷ [] };
  mediawiki = mediawiki;
  top_pages = λ wiki day. pure (if leb 99 day then none else some (codes "A" ∷ []));
}
