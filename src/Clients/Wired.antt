-- ===== src/Clients/Wired.antt =====
-- src/wikipeople/clients.py: the clients as the services that the jobs call.
use wikifame.Clients.{Net, MediaWikiClient}
use wikifame.Clients.Tokens.{WikiWhoClient, fetch_revision}
use wikifame.Clients.Views.{AnalyticsClient, top_pages}
use wikifame.Base.{ℕ, Option, List, Text}
use wikifame.Upstream.{MediaWiki, WikiWho}
use wikifame.Errors.{Exec}
use wikifame.Errors.{Exec}
use wikifame.Upstream.{MediaWiki, WikiWho}
use wikifame.Clients.{MediaWikiClient, Net}
use wikifame.Clients.Pages.{get_page, get_editor_count, get_wikitext}
use wikifame.Clients.Titles.{classify_titles, resolve_titles, all_pages_batch}
use wikifame.Clients.Accounts.{resolve_users, fetch_standing}
use wikifame.Clients.CentralAuth.{global_lock_reason, global_user_info}
use wikifame.Clients.Walks.{get_bot_contributor_count, get_editor_history, category_members}
use wikifame.Clients.Tokens.{WikiWhoClient, fetch_revision}
use wikifame.Clients.Views.{AnalyticsClient, top_pages}
use wikifame.Base.{ℕ, Option, List, Text}

module _ {S : Type 0} where
  -- The methods of `MediaWikiClient`.
  unfoldable pub mediawiki_of : MediaWikiClient S → MediaWiki (Net S)
  unfolding get_page get_editor_count get_bot_contributor_count get_editor_history resolve_users
      fetch_standing global_lock_reason global_user_info get_wikitext classify_titles
      category_members resolve_titles all_pages_batch
  mediawiki_of c = record {
    get_page = get_page c;
    get_editor_count = get_editor_count c;
    get_bot_contributor_count = get_bot_contributor_count c;
    get_editor_history = get_editor_history c;
    resolve_users = resolve_users c;
    fetch_standing = fetch_standing c;
    global_lock_reason = global_lock_reason c;
    global_user_info = global_user_info c;
    get_wikitext = get_wikitext c;
    classify_titles = classify_titles c;
    category_members = category_members c;
    resolve_titles = resolve_titles c;
    all_pages_batch = all_pages_batch c;
  }

  -- A call of another client, over the same transport.
  abbrev pub beside : {A : Type 0} → Exec S A → Exec (Net S) A
  beside m net =
      let (r, http) = m net.http in (r, record { global_users = net.global_users; http = http })

  -- The method of `WikiWhoClient`.
  unfoldable pub wikiwho_of : WikiWhoClient S → WikiWho (Net S)
  unfolding fetch_revision
  wikiwho_of c = record { fetch_revision = λ wiki id. beside (fetch_revision c wiki id) }

  -- The method of `AnalyticsClient`.
  unfoldable pub top_pages_of : AnalyticsClient S → Text → ℕ → Exec (Net S) (Option (List Text))
  unfolding top_pages
  top_pages_of c wiki day = beside (top_pages c wiki day)
