-- ===== src/Worker.antt =====
-- src/wikipeople/worker.py: what happens to one claimed job, and the worker's rounds.
pub mod Names
pub mod Acts
pub mod Settles
use wikifame.Base.{
  ℕ, ◌-◌, max, Bool, true, false, not, Option, none, some, List, [], ◌∷◌, ◌++◌, map, ◌==◌,
  if◌then◌else◌, length, take, Counter, most_common, Text, codes, decimal,
}
use wikifame.Repository.Queue.{WorkLease, enqueue, claim, complete, supersede, fail}
use wikifame.Attribution.{
  Shares, count_tokens, candidate_user_ids, select_top_editors, select_contributors,
}
use wikifame.Config.{Settings}
use wikifame.Policy.{GlobalGroupLookup, Unicode}
use wikifame.Upstream.{
  PageMetadata, EditorCount, EditorHistory, MediaWiki, WikiWho, World, ask, query, catch_permanent,
  store, is_namespace,
}
use wikifame.Errors.{
  Failure, code, permanent, message, is_wikipeople_error, Result, ok, err, Exec, pure, lift, ◌>>=◌,
  ◌>>◌,
}
use wikifame.Models.{Clock, later, RevisionKey, Contributor, Database}
use wikifame.Repository.Results.{ResultValues, save_result}
use wikifame.Repository.Wikis.{register_active_wiki}

abbrev pub metric_tokens : Text
metric_tokens = codes "wikiwho-surviving-alphanumeric-tokens"

abbrev pub metric_edits : Text
metric_edits = codes "mediawiki-revision-count"

-- What a worker is built from: the clients, the settings, its name, and Python's tables and floats.
pub record Worker (S : Type 0) : Type 0 where
  pub settings : Settings
  pub worker_id : Text
  pub mediawiki : MediaWiki S
  pub wikiwho : WikiWho S
  pub unicode : Unicode
  pub shares : Shares

module _ {S : Type 0} (worker : Worker S) where
  -- The groups of an account on CentralAuth.
  abbrev pub global_groups : Text → GlobalGroupLookup S
  global_groups wiki username =
      worker.mediawiki.global_user_info wiki username >>= λ info. pure info.groups

  -- The statements of the first `try` behind `count_tokens`.
  unfoldable pub name_authors : WorkLease → Counter Text → ℕ → Exec S (List Contributor)
  unfolding candidate_user_ids select_contributors
  name_authors lease counts total_tokens =
      lift (candidate_user_ids worker.unicode counts worker.settings.candidate_pool_size) >>= λ ids.
      worker.mediawiki.resolve_users lease.wiki ids >>= λ users.
      select_contributors worker.unicode worker.shares users (some (global_groups lease.wiki)) 3
        counts total_tokens worker.settings.minimum_tokens

  -- The inner `try`: a refusal leaves no names, and the total that was counted before it.
  abbrev pub name_counted : WorkLease → Counter Text × ℕ → Exec S (List Contributor × ℕ)
  name_counted lease (counts, total_tokens) =
      catch_permanent [] (name_authors lease counts total_tokens) >>= λ contributors.
      pure (contributors, total_tokens)

  -- The first `try`.
  unfoldable pub attribute_tokens : WorkLease → Exec S (List Contributor × ℕ)
  unfolding name_authors count_tokens
  attribute_tokens lease =
      catch_permanent ([], 0)
        (worker.wikiwho.fetch_revision lease.wiki lease.revision_id >>= λ tokens.
          name_counted lease (count_tokens worker.unicode tokens))

  -- The second ranking, for a history that was read to its end.
  abbrev pub rank_history : WorkLease → EditorHistory → Exec S (List Contributor)
  rank_history lease history =
      worker.mediawiki.resolve_users lease.wiki
        (map (λ e. e.0) (take worker.settings.candidate_pool_size (most_common history.counts)))
      >>= λ users.
          select_top_editors worker.unicode worker.shares users (some (global_groups lease.wiki)) 3
            history.counts history.revisions

  unfoldable pub attribute_edits : WorkLease → Exec S (List Contributor)
  unfolding select_top_editors
  attribute_edits lease =
      worker.mediawiki.get_editor_history lease.wiki lease.page_id
        worker.settings.top_editor_max_revisions
      >>= λ history. if not history.complete then pure [] else rank_history lease history

  -- The names, the total of the tokens and the metric: `if not contributors`.
  abbrev pub attribute_further :
      WorkLease → List Contributor × ℕ → Exec S (List Contributor × ℕ × Text)
  attribute_further lease ([], total_tokens) =
      attribute_edits lease >>= λ editors. pure (editors, total_tokens, metric_edits)
  attribute_further lease (c ∷ more, total_tokens) = pure (c ∷ more, total_tokens, metric_tokens)

  unfoldable pub attribute : WorkLease → Exec S (List Contributor × ℕ × Text)
  unfolding attribute_tokens attribute_edits
  attribute lease = attribute_tokens lease >>= attribute_further lease

  -- The values that `process` saves.
  abbrev pub result_values :
      Clock
      → WorkLease
      → PageMetadata
      → List Contributor
      → ℕ
      → Text
      → EditorCount
      → ℕ
      → ResultValues
  result_values clock lease page contributors total_tokens metric editors bots = record {
    key = lease.key;
    title = page.title;
    metric = metric;
    contributors = contributors;
    distinct_contributors = max (length contributors) (editors.count - bots);
    count_limited = editors.limited;
    countable_tokens = total_tokens;
    wikiwho_revision_id = lease.revision_id;
    computed_at = clock 0;
  }

  abbrev pub moved_reason : WorkLease → PageMetadata → Text
  moved_reason lease page =
      codes "Révision demandée "
      ++ decimal lease.revision_id
      ++ codes ", révision courante "
      ++ decimal page.revision_id

  abbrev pub current_key : WorkLease → PageMetadata → RevisionKey
  current_key lease page = record {
    page = record {
      wiki = lease.wiki;
      page_id = page.page_id;
      algorithm_version = lease.algorithm_version;
    };
    revision_id = page.revision_id;
  }

  -- The part of `process` behind the checks of the page.
  unfoldable pub publish : Clock → WorkLease → PageMetadata → Exec (World S) (Unit {0})
  unfolding attribute save_result complete register_active_wiki
  publish clock lease page = ask (attribute lease) >>= λ (contributors, total_tokens, metric).
      ask (worker.mediawiki.get_editor_count lease.wiki page.title) >>= λ editors.
      ask (worker.mediawiki.get_bot_contributor_count lease.wiki lease.page_id) >>= λ bots.
      store (λ db.
        save_result db
          (result_values clock lease page contributors total_tokens metric editors bots))
      >> store (complete lease.id)
      >> query (register_active_wiki (later 1 clock) lease.wiki)
      >> pure tt

  unfoldable pub process : Clock → WorkLease → Exec (World S) (Unit {0})
  unfolding publish supersede enqueue is_namespace
  process clock lease = ask (worker.mediawiki.get_page lease.wiki lease.page_id) >>= λ page.
      if not (is_namespace 0 page.namespace)
      then store (supersede clock lease.id (codes "La page n’est plus dans l’espace principal"))
      else if page.is_redirect
      then store (supersede clock lease.id (codes "La page est une redirection"))
      else if not (page.revision_id == lease.revision_id)
      then store (supersede clock lease.id (moved_reason lease page))
        >> store (enqueue (later 1 clock) (current_key lease page) lease.priority false)
      else publish clock lease page

  -- The two handlers of `run_once`.
  unfoldable pub report : Clock → WorkLease → Failure → Database → Database
  unfolding is_wikipeople_error code message permanent fail
  report clock lease failure =
      if is_wikipeople_error failure
      then fail clock lease (code failure) (message failure) worker.settings.worker_max_attempts
          (permanent failure)
      else fail clock lease (codes "unexpected_error") (message failure)
          worker.settings.worker_max_attempts false

  -- The `try` around `process`, once it has ended.
  abbrev pub settle : Clock → WorkLease → Result (Unit {0}) × World S → World S
  settle clock lease (ok done, w) = w
  settle clock lease (err failure, w) = record {
    db = report (later 5 clock) lease failure w.db;
    net = w.net;
  }

  abbrev pub work_on : Clock → Option WorkLease → World S → Bool × World S
  work_on clock none w = (false, w)
  work_on clock (some lease) w = (true, settle clock lease (process (later 1 clock) lease w))

  -- The clock's reading for the claim comes first, those of the job and of a report follow.
  unfoldable pub run_once : Clock → World S → Bool × World S
  unfolding claim process report
  run_once clock w =
      let (db, lease?) = claim clock worker.worker_id worker.settings.worker_lease_seconds w.db in
      work_on clock lease? (record { db = db; net = w.net })

  -- The rounds until the process is told to stop, each with its clock. Sleeping changes nothing.
  unfoldable pub run_forever : List Clock → World S → World S
  unfolding run_once
  run_forever [] w = w
  run_forever (clock ∷ clocks) w = run_forever clocks (run_once clock w).1
