-- ===== src/Tests/Data.antt =====
-- The tables and the requests of the examples.
use wikifame.Base.{
  ℕ, ◌+◌, ◌-◌, true, false, ◌&&◌, ◌||◌, none, some, [], ◌∷◌, leb, ◌==◌, if◌then◌else◌, codes,
}
use wikifame.Base.Int.{pos}
use wikifame.Policy.{Unicode}
use wikifame.Repository.Results.{ResultValues}
use wikifame.Models.{seconds, Clock, PageKey, RevisionKey, Contributor, Database, empty_database}
use wikifame.Repository.Queue.{WorkLease, enqueue_row, claim, fail}
use wikifame.Config.{Settings}

-- Each reading is a second later than the one before.
abbrev pub clock_at : ℕ → Clock
clock_at start n = seconds (start + n)

abbrev pub page_of : ℕ → PageKey
page_of id = record {
  wiki = codes "frwiki";
  page_id = id;
  algorithm_version = codes "attribution-ladder-v3";
}

abbrev pub revision_of : ℕ → ℕ → RevisionKey
revision_of id revision_id = record { page = page_of id; revision_id = revision_id }

-- Two pages, the later one of lower priority.
abbrev pub queue_of_two : Database
queue_of_two =
    enqueue_row (clock_at 200) (revision_of 8 40) 10
      (enqueue_row (clock_at 100) (revision_of 7 30) 100 empty_database)

abbrev pub first_lease : WorkLease
first_lease = record { id = 1; key = revision_of 7 30; priority = 100; attempts = 1 }

abbrev pub second_lease : WorkLease
second_lease = record { id = 2; key = revision_of 8 40; priority = 10; attempts = 1 }

abbrev pub retry_lease : WorkLease
retry_lease = record { id = 1; key = revision_of 7 30; priority = 100; attempts = 2 }

-- The queue with one job claimed, with both, and with the first one failed.
abbrev pub claimed_once : Database
claimed_once = (claim (clock_at 300) (codes "a") 300 queue_of_two).0

abbrev pub claimed_twice : Database
claimed_twice = (claim (clock_at 301) (codes "b") 300 claimed_once).0

abbrev pub failed_once : Database
failed_once = fail (clock_at 310) first_lease (codes "c") (codes "m") 8 false claimed_once

abbrev pub alice : Contributor
alice = record { user_id = some 5; username = codes "Alice"; amount = 30; share = 6000 }

abbrev pub values_of : ℕ → ℕ → ℕ → ResultValues
values_of id revision_id at_second = record {
  key = revision_of id revision_id;
  title = codes "A";
  metric = codes "wikiwho_surviving_token_count";
  contributors = alice ∷ [];
  distinct_contributors = 12;
  count_limited = false;
  countable_tokens = 50;
  wikiwho_revision_id = revision_id;
  computed_at = seconds at_second;
}

-- The character tables on ASCII.
abbrev pub ascii : Unicode
ascii = record {
  is_alnum = λ c. leb b'0' c && leb c b'9' || leb b'a' c && leb c b'z';
  is_digit = λ c. leb b'0' c && leb c b'9';
  decimal = λ c. if leb b'0' c && leb c b'9' then some (c - b'0') else none;
  is_space = λ c. c == b' ';
}

abbrev pub settings : Settings
settings = record {
  database_url = codes "sqlite:///./wikipeople.db";
  user_agent = codes "WikiPeople";
  algorithm_version = codes "attribution-ladder-v3";
  supported_wikis = codes "*" ∷ [];
  prewarm_wikis = [];
  backfill_wikis = [];
  wikiwho_languages = codes "fr" ∷ [];
  cors_origins = [];
  cors_origin_regex = [];
  wikiwho_base_url = codes "https://wikiwho.example";
  wikiwho_max_response_bytes = 1000;
  candidate_pool_size = 50;
  minimum_tokens = 20;
  top_editor_max_revisions = 5000;
  worker_lease_seconds = 300;
  worker_max_attempts = 8;
  dead_retry_seconds = 86400;
  ready_cache_seconds = 300;
  page_freshness_seconds = 7776000;
  page_cache_seconds = 300;
  page_stale_while_revalidate_seconds = 604800;
  optout_page = codes "Project:WikiPeople/opt-out";
  optout_category_limit = 5000;
  hide_sanctioned_contributors = true;
  max_visible_block_seconds = pos 7776000;
  max_visible_block_seconds_by_wiki = [];
  standing_lock_checks_per_run = 500;
  standing_lock_recheck_seconds = 86400;
  methodology_url = codes "https://example.org";
  replica_user = [];
  replica_password = [];
  replica_host_template = codes "{wiki}.example";
  backfill_batch_size = 2;
}
