-- ===== src/Config.antt =====
-- src/wikipeople/config.py: the settings that the modelled code reads. The seconds that the
-- deployment sets are natural numbers, but for the lengths of blocks, of which negative ones have a
-- meaning. The four settings that are floats are left out.
pub mod Environment
pub mod Overrides
use wikifame.Base.{ℕ, Bool, List, [], ◌∷◌, if◌then◌else◌, Text, text_eq}
use wikifame.Base.Int.{ℤ}
use wikifame.Models.{seconds}

pub record Settings : Type 0 where
  pub database_url : Text
  pub user_agent : Text
  pub algorithm_version : Text
  pub supported_wikis : List Text
  pub prewarm_wikis : List Text
  pub backfill_wikis : List Text
  pub wikiwho_languages : List Text
  pub cors_origins : List Text
  pub cors_origin_regex : Text
  pub wikiwho_base_url : Text
  pub wikiwho_max_response_bytes : ℕ
  pub candidate_pool_size : ℕ
  pub minimum_tokens : ℕ
  pub top_editor_max_revisions : ℕ
  pub worker_lease_seconds : ℕ
  pub worker_max_attempts : ℕ
  pub dead_retry_seconds : ℕ
  pub ready_cache_seconds : ℕ
  pub page_freshness_seconds : ℕ
  pub page_cache_seconds : ℕ
  pub page_stale_while_revalidate_seconds : ℕ
  pub optout_page : Text
  pub optout_category_limit : ℕ
  pub hide_sanctioned_contributors : Bool
  pub max_visible_block_seconds : ℤ
  pub max_visible_block_seconds_by_wiki : List (Text × ℤ)
  pub standing_lock_checks_per_run : ℕ
  pub standing_lock_recheck_seconds : ℕ
  pub methodology_url : Text
  pub replica_user : Text
  pub replica_password : Text
  pub replica_host_template : Text
  pub backfill_batch_size : ℕ

-- The first override of the wiki, and the default without one.
unfoldable pub override_or : ℤ → Text → List (Text × ℤ) → ℤ
override_or default wiki [] = default
override_or default wiki ((configured_wiki, seconds) ∷ overrides) =
    let rest = override_or default wiki overrides in
    if text_eq configured_wiki wiki then seconds else rest

unfoldable pub max_visible_block_seconds_for : Settings → Text → ℤ
unfolding override_or
max_visible_block_seconds_for settings wiki =
    override_or settings.max_visible_block_seconds wiki settings.max_visible_block_seconds_by_wiki
