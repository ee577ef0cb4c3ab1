-- ===== src/Models.antt =====
-- src/wikipeople/models.py: the rows of the six tables, and the tables together.
use wikifame.Base.{
  ℕ, ◌+◌, ◌*◌, ◌≡◌, refl, ◌↔◌, Bool, true, ◌&&◌, Option, List, [], arith, ◌==◌, Text, text_eq,
  text_eq_iff,
}

-- A naive UTC `datetime`: microseconds since the first one.
abbrev pub Time : Type 0
Time = ℕ

-- `timedelta(seconds=n)`
abbrev pub seconds : ℕ → Time
seconds n = n * 1000000

-- The readings of `utcnow()` that an operation makes, numbered by the places of its calls in their
-- order. The reading of a call that is not made goes unused.
abbrev pub Clock : Type 0
Clock = ℕ → Time

-- The clock from its `n`-th reading on.
abbrev pub later : ℕ → Clock → Clock
later n clock k = clock (n + k)

-- The columns that name a page under one attribution policy.
pub record PageKey : Type 0 where
  pub wiki : Text
  pub page_id : ℕ
  pub algorithm_version : Text

-- The columns of `uq_result_revision_algorithm` and of `uq_work_revision_algorithm`.
pub record RevisionKey : Type 0 where
  pub page : PageKey
  pub open page use *
  pub revision_id : ℕ

unfoldable pub page_eq : PageKey → PageKey → Bool
page_eq a b =
    text_eq a.wiki b.wiki
    && a.page_id == b.page_id
    && text_eq a.algorithm_version b.algorithm_version

unfoldable pub revision_eq : RevisionKey → RevisionKey → Bool
revision_eq a b = page_eq a.page b.page && a.revision_id == b.revision_id

pub page_eq_iff : (a b : PageKey) → (page_eq a b ≡ true) ↔ (a ≡ b)
unfolding page_eq
page_eq_iff a b =
    ground (arith, text_eq_iff a.wiki b.wiki, text_eq_iff a.algorithm_version b.algorithm_version)

pub revision_eq_iff : (a b : RevisionKey) → (revision_eq a b ≡ true) ↔ (a ≡ b)
unfolding revision_eq
revision_eq_iff a b = ground (arith, page_eq_iff a.page b.page)

pub revision_eq_refl : (a : RevisionKey) → revision_eq a a ≡ true
revision_eq_refl a = (revision_eq_iff a a).1 refl

-- One entry of the JSON column `contributors`. `user_id` is `none` where the JSON holds no integer,
-- `amount` is `token_count` or `edit_count`, as the row's metric says, and `share` counts
-- ten-thousandths.
pub record Contributor : Type 0 where
  pub user_id : Option ℕ
  pub username : Text
  pub amount : ℕ
  pub share : ℕ

pub record AttributionResult : Type 0 where
  pub id : ℕ
  pub key : RevisionKey
  pub open key use *
  pub title : Text
  pub metric : Text
  pub contributors : List Contributor
  pub distinct_contributors : ℕ
  pub count_limited : Bool
  pub countable_tokens : ℕ
  pub wikiwho_revision_id : ℕ
  pub computed_at : Time

pub data WorkState : Type 0 where
  pending leased dead superseded : WorkState

pub record WorkItem : Type 0 where
  pub id : ℕ
  pub key : RevisionKey
  pub open key use *
  pub priority : ℕ
  pub state : WorkState
  pub attempts : ℕ
  pub available_at : Time
  pub lease_until : Option Time
  pub worker_id : Option Text
  pub error_code : Option Text
  pub last_error : Option Text
  pub is_permanent : Bool
  pub created_at : Time
  pub updated_at : Time

pub record ActiveWiki : Type 0 where
  pub wiki : Text
  pub first_seen_at : Time
  pub last_result_at : Time

pub record AppState : Type 0 where
  pub key : Text
  pub value : Text
  pub updated_at : Time

pub record PageOptOut : Type 0 where
  pub wiki : Text
  pub page_id : ℕ
  pub title : Text
  pub source : Text
  pub synced_at : Time

pub record ContributorStanding : Type 0 where
  pub wiki : Text
  pub user_id : ℕ
  pub username : Text
  pub blocked_at : Option Time
  pub block_expires_at : Option Time
  pub block_partial : Bool
  pub block_reason : Option Text
  pub globally_locked : Bool
  pub lock_reason : Option Text
  pub lock_checked_at : Option Time
  pub synced_at : Time

-- The tables, each as its rows in the order in which the engine returns ties, and the two
-- counters from which it takes the `id` of a new row.
pub record Database : Type 0 where
  pub attribution_results : List AttributionResult
  pub next_result_id : ℕ
  pub work_queue : List WorkItem
  pub next_work_id : ℕ
  pub active_wikis : List ActiveWiki
  pub app_state : List AppState
  pub page_optout : List PageOptOut
  pub contributor_standing : List ContributorStanding

abbrev pub empty_database : Database
empty_database = record {
  attribution_results = [];
  next_result_id = 1;
  work_queue = [];
  next_work_id = 1;
  active_wikis = [];
  app_state = [];
  page_optout = [];
  contributor_standing = [];
}
