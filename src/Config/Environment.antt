-- ===== src/Config/Environment.antt =====
-- src/wikipeople/config.py: the reading of the settings from the environment.
use wikifame.Base.{
  ℕ, ◌*◌, Bool, true, false, ◌&&◌, Option, none, some, List, [], ◌∷◌, ◌++◌, map, if◌then◌else◌,
  is_some, Text, codes, partition,
}
use wikifame.Base.Int.{ℤ, pos, negsuc}
use mathlib.Core.List.{reverse}
use wikifame.Errors.{Failure, unexpected, Result, ok, err, ◌>>>◌}
use wikifame.Policy.{Unicode, is_digits, ascii_lower}
use wikifame.Sites.{all_wikis, default_wikiwho_languages, text_in}
use wikifame.Texts.{split_commas, strip, drop_char, read_int}
use wikifame.Config.{Settings}
use wikifame.Json.{negative_number}

-- What reading them takes from Python: its character tables and `urllib.parse.quote_plus`.
pub record Reader : Type 0 where
  pub unicode : Unicode
  pub quote_plus : Text → Text

-- `os.getenv`
abbrev pub Environment : Type 0
Environment = Text → Option Text

-- `os.getenv(name, default)`
unfoldable pub getenv : Environment → Text → Text → Text
getenv env name default = elim (env name) [ none ↦ default | some value ↦ value ]

-- Whether an optional text is set and not empty.
unfoldable pub given : Option Text → Option Text
given none = none
given (some []) = none
given (some (c ∷ s)) = some (c ∷ s)

-- The items that are not blank, without the space around them.
unfoldable pub strip_items : Unicode → List Text → List Text
unfolding strip
strip_items u [] = []
strip_items u (item ∷ items) =
    let rest = strip_items u items in
    if is_some (given (some (strip u item))) then strip u item ∷ rest else rest

-- `_csv`
unfoldable pub csv : Unicode → Text → List Text
unfolding split_commas strip_items given
csv u value = strip_items u (split_commas value)

-- `_flag`; no character outside ASCII becomes one of the letters of these words.
unfoldable pub flag : Unicode → Environment → Text → Bool → Bool
unfolding strip text_in
flag u env name default = elim (env name) [
  | none ↦ default
  | some raw ↦
      text_in (map ascii_lower (strip u raw))
        (codes "1" ∷ codes "true" ∷ codes "yes" ∷ codes "on" ∷ [])
]

abbrev pub value_error : Failure
value_error = unexpected (codes "ValueError")

-- `int(text)`
unfoldable pub int_setting : Unicode → Text → Result ℤ
unfolding read_int
int_setting u value = elim (read_int u value) [ none ↦ err value_error | some n ↦ ok n ]

-- What one item adds to the overrides.
unfoldable pub override_of : Unicode → Text → Result (Option (Text × ℤ))
unfolding partition strip is_digits drop_char int_setting given
override_of u item = elim (partition b':' item) [
  | none ↦ ok none
  | some (wiki, amount) ↦
      elim (is_some (given (some (strip u wiki)))
        && is_digits u (drop_char b'-' (strip u amount))) [
          | false ↦ ok none
          | true ↦ int_setting u (strip u amount) >>> λ n. ok (some (strip u wiki, n))
        ]
]

unfoldable pub overrides_of : Unicode → List Text → Result (List (Text × ℤ))
unfolding override_of
overrides_of u [] = ok []
overrides_of u (item ∷ items) =
    let rest = overrides_of u items in
    override_of u item >>> λ override.
    rest >>> λ overrides. ok (elim override [ none ↦ overrides | some o ↦ o ∷ overrides ])

-- `_int_by_wiki`
unfoldable pub int_by_wiki : Unicode → Text → Result (List (Text × ℤ))
unfolding csv overrides_of
int_by_wiki u value = overrides_of u (csv u value)

-- The address of the database of the tool, from its user and password.
abbrev pub toolsdb_url : Reader → Text → Text → Text → Text
toolsdb_url reader user password name =
    codes "mysql+pymysql://"
    ++ reader.quote_plus user
    ++ b':' ∷ reader.quote_plus password
    ++ codes "@tools.db.svc.wikimedia.cloud/"
    ++ reader.quote_plus name
    ++ codes "?charset=utf8mb4"

-- `_database_url`
unfoldable pub database_url : Reader → Environment → Text
unfolding given getenv
database_url reader env = elim (given (env (codes "DATABASE_URL"))) [
  | some explicit_url ↦ explicit_url
  | none ↦ elim (given (env (codes "TOOL_TOOLSDB_USER"))) [
    | none ↦ codes "sqlite:///./wikipeople.db"
    | some user ↦ elim (given (env (codes "TOOL_TOOLSDB_PASSWORD"))) [
      | none ↦ codes "sqlite:///./wikipeople.db"
      | some password ↦
          toolsdb_url reader user password
            (getenv env (codes "TOOLSDB_DATABASE") (user ++ codes "__wikipeople"))
    ]
  ]
]

-- `s.rstrip(c)`
unfoldable pub drop_last : ℕ → Text → Text
unfolding drop_char
drop_last c s = reverse (drop_char c (reverse s))

module _ (reader : Reader) (env : Environment) where
  -- `int(os.getenv(name, str(default)))`
  unfoldable pub integer_env : Text → ℤ → Result ℤ
  unfolding int_setting
  integer_env name default = elim (env name) [
    | none ↦ ok default
    | some value ↦ int_setting reader.unicode value
  ]

  -- The same of a setting that the model holds as a natural number.
  unfoldable pub natural_env : Text → ℕ → Result ℕ
  unfolding integer_env
  natural_env name default = integer_env name (pos default) >>> λ n. elim n [
    | pos m ↦ ok m
    | negsuc m ↦ err negative_number
  ]

  -- The languages of WikiWho, where they are set.
  unfoldable pub languages_env : List Text
  unfolding given csv
  languages_env = elim (given (env (codes "WIKIWHO_LANGUAGES"))) [
    | none ↦ default_wikiwho_languages
    | some languages ↦ csv reader.unicode languages
  ]

  -- `Settings.from_env`
  unfoldable pub from_env : Result Settings
  unfolding natural_env integer_env languages_env csv flag int_by_wiki database_url getenv drop_last
  from_env =
      natural_env (codes "WIKIWHO_MAX_RESPONSE_BYTES") (32 * 1024 * 1024) >>> λ max_response_bytes.
      natural_env (codes "CANDIDATE_POOL_SIZE") 50 >>> λ pool_size.
      natural_env (codes "MINIMUM_TOKENS") 20 >>> λ tokens.
      natural_env (codes "TOP_EDITOR_MAX_REVISIONS") 5000 >>> λ max_revisions.
      natural_env (codes "WORKER_LEASE_SECONDS") 300 >>> λ lease_seconds.
      natural_env (codes "WORKER_MAX_ATTEMPTS") 8 >>> λ max_attempts.
      natural_env (codes "DEAD_RETRY_SECONDS") 86400 >>> λ retry_seconds.
      natural_env (codes "READY_CACHE_SECONDS") 300 >>> λ ready_seconds.
      natural_env (codes "PAGE_FRESHNESS_SECONDS") (90 * 24 * 60 * 60) >>> λ freshness_seconds.
      natural_env (codes "PAGE_CACHE_SECONDS") 300 >>> λ cache_seconds.
      natural_env (codes "PAGE_STALE_WHILE_REVALIDATE_SECONDS") 604800 >>> λ stale_seconds.
      natural_env (codes "OPTOUT_CATEGORY_LIMIT") 5000 >>> λ category_limit.
      integer_env (codes "MAX_VISIBLE_BLOCK_SECONDS") (pos (90 * 86400)) >>> λ block_seconds.
      int_by_wiki reader.unicode (getenv env (codes "MAX_VISIBLE_BLOCK_SECONDS_BY_WIKI") [])
      >>> λ by_wiki. natural_env (codes "STANDING_LOCK_CHECKS_PER_RUN") 500 >>> λ lock_checks.
          natural_env (codes "STANDING_LOCK_RECHECK_SECONDS") 86400 >>> λ recheck_seconds.
          natural_env (codes "BACKFILL_BATCH_SIZE") 500 >>> λ batch_size. ok (record {
            database_url = database_url reader env;
            user_agent =
                getenv env (codes "WIKIPEOPLE_USER_AGENT")
                  (codes "WikiPeople/0.1 (https://github.com/schiste/wikifame)");
            algorithm_version =
                getenv env (codes "ALGORITHM_VERSION") (codes "attribution-ladder-v3");
            supported_wikis = csv reader.unicode (getenv env (codes "SUPPORTED_WIKIS") all_wikis);
            prewarm_wikis = csv reader.unicode (getenv env (codes "PREWARM_WIKIS") []);
            backfill_wikis = csv reader.unicode (getenv env (codes "BACKFILL_WIKIS") []);
            wikiwho_languages = languages_env;
            cors_origins = csv reader.unicode (getenv env (codes "CORS_ORIGINS") []);
            cors_origin_regex =
                getenv env (codes "CORS_ORIGIN_REGEX")
                  (codes "^https://[a-z0-9-]+\\.(?:m\\.)?wikipedia\\.org$");
            wikiwho_base_url =
                drop_last b'/'
                  (getenv env (codes "WIKIWHO_BASE_URL") (codes "https://wikiwho-api.wmcloud.org"));
            wikiwho_max_response_bytes = max_response_bytes;
            candidate_pool_size = pool_size;
            minimum_tokens = tokens;
            top_editor_max_revisions = max_revisions;
            worker_lease_seconds = lease_seconds;
            worker_max_attempts = max_attempts;
            dead_retry_seconds = retry_seconds;
            ready_cache_seconds = ready_seconds;
            page_freshness_seconds = freshness_seconds;
            page_cache_seconds = cache_seconds;
            page_stale_while_revalidate_seconds = stale_seconds;
            optout_page = getenv env (codes "OPTOUT_PAGE") (codes "Project:WikiPeople/opt-out");
            optout_category_limit = category_limit;
            hide_sanctioned_contributors =
                flag reader.unicode env (codes "HIDE_SANCTIONED_CONTRIBUTORS") true;
            max_visible_block_seconds = block_seconds;
            max_visible_block_seconds_by_wiki = by_wiki;
            standing_lock_checks_per_run = lock_checks;
            standing_lock_recheck_seconds = recheck_seconds;
            methodology_url =
                getenv env (codes "METHODOLOGY_URL")
                  (codes "https://github.com/schiste/wikifame/blob/main/docs/architecture.md");
            replica_user = getenv env (codes "TOOL_REPLICA_USER") [];
            replica_password = getenv env (codes "TOOL_REPLICA_PASSWORD") [];
            replica_host_template =
                getenv env (codes "REPLICA_HOST_TEMPLATE")
                  (codes "{wiki}.analytics.db.svc.wikimedia.cloud");
            backfill_batch_size = batch_size;
          })
