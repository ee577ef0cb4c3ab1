-- ===== src/Upstream.antt =====
-- The methods of src/wikipeople/clients.py that the jobs call, as an interface over the state `S` of
-- the clients and of the services behind them, and the values that they exchange.
pub mod Advances
use wikifame.Base.{ℕ, Bool, false, Option, List, ◌==◌, if◌then◌else◌, Counter, Text}
use wikifame.Base.Int.{ℤ, pos, negsuc}
use wikifame.Errors.{is_permanent_data_error, Result, ok, err, Exec}
use wikifame.Attribution.{Token, Users}
use wikifame.Policy.Standing.{AccountStanding}
use wikifame.Models.{Database}

pub record PageMetadata : Type 0 where
  pub page_id : ℕ
  pub revision_id : ℕ
  pub title : Text
  pub namespace : ℤ
  pub is_redirect : Bool

pub record TitleInfo : Type 0 where
  pub title : Text
  pub namespace : ℤ
  pub page_id : Option ℕ

pub record CategoryMember : Type 0 where
  pub page_id : ℕ
  pub title : Text

pub record EditorCount : Type 0 where
  pub count : ℕ
  pub limited : Bool

pub record EditorHistory : Type 0 where
  pub counts : Counter ℕ
  pub revisions : ℕ
  pub complete : Bool

pub record GlobalUserInfo : Type 0 where
  pub groups : List Text
  pub locked : Bool

-- The answer of `fetch_standing`, as what it says of one account.
abbrev pub Standings : Type 0
Standings = ℕ → Option AccountStanding

pub record MediaWiki (S : Type 0) : Type 0 where
  pub get_page : Text → ℕ → Exec S PageMetadata
  pub get_editor_count : Text → Text → Exec S EditorCount
  pub get_bot_contributor_count : Text → ℕ → Exec S ℕ
  pub get_editor_history : Text → ℕ → ℕ → Exec S EditorHistory
  pub resolve_users : Text → List ℕ → Exec S Users
  pub fetch_standing : Text → List ℕ → Exec S Standings
  pub global_lock_reason : Text → Exec S (Option Text)
  pub global_user_info : Text → Text → Exec S GlobalUserInfo
  pub get_wikitext : Text → Text → Exec S (Option Text)
  pub classify_titles : Text → List Text → Exec S (List TitleInfo)
  pub category_members : Text → Text → ℕ → Exec S (List CategoryMember × Bool)
  pub resolve_titles : Text → List Text → Exec S (List PageMetadata)
  pub all_pages_batch : Text → Option Text → Exec S (List PageMetadata × Option Text)

pub record WikiWho (S : Type 0) : Type 0 where
  pub fetch_revision : Text → ℕ → Exec S (List Token)

-- The tables and the clients together: what a job changes.
pub record World (S : Type 0) : Type 0 where
  pub db : Database
  pub net : S

module _ {S A : Type 0} where
  -- A call of a client.
  abbrev pub ask : Exec S A → Exec (World S) A
  ask m w = let (r, net) = m w.net in (r, record { db = w.db; net = net })

  -- A call of the repository that returns a value.
  abbrev pub query : (Database → Database × A) → Exec (World S) A
  query f w = let (db, a) = f w.db in (ok a, record { db = db; net = w.net })

  -- `except PermanentDataError`, with the value that the code goes on with.
  abbrev pub recover : A → Result A × S → Result A × S
  recover instead (ok a, s) = (ok a, s)
  recover instead (err e, s) = if is_permanent_data_error e then (ok instead, s) else (err e, s)

  abbrev pub catch_permanent : A → Exec S A → Exec S A
  catch_permanent instead m s = recover instead (m s)

module _ {S : Type 0} where
  -- A call of the repository that returns none.
  abbrev pub store : (Database → Database) → Exec (World S) (Unit {0})
  store f w = (ok tt, record { db = f w.db; net = w.net })

-- `namespace == n`
unfoldable pub is_namespace : ℕ → ℤ → Bool
is_namespace n (pos m) = m == n
is_namespace n (negsuc m) = false
