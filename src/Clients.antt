-- ===== src/Clients.antt =====
-- src/wikipeople/clients.py: what the clients share, over a transport. The transport stands for
-- `httpx.Client`: it answers, or raises, and changes a state of its own.
pub mod Pages
pub mod Titles
pub mod Accounts
pub mod CentralAuth
pub mod Walks
pub mod Tokens
pub mod Views
pub mod Wired
pub mod Cache
pub mod Paging
pub mod Categories
pub mod History
pub mod Whole
pub mod Keys
pub mod Gone
pub mod Followed
pub mod Walked
use wikifame.Base.{
  ℕ, Bool, true, false, Option, none, some, List, [], ◌∷◌, ◌++◌, if◌then◌else◌, Text, codes,
}
use wikifame.Base.Int.{ℤ, pos}
use wikifame.Json.{
  Json, integer, string, object, Members, no_members, with_member, update, get_or, at_key, contains,
  str_value,
}
use wikifame.Errors.{retryable_upstream, unexpected, Result, ok, err, Exec, lift, ◌>>=◌, ◌>>>◌}
use wikifame.Sites.{SiteResolver, host}
use wikifame.Models.{Time}
use wikifame.Upstream.{GlobalUserInfo}
use wikifame.Policy.{Unicode}

-- What a response has: its status, the message of what `raise_for_status` raises, if it raises, and
-- what `json` returns, or the message of the `ValueError` that it raises.
pub data Decoded : Type 0 where
  decoded : Json → Decoded
  malformed : Text → Decoded

pub record Response : Type 0 where
  pub status_code : ℕ
  pub raised : Option Text
  pub json : Decoded

-- How a request ends: with a response, an `httpx.HTTPError` or a `ValueError`, or another exception.
pub data Sent : Type 0 where
  answered : Response → Sent
  failed : Text → Sent
  broken : Text → Sent

pub record Http (S : Type 0) : Type 0 where
  pub get : Text → Members → S → Sent × S
  pub post : Text → Members → S → Sent × S

-- The client and the transport: what a call changes.
pub record Net (S : Type 0) : Type 0 where
  pub global_users : List (Text × GlobalUserInfo)
  pub http : S

-- A `datetime` as `datetime.fromisoformat` reads it: the microseconds on its clock, and how many
-- that clock is ahead of UTC, where the text has a zone.
pub record Moment : Type 0 where
  pub local : Time
  pub offset : Option ℤ

-- What the clients use of Python: its character tables, `repr` for lists and dictionaries,
-- `datetime.fromisoformat` and `urllib.parse.quote` with no safe characters.
pub record Python : Type 0 where
  pub unicode : Unicode
  pub repr : Json → Text
  pub fromisoformat : Text → Option Moment
  pub quote : Text → Text

-- `max_rounds` bounds the loops that only end with the answers; the source has no such bound.
pub record MediaWikiClient (S : Type 0) : Type 0 where
  pub resolver : SiteResolver
  pub python : Python
  pub client : Http S
  pub max_rounds : ℕ

-- The pieces of a request: its members, and a text.
abbrev pub fields : List (Text × Json) → Members
fields [] = no_members
fields ((key, value) ∷ rest) = with_member key value (fields rest)

abbrev pub word : Text → Json
word s = string s

-- The list under `data["query"]`, or an empty one.
unfoldable pub query_member : Text → Json → Json → Result Json
unfolding get_or
query_member key default received =
    get_or (codes "query") (object no_members) received >>> λ result. get_or key default result

-- `raise_for_status` and `json`, with the clause that catches what they raise.
unfoldable pub read_response : Text → Sent → Result Json
read_response prefix (failed m) = err (retryable_upstream (prefix ++ m))
read_response prefix (broken m) = err (unexpected m)
read_response prefix (answered response) = elim response.raised [
  | some m ↦ err (retryable_upstream (prefix ++ m))
  | none ↦ elim response.json [
    | malformed m ↦ err (retryable_upstream (prefix ++ m))
    | decoded received ↦ ok received
  ]
]

module _ {S : Type 0} (c : MediaWikiClient S) where
  -- `if "error" in data`
  unfoldable pub refuse_error : Json → Result Json
  unfolding contains at_key str_value
  refuse_error received = contains (codes "error") received >>> λ found. elim found [
    | false ↦ ok received
    | true ↦ at_key (codes "error") received >>> λ error.
        err (retryable_upstream (codes "Erreur Action API : " ++ str_value c.python.repr error))
  ]

  unfoldable pub request : Text → Members → Bool → Exec (Net S) Json
  unfolding update read_response refuse_error
  request host params posts net =
      let payload =
        update
          (fields
            ((codes "format", word (codes "json")) ∷ (codes "formatversion", integer (pos 2)) ∷ []))
          params in
      let url = codes "https://" ++ host ++ codes "/w/api.php" in
      let (sent, http) =
        if posts then c.client.post url payload net.http else c.client.get url payload net.http in
      (
        read_response (codes "Action API indisponible : ") sent >>> refuse_error,
        record { global_users = net.global_users; http = http },
      )

  unfoldable pub action : Text → Members → Bool → Exec (Net S) Json
  unfolding request host
  action wiki params posts = lift (host c.resolver wiki) >>= λ h. request h params posts
