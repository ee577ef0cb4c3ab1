-- ===== src/Api.antt =====
-- src/wikipeople/app.py: the two handlers that answer about a page. A reply is its status with the
-- headers and the values of the body; the digest of a body comes as a parameter, and each call of
-- `utcnow()` has its own reading of the clock, which stays unused where the call is not made.
pub mod Handlers
pub mod Statistics
pub mod Standings
pub mod Serving
pub mod Sound
pub mod Replies
pub mod Waiting
pub mod Refusals
pub mod Latest
use wikifame.Base.{
  ℕ, ◌*◌, Bool, false, ◌&&◌, ◌||◌, Option, none, some, List, [], ◌∷◌, ◌==◌, if◌then◌else◌, any,
  Text, codes, text_eq,
}
use wikifame.Base.Int.{ℤ}
use mathlib.Core.List.{reverse}
use wikifame.Models.{Time, RevisionKey, Contributor}
use wikifame.Config.{Settings}
use wikifame.Policy.{Unicode}
use wikifame.Sites.{SiteResolver}
use wikifame.Texts.{split_commas, strip}

pub record AttributionFields : Type 0 where
  pub contributors : List Contributor
  pub distinct_contributors : ℕ
  pub other_contributors : ℕ
  pub opted_out : Bool

-- What only the second version of a ready body says.
pub record Freshness : Type 0 where
  pub requested_revision_id : ℕ
  pub fresh_until : Time
  pub is_fresh : Bool
  pub refreshing : Bool

pub record Payload : Type 0 where
  pub key : RevisionKey
  pub title : Text
  pub metric : Text
  pub attribution : AttributionFields
  pub open attribution use *
  pub count_limited : Bool
  pub countable_tokens : ℕ
  pub computed_at : Time
  pub methodology_url : Text
  pub freshness : Option Freshness

pub record Headers : Type 0 where
  pub max_age : ℕ
  pub stale_while_revalidate : Option ℕ
  pub etag : Text
  pub algorithm : Text
  pub source_revision : Option ℕ

-- The statuses 404, 422, 200, 304, 503 and 202.
pub data Reply : Type 0 where
  not_found unprocessable : Reply
  ready : Headers → Payload → Reply
  not_modified : Headers → Reply
  unavailable : Text → ℕ → ℕ → Option Text → Reply
  pending_reply : Text → ℕ → ℕ → Reply

pub record Runtime : Type 0 where
  pub settings : Settings
  pub resolver : SiteResolver
  pub unicode : Unicode
  pub digest : Payload → Text

pub record PageRequest : Type 0 where
  pub wiki : Text
  pub page_id : ℤ
  pub revision_id : ℕ
  pub if_none_match : Option Text

-- A stripped candidate without its `W/`.
unfoldable pub strong : Unicode → Text → Text
unfolding strip
strong u (c ∷ d ∷ s) = if c == b'W' && d == b'/' then strip u s else c ∷ d ∷ s
strong u s = s

unfoldable pub candidate_matches : Unicode → Text → Text → Bool
unfolding strip strong
candidate_matches u etag candidate =
    let stripped = strip u candidate in
    text_eq stripped (codes "*") || text_eq (strong u stripped) etag

unfoldable pub matches_etag : Unicode → Option Text → Text → Bool
unfolding split_commas any candidate_matches
matches_etag u none etag = false
matches_etag u (some []) etag = false
matches_etag u (some (c ∷ s)) etag = any (candidate_matches u etag) (split_commas (c ∷ s))
