-- ===== src/Api/Statistics.antt =====
-- src/wikipeople/app.py: the handlers that are not about a page.
use wikifame.Base.{List, [], ◌∷◌, Counter, Text, codes}
use wikifame.Errors.{Result, ok, err}
use wikifame.Repository.Wikis.{active_wikis}
use wikifame.Repository.Counts.{stats, optout_counts, StandingCounts, standing_counts}
use wikifame.Api.{Runtime}
use wikifame.Models.{Database}

-- The body of `GET /`.
abbrev pub index_body : List (Text × Text)
index_body =
    (codes "name", codes "WikiPeople")
    ∷ (codes "description", codes "Cached WikiWho attribution for the WikiPeople gadget")
    ∷ (codes "docs", codes "/docs")
    ∷ (codes "health", codes "/healthz")
    ∷ (codes "stats", codes "/v1/stats")
    ∷ (codes "source", codes "https://github.com/schiste/wikifame")
    ∷ []

-- `GET /healthz`, given how `database.ping` ends.
unfoldable pub health : Result (Unit {0}) → Result Text
health (ok pong) = ok (codes "ok")
health (err e) = err e

-- The body of `GET /v1/stats`, without the status that is always "ok".
pub record Statistics : Type 0 where
  pub algorithm_version : Text
  pub supported_wikis : List Text
  pub active : List Text
  pub cache : Counter Text
  pub opted_out : Counter Text
  pub standing : List (Text × StandingCounts)

unfoldable pub statistics : Runtime → Database → Statistics
unfolding active_wikis stats optout_counts standing_counts
statistics runtime db = record {
  algorithm_version = runtime.settings.algorithm_version;
  supported_wikis = runtime.settings.supported_wikis;
  active = active_wikis db;
  cache = stats db;
  opted_out = optout_counts db;
  standing = standing_counts db;
}
