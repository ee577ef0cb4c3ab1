-- ===== src/Clients/Views.antt =====
-- src/wikipeople/clients.py: the client of the page views.
use wikifame.Base.{ℕ, Bool, false, Option, none, some, List, ◌++◌, ◌==◌, if◌then◌else◌, Text, codes}
use wikifame.Json.{Json, no_members, get_or, at_key, elements, at_zero, truthy, str_value}
use wikifame.Errors.{Result, ok, Exec, lift, ◌>>=◌, ◌>>>◌}
use wikifame.Clients.Titles.{collect}
use wikifame.Clients.{Sent, answered, Http, Python, read_response}
use wikifame.Texts.{replace_char}
use wikifame.Sites.{SiteResolver, host}
use wikifame.Clients.Pages.{no_pages}

-- `unquote` is the one of `urllib.parse`; a day is its number, and `day_path` prints it as
-- year/month/day.
pub record AnalyticsClient (S : Type 0) : Type 0 where
  pub resolver : SiteResolver
  pub python : Python
  pub unquote : Text → Text
  pub day_path : ℕ → Text
  pub client : Http S

module _ {S : Type 0} (c : AnalyticsClient S) where
  -- `unquote(str(article["article"])).replace("_", " ")`
  unfoldable pub article_title : Json → Result (Option Text)
  unfolding at_key str_value replace_char
  article_title article = at_key (codes "article") article >>> λ title.
      ok (some (replace_char b'_' b' ' (c.unquote (str_value c.python.repr title))))

  -- What `top_pages` makes of the answer.
  unfoldable pub top_articles : Json → Result (List Text)
  unfolding get_or truthy at_zero elements collect article_title
  top_articles received = get_or (codes "items") no_pages received >>> λ found.
      (if truthy found then at_zero found >>> get_or (codes "articles") no_pages else ok no_pages)
      >>> elements
      >>> collect article_title

  unfoldable pub is_not_found : Sent → Bool
  is_not_found (answered response) = response.status_code == 404
  is_not_found _ = false

  unfoldable pub top_pages : Text → ℕ → Exec S (Option (List Text))
  unfolding host is_not_found read_response top_articles
  top_pages wiki day = lift (host c.resolver wiki) >>= λ h s.
      let (sent, s') =
        c.client.get
          (codes "https://wikimedia.org/api/rest_v1/metrics/pageviews/top/"
            ++ h
            ++ codes "/all-access/"
            ++ c.day_path day)
          no_members s in
      (
        if is_not_found sent
            then ok none
            else read_response (codes "Pageviews indisponible : ") sent
              >>> top_articles
              >>> λ titles. ok (some titles),
        s',
      )
