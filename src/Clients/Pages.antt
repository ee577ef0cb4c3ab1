-- ===== src/Clients/Pages.antt =====
-- src/wikipeople/clients.py: the answers about one page, and the lists of pages.
use wikifame.Base.Int.{ℤ, pos, negsuc}
use wikifame.Base.{
  ℕ, Bool, false, not, ◌||◌, Option, none, some, [], ◌∷◌, ◌++◌, if◌then◌else◌, Text, codes, decimal,
}
use wikifame.Sites.{host}
use wikifame.Errors.{
  Failure, retryable_upstream, permanent_data, Result, ok, err, Exec, lift, ◌>>=◌, ◌>>>◌,
}
use wikifame.Upstream.{PageMetadata, EditorCount}
use wikifame.Json.{
  Json, null, boolean, integer, string, array, object, no_items, Members, no_members, get_or,
  at_key, at_zero, truthy, int_value, negative_number, natural, str_value,
}
use wikifame.Clients.{
  Net, Python, MediaWikiClient, fields, word, query_member, read_response, action,
}
use wikifame.Texts.{replace_char}

abbrev pub page_missing : Text → ℕ → Failure
page_missing wiki page_id =
    permanent_data (codes "Page inexistante : " ++ wiki ++ b'/' ∷ decimal page_id)

abbrev pub page_without_revision : Text → ℕ → Failure
page_without_revision wiki page_id =
    permanent_data (codes "Page sans révision : " ++ wiki ++ b'/' ∷ decimal page_id)

abbrev pub no_pages : Json
no_pages = array no_items

-- `quote(title.replace(" ", "_"), safe="")` in the address of the count.
abbrev pub editors_url : Python → Text → Text → Text
editors_url python host title =
    codes "https://"
    ++ host
    ++ codes "/w/rest.php/v1/page/"
    ++ python.quote (replace_char b' ' b'_' title)
    ++ codes "/history/counts/editors"

-- `isinstance(value, int)`, with the value; `True` and `False` are integers too.
unfoldable pub as_integer : Json → Option ℤ
as_integer (integer n) = some n
as_integer (boolean b) = some (pos (if b then 1 else 0))
as_integer _ = none

unfoldable pub editor_count_of : Json → Result EditorCount
unfolding get_or truthy as_integer
editor_count_of received = get_or (codes "count") null received >>> λ count.
    elim (as_integer count) [
      | some (pos n) ↦ get_or (codes "limit") null received >>> λ limit.
          ok (record { count = n; limited = truthy limit })
      | some (negsuc n) ↦ err negative_number
      | none ↦ err (retryable_upstream (codes "Réponse de comptage REST invalide"))
    ]

module _ {S : Type 0} (c : MediaWikiClient S) where
  abbrev pub text_of : Json → Text
  text_of value = str_value c.python.repr value

  -- The record of a page, whose first revision is at hand.
  unfoldable pub metadata_of : Json → Json → Bool → Result PageMetadata
  unfolding at_key at_zero natural int_value str_value
  metadata_of page revisions is_redirect =
      at_key (codes "pageid") page >>> natural c.python.unicode >>> λ page_id.
      at_zero revisions >>> at_key (codes "revid") >>> natural c.python.unicode >>> λ revision_id.
      at_key (codes "title") page >>> λ title.
      at_key (codes "ns") page >>> int_value c.python.unicode >>> λ namespace. ok (record {
        page_id = page_id;
        revision_id = revision_id;
        title = text_of title;
        namespace = namespace;
        is_redirect = is_redirect;
      })

  -- What `get_page` makes of the answer.
  unfoldable pub page_of : Text → ℕ → Json → Result PageMetadata
  unfolding query_member truthy at_zero get_or metadata_of
  page_of wiki page_id received = query_member (codes "pages") no_pages received >>> λ pages.
      if not (truthy pages)
      then err (page_missing wiki page_id)
      else at_zero pages >>> λ page. get_or (codes "missing") null page >>> λ missing.
          if truthy missing
          then err (page_missing wiki page_id)
          else get_or (codes "revisions") no_pages page >>> λ revisions.
              if not (truthy revisions)
              then err (page_without_revision wiki page_id)
              else get_or (codes "redirect") null page >>> λ redirect.
                  metadata_of page revisions (truthy redirect)

  abbrev pub page_params : ℕ → Members
  page_params page_id = fields (
      (codes "action", word (codes "query"))
      ∷ (codes "pageids", integer (pos page_id))
      ∷ (codes "prop", word (codes "revisions|info"))
      ∷ (codes "rvprop", word (codes "ids"))
      ∷ [])

  unfoldable pub get_page : Text → ℕ → Exec (Net S) PageMetadata
  unfolding action page_of
  get_page wiki page_id =
      action c wiki (page_params page_id) false >>= λ received. lift (page_of wiki page_id received)

  unfoldable pub get_editor_count : Text → Text → Exec (Net S) EditorCount
  unfolding host read_response editor_count_of
  get_editor_count wiki title = lift (host c.resolver wiki) >>= λ h net.
      let (sent, http) = c.client.get (editors_url c.python h title) no_members net.http in
      (
        read_response (codes "Comptage REST indisponible : ") sent >>> editor_count_of,
        record { global_users = net.global_users; http = http },
      )

  -- The text of a revision of the page, where there is one.
  unfoldable pub content_of : Json → Result (Option Text)
  unfolding at_zero get_or
  content_of revisions =
      at_zero revisions
      >>> get_or (codes "slots") (object no_members)
      >>> get_or (codes "main") (object no_members)
      >>> get_or (codes "content") (string [])
      >>> λ content. ok (some (text_of content))

  -- What `get_wikitext` makes of the answer.
  unfoldable pub wikitext_of : Json → Result (Option Text)
  unfolding query_member truthy at_zero get_or content_of
  wikitext_of received = query_member (codes "pages") no_pages received >>> λ pages.
      if not (truthy pages)
      then ok none
      else at_zero pages >>> λ page. get_or (codes "missing") null page >>> λ missing.
          get_or (codes "invalid") null page >>> λ invalid.
          if truthy missing || truthy invalid
          then ok none
          else get_or (codes "revisions") no_pages page >>> λ revisions.
              if not (truthy revisions) then ok none else content_of revisions

  unfoldable pub get_wikitext : Text → Text → Exec (Net S) (Option Text)
  unfolding action wikitext_of
  get_wikitext wiki title =
      action c wiki
        (fields (
          (codes "action", word (codes "query"))
          ∷ (codes "titles", word title)
          ∷ (codes "prop", word (codes "revisions"))
          ∷ (codes "rvprop", word (codes "content"))
          ∷ (codes "rvslots", word (codes "main"))
          ∷ (codes "rvlimit", integer (pos 1))
          ∷ []))
        false
      >>= λ received. lift (wikitext_of received)
