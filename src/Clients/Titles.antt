-- ===== src/Clients/Titles.antt =====
-- src/wikipeople/clients.py: what MediaWiki knows of lists of titles, and the walk over all articles.
use wikifame.Base.{
  ℕ, true, false, not, ◌||◌, Option, none, some, List, [], ◌∷◌, ◌++◌, if◌then◌else◌, Text, codes,
}
use wikifame.Clients.Pages.{no_pages, text_of, metadata_of}
use wikifame.Errors.{Result, ok, err, Exec, pure, lift, ◌>>=◌, ◌>>>◌}
use wikifame.Json.{
  Json, null, integer, string, object, Members, no_members, set_member, type_error, get_or, at_key,
  elements, truthy, int_value, natural, str_value,
}
use wikifame.Clients.{pos, Net, MediaWikiClient, fields, word, query_member, action}
use wikifame.Batches.{batched}
use wikifame.Upstream.{PageMetadata, TitleInfo}
use wikifame.Texts.{join}

-- One turn of a loop over the entries of an answer: what it appends, if anything.
unfoldable pub collect : {B : Type 0} → (Json → Result (Option B)) → List Json → Result (List B)
collect entry [] = ok []
collect entry (value ∷ values) =
    let rest = collect entry values in
    entry value >>> λ found. rest >>> λ more. elim found [ none ↦ ok more | some b ↦ ok (b ∷ more) ]

-- The entries of the pages of an answer.
unfoldable pub pages_in : {B : Type 0} → (Json → Result (Option B)) → Json → Result (List B)
unfolding query_member elements collect
pages_in entry received =
    query_member (codes "pages") no_pages received >>> elements >>> collect entry

-- One request for each batch of titles, and what the answers hold in their order.
unfoldable pub each_batch :
    {S B : Type 0} → (List Text → Exec (Net S) (List B)) → List (List Text) → Exec (Net S) (List B)
each_batch ask_batch [] = pure []
each_batch ask_batch (titles ∷ batches) =
    ask_batch titles >>= λ found. each_batch ask_batch batches >>= λ more. pure (found ++ more)

module _ {S : Type 0} (c : MediaWikiClient S) where
  -- The body of the loop of `resolve_titles`.
  unfoldable pub resolved_page : Json → Result (Option PageMetadata)
  unfolding get_or truthy metadata_of
  resolved_page page = get_or (codes "revisions") no_pages page >>> λ revisions.
      get_or (codes "missing") null page >>> λ missing.
      if truthy missing || not (truthy revisions)
      then ok none
      else metadata_of c page revisions false >>> λ found. ok (some found)

  -- The body of the loop of `all_pages_batch`.
  unfoldable pub listed_page : Json → Result (Option PageMetadata)
  unfolding get_or truthy metadata_of
  listed_page page = get_or (codes "revisions") no_pages page >>> λ revisions.
      if not (truthy revisions)
      then ok none
      else metadata_of c page revisions false >>> λ found. ok (some found)

  -- `None if page.get("missing") else int(page["pageid"])`
  unfoldable pub page_id_of : Json → Result (Option ℕ)
  unfolding get_or truthy at_key natural
  page_id_of page = get_or (codes "missing") null page >>> λ missing.
      if truthy missing
      then ok none
      else at_key (codes "pageid") page >>> natural c.python.unicode >>> λ id. ok (some id)

  -- The body of the loop of `classify_titles`.
  unfoldable pub classified : Json → Result (Option TitleInfo)
  unfolding get_or truthy int_value page_id_of str_value
  classified page = get_or (codes "invalid") null page >>> λ invalid.
      if truthy invalid
      then ok none
      else get_or (codes "title") (string []) page >>> λ title.
          get_or (codes "ns") (integer (pos 0)) page >>> int_value c.python.unicode >>> λ namespace.
          page_id_of page >>> λ page_id.
          ok (some (record { title = text_of c title; namespace = namespace; page_id = page_id }))

  unfoldable pub classify_batch : Text → List Text → Exec (Net S) (List TitleInfo)
  unfolding action pages_in classified join
  classify_batch wiki titles =
      action c wiki
        (fields (
          (codes "action", word (codes "query"))
          ∷ (codes "titles", word (join (codes "|") titles))
          ∷ (codes "redirects", integer (pos 1))
          ∷ []))
        false
      >>= λ received. lift (pages_in classified received)

  unfoldable pub classify_titles : Text → List Text → Exec (Net S) (List TitleInfo)
  unfolding each_batch batched classify_batch
  classify_titles wiki titles = each_batch (classify_batch wiki) (batched 50 titles)

  unfoldable pub resolve_batch : Text → List Text → Exec (Net S) (List PageMetadata)
  unfolding action pages_in resolved_page join
  resolve_batch wiki titles =
      action c wiki
        (fields (
          (codes "action", word (codes "query"))
          ∷ (codes "titles", word (join (codes "|") titles))
          ∷ (codes "redirects", integer (pos 1))
          ∷ (codes "prop", word (codes "revisions"))
          ∷ (codes "rvprop", word (codes "ids"))
          ∷ []))
        true
      >>= λ received. lift (pages_in resolved_page received)

  unfoldable pub resolve_titles : Text → List Text → Exec (Net S) (List PageMetadata)
  unfolding each_batch batched resolve_batch
  resolve_titles wiki titles = each_batch (resolve_batch wiki) (batched 50 titles)

  -- `if cursor: params["gapcontinue"] = cursor`
  unfoldable pub all_pages_params : Option Text → Members
  unfolding set_member
  all_pages_params cursor =
      let params = fields (
        (codes "action", word (codes "query"))
        ∷ (codes "generator", word (codes "allpages"))
        ∷ (codes "gapnamespace", integer (pos 0))
        ∷ (codes "gapfilterredir", word (codes "nonredirects"))
        ∷ (codes "gaplimit", word (codes "max"))
        ∷ (codes "prop", word (codes "revisions"))
        ∷ (codes "rvprop", word (codes "ids"))
        ∷ []) in
      elim cursor [
        | none ↦ params
        | some [] ↦ params
        | some (d ∷ s) ↦ set_member (codes "gapcontinue") (word (d ∷ s)) params
      ]

  -- `data.get("continue", {}).get("gapcontinue")`, a text where MediaWiki sends one.
  unfoldable pub following_cursor : Json → Result (Option Text)
  unfolding get_or
  following_cursor received =
      get_or (codes "continue") (object no_members) received
      >>> get_or (codes "gapcontinue") null
      >>> λ cursor. elim cursor [ null ↦ ok none | string s ↦ ok (some s) | _ ↦ err type_error ]

  unfoldable pub all_pages_batch :
      Text → Option Text → Exec (Net S) (List PageMetadata × Option Text)
  unfolding action all_pages_params pages_in listed_page following_cursor
  all_pages_batch wiki cursor = action c wiki (all_pages_params cursor) false >>= λ received. lift (
      pages_in listed_page received >>> λ pages.
      following_cursor received >>> λ following. ok (pages, following))
