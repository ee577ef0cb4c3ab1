-- ===== src/Clients/Walks.antt =====
-- src/wikipeople/clients.py: the loops that follow the continuations of MediaWiki.
use wikifame.Clients.Titles.{collect}
use wikifame.Base.Int.{pos, negsuc}
use wikifame.Base.{
  ℕ, zero, suc, ◌+◌, Bool, true, false, not, Option, none, some, List, [], ◌∷◌, ◌++◌, ltb, ◌==◌,
  if◌then◌else◌, length, take, Counter, increment, Text, codes,
}
use wikifame.Errors.{
  Failure, retryable_upstream, unexpected, Result, ok, err, Exec, pure, raise, lift, ◌>>=◌, ◌>>>◌,
}
use wikifame.Json.{
  Json, null, integer, object, Members, no_members, update, type_error, get_or, at_key, elements,
  at_zero, truthy, int_value, natural, str_value,
}
use wikifame.Repository.Queue.{complete}
use wikifame.Clients.Pages.{no_pages, text_of}
use wikifame.Clients.{Net, MediaWikiClient, fields, word, query_member, action}
use wikifame.Upstream.{CategoryMember, EditorHistory}

-- `{**params, **continuation}`; only a dictionary can be unpacked.
unfoldable pub continued : Members → Json → Result Members
unfolding update
continued params (object ms) = ok (update params ms)
continued params _ = err type_error

-- `data.get("continue", {})`
unfoldable pub continuation_of : Json → Result Json
unfolding get_or
continuation_of received = get_or (codes "continue") (object no_members) received

-- What the model raises when a loop has made `max_rounds` requests; the source goes on.
abbrev pub out_of_rounds : Failure
out_of_rounds = unexpected (codes "out of rounds")

-- `if user_id > 0: counts[user_id] += 1`, for each revision.
unfoldable pub tally : List ℕ → Counter ℕ → Counter ℕ
unfolding increment
tally [] counts = counts
tally (zero ∷ ids) counts = tally ids counts
tally (suc id ∷ ids) counts = tally ids (increment ◌==◌ (suc id) counts)

abbrev pub history_with : Counter ℕ → ℕ → Bool → EditorHistory
history_with counts revisions complete = record {
  counts = counts;
  revisions = revisions;
  complete = complete;
}

module _ {S : Type 0} (c : MediaWikiClient S) (wiki : Text) where
  -- One request of a loop: what the answer holds, and the continuation behind it.
  unfoldable pub read_page :
      {B : Type 0} → (Json → Result B) → Members → Json → Exec (Net S) (B × Json)
  unfolding continued action continuation_of
  read_page entries params continuation = lift (continued params continuation) >>= λ params'.
      action c wiki params' false >>= λ received. lift (
        entries received >>> λ found.
        continuation_of received >>> λ following. ok (found, following))

  -- `if pages: count += len(pages[0].get("contributors", []))`
  unfoldable pub contributors_in : Json → Result ℕ
  unfolding query_member truthy at_zero get_or elements
  contributors_in received = query_member (codes "pages") no_pages received >>> λ pages.
      if not (truthy pages)
      then ok 0
      else at_zero pages >>> get_or (codes "contributors") no_pages >>> elements >>> λ found.
          ok (length found)

  unfoldable pub bot_page : ℕ → Json → Exec (Net S) (ℕ × Json)
  unfolding read_page contributors_in
  bot_page page_id = read_page contributors_in (
      fields (
        (codes "action", word (codes "query"))
        ∷ (codes "pageids", integer (pos page_id))
        ∷ (codes "prop", word (codes "contributors"))
        ∷ (codes "pcrights", word (codes "bot"))
        ∷ (codes "pclimit", word (codes "max"))
        ∷ []))

  -- The loop of `get_bot_contributor_count`, with so many turns left.
  unfoldable pub count_bots : ℕ → ℕ → ℕ → Json → Exec (Net S) ℕ
  unfolding bot_page truthy
  count_bots page_id zero count continuation =
      raise (retryable_upstream (codes "Pagination des bots anormalement longue"))
  count_bots page_id (suc turns) count continuation =
      bot_page page_id continuation >>= λ (found, following).
      if truthy following
      then count_bots page_id turns (count + found) following
      else pure (count + found)

  unfoldable pub get_bot_contributor_count : ℕ → Exec (Net S) ℕ
  unfolding count_bots
  get_bot_contributor_count page_id = count_bots page_id 100 0 (object no_members)

  -- `int(revision.get("userid") or 0)`, or 0 where it is negative.
  unfoldable pub author_of : Json → Result ℕ
  unfolding get_or truthy int_value
  author_of revision = get_or (codes "userid") null revision >>> λ userid.
      int_value c.python.unicode (if truthy userid then userid else integer (pos 0)) >>> λ id.
      elim id [ pos n ↦ ok n | negsuc n ↦ ok 0 ]

  unfoldable pub authors_of : List Json → Result (List ℕ)
  unfolding author_of
  authors_of [] = ok []
  authors_of (revision ∷ revisions) =
      let rest = authors_of revisions in author_of revision >>> λ id. rest >>> λ ids. ok (id ∷ ids)

  -- The authors of the revisions of an answer, or none where it has no page.
  unfoldable pub revisions_in : Json → Result (Option (List ℕ))
  unfolding query_member truthy at_zero get_or elements authors_of
  revisions_in received = query_member (codes "pages") no_pages received >>> λ pages.
      if not (truthy pages)
      then ok none
      else at_zero pages
        >>> get_or (codes "revisions") no_pages
        >>> elements
        >>> authors_of
        >>> λ ids. ok (some ids)

  unfoldable pub history_page : ℕ → Json → Exec (Net S) (Option (List ℕ) × Json)
  unfolding read_page revisions_in
  history_page page_id = read_page revisions_in (
      fields (
        (codes "action", word (codes "query"))
        ∷ (codes "pageids", integer (pos page_id))
        ∷ (codes "prop", word (codes "revisions"))
        ∷ (codes "rvprop", word (codes "ids|user|userid"))
        ∷ (codes "rvlimit", word (codes "max"))
        ∷ []))

  -- The loop of `get_editor_history`, for at most so many rounds.
  unfoldable pub walk_history : ℕ → ℕ → ℕ → Counter ℕ → ℕ → Json → Exec (Net S) EditorHistory
  unfolding history_page tally truthy
  walk_history page_id max_revisions zero counts revisions continuation =
      if ltb revisions max_revisions
      then raise out_of_rounds
      else pure (history_with counts revisions false)
  walk_history page_id max_revisions (suc rounds) counts revisions continuation =
      if not (ltb revisions max_revisions)
      then pure (history_with counts revisions false)
      else history_page page_id continuation >>= λ (found, following). elim found [
        | none ↦ pure (history_with counts revisions false)
        | some ids ↦
            if truthy following
            then walk_history page_id max_revisions rounds (tally ids counts)
                (revisions + length ids) following
            else pure (history_with (tally ids counts) (revisions + length ids) true)
      ]

  unfoldable pub get_editor_history : ℕ → ℕ → Exec (Net S) EditorHistory
  unfolding walk_history
  get_editor_history page_id max_revisions =
      walk_history page_id max_revisions c.max_rounds [] 0 (object no_members)

  unfoldable pub category_member : Json → Result (Option CategoryMember)
  unfolding at_key natural str_value
  category_member value = at_key (codes "pageid") value >>> natural c.python.unicode >>> λ page_id.
      at_key (codes "title") value >>> λ title.
      ok (some (record { page_id = page_id; title = text_of c title }))

  unfoldable pub members_in : Json → Result (List CategoryMember)
  unfolding query_member elements collect category_member
  members_in received =
      query_member (codes "categorymembers") no_pages received
      >>> elements
      >>> collect category_member

  unfoldable pub member_page : Text → Json → Exec (Net S) (List CategoryMember × Json)
  unfolding read_page members_in
  member_page category = read_page members_in (
      fields (
        (codes "action", word (codes "query"))
        ∷ (codes "list", word (codes "categorymembers"))
        ∷ (codes "cmtitle", word category)
        ∷ (codes "cmnamespace", integer (pos 0))
        ∷ (codes "cmlimit", word (codes "max"))
        ∷ (codes "cmprop", word (codes "ids|title"))
        ∷ []))

  -- The loop of `category_members`, for at most so many rounds.
  unfoldable pub walk_category :
      Text → ℕ → ℕ → List CategoryMember → Json → Exec (Net S) (List CategoryMember × Bool)
  unfolding member_page truthy
  walk_category category limit zero members continuation =
      if ltb (length members) limit then raise out_of_rounds else pure (take limit members, true)
  walk_category category limit (suc rounds) members continuation =
      if not (ltb (length members) limit)
      then pure (take limit members, true)
      else member_page category continuation >>= λ (found, following).
          let members' = members ++ found in
          if truthy following
          then walk_category category limit rounds members' following
          else pure (take limit members', ltb limit (length members'))

  unfoldable pub category_members : Text → ℕ → Exec (Net S) (List CategoryMember × Bool)
  unfolding walk_category
  category_members category limit = walk_category category limit c.max_rounds [] (object no_members)
