-- ===== src/Clients/Walked.antt =====
-- What the loops over continuations return, in terms of what the Action API holds.
use wikifame.Base.{ℕ, ◌<◌, ◌≡◌, refl, some, List, [], ◌∷◌, ltb, length, take, All, Text, codes}
use wikifame.Batches.{concat}
use wikifame.Errors.{ok}
use wikifame.Sites.{host}
use wikifame.Upstream.{CategoryMember}
use wikifame.Json.{
  Json, array, object, Items, no_items, with_item, Members, no_members, lookup, get_or, at_key,
  elements, list_items, int_value, natural, str_value,
}
use wikifame.Clients.{Net, MediaWikiClient, query_member}
use wikifame.Clients.Pages.{no_pages}
use wikifame.Clients.Titles.{collect}
use wikifame.Clients.Walks.{category_member, members_in, member_page, category_members}
use wikifame.Clients.Categories.{Filled, category_pages_lem}
use wikifame.Clients.Followed.{
  Gives, Lists, IsMember, HoldsMembers, category_request, api_url, Gives-Answers,
}

-- What `data.get("query", {}).get(key, default)` finds.
query_member-found :
    (key : Text) (default value : Json) (body query : Members)
    → lookup (codes "query") body ≡ some (object query)
    → lookup key query ≡ some value
    → query_member key default (object body) ≡ ok value
unfolding query_member
query_member-found key default value body query q v = rw (query_member, get_or, q, v) refl

at_key-found :
    (key : Text) (value : Json) (ms : Members)
    → lookup key ms ≡ some value
    → at_key key (object ms) ≡ ok value
unfolding at_key
at_key-found key value ms v = rw (at_key, v) refl

module _ {S : Type 0} (c : MediaWikiClient S) (wiki : Text) where
  collect-members :
      (members : List CategoryMember) (items : Items)
      → Lists IsMember members items
      → collect (category_member c wiki) (list_items items) ≡ ok members
  unfolding collect category_member natural int_value str_value
  collect-members [] no_items l = refl
  collect-members [] (with_item value rest) l = absurd l
  collect-members (m ∷ members) no_items l = absurd l
  collect-members (m ∷ members) (with_item value rest) ((ms, same, id, title), l) =
      let found = at_key-found (codes "pageid") _ ms id in
      let called = at_key-found (codes "title") _ ms title in
      let more = collect-members members rest l in
      rw (collect, same, category_member, found, called, more) refl

  members-held :
      (members : List CategoryMember) (body : Members)
      → HoldsMembers members body
      → members_in c wiki (object body) ≡ ok members
  unfolding members_in elements
  members-held members body (query, items, q, v, l) =
      let found =
        query_member-found (codes "categorymembers") no_pages (array items) body query q v in
      rw (members_in, found, elements) (collect-members members items l)

module _ {S : Type 0} (c : MediaWikiClient S) (wiki h : Text)
    (served : host c.resolver wiki ≡ ok h) where
  -- If the Action API of the wiki gives the members of a category in some pages, of which only the
  -- first may be empty, to the documented requests with the parameters of the last `continue` block,
  -- and the loop may make more requests than the limit, which is positive, then it ends and answers
  -- the first members up to the limit, and says that the list is cut short exactly if there are
  -- more.
  pub category_members_lem :
      (category : Text) (limit : ℕ) (net : Net S) (p : List CategoryMember)
      (ps : List (List CategoryMember))
      → 0 < limit
      → limit < c.max_rounds
      → All Filled ps
      → Gives c.client
          (api_url h)
          (category_request category)
          HoldsMembers
          no_members
          net.http
          (p ∷ ps)
      → (category_members c wiki category limit net).0
        ≡ ok (take limit (concat (p ∷ ps)), ltb limit (length (concat (p ∷ ps))))
  unfolding member_page
  category_members_lem category limit net p ps positive rounds filled gives =
      category_pages_lem c wiki category limit net p ps positive rounds filled (
        Gives-Answers c wiki h served (members_in c wiki) (category_request category) HoldsMembers
          (members-held c wiki) no_members net (p ∷ ps) gives)
