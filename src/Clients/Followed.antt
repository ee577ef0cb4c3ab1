-- ===== src/Clients/Followed.antt =====
-- The loops over continuations, in terms of what the Action API answers to the requests that are
-- sent: the documented parameters with those of the last `continue` block.
use wikifame.Base.{
  ℕ, ◌≡◌, refl, sym, ap, ◌∙◌, subst, true, Option, none, some, List, [], ◌∷◌, ◌++◌, arith, length,
  Text, codes,
}
use wikifame.Base.Int.{pos}
use wikifame.Errors.{Result, ok}
use wikifame.Sites.{host}
use wikifame.Upstream.{CategoryMember}
use wikifame.Json.{
  Json, integer, string, array, object, Items, no_items, with_item, Members, no_members, lookup,
  update, get_or, list_items, truthy,
}
use wikifame.Clients.{decoded, Sent, answered, Http, Net, MediaWikiClient, fields, word}
use wikifame.Clients.Walks.{continuation_of, read_page}
use wikifame.Clients.Paging.{Answers}

-- A response with this dictionary.
abbrev pub given : Members → Sent
given body = answered (record { status_code = 200; raised = none; json = decoded (object body) })

-- The parameters of every request.
abbrev pub standard : Members
standard =
    fields ((codes "format", word (codes "json")) ∷ (codes "formatversion", integer (pos 2)) ∷ [])

-- The Action API gives these pages of an answer: to the parameters with those of the continuation it
-- answers a dictionary that holds the first page, without an error, and where more pages follow with
-- a `continue` block, whose parameters lead to the next one.
abbrev pub Gives :
    {S P : Type 0}
    → Http S
    → Text
    → Members
    → (P → Members → Type 0)
    → Members
    → S
    → List P
    → Type 0
Gives http url params Holds continuation s [] = Unit
Gives http url params Holds continuation s (p ∷ []) =
    (body : Members) × (http.get url (update standard (update params continuation)) s).0
      ≡ given body
    × (lookup (codes "error") body ≡ none)
    × Holds p body
    × (lookup (codes "continue") body ≡ none)
Gives http url params Holds continuation s (p ∷ q ∷ ps) =
    (body : Members) × (following : Members) × (http.get url
        (update standard (update params continuation)) s).0
      ≡ given body
    × (lookup (codes "error") body ≡ none)
    × Holds p body
    × (lookup (codes "continue") body ≡ some (object following))
    × (truthy (object following) ≡ true)
    × Gives http url params Holds following
        (http.get url (update standard (update params continuation)) s).1 (q ∷ ps)

-- The values of a list are those that `Is` describes.
abbrev pub Lists : {P : Type 0} → (P → Json → Type 0) → List P → Items → Type 0
Lists Is [] no_items = Unit
Lists Is (p ∷ ps) (with_item value rest) = Is p value × Lists Is ps rest
Lists Is [] (with_item value rest) = ⊥
Lists Is (p ∷ ps) no_items = ⊥

-- `query.pages[0]` has this list.
abbrev pub HoldsPage : Text → Items → Members → Type 0
HoldsPage key items body =
    (query : Members) × (page : Members) × (others : Items) × (lookup (codes "query") body
      ≡ some (object query))
    × (lookup (codes "pages") query ≡ some (array (with_item (object page) others)))
    × (lookup key page ≡ some (array items))

abbrev pub IsMember : CategoryMember → Json → Type 0
IsMember m value =
    (ms : Members) × (value ≡ object ms)
    × (lookup (codes "pageid") ms ≡ some (integer (pos m.page_id)))
    × (lookup (codes "title") ms ≡ some (string m.title))

abbrev pub HoldsMembers : List CategoryMember → Members → Type 0
HoldsMembers members body =
    (query : Members) × (items : Items) × (lookup (codes "query") body ≡ some (object query))
    × (lookup (codes "categorymembers") query ≡ some (array items))
    × Lists IsMember members items

abbrev pub IsRevision : ℕ → Json → Type 0
IsRevision id value =
    (ms : Members) × (value ≡ object ms) × (lookup (codes "userid") ms ≡ some (integer (pos id)))

abbrev pub HoldsRevisions : Option (List ℕ) → Members → Type 0
HoldsRevisions none body = ⊥
HoldsRevisions (some ids) body =
    (items : Items) × HoldsPage (codes "revisions") items body × Lists IsRevision ids items

abbrev pub HoldsContributors : ℕ → Members → Type 0
HoldsContributors n body =
    (items : Items) × HoldsPage (codes "contributors") items body × (length (list_items items) ≡ n)

-- The documented requests.
abbrev pub category_request : Text → Members
category_request category = fields (
    (codes "action", word (codes "query"))
    ∷ (codes "list", word (codes "categorymembers"))
    ∷ (codes "cmtitle", word category)
    ∷ (codes "cmnamespace", integer (pos 0))
    ∷ (codes "cmlimit", word (codes "max"))
    ∷ (codes "cmprop", word (codes "ids|title"))
    ∷ [])

abbrev pub history_request : ℕ → Members
history_request page_id = fields (
    (codes "action", word (codes "query"))
    ∷ (codes "pageids", integer (pos page_id))
    ∷ (codes "prop", word (codes "revisions"))
    ∷ (codes "rvprop", word (codes "ids|user|userid"))
    ∷ (codes "rvlimit", word (codes "max"))
    ∷ [])

abbrev pub robots_request : ℕ → Members
robots_request page_id = fields (
    (codes "action", word (codes "query"))
    ∷ (codes "pageids", integer (pos page_id))
    ∷ (codes "prop", word (codes "contributors"))
    ∷ (codes "pcrights", word (codes "bot"))
    ∷ (codes "pclimit", word (codes "max"))
    ∷ [])

abbrev pub api_url : Text → Text
api_url h = codes "https://" ++ h ++ codes "/w/api.php"

continuation-end :
    (body : Members)
    → lookup (codes "continue") body ≡ none
    → continuation_of (object body) ≡ ok (object no_members)
unfolding continuation_of
continuation-end body end = rw (continuation_of, get_or, end) refl

continuation-more :
    (body following : Members)
    → lookup (codes "continue") body ≡ some (object following)
    → continuation_of (object body) ≡ ok (object following)
unfolding continuation_of
continuation-more body following more = rw (continuation_of, get_or, more) refl

module _ {S P : Type 0} (c : MediaWikiClient S) (wiki h : Text)
    (served : host c.resolver wiki ≡ ok h) (entries : Json → Result P) (params : Members)
    (Holds : P → Members → Type 0)
    (holds : (p : P) (body : Members) → Holds p body → entries (object body) ≡ ok p) where
  abbrev answer_of : Members → Net S → Sent × S
  answer_of continuation net =
      c.client.get (api_url h) (update standard (update params continuation)) net.http

  abbrev after : Members → Net S → Net S
  after continuation net = record {
    global_users = net.global_users;
    http = (answer_of continuation net).1;
  }

  read_last :
      (continuation : Members) (net : Net S) (p : P) (body : Members)
      → (answer_of continuation net).0 ≡ given body
      → lookup (codes "error") body ≡ none
      → Holds p body
      → lookup (codes "continue") body ≡ none
      → read_page c wiki entries params (object continuation) net
        ≡ (ok (p, object no_members), after continuation net)
  unfolding read_page
  read_last continuation net p body sent fine held end =
      rw (read_page, served, sent, fine, holds p body held, continuation-end body end) refl

  read_more :
      (continuation : Members) (net : Net S) (p : P) (body following : Members)
      → (answer_of continuation net).0 ≡ given body
      → lookup (codes "error") body ≡ none
      → Holds p body
      → lookup (codes "continue") body ≡ some (object following)
      → read_page c wiki entries params (object continuation) net
        ≡ (ok (p, object following), after continuation net)
  unfolding read_page
  read_more continuation net p body following sent fine held more =
      rw (read_page, served, sent, fine, holds p body held, continuation-more body following more)
        refl

  pub Gives-Answers :
      (continuation : Members) (net : Net S) (ps : List P)
      → Gives c.client (api_url h) params Holds continuation net.http ps
      → Answers (read_page c wiki entries params) (object continuation) net ps
  unfolding truthy
  Gives-Answers continuation net [] g = tt
  Gives-Answers continuation net (p ∷ []) (body, sent, fine, held, end) =
      let e = read_last continuation net p body sent fine held end in
      (object no_members, ap (λ r. r.0) e, refl, tt)
  Gives-Answers continuation net (p ∷ q ∷ ps) (body, following, sent, fine, held, more, on, rest) =
      let e = read_more continuation net p body following sent fine held more in
      (
        object following,
        ap (λ r. r.0) e,
        on ∙ ground arith,
        subst
            (λ (n : Net S). Answers (read_page c wiki entries params) (object following) n (q ∷ ps))
            (sym (ap (λ r. r.1) e))
            (Gives-Answers following (after continuation net) (q ∷ ps) rest),
      )
