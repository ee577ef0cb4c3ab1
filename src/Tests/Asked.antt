-- ===== src/Tests/Asked.antt =====
-- The theorems on the clients at scripted answers.
use wikifame.Sites.{host}
use wikifame.Clients.Followed.{Gives, HoldsMembers, category_request, api_url}
use wikifame.Clients.Walked.{category_members_lem}
use wikifame.Clients.Cache.{IsBounded, global_user_info-IsBounded, global_user_info-repeats}
use wikifame.Clients.Keys.{resolve_users-IsFiled}
use wikifame.Clients.Accounts.{resolve_users}
use wikifame.Clients.CentralAuth.{global_user_info}
use wikifame.Base.{
  ℕ, ◌<◌, String, ◌≡◌, refl, true, false, none, some, List, [], ◌∷◌, arith, ◌==◌, if◌then◌else◌,
  codes, text_eq,
}
use wikifame.Base.Int.{pos}
use wikifame.Clients.Walks.{category_members}
use wikifame.Json.{
  Json, array, Items, no_items, with_item, Members, with_member, lookup, update, null, boolean,
  integer, string, object, no_members, truthy,
}
use wikifame.Tests.Scripts.{
  Script, client, net_of, listed, only, two, pair_of, one, by, last_answer, more_answer,
  category_script,
}
use wikifame.Upstream.{CategoryMember, GlobalUserInfo}
use wikifame.Errors.{ok}
use wikifame.Policy.{ResolvedUser}
use wikifame.Attribution.{Users}

abbrev member_of : ℕ → String → CategoryMember
member_of id title = record { page_id = id; title = codes title }

abbrev first_members : List CategoryMember
first_members = member_of 7 "A" ∷ member_of 8 "B" ∷ []

abbrev last_members : List CategoryMember
last_members = member_of 9 "C" ∷ member_of 10 "D" ∷ []

abbrev next_one : Members
next_one = with_member (codes "next") (integer (pos 1)) no_members

abbrev query_of : String → Json → Members
query_of key value = with_member (codes key) value no_members

abbrev last_body : String → Json → Members
last_body key value = with_member (codes "query") (object (query_of key value)) no_members

abbrev more_body : String → Json → Members
more_body key value =
    with_member (codes "query") (object (query_of key value))
      (with_member (codes "continue") (object next_one) no_members)

-- A page with one list.
abbrev page_of : String → Items → Members
page_of key items = with_member (codes key) (array items) no_members

abbrev member_json : ℕ → String → Members
member_json id title =
    with_member (codes "pageid") (integer (pos id))
      (with_member (codes "title") (string (codes title)) no_members)

abbrev by_json : ℕ → Members
by_json id = with_member (codes "userid") (integer (pos id)) no_members

abbrev both : Json → Json → Items
both x y = with_item x (with_item y no_items)

category_replies :
    Gives client.client
      (api_url (codes "fr.wikipedia.org"))
      (category_request (codes "Catégorie:C"))
      HoldsMembers
      no_members
      category_script
      (first_members ∷ last_members ∷ [])
unfolding truthy text_eq update lookup
category_replies = (
  more_body "categorymembers" (pair_of (listed 7 "A") (listed 8 "B")),
  next_one,
  refl,
  refl,
  (
    query_of "categorymembers" (pair_of (listed 7 "A") (listed 8 "B")),
    both (listed 7 "A") (listed 8 "B"),
    refl,
    refl,
    ((member_json 7 "A", refl, refl, refl), ((member_json 8 "B", refl, refl, refl), tt)),
  ),
  refl,
  refl,
  (
    last_body "categorymembers" (pair_of (listed 9 "C") (listed 10 "D")),
    refl,
    refl,
    (
      query_of "categorymembers" (pair_of (listed 9 "C") (listed 10 "D")),
      both (listed 9 "C") (listed 10 "D"),
      refl,
      refl,
      ((member_json 9 "C", refl, refl, refl), ((member_json 10 "D", refl, refl, refl), tt)),
    ),
    refl,
  ),
)

here : host client.resolver (codes "frwiki") ≡ ok (codes "fr.wikipedia.org")
unfolding host text_eq
here = refl

category_members_lem_example :
    (category_members client (codes "frwiki") (codes "Catégorie:C") 3 (net_of category_script)).0
    ≡ ok (member_of 7 "A" ∷ member_of 8 "B" ∷ member_of 9 "C" ∷ [], true)
category_members_lem_example =
    category_members_lem client (codes "frwiki") (codes "fr.wikipedia.org") here
      (codes "Catégorie:C") 3 (net_of category_script) first_members (last_members ∷ [])
      (omega arith) (omega arith) (omega arith, tt) category_replies

abbrev history_script : Script
history_script =
    more_answer "pages" (one (only "revisions" (pair_of (by 5) (by 5))))
    ∷ last_answer "pages" (one (only "revisions" (pair_of (by 5) (by 0))))
    ∷ []

abbrev bot_script : Script
bot_script =
    more_answer "pages" (one (only "contributors" (pair_of null null)))
    ∷ last_answer "pages" (one (only "contributors" (one null)))
    ∷ []

-- CentralAuth knows an account that is locked.
abbrev locked_script : Script
locked_script = last_answer "globaluserinfo" (only "locked" (boolean true)) ∷ []

abbrev locked_info : GlobalUserInfo
locked_info = record { groups = []; locked = true }

locked_answer :
    (global_user_info client (codes "frwiki") (codes "Alice") (net_of locked_script)).0
    ≡ ok locked_info
unfolding global_user_info truthy text_eq
locked_answer = refl

global_user_info-repeats_example :
    let net = (global_user_info client (codes "frwiki") (codes "Alice") (net_of locked_script)).1 in
    global_user_info client (codes "enwiki") (codes "Alice") net ≡ (ok locked_info, net)
global_user_info-repeats_example =
    global_user_info-repeats client (codes "frwiki") (codes "Alice") (net_of locked_script)
      locked_answer (codes "enwiki")

global_user_info-IsBounded_example :
    IsBounded (global_user_info client (codes "frwiki") (codes "Alice") (net_of locked_script)).1
global_user_info-IsBounded_example =
    global_user_info-IsBounded client (codes "frwiki") (codes "Alice") (net_of locked_script)
      (omega arith)

abbrev users_script : Script
users_script =
    last_answer "users" (one (two "userid" (integer (pos 5)) "name" (string (codes "Alice")))) ∷ []

abbrev alice_user : ResolvedUser
alice_user = record { user_id = 5; username = codes "Alice"; groups = []; missing = false }

abbrev resolved : Users
resolved id = if id == 5 then some alice_user else none

resolved_answer :
    (resolve_users client (codes "frwiki") (5 ∷ []) (net_of users_script)).0 ≡ ok resolved
unfolding resolve_users truthy text_eq
resolved_answer = refl

resolve_users-IsFiled_example : (0 < 5) × (alice_user.user_id ≡ 5)
resolve_users-IsFiled_example =
    resolve_users-IsFiled client (codes "frwiki") (5 ∷ []) (net_of users_script) resolved_answer 5
      alice_user refl
