-- ===== src/Clients/Accounts.antt =====
-- src/wikipeople/clients.py: the answers about accounts of a wiki.
use wikifame.Base.Int.{ℤ, pos, negsuc}
use mathlib.Core.Option
use wikifame.Base.{
  ℕ, zero, suc, ◌+◌, ◌-◌, Bool, false, ◌||◌, Option, none, some, List, [], ◌∷◌, map, ◌==◌,
  if◌then◌else◌, Text, codes, decimal,
}
use wikifame.Texts.{strip, join}
use wikifame.Clients.{Net, Moment, Python, MediaWikiClient, fields, word, query_member, action}
use wikifame.Errors.{Result, ok, err, Exec, pure, lift, ◌>>=◌, ◌>>>◌}
use wikifame.Sites.{text_in}
use wikifame.Clients.Pages.{no_pages, text_of}
use wikifame.Json.{
  Json, null, integer, string, array, object, Members, type_error, get_or, elements, truthy,
  int_value, str_value,
}
use wikifame.Batches.{batched}
use wikifame.Upstream.{Standings}
use wikifame.Policy.{ResolvedUser, ascii_lower}
use wikifame.Attribution.{Users}
use wikifame.Models.{Time}
use wikifame.Policy.Standing.{AccountStanding}

-- `expiry.lower() in INDEFINITE_EXPIRIES`; the words are ASCII letters that no other character
-- becomes in lower case.
unfoldable pub is_indefinite : Text → Bool
unfolding text_in
is_indefinite expiry =
    text_in (map ascii_lower expiry)
      (codes "infinite" ∷ codes "infinity" ∷ codes "indefinite" ∷ codes "never" ∷ [])

-- `parsed.astimezone(UTC).replace(tzinfo=None)`, or the text's own clock without a zone.
unfoldable pub to_utc : Moment → Time
to_utc moment = elim moment.offset [
  | none ↦ moment.local
  | some (pos ahead) ↦ moment.local - ahead
  | some (negsuc behind) ↦ moment.local + (behind + 1)
]

unfoldable pub parse_timestamp : Python → Json → Option Time
unfolding to_utc
parse_timestamp python (string (c ∷ s)) = Option.map to_utc (python.fromisoformat (c ∷ s))
parse_timestamp python _ = none

-- `value or ""`
unfoldable pub or_empty : Json → Json
unfolding truthy
or_empty value = if truthy value then value else string []

-- `text or None`
unfoldable pub some_text : Text → Option Text
some_text [] = none
some_text (c ∷ s) = some (c ∷ s)

-- The names in a list of groups; other values can be in the set too, but are no name.
unfoldable pub group_names : List Json → Result (List Text)
group_names [] = ok []
group_names (value ∷ values) =
    let rest = group_names values in
    elim value [
      | string s ↦ rest >>> λ names. ok (s ∷ names)
      | array xs ↦ err type_error
      | object ms ↦ err type_error
      | _ ↦ rest
    ]

-- `if user_id <= 0: continue`
unfoldable pub positive_id : ℤ → Option ℕ
positive_id (pos zero) = none
positive_id (pos (suc n)) = some (suc n)
positive_id (negsuc n) = none

module _ {S : Type 0} (c : MediaWikiClient S) where
  -- `int(item.get("userid", 0))`, where it is positive.
  unfoldable pub user_id_of : Json → Result (Option ℕ)
  unfolding get_or int_value positive_id
  user_id_of item =
      get_or (codes "userid") (integer (pos 0)) item >>> int_value c.python.unicode >>> λ id.
      ok (positive_id id)

  unfoldable pub username_of : ℕ → Json → Result Text
  unfolding get_or str_value
  username_of id item =
      get_or (codes "name") (integer (pos id)) item >>> λ name. ok (text_of c name)

  unfoldable pub resolved_user : ℕ → Json → Result ResolvedUser
  unfolding username_of get_or elements group_names truthy
  resolved_user id item = username_of id item >>> λ username.
      get_or (codes "groups") no_pages item >>> elements >>> group_names >>> λ groups.
      get_or (codes "missing") null item >>> λ missing.
      get_or (codes "invalid") null item >>> λ invalid. ok (record {
        user_id = id;
        username = username;
        groups = groups;
        missing = truthy missing || truthy invalid;
      })

  unfoldable pub account_standing_of : ℕ → Json → Result AccountStanding
  unfolding username_of get_or or_empty is_indefinite parse_timestamp truthy strip some_text
      str_value
  account_standing_of id item = username_of id item >>> λ username.
      get_or (codes "blockexpiry") null item >>> λ blockexpiry.
      get_or (codes "blockedtimestamp") null item >>> λ blockedtimestamp.
      get_or (codes "blockpartial") null item >>> λ blockpartial.
      get_or (codes "blockreason") null item >>> λ blockreason.
      let expiry = text_of c (or_empty blockexpiry) in
      ok (record {
        user_id = id;
        username = username;
        blocked_at = parse_timestamp c.python blockedtimestamp;
        block_expires_at =
            if is_indefinite expiry then none else parse_timestamp c.python (string expiry);
        block_partial = truthy blockpartial;
        block_reason = some_text (strip c.python.unicode (text_of c (or_empty blockreason)));
        globally_locked = false;
        lock_reason = none;
      })

  -- The loop over the accounts of an answer: `found[user_id] = …`.
  unfoldable pub add_accounts :
      {B : Type 0} → (ℕ → Json → Result B) → List Json → (ℕ → Option B) → Result (ℕ → Option B)
  unfolding user_id_of
  add_accounts account [] found = ok found
  add_accounts account (item ∷ items) found = user_id_of item >>> λ user_id. elim user_id [
    | none ↦ add_accounts account items found
    | some id ↦ account id item >>> λ b.
        add_accounts account items (λ other. if other == id then some b else found other)
  ]

  abbrev pub users_params : Text → List ℕ → Members
  users_params usprop ids = fields (
      (codes "action", word (codes "query"))
      ∷ (codes "list", word (codes "users"))
      ∷ (codes "ususerids", word (join (codes "|") (map decimal ids)))
      ∷ (codes "usprop", word usprop)
      ∷ [])

  -- The request for a batch of accounts, whose answer is added to what was found before.
  unfoldable pub account_batch :
      {B : Type 0}
      → Text
      → Text
      → (ℕ → Json → Result B)
      → List ℕ
      → (ℕ → Option B)
      → Exec (Net S) (ℕ → Option B)
  unfolding action join query_member elements add_accounts
  account_batch wiki usprop account ids found =
      action c wiki (users_params usprop ids) false >>= λ received. lift (
        query_member (codes "users") no_pages received >>> elements >>> λ items.
        add_accounts account items found)

  unfoldable pub account_batches :
      {B : Type 0}
      → Text
      → Text
      → (ℕ → Json → Result B)
      → List (List ℕ)
      → (ℕ → Option B)
      → Exec (Net S) (ℕ → Option B)
  unfolding account_batch
  account_batches wiki usprop account [] found = pure found
  account_batches wiki usprop account (ids ∷ batches) found =
      account_batch wiki usprop account ids found >>= λ found'.
      account_batches wiki usprop account batches found'

  unfoldable pub resolve_users : Text → List ℕ → Exec (Net S) Users
  unfolding account_batches resolved_user batched
  resolve_users wiki user_ids =
      account_batches wiki (codes "groups") resolved_user (batched 50 user_ids) (λ id. none)

  unfoldable pub fetch_standing : Text → List ℕ → Exec (Net S) Standings
  unfolding account_batches account_standing_of batched
  fetch_standing wiki user_ids =
      account_batches wiki (codes "blockinfo") account_standing_of (batched 50 user_ids)
        (λ id. none)
