-- ===== src/Attribution.antt =====
-- src/wikipeople/attribution.py: the tallies and the two rankings.
pub mod Tally
pub mod Ranking
pub mod Editors
use wikifame.Base.{
  ℕ, suc, ◌+◌, Bool, true, false, not, ◌||◌, Option, none, some, List, [], ◌∷◌, ltb, leb, ◌==◌,
  if◌then◌else◌, take, Counter, increment, total, most_common, Text, codes, text_eq,
}
use wikifame.Errors.{unexpected, Result, ok, err, Exec, pure, lift, ◌>>=◌}
use wikifame.Models.{Contributor}
use wikifame.Policy.{
  ResolvedUser, GlobalGroupLookup, is_countable_token, is_registered_editor,
  should_highlight_contributor, Unicode, int_of,
}

-- A token as WikiWho sends it; `none` where the JSON value is missing or is no string.
pub record Token : Type 0 where
  pub str : Option Text
  pub editor : Option Text

-- `share < minimum_share` and `round(share, 4)`, in ten-thousandths, for the quotient of two counts
-- in the platform's floating point.
pub record Shares : Type 0 where
  pub below_minimum : ℕ → ℕ → Bool
  pub rounded : ℕ → ℕ → ℕ

-- `users.get(user_id)`
abbrev pub Users : Type 0
Users = ℕ → Option ResolvedUser

module _ (u : Unicode) where
  -- The editor that a token counts for.
  unfoldable pub counted_editor : Token → Option Text
  unfolding is_countable_token
  counted_editor token = elim token.str [
    | none ↦ none
    | some value ↦ elim token.editor [
      | none ↦ none
      | some editor ↦ if is_countable_token u value then some editor else none
    ]
  ]

  abbrev pub count_loop : Counter Text × ℕ → List Token → Counter Text × ℕ
  count_loop (counts, total) [] = (counts, total)
  count_loop (counts, total) (token ∷ tokens) =
      count_loop
        (elim (counted_editor token) [
          | none ↦ (counts, total)
          | some editor ↦ (increment text_eq editor counts, total + 1)
        ])
        tokens

  unfoldable pub count_tokens : List Token → Counter Text × ℕ
  unfolding counted_editor increment
  count_tokens tokens = count_loop ([], 0) tokens

  -- The loop of the comprehension: `int(editor)` of the registered ones.
  unfoldable pub registered_ids : Counter Text → Result (List ℕ)
  unfolding is_registered_editor int_of
  registered_ids [] = ok []
  registered_ids ((editor, n) ∷ rest) =
      let ids = registered_ids rest in
      elim (is_registered_editor u editor) [
        | err e ↦ err e
        | ok false ↦ ids
        | ok true ↦ elim (int_of u editor) [
          | none ↦ err (unexpected (codes "invalid literal for int()"))
          | some id ↦ elim ids [ err e ↦ err e | ok found ↦ ok (id ∷ found) ]
        ]
      ]

  unfoldable pub candidate_user_ids : Counter Text → ℕ → Result (List ℕ)
  unfolding most_common registered_ids
  candidate_user_ids counts limit = elim (registered_ids (most_common counts)) [
    | err e ↦ err e
    | ok ids ↦ ok (take limit ids)
  ]

-- `token_count < minimum_tokens or share < minimum_share`
unfoldable pub is_insignificant : Shares → ℕ → ℕ → ℕ → Bool
is_insignificant shares minimum_tokens token_count total_tokens =
    ltb token_count minimum_tokens || shares.below_minimum token_count total_tokens

-- `users.get(int(editor))`
abbrev pub user_of : Unicode → Users → Text → Result (Option ResolvedUser)
user_of u users editor = elim (int_of u editor) [
  | none ↦ err (unexpected (codes "invalid literal for int()"))
  | some id ↦ ok (users id)
]

abbrev pub named : Shares → ResolvedUser → ℕ → ℕ → Contributor
named shares user amount total = record {
  user_id = some user.user_id;
  username = user.username;
  amount = amount;
  share = shares.rounded amount total;
}

-- `if len(editors) == limit: break`, and the entries behind.
abbrev pub extend :
    {S : Type 0} → ℕ → ℕ → Contributor → (ℕ → Exec S (List Contributor)) → Exec S (List Contributor)
extend limit taken entry more s =
    if suc taken == limit
    then (ok (entry ∷ []), s)
    else (more (suc taken) >>= λ rest. pure (entry ∷ rest)) s

module _ {S : Type 0} (shares : Shares) (global_groups : Option (GlobalGroupLookup S))
    (limit : ℕ) where
  -- Names the account if the policy allows it, with `taken` entries already in the list.
  abbrev pub consider :
      Option ResolvedUser → ℕ → ℕ → ℕ → (ℕ → Exec S (List Contributor)) → Exec S (List Contributor)
  consider none amount total taken more = more taken
  consider (some user) amount total taken more =
      should_highlight_contributor user global_groups >>= λ allowed.
      if allowed then extend limit taken (named shares user amount total) more else more taken

module _ {S : Type 0} (u : Unicode) (shares : Shares) (users : Users)
    (global_groups : Option (GlobalGroupLookup S)) (limit : ℕ) where
  -- The loop of `select_top_editors`, with `taken` entries already in the list.
  unfoldable pub rank_editors : ℕ → Counter ℕ → ℕ → Exec S (List Contributor)
  rank_editors total_revisions [] taken = pure []
  rank_editors total_revisions ((user_id, edit_count) ∷ rest) taken =
      consider shares global_groups limit (users user_id) edit_count total_revisions taken
        (rank_editors total_revisions rest)

  unfoldable pub select_top_editors : Counter ℕ → ℕ → Exec S (List Contributor)
  unfolding most_common rank_editors
  select_top_editors counts total_revisions =
      if leb total_revisions 0 then pure [] else rank_editors total_revisions (most_common counts) 0

  -- The loop of `select_contributors`.
  unfoldable pub rank_contributors : ℕ → ℕ → Counter Text → ℕ → Exec S (List Contributor)
  rank_contributors total_tokens minimum_tokens [] taken = pure []
  rank_contributors total_tokens minimum_tokens ((editor, token_count) ∷ rest) taken =
      let more = rank_contributors total_tokens minimum_tokens rest in
      lift (is_registered_editor u editor) >>= λ registered.
      if not registered || is_insignificant shares minimum_tokens token_count total_tokens
      then more taken
      else lift (user_of u users editor) >>= λ user.
          consider shares global_groups limit user token_count total_tokens taken more

  unfoldable pub select_contributors : Counter Text → ℕ → ℕ → Exec S (List Contributor)
  unfolding most_common rank_contributors
  select_contributors counts total_tokens minimum_tokens =
      if leb total_tokens 0
      then pure []
      else rank_contributors total_tokens minimum_tokens (most_common counts) 0
