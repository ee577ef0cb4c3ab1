-- ===== src/Clients/Keys.antt =====
-- That the answers about accounts are filed under the accounts that they are about.
use wikifame.Base.Int.{ℤ, pos, negsuc}
use wikifame.Base.{
  ℕ, zero, suc, ◌<◌, ◌≡◌, sym, ap, ◌∙◌, subst, inl, inr, false, Option, none, some, List, [], ◌∷◌,
  arith, ◌==◌, if◌then◌else◌, Bool-cases, Option-cases, Text, codes,
}
use wikifame.Json.{Json, integer, get_or, elements, int_value}
use wikifame.Errors.{Result, ok, lift, ◌>>>◌, ok-injective, >>>-eq-ok, >>=-eq-ok}
use wikifame.Clients.Accounts.{
  positive_id, user_id_of, resolved_user, account_standing_of, add_accounts, users_params,
  account_batch, account_batches, resolve_users, fetch_standing,
}
use wikifame.Clients.{Net, MediaWikiClient, query_member, action}
use wikifame.Api.Handlers.{positive}
use wikifame.Attribution.{Users, named}
use wikifame.Policy.{ResolvedUser}
use wikifame.Clients.Pages.{no_pages}
use wikifame.Policy.Standing.{AccountStanding}
use wikifame.Batches.{batched}
use wikifame.Upstream.{Standings}

positive_id-positive : (n : ℤ) {id : ℕ} → positive_id n ≡ some id → 0 < id
unfolding positive_id
positive_id-positive (pos zero) e = cc
positive_id-positive (pos (suc n)) e = ground arith
positive_id-positive (negsuc n) e = cc

module _ {S B : Type 0} (c : MediaWikiClient S) (account : ℕ → Json → Result B) (P : ℕ → B → Type 0)
    (described : (id : ℕ) (item : Json) (b : B) → account id item ≡ ok b → P id b) where
  -- What is known of an account is about it, and its number is positive.
  abbrev pub IsFiled : (ℕ → Option B) → Type 0
  IsFiled found = (id : ℕ) (b : B) → found id ≡ some b → (0 < id) × P id b

  user_id_of-positive : (item : Json) {id : ℕ} → user_id_of c item ≡ ok (some id) → 0 < id
  unfolding user_id_of
  user_id_of-positive item {id} e =
      let (n, m, e') =
        >>>-eq-ok (get_or (codes "userid") (integer (pos 0)) item >>> int_value c.python.unicode)
          (λ n. ok (positive_id n)) e in
      positive_id-positive n (ok-injective e')

  added :
      (id : ℕ) (b : B) (found : ℕ → Option B)
      → IsFiled found
      → 0 < id
      → P id b
      → IsFiled (λ other. if other == id then some b else found other)
  added id b found h positive p other b' there = elim (Bool-cases (other == id)) [
    | inl same ↦
        let here : id ≡ other = ground arith in
        let value : b ≡ b' = ground arith in
        (rw (sym here) positive, subst (λ n. P n b') here (subst (P id) value p))
    | inr differs ↦ h other b' (rw differs at there)
  ]

  add_accounts-IsFiled :
      (items : List Json) (found final : ℕ → Option B)
      → IsFiled found
      → add_accounts c account items found ≡ ok final
      → IsFiled final
  unfolding add_accounts user_id_of
  add_accounts-IsFiled [] found final h e =
      let same : found ≡ final = ground arith in subst IsFiled same h
  add_accounts-IsFiled (item ∷ items) found final h e =
      let (user_id, u, e') =
        >>>-eq-ok (user_id_of c item)
          (λ user_id. elim user_id [
            | none ↦ add_accounts c account items found
            | some id ↦ account id item >>> λ b.
                add_accounts c account items (λ other. if other == id then some b else found other)
          ])
          e in
      elim (Option-cases user_id) [
        | inl unnamed ↦ add_accounts-IsFiled items found final h (rw unnamed at e')
        | inr (id, named) ↦
            let (b, d, e'') =
              >>>-eq-ok (account id item)
                (λ b.
                  add_accounts c account items
                    (λ other. if other == id then some b else found other))
                (rw named at e') in
            add_accounts-IsFiled items (λ other. if other == id then some b else found other) final
              (added id b found h (user_id_of-positive item (u ∙ ap ok named))
                (described id item b d))
              e''
      ]

  account_batch-IsFiled :
      (wiki usprop : Text) (ids : List ℕ) (found : ℕ → Option B) (net : Net S)
      (final : ℕ → Option B)
      → IsFiled found
      → (account_batch c wiki usprop account ids found net).0 ≡ ok final
      → IsFiled final
  unfolding account_batch
  account_batch-IsFiled wiki usprop ids found net final h e =
      let (received, a, e') =
        >>=-eq-ok (action c wiki (users_params c usprop ids) false)
          (λ received. lift (
            query_member (codes "users") no_pages received >>> elements >>> λ items.
            add_accounts c account items found))
          net e in
      let (items, i, e'') =
        >>>-eq-ok (query_member (codes "users") no_pages received >>> elements)
          (λ items. add_accounts c account items found) e' in
      add_accounts-IsFiled items found final h e''

  account_batches-IsFiled :
      (wiki usprop : Text) (batches : List (List ℕ)) (found : ℕ → Option B) (net : Net S)
      (final : ℕ → Option B)
      → IsFiled found
      → (account_batches c wiki usprop account batches found net).0 ≡ ok final
      → IsFiled final
  unfolding account_batches
  account_batches-IsFiled wiki usprop [] found net final h e = subst IsFiled (ok-injective e) h
  account_batches-IsFiled wiki usprop (ids ∷ batches) found net final h e =
      let (found', a, e') =
        >>=-eq-ok (account_batch c wiki usprop account ids found)
          (λ found'. account_batches c wiki usprop account batches found') net e in
      account_batches-IsFiled wiki usprop batches found'
        (account_batch c wiki usprop account ids found net).1 final
        (account_batch-IsFiled wiki usprop ids found net found' h a) e'

module _ {S : Type 0} (c : MediaWikiClient S) where
  resolved_user-filed :
      (id : ℕ) (item : Json) (user : ResolvedUser)
      → resolved_user c id item ≡ ok user
      → user.user_id ≡ id
  unfolding resolved_user
  resolved_user-filed id item user e = ground arith

  account_standing_of-filed :
      (id : ℕ) (item : Json) (standing : AccountStanding)
      → account_standing_of c id item ≡ ok standing
      → standing.user_id ≡ id
  unfolding account_standing_of
  account_standing_of-filed id item standing e = ground arith

  -- If accounts are resolved, whatever MediaWiki sends, each is filed under its own number, which is
  -- positive.
  pub resolve_users-IsFiled :
      (wiki : Text) (user_ids : List ℕ) (net : Net S) {users : Users}
      → (resolve_users c wiki user_ids net).0 ≡ ok users
      → (id : ℕ) (user : ResolvedUser) → users id ≡ some user
      → (0 < id) × (user.user_id ≡ id)
  unfolding resolve_users
  resolve_users-IsFiled wiki user_ids net {users} e =
      account_batches-IsFiled c (resolved_user c) (λ id user. user.user_id ≡ id)
        (resolved_user-filed) wiki (codes "groups") (batched 50 user_ids) (λ id. none) net users
        (λ id user there. cc) e

  -- The same of the blocks that are read.
  pub fetch_standing-IsFiled :
      (wiki : Text) (user_ids : List ℕ) (net : Net S) {standings : Standings}
      → (fetch_standing c wiki user_ids net).0 ≡ ok standings
      → (id : ℕ) (standing : AccountStanding) → standings id ≡ some standing
      → (0 < id) × (standing.user_id ≡ id)
  unfolding fetch_standing
  fetch_standing-IsFiled wiki user_ids net {standings} e =
      account_batches-IsFiled c (account_standing_of c) (λ id standing. standing.user_id ≡ id)
        (account_standing_of-filed) wiki (codes "blockinfo") (batched 50 user_ids) (λ id. none) net
        standings (λ id standing there. cc) e
