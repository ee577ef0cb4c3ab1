-- ===== src/Api/Standings.antt =====
-- That an account has the same standing whichever accounts are read with it.
use wikifame.Base.{
  ℕ, ◌≡◌, refl, sym, ap, ◌∙◌, inl, inr, Bool, true, false, Option, none, some, List, [], ◌∷◌, map,
  arith, ◌==◌, if◌then◌else◌, ==_iff, Bool-cases, Option-cases, any, filter, Text,
}
use wikifame.Models.{ContributorStanding, Database}
use wikifame.Policy.Standing.{AccountStanding}
use wikifame.Repository.Standing.{account_of, standing_for, standing_of}

-- Rows of other accounts do not matter to the entry of one.
pass_over :
    (id : ℕ) (b : Bool) (row : ContributorStanding) (rows : List ContributorStanding)
    → row.user_id == id ≡ false
    → standing_of (map account_of (if b then row ∷ rows else rows)) id
      ≡ standing_of (map account_of rows) id
unfolding standing_of
pass_over id false row rows other = refl
pass_over id true row rows other = elim (Option-cases (standing_of (map account_of rows) id)) [
  | inl n ↦ rw (n, other) refl
  | inr (found, s) ↦ rw s refl
]

-- Two selections of the accounts to read that agree on one give it the same entry.
standing_of-filter :
    (id : ℕ) (p q : ContributorStanding → Bool) (rows : List ContributorStanding)
    → ((row : ContributorStanding) → row.user_id == id ≡ true → p row ≡ q row)
    → standing_of (map account_of (filter p rows)) id
      ≡ standing_of (map account_of (filter q rows)) id
unfolding filter standing_of
standing_of-filter id p q [] same = refl
standing_of-filter id p q (row ∷ rows) same =
    let rest = standing_of-filter id p q rows same in
    elim (Bool-cases (row.user_id == id)) [
      | inr other ↦
          pass_over id (p row) row (filter p rows) other
          ∙ rest
          ∙ sym (pass_over id (q row) row (filter q rows) other)
      | inl own ↦ elim (Bool-cases (q row)) [
        | inr out ↦ rw (same row own, out) rest
        | inl kept ↦
            rw (same row own, kept)
              (ap
                (λ (o : Option AccountStanding). elim o as (λ _. Option AccountStanding) [
                  | some found ↦ some found
                  | none ↦ if row.user_id == id then some (account_of row) else none
                ])
                rest)
      ]
    ]

-- The account's own row decides, whichever accounts are read with it.
pub own_standing :
    (db : Database) (wiki : Text) (user_ids : List ℕ) (id : ℕ)
    → any (λ i. id == i) user_ids ≡ true
    → standing_of (standing_for db wiki user_ids) id
      ≡ standing_of (standing_for db wiki (id ∷ [])) id
unfolding standing_for any
own_standing db wiki user_ids id asked =
    standing_of-filter id _ _ db.contributor_standing (λ row own.
      let eq : row.user_id ≡ id = (==_iff row.user_id id).0 own in rw (eq, asked) (ground arith))
