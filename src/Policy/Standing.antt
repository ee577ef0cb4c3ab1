-- ===== src/Policy/Standing.antt =====
-- src/wikipeople/policy.py: what a wiki has decided about an account, and whether it may be named.
pub mod Excluded
use wikifame.Base.{
  ℕ, suc, ◌+◌, Bool, true, false, not, Option, none, some, List, [], ◌∷◌, leb, if◌then◌else◌, Text,
}
use wikifame.Base.Int.{ℤ, pos, negsuc}
use wikifame.Models.{Time, seconds}
use wikifame.Policy.Words.{Unicode, Wording, anywhere, at_start, whole, search}

pub record AccountStanding : Type 0 where
  pub user_id : ℕ
  pub username : Text
  pub blocked_at : Option Time
  pub block_expires_at : Option Time
  pub block_partial : Bool
  pub block_reason : Option Text
  pub globally_locked : Bool
  pub lock_reason : Option Text

abbrev pub block_courtesy_pattern : List Wording
block_courtesy_pattern =
    anywhere "à sa demande"
    ∷ anywhere "a sa demande"
    ∷ anywhere "à la demande d"
    ∷ anywhere "sa propre demande"
    ∷ anywhere "own request"
    ∷ anywhere "self-request"
    ∷ anywhere "selfrequest"
    ∷ anywhere "at their request"
    ∷ anywhere "at his request"
    ∷ anywhere "at her request"
    ∷ anywhere "has retired"
    ∷ anywhere "par sa demande"
    ∷ anywhere "compte compromis"
    ∷ anywhere "compromised"
    ∷ anywhere "compromis"
    ∷ anywhere "hacked"
    ∷ anywhere "piratag"
    ∷ anywhere "piraté"
    ∷ anywhere "mot de passe"
    ∷ anywhere "по просьбе"
    ∷ anywhere "по запросу"
    ∷ anywhere "по собственной просьбе"
    ∷ anywhere "по собственной запросу"
    ∷ anywhere "взлом"
    ∷ anywhere "скомпрометирован"
    ∷ anywhere "right to vanish"
    ∷ whole "rtv"
    ∷ anywhere "vanish"
    ∷ anywhere "deceas"
    ∷ anywhere "décéd"
    ∷ anywhere "decede"
    ∷ anywhere "умер"
    ∷ anywhere "скончал"
    ∷ []

abbrev pub block_courtesy_negation : List Wording
block_courtesy_negation =
    anywhere "not compromised"
    ∷ anywhere "not be compromised"
    ∷ anywhere "non compromis"
    ∷ anywhere "pas compromis"
    ∷ anywhere "no evidence of compromise"
    ∷ []

abbrev pub lock_sanction_pattern : List Wording
lock_sanction_pattern =
    anywhere "abuse"
    ∷ anywhere "abusiv"
    ∷ at_start "spam"
    ∷ whole "lta"
    ∷ anywhere "lock evasion"
    ∷ anywhere "block evasion"
    ∷ whole "banned"
    ∷ whole "ban"
    ∷ anywhere "sock"
    ∷ anywhere "vandal"
    ∷ anywhere "harass"
    ∷ anywhere "phishing"
    ∷ anywhere "troll"
    ∷ whole "ufa"
    ∷ anywhere "unauthorised bot"
    ∷ anywhere "unauthorized bot"
    ∷ []

-- `not reason`
abbrev pub is_blank : Option Text → Bool
is_blank none = true
is_blank (some []) = true
is_blank (some (c ∷ s)) = false

-- `duration.total_seconds() <= max_visible_block_seconds`, of the time from one date to another.
unfoldable pub lasts_at_most : Time → Time → ℤ → Bool
lasts_at_most from to (pos n) = leb to (from + seconds n)
lasts_at_most from to (negsuc n) = leb (to + seconds (suc n)) from

module _ (u : Unicode) where
  abbrev pub search_in : List Wording → Option Text → Bool
  search_in words none = false
  search_in words (some reason) = search u words reason

  unfoldable pub is_sanction_lock : AccountStanding → Bool
  is_sanction_lock standing =
      if not standing.globally_locked
      then false
      else if is_blank standing.lock_reason
      then false
      else search_in lock_sanction_pattern standing.lock_reason

  unfoldable pub is_courtesy_block : AccountStanding → Bool
  is_courtesy_block standing =
      if is_blank standing.block_reason
      then false
      else if search_in block_courtesy_negation standing.block_reason
      then false
      else search_in block_courtesy_pattern standing.block_reason

  unfoldable pub is_nameable_account : Option AccountStanding → ℤ → Time → Bool
  is_nameable_account none max_visible_block_seconds now = true
  is_nameable_account (some standing) max_visible_block_seconds now =
      if is_sanction_lock standing then false else elim standing.blocked_at [
        | none ↦ true
        | some blocked_at ↦
            if standing.block_partial
            then true
            else if is_courtesy_block standing
            then true
            else elim standing.block_expires_at [
              | none ↦ false
              | some expires_at ↦
                  if leb expires_at now
                  then true
                  else lasts_at_most blocked_at expires_at max_visible_block_seconds
            ]
      ]
