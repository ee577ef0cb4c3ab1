-- ===== src/Tests/People.antt =====
-- The policy and the attribution at concrete inputs.
use wikifame.Base.{
  ◌*◌, ◌≤◌, ◌≡◌, refl, ◌↔◌, true, false, none, some, List, [], ◌∷◌, arith, ltb, ◌==◌, if◌then◌else◌,
  All, Counter, count_of, total, Text, codes, text_eq,
}
use wikifame.Base.Int.{pos}
use wikifame.Errors.{ok}
use wikifame.Policy.Standing.{
  AccountStanding, lasts_at_most, is_sanction_lock, is_courtesy_block, is_nameable_account,
}
use wikifame.Policy.Standing.Excluded.{Excluded, is_nameable_account_iff}
use wikifame.Attribution.{Token, Shares, Users, count_tokens, is_insignificant, select_contributors}
use wikifame.Attribution.Tally.{tokens_of, count_tokens-tokens_of}
use wikifame.Attribution.Ranking.{FallingAmounts, IsAuthor, select_contributors-IsRanked}
use wikifame.Models.{seconds}
use wikifame.Policy.Standing.{
  AccountStanding, lasts_at_most, is_sanction_lock, is_courtesy_block, is_nameable_account,
}
use wikifame.Policy.{is_registered_editor, should_highlight_contributor, search}
use wikifame.Attribution.{Token, Shares, Users, count_tokens, is_insignificant, select_contributors}
use wikifame.Tests.Data.{alice, ascii}

abbrev blocked : AccountStanding
blocked = record {
  user_id = 5;
  username = codes "Alice";
  blocked_at = some (seconds 100);
  block_expires_at = some (seconds 160);
  block_partial = false;
  block_reason = some (codes "spam");
  globally_locked = false;
  lock_reason = none;
}

is_nameable_account_iff_example :
    (is_nameable_account ascii (some blocked) (pos 30) (seconds 120) ≡ false)
    ↔ Excluded ascii blocked (pos 30) (seconds 120)
is_nameable_account_iff_example = is_nameable_account_iff ascii blocked (pos 30) (seconds 120)

short : is_nameable_account ascii (some blocked) (pos 90) (seconds 120) ≡ true
unfolding is_nameable_account is_sanction_lock is_courtesy_block search lasts_at_most
short = refl

abbrev tokens : List Token
tokens =
    record { str = some (codes "mot"); editor = some (codes "5") }
    ∷ record { str = some (codes "."); editor = some (codes "5") }
    ∷ record { str = some (codes "an"); editor = some (codes "6") }
    ∷ []

count_tokens-tokens_of_example :
    (count_of text_eq (codes "5") (count_tokens ascii tokens).0
      ≡ tokens_of ascii (λ e. text_eq e (codes "5")) tokens)
    × ((count_tokens ascii tokens).1 ≡ tokens_of ascii (λ e. true) tokens)
    × (total (count_tokens ascii tokens).0 ≡ (count_tokens ascii tokens).1)
count_tokens-tokens_of_example = count_tokens-tokens_of ascii tokens (codes "5")

abbrev shares : Shares
shares = record { below_minimum = λ n t. ltb (n * 100) t; rounded = λ n t. n * 200 }

abbrev users : Users
users id =
    if id == 5
    then some (record { user_id = 5; username = codes "Alice"; groups = []; missing = false })
    else none

abbrev counts : Counter Text
counts = (codes "5", 30) ∷ (codes "0|::1", 20) ∷ []

selected :
    (select_contributors {S = Unit} ascii shares users none 3 counts 50 20 tt).0 ≡ ok (alice ∷ [])
unfolding select_contributors is_registered_editor is_insignificant should_highlight_contributor
    text_eq
selected = refl

select_contributors-IsRanked_example :
    (1 ≤ 3)
    × FallingAmounts (alice ∷ [])
    × All (IsAuthor ascii shares users counts 50 20) (alice ∷ [])
select_contributors-IsRanked_example =
    select_contributors-IsRanked {S = Unit} ascii shares users none 3 counts 50 20 tt (alice ∷ [])
      (omega arith) selected
