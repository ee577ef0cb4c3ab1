-- ===== src/Policy.antt =====
-- src/wikipeople/policy.py: who may be named. The character tables of Python's `str` methods come
-- as a parameter; the patterns are the alternatives of the source, with their options written out.
mod Words
pub mod Standing
unfoldable pub use Words.*
use wikifame.Policy.Words.{
  Unicode, is_digits, int_of, starts_with, ends_with_ignore_case, contains_ignore_case,
}
use wikifame.Base.{
  ℕ, Bool, true, false, not, ◌||◌, Option, none, some, List, ltb, if◌then◌else◌, any, Text, codes,
}
use wikifame.Errors.{unexpected, Result, ok, err, Exec, pure, ◌>>=◌}

pub record ResolvedUser : Type 0 where
  pub user_id : ℕ
  pub username : Text
  pub groups : List Text
  pub missing : Bool

abbrev pub GlobalGroupLookup : Type 0 → Type 0
GlobalGroupLookup S = Text → Exec S (List Text)

unfoldable pub is_countable_token : Unicode → Text → Bool
unfolding any
is_countable_token u value = any u.is_alnum value

-- `editor.isdigit() and int(editor) > 0`. Some digits, such as superscripts, are refused by `int`.
unfoldable pub is_registered_editor : Unicode → Text → Result Bool
unfolding int_of is_digits
is_registered_editor u editor =
    if is_digits u editor
    then elim (int_of u editor) [
      | none ↦ err (unexpected (codes "invalid literal for int()"))
      | some n ↦ ok (ltb 0 n)
    ]
    else ok false

-- `BOT_NAME_PATTERN.search(username)`; `$` also matches before a last line feed.
unfoldable pub has_bot_name : Text → Bool
unfolding ends_with_ignore_case
has_bot_name username =
    ends_with_ignore_case (codes "bot") username || ends_with_ignore_case (codes "bot\n") username

unfoldable pub is_bot_group : Text → Bool
unfolding contains_ignore_case
is_bot_group group = contains_ignore_case (codes "bot") group

-- The rules that need no request.
unfoldable pub is_excluded_locally : ResolvedUser → Bool
unfolding starts_with any is_bot_group has_bot_name
is_excluded_locally user =
    user.missing
    || starts_with (codes "~") user.username
    || any is_bot_group user.groups
    || has_bot_name user.username

unfoldable pub should_highlight_contributor :
    {S : Type 0} → ResolvedUser → Option (GlobalGroupLookup S) → Exec S Bool
unfolding is_excluded_locally
should_highlight_contributor user global_groups s =
    if is_excluded_locally user then (ok false, s) else elim global_groups [
      | none ↦ (ok true, s)
      | some lookup ↦ (lookup user.username >>= λ groups. pure (not (any is_bot_group groups))) s
    ]
