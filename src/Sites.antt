-- ===== src/Sites.antt =====
-- src/wikipeople/sites.py: which wikis the service can serve, and how it reaches them.
use wikifame.Base.{
  Bool, false, not, ◌||◌, Option, none, some, List, [], ◌∷◌, ◌++◌, ◌==◌, if◌then◌else◌, is_some,
  any, Text, codes, text_eq,
}
use mathlib.Core.Option
use wikifame.Errors.{permanent_data, code, Result, ok, err}

abbrev pub wiki_suffix : Text
wiki_suffix = codes "wiki"

abbrev pub all_wikis : Text
all_wikis = codes "*"

-- The words of a text between its spaces.
abbrev pub words : Text → List Text
words [] = [] ∷ []
words (c ∷ s) = elim (words s) [
  | [] ↦ (c ∷ []) ∷ []
  | word ∷ rest ↦ if c == b' ' then [] ∷ word ∷ rest else (c ∷ word) ∷ rest
]

abbrev pub default_wikiwho_languages : List Text
default_wikiwho_languages = words (
    codes "af als ar az be bg bn bs ce cs cy da de dsb el en eo es et eu"
    ++ codes " fa fi fr gl he hi hr hu ia id it ja ka kk ko ku lt lv mk ml"
    ++ codes " mr ms mt ne nl no pl pt ro ru sh simple sk sl sq sr sv sw ta te"
    ++ codes " tg th tl tr uk ur uz vec vi zh")

-- A set of languages, as the list of its members.
pub record SiteResolver : Type 0 where
  pub languages : List Text

-- The text before a suffix: `s[: -len(suffix)] if s.endswith(suffix)`.
unfoldable pub before_suffix : Text → Text → Option Text
before_suffix suffix [] = if text_eq [] suffix then some [] else none
before_suffix suffix (c ∷ s) =
    let rest = before_suffix suffix s in
    if text_eq (c ∷ s) suffix then some [] else Option.map (λ t. c ∷ t) rest

unfoldable pub text_in : Text → List Text → Bool
unfolding any
text_in s texts = any (text_eq s) texts

unfoldable pub language : SiteResolver → Text → Option Text
unfolding before_suffix text_in
language resolver wiki = elim (before_suffix wiki_suffix wiki) [
  | none ↦ none
  | some code ↦ if text_in code resolver.languages then some code else none
]

unfoldable pub is_capable : SiteResolver → Text → Bool
unfolding language
is_capable resolver wiki = is_some (language resolver wiki)

unfoldable pub is_enabled : SiteResolver → Text → List Text → Bool
unfolding is_capable text_in
is_enabled resolver wiki supported_wikis =
    if not (is_capable resolver wiki)
    then false
    else text_in all_wikis supported_wikis || text_in wiki supported_wikis

unfoldable pub require_language : SiteResolver → Text → Result Text
unfolding language
require_language resolver wiki = elim (language resolver wiki) [
  | none ↦ err (permanent_data (codes "WikiWho ne prend pas en charge " ++ wiki))
  | some code ↦ ok code
]

unfoldable pub host : SiteResolver → Text → Result Text
unfolding require_language
host resolver wiki = elim (require_language resolver wiki) [
  | ok code ↦ ok (code ++ codes ".wikipedia.org")
  | err failure ↦ err failure
]
