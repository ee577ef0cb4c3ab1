-- ===== src/Jobs/OptOut.antt =====
-- src/wikipeople/optout.py: reading the list of a wiki, and bringing the table in line with it.
use mathlib.Core.Option
use wikifame.Base.{
  ℕ, zero, suc, ◌+◌, ◌-◌, Bool, true, false, not, ◌&&◌, ◌||◌, Option, none, some, List, [], ◌∷◌,
  ◌++◌, ◌==◌, if◌then◌else◌, length, Text, codes, text_eq, decimal,
}
use wikifame.Repository.OptOut.{OptOutEntry, replace_optout}
use wikifame.Upstream.{TitleInfo, CategoryMember, MediaWiki, World, ask, query, is_namespace}
use wikifame.Config.{Settings}
use wikifame.Errors.{Exec, pure, ◌>>=◌}
use wikifame.Sites.{SiteResolver, text_in}
use wikifame.Jobs.{resolve_target_wikis, sync_each, counted}
use wikifame.Texts.{drop_space, strip, drop_char, replace_char, split_lines, index_of, int_text}
use wikifame.Policy.{Unicode, starts_with}
use wikifame.Models.{Clock}

abbrev pub drop_first : ℕ → Text → Text
drop_first zero s = s
drop_first (suc n) [] = []
drop_first (suc n) (c ∷ s) = drop_first n s

-- The length of the comment `<!--.*?-->` at the head of `s`.
unfoldable pub comment_length : Text → Option ℕ
unfolding starts_with index_of
comment_length s =
    if starts_with (codes "<!--") s
    then Option.map (λ n. 4 + n + 3) (index_of (codes "-->") (drop_first 4 s))
    else none

-- `_COMMENT.sub("", s)`, with so many characters of a comment still to leave out.
unfoldable pub without_comments : ℕ → Text → Text
unfolding comment_length
without_comments skip [] = []
without_comments zero (c ∷ s) = elim (comment_length (c ∷ s)) [
  | none ↦ c ∷ without_comments 0 s
  | some n ↦ without_comments (n - 1) s
]
without_comments (suc skip) (c ∷ s) = without_comments skip s

-- `[^\]|#\n]`
unfoldable pub is_target_char : ℕ → Bool
is_target_char c = not (c == b']' || c == b'|' || c == b'#' || c == 10)

unfoldable pub target_chars : Text → Text
unfolding is_target_char
target_chars [] = []
target_chars (c ∷ s) = let rest = target_chars s in if is_target_char c then c ∷ rest else []

module _ (u : Unicode) where
  -- `\s*\[\[\s*(…)` behind the bullets.
  abbrev pub link_target : Text → Option Text
  link_target s =
      let s' = drop_space u s in
      if starts_with (codes "[[") s'
      then some (target_chars (drop_space u (drop_first 2 s')))
      else none

  -- `_BULLET_LINK.match(line)`, its group.
  unfoldable pub bullet_link : Text → Option Text
  unfolding starts_with drop_space drop_char target_chars
  bullet_link line =
      let s = drop_space u line in
      if starts_with (codes "*") s then link_target (drop_char b'*' s) else none

  unfoldable pub title_of : Text → Text
  unfolding strip drop_char replace_char
  title_of target = replace_char b'_' b' ' (strip u (drop_char b':' (strip u target)))

  -- The target of a line, if it is one.
  unfoldable pub target_of : Text → Option Text
  unfolding bullet_link title_of
  target_of line = Option.map title_of (bullet_link line)

  -- `if target and target not in seen`
  abbrev pub is_new_target : List Text → Text → Bool
  is_new_target seen target = not (text_eq target []) && not (text_in target seen)

  unfoldable pub targets_of : List Text → List Text → List Text
  unfolding target_of text_in
  targets_of seen [] = []
  targets_of seen (line ∷ lines) = elim (target_of line) [
    | none ↦ targets_of seen lines
    | some target ↦ elim (is_new_target seen target) [
      | true ↦ target ∷ targets_of (target ∷ seen) lines
      | false ↦ targets_of seen lines
    ]
  ]

  unfoldable pub parse_optout_page : Text → List Text
  unfolding without_comments targets_of split_lines
  parse_optout_page wikitext = targets_of [] (split_lines (without_comments 0 wikitext))

-- `entries[page_id] = entry`: a key that is new goes to the end.
unfoldable pub put : OptOutEntry → List OptOutEntry → List OptOutEntry
put entry [] = entry ∷ []
put entry (e ∷ entries) =
    let rest = put entry entries in if e.page_id == entry.page_id then entry ∷ entries else e ∷ rest

-- `entries.setdefault(page_id, entry)`
unfoldable pub set_default : OptOutEntry → List OptOutEntry → List OptOutEntry
set_default entry [] = entry ∷ []
set_default entry (e ∷ entries) =
    let rest = set_default entry entries in
    if e.page_id == entry.page_id then e ∷ entries else e ∷ rest

abbrev pub noted : Text → List Text → List Text
noted text skipped = skipped ++ text ∷ []

-- The entries and the notes on what was left out.
abbrev pub Collected : Type 0
Collected = List OptOutEntry × List Text

abbrev pub page_entry : ℕ → Text → OptOutEntry
page_entry page_id title = record { page_id = page_id; title = title; source = codes "page" }

abbrev pub category_entry : Text → CategoryMember → OptOutEntry
category_entry category member = record {
  page_id = member.page_id;
  title = member.title;
  source = codes "category:" ++ category;
}

-- The first loop of `collect_entries`.
unfoldable pub collect_pages : List TitleInfo → Collected → Collected
unfolding put is_namespace
collect_pages [] found = found
collect_pages (info ∷ infos) (entries, skipped) = collect_pages infos (
    if is_namespace 0 info.namespace
    then elim info.page_id [
      | none ↦ (entries, noted (info.title ++ codes " (page inexistante)") skipped)
      | some page_id ↦ (put (page_entry page_id info.title) entries, skipped)
    ]
    else (entries, skipped))

unfoldable pub add_members : Text → List CategoryMember → List OptOutEntry → List OptOutEntry
unfolding set_default
add_members category [] entries = entries
add_members category (m ∷ members) entries =
    add_members category members (set_default (category_entry category m) entries)

abbrev pub truncation : ℕ → TitleInfo → Bool → List Text → List Text
truncation limit info false skipped = skipped
truncation limit info true skipped =
    noted (info.title ++ codes " (plus de " ++ decimal limit ++ codes " articles, liste tronquée)")
      skipped

-- What a run of the job is built from.
pub record OptOutJob (S : Type 0) : Type 0 where
  pub settings : Settings
  pub unicode : Unicode
  pub mediawiki : MediaWiki S

module _ {S : Type 0} (job : OptOutJob S) (wiki : Text) where
  -- The second loop, for one title.
  unfoldable pub collect_category : TitleInfo → Collected → Exec S Collected
  unfolding add_members is_namespace
  collect_category info (entries, skipped) =
      let limit = job.settings.optout_category_limit in
      if is_namespace 0 info.namespace
      then pure (entries, skipped)
      else if not (is_namespace 14 info.namespace)
      then pure (
        entries,
        noted
            (info.title
              ++ codes " (espace de noms "
              ++ int_text info.namespace
              ++ codes ", ignoré)")
            skipped,
      )
      else job.mediawiki.category_members wiki info.title limit >>= λ (members, truncated).
          pure (add_members info.title members entries, truncation limit info truncated skipped)

  unfoldable pub collect_categories : List TitleInfo → Collected → Exec S Collected
  unfolding collect_category
  collect_categories [] found = pure found
  collect_categories (info ∷ infos) found =
      collect_category info found >>= λ found'. collect_categories infos found'

  abbrev pub classify : List Text → Exec S (List TitleInfo)
  classify [] = pure []
  classify (target ∷ targets) = job.mediawiki.classify_titles wiki (target ∷ targets)

  unfoldable pub collect_entries : List Text → Exec S Collected
  unfolding collect_pages collect_categories
  collect_entries targets =
      classify targets >>= λ infos. collect_categories infos (collect_pages infos ([], []))

  -- A wiki without the page has nobody opted out.
  abbrev pub listed : Option Text → Text
  listed none = []
  listed (some wikitext) = wikitext

  unfoldable pub read_entries : Exec S Collected
  unfolding parse_optout_page collect_entries
  read_entries = job.mediawiki.get_wikitext wiki job.settings.optout_page >>= λ wikitext.
      collect_entries (parse_optout_page job.unicode (listed wikitext))

  -- How many articles are covered, and how many rows were added and removed.
  abbrev pub write_entries : Clock → Bool → Collected → Exec (World S) (ℕ × ℕ × ℕ)
  write_entries clock true (entries, skipped) = pure (length entries, 0, 0)
  write_entries clock false (entries, skipped) =
      query (counted (replace_optout clock wiki entries)) >>= λ (added, removed).
      pure (length entries, added, removed)

  unfoldable pub sync_wiki : Clock → Bool → Exec (World S) (ℕ × ℕ × ℕ)
  unfolding read_entries replace_optout
  sync_wiki clock dry_run = ask read_entries >>= write_entries clock dry_run

module _ {S : Type 0} (job : OptOutJob S) (clocks : Text → Clock) (dry_run : Bool) where
  abbrev pub covered_by : Text → Exec (World S) ℕ
  covered_by wiki = sync_wiki job wiki (clocks wiki) dry_run >>= λ n. pure n.0

  unfoldable pub sync_optouts : SiteResolver → Option Text → Exec (World S) ℕ
  unfolding sync_each sync_wiki resolve_target_wikis
  sync_optouts resolver explicit w =
      sync_each covered_by (resolve_target_wikis resolver w.db explicit) w
