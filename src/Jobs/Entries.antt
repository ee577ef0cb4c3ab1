-- ===== src/Jobs/Entries.antt =====
-- The entries that the opt-out job collects.
use wikifame.Texts.{int_text}
use wikifame.Base.{
  ℕ, ◌≡◌, refl, subst, inl, inr, Bool, true, not, ◌||◌, some, List, [], ◌∷◌, ◌++◌, arith, ◌==◌,
  Bool-cases, Option-cases, any, Member, Text, codes,
}
use wikifame.Repository.OptOut.{OptOutEntry}
use wikifame.Jobs.OptOut.{
  put, set_default, noted, Collected, page_entry, category_entry, collect_pages, add_members,
  truncation, OptOutJob, collect_category, collect_categories, classify, collect_entries,
}
use wikifame.Errors.{Result, ok, Exec, >>=-eq-ok}
use wikifame.Upstream.{TitleInfo, CategoryMember, is_namespace}
use wikifame.Replica.{last}

abbrev pub covers : ℕ → List OptOutEntry → Bool
covers page_id entries = any (λ e. e.page_id == page_id) entries

put-covers :
    (entry : OptOutEntry) (entries : List OptOutEntry) (id : ℕ)
    → covers id (put entry entries) ≡ (entry.page_id == id || covers id entries)
unfolding put any
put-covers entry [] id = refl
put-covers entry (e ∷ entries) id = ground (arith, put-covers entry entries id)

set_default-covers :
    (entry : OptOutEntry) (entries : List OptOutEntry) (id : ℕ)
    → covers id (set_default entry entries) ≡ (entry.page_id == id || covers id entries)
unfolding set_default any
set_default-covers entry [] id = refl
set_default-covers entry (e ∷ entries) id = ground (arith, set_default-covers entry entries id)

-- What was covered stays covered.
add_members-covers :
    (category : Text) (members : List CategoryMember) (entries : List OptOutEntry) (id : ℕ)
    → covers id entries ≡ true
    → covers id (add_members category members entries) ≡ true
unfolding add_members
add_members-covers category [] entries id h = h
add_members-covers category (m ∷ members) entries id h =
    add_members-covers category members (set_default (category_entry category m) entries) id
      (ground (arith, h, set_default-covers (category_entry category m) entries id))

collect_pages-keeps :
    (infos : List TitleInfo) (found : Collected) (id : ℕ)
    → covers id found.0 ≡ true
    → covers id (collect_pages infos found).0 ≡ true
unfolding collect_pages
collect_pages-keeps [] found id h = h
collect_pages-keeps (info ∷ infos) (entries, skipped) id h =
    elim (Bool-cases (is_namespace 0 info.namespace)) [
      | inr other ↦ rw (collect_pages, other) (collect_pages-keeps infos (entries, skipped) id h)
      | inl article ↦ elim (Option-cases info.page_id) [
        | inl missing ↦ rw (collect_pages, article, missing) (collect_pages-keeps infos _ id h)
        | inr (page_id, there) ↦
            rw (collect_pages, article, there)
              (collect_pages-keeps infos (put (page_entry page_id info.title) entries, skipped) id
                (ground (arith, h, put-covers (page_entry page_id info.title) entries id)))
      ]
    ]

collect_pages-covers :
    (infos : List TitleInfo) (found : Collected) (info : TitleInfo) (id : ℕ)
    → Member info infos
    → is_namespace 0 info.namespace ≡ true
    → info.page_id ≡ some id
    → covers id (collect_pages infos found).0 ≡ true
unfolding collect_pages
collect_pages-covers [] found info id m article there = absurd m
collect_pages-covers (i ∷ infos) (entries, skipped) info id (inl same) article there =
    let article' : is_namespace 0 i.namespace ≡ true = rw same at article in
    let there' : i.page_id ≡ some id = rw same at there in
    rw (collect_pages, article', there')
      (collect_pages-keeps infos (put (page_entry id i.title) entries, skipped) id
        (ground (arith, put-covers (page_entry id i.title) entries id)))
collect_pages-covers (i ∷ infos) (entries, skipped) info id (inr m) article there =
    collect_pages-covers infos _ info id m article there

module _ {S : Type 0} (job : OptOutJob S) (wiki : Text) where
  -- What every run of the second loop keeps.
  abbrev Keeps : ℕ → Exec S Collected → Type 0
  Keeps id m = (s : S) (found : Collected) → (m s).0 ≡ ok found → covers id found.0 ≡ true

  collect_category-Keeps :
      (info : TitleInfo) (found : Collected) (id : ℕ)
      → covers id found.0 ≡ true
      → Keeps id (collect_category job wiki info found)
  unfolding collect_category
  collect_category-Keeps info (entries, skipped) id h s found e =
      elim (Bool-cases (is_namespace 0 info.namespace)) [
        | inl article ↦
            let same : ◌≡◌ {A = Result Collected} (ok (entries, skipped)) (ok found) =
              rw (collect_category, article) at e in
            let same' : (entries, skipped) ≡ found = ground arith in
            subst (λ (c : Collected). covers id c.0 ≡ true) same' h
        | inr other ↦ elim (Bool-cases (not (is_namespace 14 info.namespace))) [
          | inl ignored ↦
              let same = rw (collect_category, other, ignored) at e in
              let same' : (
                entries,
                noted
                    (info.title
                      ++ codes " (espace de noms "
                      ++ int_text info.namespace
                      ++ codes ", ignoré)")
                    skipped,
              )
                  ≡ found =
                ground arith in
              subst (λ (c : Collected). covers id c.0 ≡ true) same' h
          | inr category ↦
              let ((members, truncated), m, e') =
                >>=-eq-ok
                  (job.mediawiki.category_members wiki info.title
                    job.settings.optout_category_limit)
                  _ s (rw (collect_category, other, category) at e) in
              let same' : (
                add_members info.title members entries,
                truncation job.settings.optout_category_limit info truncated skipped,
              )
                  ≡ found =
                ground arith in
              subst (λ (c : Collected). covers id c.0 ≡ true) same'
                (add_members-covers info.title members entries id h)
        ]
      ]

  collect_categories-Keeps :
      (infos : List TitleInfo) (found : Collected) (id : ℕ)
      → covers id found.0 ≡ true
      → Keeps id (collect_categories job wiki infos found)
  unfolding collect_categories
  collect_categories-Keeps [] found id h s last e =
      let same : found ≡ last = ground arith in
      subst (λ (c : Collected). covers id c.0 ≡ true) same h
  collect_categories-Keeps (info ∷ infos) found id h s last e =
      let (found', m, e') =
        >>=-eq-ok (collect_category job wiki info found)
          (λ found'. collect_categories job wiki infos found') s e in
      collect_categories-Keeps infos found' id (collect_category-Keeps info found id h s found' m)
        (collect_category job wiki info found s).1 last e'

  -- If the entries are collected, every existing article that MediaWiki finds among the titles of
  -- the list is one of them, whatever the categories add and wherever they are cut.
  pub collect_entries-covers :
      (targets : List Text) (s : S) (infos : List TitleInfo) (found : Collected)
      → (classify job wiki targets s).0 ≡ ok infos
      → (collect_entries job wiki targets s).0 ≡ ok found
      → (info : TitleInfo) (id : ℕ) → Member info infos
      → is_namespace 0 info.namespace ≡ true
      → info.page_id ≡ some id
      → covers id found.0 ≡ true
  unfolding collect_entries
  collect_entries-covers targets s infos found c e info id m article there =
      let (infos', c', e') =
        >>=-eq-ok (classify job wiki targets)
          (λ infos. collect_categories job wiki infos (collect_pages infos ([], []))) s e in
      let same : infos ≡ infos' = ground arith in
      collect_categories-Keeps infos' (collect_pages infos' ([], [])) id
        (collect_pages-covers infos' ([], []) info id (subst (Member info) same m) article there)
        (classify job wiki targets s).1 found e'
