-- ===== src/Worker/Names.antt =====
-- Naming the contributors of one job: at most three of them.
use wikifame.Base.{
  ℕ, ◌≤◌, ◌≡◌, ap, subst, ◌⊎◌, inl, inr, not, some, List, [], ◌∷◌, map, arith, if◌then◌else◌,
  Bool-cases, length, take, Counter, total, most_common, Text,
}
use wikifame.Attribution.{
  Token, count_tokens, candidate_user_ids, select_top_editors, select_contributors,
}
use wikifame.Worker.{
  metric_edits, Worker, global_groups, name_authors, name_counted, attribute_tokens, rank_history,
  attribute_edits, attribute_further, attribute,
}
use wikifame.Policy.{whole}
use wikifame.Upstream.{recover, catch_permanent}
use wikifame.Attribution.Editors.{select_top_editors-IsRanked}
use wikifame.Errors.{is_permanent_data_error, Result, ok, err, Exec, pure, lift, ◌>>=◌, >>=-eq-ok}
use wikifame.Models.{Contributor}
use wikifame.Repository.Queue.{WorkLease}
use wikifame.Attribution.Ranking.{select_contributors-IsRanked}

module _ {S A : Type 0} where
  catch_permanent-ok :
      (instead a : A) (m : Exec S A) (s : S)
      → (catch_permanent instead m s).0 ≡ ok a
      → ((m s).0 ≡ ok a) ⊎ (a ≡ instead)
  catch_permanent-ok instead a m s e = go (m s) e
    where
      go : (r : Result A × S) → (recover instead r).0 ≡ ok a → (r.0 ≡ ok a) ⊎ (a ≡ instead)
      go (ok b, s') e = inl e
      go (err x, s') e = elim (Bool-cases (is_permanent_data_error x)) [
        | inl caught ↦ inr (ground arith)
        | inr raised ↦ absurd (ground arith)
      ]

module _ {S : Type 0} (worker : Worker S) (lease : WorkLease) where
  name_authors-short :
      (counts : Counter Text) (total : ℕ) (s : S) (l : List Contributor)
      → (name_authors worker lease counts total s).0 ≡ ok l
      → length l ≤ 3
  unfolding name_authors
  name_authors-short counts total s l e =
      let (ids, i, e') =
        >>=-eq-ok
          (lift (candidate_user_ids worker.unicode counts worker.settings.candidate_pool_size))
          (λ ids. worker.mediawiki.resolve_users lease.wiki ids >>= λ users.
            select_contributors worker.unicode worker.shares users
              (some (global_groups worker lease.wiki)) 3 counts total
              worker.settings.minimum_tokens)
          s e in
      let (users, r, e'') =
        >>=-eq-ok (worker.mediawiki.resolve_users lease.wiki ids)
          (λ users.
            select_contributors worker.unicode worker.shares users
              (some (global_groups worker lease.wiki)) 3 counts total
              worker.settings.minimum_tokens)
          s e' in
      (select_contributors-IsRanked worker.unicode worker.shares users
        (some (global_groups worker lease.wiki)) 3 counts total worker.settings.minimum_tokens
        (worker.mediawiki.resolve_users lease.wiki ids s).1 l (omega arith) e'').0

  name_counted-short :
      (counts : Counter Text) (amount : ℕ) (s : S) (l : List Contributor) (tokens : ℕ)
      → (name_counted worker lease (counts, amount) s).0 ≡ ok (l, tokens)
      → length l ≤ 3
  name_counted-short counts amount s l tokens e =
      let naming = name_authors worker lease counts amount in
      let (found, f, e') =
        >>=-eq-ok (catch_permanent [] naming) (λ contributors. pure (contributors, amount)) s e in
      let same : found ≡ l = ground arith in
      subst (λ l. length l ≤ 3) same
        (elim (catch_permanent-ok [] found naming s f) [
          | inr nothing ↦ rw nothing (omega arith)
          | inl returned ↦ name_authors-short counts amount s found returned
        ])

  attribute_tokens-short :
      (s : S) (l : List Contributor) (tokens : ℕ)
      → (attribute_tokens worker lease s).0 ≡ ok (l, tokens)
      → length l ≤ 3
  unfolding attribute_tokens
  attribute_tokens-short s l amount e =
      let fetched = worker.wikiwho.fetch_revision lease.wiki lease.revision_id in
      let named : List Token → Exec S (List Contributor × ℕ) =
        λ tokens. name_counted worker lease (count_tokens worker.unicode tokens) in
      elim (catch_permanent-ok ([], 0) (l, amount) (fetched >>= named) s e) [
        | inr nothing ↦ rw (ap (λ (r : List Contributor × ℕ). r.0) nothing) (omega arith)
        | inl returned ↦
            let (tokens, t, e') = >>=-eq-ok fetched named s returned in
            let (counts, counted) = count_tokens worker.unicode tokens in
            name_counted-short counts counted (fetched s).1 l amount e'
      ]

  attribute_edits-short :
      (s : S) (l : List Contributor) → (attribute_edits worker lease s).0 ≡ ok l → length l ≤ 3
  unfolding attribute_edits
  attribute_edits-short s l e =
      let asked =
        worker.mediawiki.get_editor_history lease.wiki lease.page_id
          worker.settings.top_editor_max_revisions in
      let (history, h, e') =
        >>=-eq-ok asked
          (λ history. if not history.complete then pure [] else rank_history worker lease history) s
          e in
      elim (Bool-cases (not history.complete)) [
        | inl cut ↦
            let empty : [] ≡ l = ground arith in subst (λ l. length l ≤ 3) empty (omega arith)
        | inr whole ↦
            let ids =
              map (λ e. e.0)
                (take worker.settings.candidate_pool_size (most_common history.counts)) in
            let (users, r, e'') =
              >>=-eq-ok (worker.mediawiki.resolve_users lease.wiki ids)
                (λ users.
                  select_top_editors worker.unicode worker.shares users
                    (some (global_groups worker lease.wiki)) 3 history.counts history.revisions)
                (asked s).1 (rw whole at e') in
            (select_top_editors-IsRanked worker.unicode worker.shares users
              (some (global_groups worker lease.wiki)) 3 history.counts history.revisions
              (worker.mediawiki.resolve_users lease.wiki ids (asked s).1).1 l (omega arith) e'').0
      ]

  attribute_further-short :
      (given : List Contributor) (amount : ℕ) (s : S) (l : List Contributor) (tokens : ℕ)
      (metric : Text)
      → length given ≤ 3
      → (attribute_further worker lease (given, amount) s).0 ≡ ok (l, tokens, metric)
      → length l ≤ 3
  attribute_further-short [] amount s l tokens metric short e =
      let (editors, r, e') =
        >>=-eq-ok (attribute_edits worker lease) (λ editors. pure (editors, amount, metric_edits)) s
          e in
      let same : editors ≡ l = ground arith in
      subst (λ l. length l ≤ 3) same (attribute_edits-short s editors r)
  attribute_further-short (c ∷ more) amount s l tokens metric short e =
      let same : c ∷ more ≡ l = ground arith in subst (λ l. length l ≤ 3) same short

  -- However the names were found, there are at most three.
  pub attribute-short :
      (s : S) (l : List Contributor) (tokens : ℕ) (metric : Text)
      → (attribute worker lease s).0 ≡ ok (l, tokens, metric)
      → length l ≤ 3
  unfolding attribute
  attribute-short s l tokens metric e =
      let ((given, amount), g, e') =
        >>=-eq-ok (attribute_tokens worker lease) (attribute_further worker lease) s e in
      attribute_further-short given amount (attribute_tokens worker lease s).1 l tokens metric
        (attribute_tokens-short s given amount g) e'
