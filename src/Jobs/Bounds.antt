-- ===== src/Jobs/Bounds.antt =====
-- How much one run of the standing job asks, and what the list of a wiki is read as.
use wikifame.Base.{
  ℕ, ◌-◌, ◌≤◌, ◌≡◌, refl, inl, inr, false, ◌&&◌, ◌||◌, List, [], ◌∷◌, arith, Bool-cases,
  Option-cases, length, take, any, filter, All, length-append, Distinct, All-map, Text, text_eq,
  text_eq_iff, sort_by, length-take, length-map,
}
use wikifame.Models.{Time, seconds, ContributorStanding, Database}
use wikifame.Policy.{Unicode}
use wikifame.Repository.Standing.{
  standing_on, standing_records, is_lock_due, is_checked_earlier, lock_check_candidates,
  named_contributor_ids,
}
use wikifame.Jobs.OptOut.{without_comments, target_of, is_new_target, targets_of, parse_optout_page}
use wikifame.Config.{Settings}
use wikifame.Jobs.Standing.{unseen, due_ids}
use wikifame.Sites.{text_in}
use wikifame.Texts.{split_lines}

lock_check_candidates-bounded :
    (db : Database) (wiki : Text) (cutoff : Time) (limit : ℕ)
    → length (lock_check_candidates db wiki cutoff limit) ≤ limit
unfolding lock_check_candidates
lock_check_candidates-bounded db wiki cutoff limit = omega (
  arith,
  length-map (λ (row : ContributorStanding). row.user_id)
      (take limit (
        sort_by is_checked_earlier (
          filter (λ row. standing_on wiki row && is_lock_due cutoff row) db.contributor_standing))),
  length-take limit (
      sort_by is_checked_earlier
        (filter (λ row. standing_on wiki row && is_lock_due cutoff row) db.contributor_standing)),
)

-- A run asks for the locks of at most the configured number of accounts of a wiki.
pub due_ids-bounded :
    (settings : Settings) (wiki : Text) (now : Time) (db : Database)
    → length (due_ids settings wiki now db) ≤ settings.standing_lock_checks_per_run
unfolding due_ids
due_ids-bounded settings wiki now db =
    let limit = settings.standing_lock_checks_per_run in
    let cutoff = now - seconds settings.standing_lock_recheck_seconds in
    let candidates = lock_check_candidates db wiki cutoff limit in
    let others = unseen (standing_records db wiki) (named_contributor_ids db wiki) in
    omega (
      arith,
      length-append candidates (take (limit - length candidates) others),
      length-take (limit - length candidates) others,
      lock_check_candidates-bounded db wiki cutoff limit,
    )

text_in-cons :
    (v t : Text) (seen : List Text) → text_in v (t ∷ seen) ≡ (text_eq v t || text_in v seen)
unfolding text_in any
text_in-cons v t seen = refl

-- A target, and not one of those that were seen.
abbrev IsTarget : List Text → Text → Type 0
IsTarget seen t = (text_eq t [] ≡ false) × (text_in t seen ≡ false)

targets_of-targets :
    (u : Unicode) (seen : List Text) (lines : List Text)
    → All (IsTarget seen) (targets_of u seen lines)
      × Distinct (λ (t : Text). t) (targets_of u seen lines)
unfolding targets_of text_in any
targets_of-targets u seen [] = (tt, tt)
targets_of-targets u seen (line ∷ lines) = elim (Option-cases (target_of u line)) [
  | inl n ↦ rw (targets_of, n) (targets_of-targets u seen lines)
  | inr (t, s) ↦ elim (Bool-cases (is_new_target u seen t)) [
    | inr old ↦ rw (targets_of, s, old) (targets_of-targets u seen lines)
    | inl new ↦
        let (all, apart) = targets_of-targets u (t ∷ seen) lines in
        let rest = targets_of u (t ∷ seen) lines in
        rw (targets_of, s, new)
          (
            (
              (ground (arith, new), ground (arith, new)),
              All-map (IsTarget (t ∷ seen)) rest
                  (λ v (filled, fresh). (filled, ground (arith, fresh, text_in-cons v t seen))) all,
            ),
            (
              All-map (IsTarget (t ∷ seen)) rest
                  (λ v (filled, fresh) same.
                    absurd (ground (arith, fresh, text_in-cons v t seen, (text_eq_iff v t).1 same)))
                  all,
              apart,
            ),
          )
  ]
]

-- The targets that are read from a list are not empty, and no two are the same.
pub parse_optout_page-Distinct :
    (u : Unicode) (wikitext : Text)
    → All (λ t. text_eq t [] ≡ false) (parse_optout_page u wikitext)
      × Distinct (λ (t : Text). t) (parse_optout_page u wikitext)
unfolding parse_optout_page
parse_optout_page-Distinct u wikitext =
    let (all, apart) = targets_of-targets u [] (split_lines (without_comments 0 wikitext)) in
    (All-map (IsTarget []) (parse_optout_page u wikitext) (λ t (filled, fresh). filled) all, apart)
