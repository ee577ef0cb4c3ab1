-- ===== src/Attribution/Editors.antt =====
-- What the ranking by edit count names, whatever the lookups answer.
use wikifame.Base.{
  ℕ, ◌≤◌, ◌<◌, ◌≡◌, refl, subst, inl, inr, false, Option, some, List, [], ◌∷◌, arith, leb,
  Bool-cases, length, All, Member, Counter, most_common, Falling, All-most_common, Falling-bounded,
  most_common-Falling, All-Member,
}
use wikifame.Attribution.{Shares, Users, named, rank_editors, select_top_editors}
use wikifame.Policy.{ResolvedUser, GlobalGroupLookup, is_excluded_locally, Unicode}
use wikifame.Attribution.Ranking.{
  FallingAmounts, IsRanked, IsRanked-nil, IsRanked-weaken, Ranks, consider-IsRanked,
}
use wikifame.Models.{Contributor}
use wikifame.Errors.{ok}

-- An entry of a ranking by edits: an account that edited so often, known and not excluded locally.
pub record IsEditor (shares : Shares) (users : Users) (counts : Counter ℕ) (total_revisions : ℕ)
    (c : Contributor) : Type 0 where
  pub id : ℕ
  pub user : ResolvedUser
  pub counted : Member (id, c.amount) counts
  pub known : users id ≡ some user
  pub allowed : is_excluded_locally user ≡ false
  pub same : c ≡ named shares user c.amount total_revisions

module _ {S : Type 0} (u : Unicode) (shares : Shares) (users : Users)
    (lookup : Option (GlobalGroupLookup S)) (limit : ℕ) (counts : Counter ℕ)
    (total_revisions : ℕ) where
  abbrev Editor : Contributor → Type 0
  Editor = IsEditor shares users counts total_revisions

  rank_editors-IsRanked :
      (entries : Counter ℕ)
      → All (λ e. Member e counts) entries
      → Falling entries
      → (bound : ℕ) → All (λ e. e.1 ≤ bound) entries
      → Ranks limit Editor bound (rank_editors u shares users lookup limit total_revisions entries)
  unfolding rank_editors
  rank_editors-IsRanked [] m f bound low taken room s l e =
      let nothing : [] ≡ l = ground arith in
      subst (IsRanked Editor limit taken bound) nothing
        (IsRanked-nil limit Editor taken bound (omega arith))
  rank_editors-IsRanked ((id, n) ∷ rest) (m, ms) (f, fs) bound (b, bs) taken room s l e =
      IsRanked-weaken limit Editor taken n bound l b (
        consider-IsRanked limit Editor shares lookup (users id) n total_revisions taken
          (rank_editors u shares users lookup limit total_revisions rest)
          (λ v k free. record {
            id = id;
            user = v;
            counted = m;
            known = k;
            allowed = free;
            same = refl;
          })
          room (rank_editors-IsRanked rest ms fs n f) s l e)

-- If the ranking by edits returns, with a positive limit, its names are at most that many, by
-- falling count, and each is an account that edited so often, is known and is not excluded without
-- a request.
pub select_top_editors-IsRanked :
    {S : Type 0} (u : Unicode) (shares : Shares) (users : Users)
    (lookup : Option (GlobalGroupLookup S)) (limit : ℕ) (counts : Counter ℕ) (total_revisions : ℕ)
    (s : S) (l : List Contributor)
    → 0 < limit
    → (select_top_editors u shares users lookup limit counts total_revisions s).0 ≡ ok l
    → (length l ≤ limit) × FallingAmounts l × All (IsEditor shares users counts total_revisions) l
unfolding select_top_editors
select_top_editors-IsRanked u shares users lookup limit counts total_revisions s l room e =
    elim (Bool-cases (leb total_revisions 0)) [
      | inl nothing ↦
          let empty : [] ≡ l = ground arith in
          subst (λ l. (length l ≤ limit) × FallingAmounts l × All Good l) empty
            (omega arith, tt, tt)
      | inr some' ↦
          let entries = most_common counts in
          let falls = most_common-Falling counts in
          let (bound, low) = Falling-bounded entries falls in
          let r =
            rank_editors-IsRanked u shares users lookup limit counts total_revisions entries
              (All-most_common (λ e. Member e counts) counts (All-Member counts)) falls bound low 0
              room s l (rw (some', select_top_editors) at e) in
          (omega (arith, r.fits), r.falling, r.good)
    ]
  where
    Good : Contributor → Type 0
    Good = IsEditor shares users counts total_revisions
