-- ===== src/Attribution/Ranking.antt =====
-- What the two rankings name, whatever the lookups answer.
use wikifame.Base.{
  ℕ, suc, ◌+◌, ◌≤◌, ◌<◌, ◌≡◌, refl, subst, inl, inr, Bool, true, false, not, ◌||◌, Option, none,
  some, List, [], ◌∷◌, arith, leb, ◌==◌, if◌then◌else◌, Bool-cases, Option-cases, length, All,
  Member, Counter, total, most_common, Falling, All-most_common, Falling-bounded,
  most_common-Falling, All-Member, All-map, Text,
}
use wikifame.Errors.{ok, Exec, pure, lift, ◌>>=◌, >>=-eq-ok}
use wikifame.Models.{Contributor}
use wikifame.Policy.{
  ResolvedUser, GlobalGroupLookup, is_registered_editor, is_excluded_locally,
  should_highlight_contributor, Unicode, int_of,
}
use wikifame.Attribution.{
  Shares, Users, is_insignificant, user_of, named, extend, consider, rank_contributors,
  select_contributors,
}

-- The amounts fall.
abbrev pub FallingAmounts : List Contributor → Type 0
FallingAmounts [] = Unit
FallingAmounts (c ∷ rest) = All (λ d. d.amount ≤ c.amount) rest × FallingAmounts rest

-- What a loop returns that may still name up to `limit` accounts, `taken` of them already.
pub record IsRanked (G : Contributor → Type 0) (limit taken bound : ℕ) (l : List Contributor)
    : Type 0 where
  pub fits : length l + taken ≤ limit
  pub good : All G l
  pub low : All (λ (c : Contributor). c.amount ≤ bound) l
  pub falling : FallingAmounts l

pub highlighted :
    {S : Type 0} (user : ResolvedUser) (lookup : Option (GlobalGroupLookup S)) (s : S)
    → (should_highlight_contributor user lookup s).0 ≡ ok true
    → is_excluded_locally user ≡ false
unfolding should_highlight_contributor
highlighted user lookup s e = elim (Bool-cases (is_excluded_locally user)) [
  | inl t ↦ absurd (ground arith)
  | inr f ↦ f
]

module _ (limit : ℕ) (G : Contributor → Type 0) where
  pub IsRanked-nil : (taken bound : ℕ) → taken ≤ limit → IsRanked G limit taken bound []
  IsRanked-nil taken bound h = record { fits = omega arith; good = tt; low = tt; falling = tt }

  pub IsRanked-weaken :
      (taken a b : ℕ) (l : List Contributor)
      → a ≤ b
      → IsRanked G limit taken a l
      → IsRanked G limit taken b l
  IsRanked-weaken taken a b l h r = record {
    fits = r.fits;
    good = r.good;
    low = All-map (λ c. c.amount ≤ a) l (λ c k. omega arith) r.low;
    falling = r.falling;
  }

  IsRanked-cons :
      (taken amount : ℕ) (c : Contributor) (l : List Contributor)
      → c.amount ≡ amount
      → G c
      → IsRanked G limit (suc taken) amount l
      → IsRanked G limit taken amount (c ∷ l)
  IsRanked-cons taken amount c l same g r = record {
    fits = omega (arith, r.fits);
    good = (g, r.good);
    low = (omega arith, r.low);
    falling = (All-map (λ d. d.amount ≤ amount) l (λ d k. omega arith) r.low, r.falling);
  }

  -- What the rest of a loop returns.
  abbrev pub Ranks : {S : Type 0} → ℕ → (ℕ → Exec S (List Contributor)) → Type 0
  Ranks {S} bound more =
      (t : ℕ)
      → t < limit
      → (s : S) (l : List Contributor) → (more t s).0 ≡ ok l
      → IsRanked G limit t bound l

  extend-IsRanked :
      {S : Type 0} (taken amount : ℕ) (c : Contributor) (more : ℕ → Exec S (List Contributor))
      → c.amount ≡ amount
      → G c
      → taken < limit
      → Ranks amount more
      → (s : S) (l : List Contributor) → (extend limit taken c more s).0 ≡ ok l
      → IsRanked G limit taken amount l
  extend-IsRanked taken amount c more same g room next s l e =
      elim (Bool-cases (suc taken == limit)) [
        | inl full ↦
            let only : c ∷ [] ≡ l = ground arith in
            subst (IsRanked G limit taken amount) only (
              IsRanked-cons taken amount c [] same g
                (IsRanked-nil (suc taken) amount (ground arith)))
        | inr more' ↦
            let (rest, r, made) =
              >>=-eq-ok (more (suc taken)) (λ rest. pure (c ∷ rest)) s (rw more' at e) in
            let whole : c ∷ rest ≡ l = ground arith in
            subst (IsRanked G limit taken amount) whole
              (IsRanked-cons taken amount c rest same g (next (suc taken) (ground arith) s rest r))
      ]

  pub consider-IsRanked :
      {S : Type 0} (shares : Shares) (lookup : Option (GlobalGroupLookup S))
      (user : Option ResolvedUser) (amount total taken : ℕ) (more : ℕ → Exec S (List Contributor))
      → ((v : ResolvedUser)
          → user ≡ some v
          → is_excluded_locally v ≡ false
          → G (named shares v amount total))
      → taken < limit
      → Ranks amount more
      → (s : S) (l : List Contributor)
      → (consider shares lookup limit user amount total taken more s).0 ≡ ok l
      → IsRanked G limit taken amount l
  consider-IsRanked shares lookup none amount total taken more g room next s l e =
      next taken room s l e
  consider-IsRanked shares lookup (some user) amount total taken more g room next s l e =
      let (allowed, r, rest) =
        >>=-eq-ok (should_highlight_contributor user lookup)
          (λ allowed.
            if allowed
            then extend limit taken (named shares user amount total) more
            else more taken)
          s e in
      let s' = (should_highlight_contributor user lookup s).1 in
      elim (Bool-cases allowed) [
        | inl t ↦
            extend-IsRanked taken amount (named shares user amount total) more refl
              (g user refl (highlighted user lookup s (rw t at r))) room next s' l (rw t at rest)
        | inr f ↦ next taken room s' l (rw f at rest)
      ]

-- An entry of a token ranking: the registered author of at least `minimum_tokens` of the tokens,
-- with a share that is not below the minimum, whom the wiki knows and no local rule excludes.
pub record IsAuthor (u : Unicode) (shares : Shares) (users : Users) (counts : Counter Text)
    (total_tokens minimum_tokens : ℕ) (c : Contributor) : Type 0 where
  pub editor : Text
  pub id : ℕ
  pub user : ResolvedUser
  pub counted : Member (editor, c.amount) counts
  pub registered : is_registered_editor u editor ≡ ok true
  pub significant : is_insignificant shares minimum_tokens c.amount total_tokens ≡ false
  pub numbered : int_of u editor ≡ some id
  pub known : users id ≡ some user
  pub allowed : is_excluded_locally user ≡ false
  pub same : c ≡ named shares user c.amount total_tokens

module _ {S : Type 0} (u : Unicode) (shares : Shares) (users : Users)
    (lookup : Option (GlobalGroupLookup S)) (limit : ℕ) (counts : Counter Text)
    (total_tokens minimum_tokens : ℕ) where
  abbrev Author : Contributor → Type 0
  Author = IsAuthor u shares users counts total_tokens minimum_tokens

  author :
      (editor : Text) (n : ℕ) (registered : Bool) (user : Option ResolvedUser)
      → Member (editor, n) counts
      → is_registered_editor u editor ≡ ok registered
      → (not registered || is_insignificant shares minimum_tokens n total_tokens) ≡ false
      → user_of u users editor ≡ ok user
      → (v : ResolvedUser) → user ≡ some v
      → is_excluded_locally v ≡ false
      → Author (named shares v n total_tokens)
  author editor n registered user m r gate k v same free = elim (Option-cases (int_of u editor)) [
    | inl none' ↦ absurd (ground arith)
    | inr (id, i) ↦ record {
      editor = editor;
      id = id;
      user = v;
      counted = m;
      registered = ground arith;
      significant = ground arith;
      numbered = i;
      known = ground arith;
      allowed = free;
      same = refl;
    }
  ]

  rank_contributors-IsRanked :
      (entries : Counter Text)
      → All (λ e. Member e counts) entries
      → Falling entries
      → (bound : ℕ) → All (λ e. e.1 ≤ bound) entries
      → Ranks limit Author bound
          (rank_contributors u shares users lookup limit total_tokens minimum_tokens entries)
  unfolding rank_contributors
  rank_contributors-IsRanked [] m f bound low taken room s l e =
      let nothing : [] ≡ l = ground arith in
      subst (IsRanked Author limit taken bound) nothing
        (IsRanked-nil limit Author taken bound (omega arith))
  rank_contributors-IsRanked ((editor, n) ∷ rest) (m, ms) (f, fs) bound (b, bs) taken room s l e =
      let more = rank_contributors u shares users lookup limit total_tokens minimum_tokens rest in
      let next = rank_contributors-IsRanked rest ms fs n f in
      let (registered, r, e') =
        >>=-eq-ok (lift (is_registered_editor u editor))
          (λ registered.
            if not registered || is_insignificant shares minimum_tokens n total_tokens
            then more taken
            else lift (user_of u users editor) >>= λ user.
                consider shares lookup limit user n total_tokens taken more)
          s e in
      IsRanked-weaken limit Author taken n bound l b
        (elim (Bool-cases
          (not registered || is_insignificant shares minimum_tokens n total_tokens)) [
            | inl skipped ↦ next taken room s l (rw skipped at e')
            | inr counts' ↦
                let (user, k, e'') =
                  >>=-eq-ok (lift (user_of u users editor))
                    (λ user. consider shares lookup limit user n total_tokens taken more) s
                    (rw counts' at e') in
                consider-IsRanked limit Author shares lookup user n total_tokens taken more
                  (author editor n registered user m r counts' k) room next s l e''
          ])

-- If the ranking returns, with a positive limit, its names are at most that many, by falling
-- count, and each is a counted, registered editor above both minima whose account is known and not
-- excluded without a request.
pub select_contributors-IsRanked :
    {S : Type 0} (u : Unicode) (shares : Shares) (users : Users)
    (lookup : Option (GlobalGroupLookup S)) (limit : ℕ) (counts : Counter Text)
    (total_tokens minimum_tokens : ℕ) (s : S) (l : List Contributor)
    → 0 < limit
    → (select_contributors u shares users lookup limit counts total_tokens minimum_tokens s).0
      ≡ ok l
    → (length l ≤ limit)
      × FallingAmounts l
      × All (IsAuthor u shares users counts total_tokens minimum_tokens) l
unfolding select_contributors
select_contributors-IsRanked u shares users lookup limit counts total_tokens minimum_tokens s l room
      e =
    elim (Bool-cases (leb total_tokens 0)) [
      | inl nothing ↦
          let empty : [] ≡ l = ground arith in
          subst (λ l. (length l ≤ limit) × FallingAmounts l × All Good l) empty
            (omega arith, tt, tt)
      | inr some' ↦
          let entries = most_common counts in
          let falls = most_common-Falling counts in
          let (bound, low) = Falling-bounded entries falls in
          let r =
            rank_contributors-IsRanked u shares users lookup limit counts total_tokens
              minimum_tokens entries
              (All-most_common (λ e. Member e counts) counts (All-Member counts)) falls bound low 0
              room s l (rw (some', select_contributors) at e) in
          (omega (arith, r.fits), r.falling, r.good)
    ]
  where
    Good : Contributor → Type 0
    Good = IsAuthor u shares users counts total_tokens minimum_tokens
