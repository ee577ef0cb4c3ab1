-- ===== src/Policy/Standing/Excluded.antt =====
-- Which accounts are withheld, described apart from the code's order of tests.
use wikifame.Base.{
  ◌+◌, suc, ◌≤◌, ◌<◌, ◌≡◌, refl, ◌↔◌, inl, inr, Bool, true, false, Option, none, some, List, arith,
  false≢true, sym, ◌∙◌, Bool-cases, Option-cases, Text,
}
use wikifame.Base.Int.{ℤ, pos, negsuc}
use wikifame.Models.{Time, seconds}
use wikifame.Policy.Words.{Unicode, Wording, search}
use wikifame.Policy.Standing.{
  AccountStanding, block_courtesy_pattern, block_courtesy_negation, lock_sanction_pattern, is_blank,
  lasts_at_most, is_sanction_lock, is_courtesy_block, is_nameable_account,
}

-- A reason that is given, and in which the words occur or do not.
abbrev pub Says : Unicode → List Wording → Bool → Option Text → Type 0
Says u words found reason =
    (text : Text) × (reason ≡ some text)
    × (is_blank (some text) ≡ false)
    × (search u words text ≡ found)

-- A global lock for abuse.
abbrev pub IsAbuseLock : Unicode → AccountStanding → Type 0
IsAbuseLock u s = (s.globally_locked ≡ true) × Says u lock_sanction_pattern true s.lock_reason

-- A block whose reason has a word of courtesy, and none that takes it back.
abbrev pub IsCourtesy : Unicode → AccountStanding → Type 0
IsCourtesy u s =
    Says u block_courtesy_negation false s.block_reason
    × Says u block_courtesy_pattern true s.block_reason

-- A block that counts: of the whole wiki, and not a courtesy.
pub record IsSanction (u : Unicode) (s : AccountStanding) (since : Time) : Type 0 where
  pub blocked : s.blocked_at ≡ some since
  pub whole_wiki : s.block_partial ≡ false
  pub meant : ¬ IsCourtesy u s

-- More than so many seconds lie between two times.
abbrev pub Exceeds : Time → Time → ℤ → Type 0
Exceeds since until (pos n) = since + seconds n < until
Exceeds since until (negsuc n) = since < until + seconds (suc n)

-- The reasons for which a name is withheld: a lock for abuse, a sanction with no end, and a
-- sanction that runs at `now` and was imposed for longer than the threshold.
pub data Excluded (u : Unicode) (s : AccountStanding) (threshold : ℤ) (now : Time) : Type 0 where
  locked : IsAbuseLock u s → Excluded u s threshold now
  endless :
      (since : Time) → IsSanction u s since → s.block_expires_at ≡ none → Excluded u s threshold now
  long :
      (since until : Time)
      → IsSanction u s since
      → s.block_expires_at ≡ some until
      → now < until
      → Exceeds since until threshold
      → Excluded u s threshold now

lasts_longer :
    (since until : Time) (threshold : ℤ)
    → (lasts_at_most since until threshold ≡ false) ↔ Exceeds since until threshold
unfolding lasts_at_most
lasts_longer since until (pos n) = (λ h. ground arith, λ h. ground arith)
lasts_longer since until (negsuc n) = (λ h. ground arith, λ h. ground arith)

module _ (u : Unicode) (s : AccountStanding) where
  is_sanction_lock_iff : (is_sanction_lock u s ≡ true) ↔ IsAbuseLock u s
  unfolding is_sanction_lock
  is_sanction_lock_iff = elim (Option-cases s.lock_reason) [
    | inl n ↦ (λ h. absurd (ground (arith, n)), λ (l, (t, e, b, f)). absurd (ground (arith, n, e)))
    | inr (t, e) ↦ (
      λ h. (ground (arith, e), (t, e, ground (arith, e), ground (arith, e))),
      λ (l, (t', e', b, f)). ground (arith, e, e', b, f),
    )
  ]

  is_courtesy_block_iff : (is_courtesy_block u s ≡ true) ↔ IsCourtesy u s
  unfolding is_courtesy_block
  is_courtesy_block_iff = elim (Option-cases s.block_reason) [
    | inl n ↦ (λ h. absurd (ground (arith, n)), λ ((t, e, b, f), p). absurd (ground (arith, n, e)))
    | inr (t, e) ↦ (
      λ h. (
        (t, e, ground (arith, e), ground (arith, e)),
        (t, e, ground (arith, e), ground (arith, e)),
      ),
      λ ((t', e', b, f), (t'', e'', b', f')). ground (arith, e, e', b, f, e'', f'),
    )
  ]

  is_courtesy_block_unless : (is_courtesy_block u s ≡ false) ↔ (¬ IsCourtesy u s)
  is_courtesy_block_unless = (
    λ h c. false≢true (sym h ∙ is_courtesy_block_iff.1 c),
    λ h. elim (Bool-cases (is_courtesy_block u s)) [
      | inr f ↦ f
      | inl t ↦ absurd (h (is_courtesy_block_iff.0 t))
    ],
  )

module _ (u : Unicode) (s : AccountStanding) (threshold : ℤ) (now : Time) where
  withheld : is_nameable_account u (some s) threshold now ≡ false → Excluded u s threshold now
  unfolding is_nameable_account
  withheld h = elim (Bool-cases (is_sanction_lock u s)) [
    | inl l ↦ locked ((is_sanction_lock_iff u s).0 l)
    | inr free ↦ elim (Option-cases s.blocked_at) [
      | inl never ↦ absurd (ground arith)
      | inr (since, b) ↦
          let sanction : IsSanction u s since = record {
            blocked = b;
            whole_wiki = ground arith;
            meant = (is_courtesy_block_unless u s).0 (ground arith);
          } in
          elim (Option-cases s.block_expires_at) [
            | inl never ↦ endless since sanction never
            | inr (until, e) ↦
                long since until sanction e (ground arith)
                  ((lasts_longer since until threshold).0 (ground arith))
          ]
    ]
  ]

  excluded : Excluded u s threshold now → is_nameable_account u (some s) threshold now ≡ false
  unfolding is_nameable_account
  excluded (locked l) = rw ((is_sanction_lock_iff u s).1 l) refl
  excluded (endless since b e) =
      let meant = (is_courtesy_block_unless u s).1 b.meant in
      ground (arith, b.blocked, b.whole_wiki, meant)
  excluded (long since until b e later' over) =
      let meant = (is_courtesy_block_unless u s).1 b.meant in
      let longer = (lasts_longer since until threshold).1 over in
      ground (arith, b.blocked, b.whole_wiki, meant, longer)

  -- An account with a known standing is withheld exactly if it is locked globally with a reason
  -- that speaks of abuse, or has a block of the whole wiki that is no courtesy and that either has
  -- no end, or has not ended and lasts more seconds than the threshold. A block is a courtesy if
  -- its reason is given, has one of the words of a courtesy and none of those that deny it.
  pub is_nameable_account_iff :
      (is_nameable_account u (some s) threshold now ≡ false) ↔ Excluded u s threshold now
  is_nameable_account_iff = (withheld, excluded)

-- `a <= b` on thresholds.
abbrev pub LeThreshold : ℤ → ℤ → Type 0
LeThreshold (pos a) (pos b) = a ≤ b
LeThreshold (negsuc a) (pos b) = Unit
LeThreshold (pos a) (negsuc b) = ⊥
LeThreshold (negsuc a) (negsuc b) = b ≤ a

lasts_at_most_mono :
    (from to : Time) (a b : ℤ)
    → LeThreshold a b
    → lasts_at_most from to a ≡ true
    → lasts_at_most from to b ≡ true
unfolding lasts_at_most
lasts_at_most_mono from to (pos a) (pos b) h k = ground arith
lasts_at_most_mono from to (pos a) (negsuc b) h k = absurd h
lasts_at_most_mono from to (negsuc a) (pos b) h k = ground arith
lasts_at_most_mono from to (negsuc a) (negsuc b) h k = ground arith

-- An account that may be named still may be at a later time and under a higher threshold, as long
-- as its standing stays the same.
pub is_nameable_account_mono :
    (u : Unicode) (standing : Option AccountStanding) (a b : ℤ) (now then' : Time)
    → LeThreshold a b
    → now ≤ then'
    → is_nameable_account u standing a now ≡ true
    → is_nameable_account u standing b then' ≡ true
unfolding is_nameable_account
is_nameable_account_mono u none a b now then' h k n = refl
is_nameable_account_mono u (some s) a b now then' h k n = elim (Option-cases s.blocked_at) [
  | inl never ↦ ground arith
  | inr (since, blocked) ↦ elim (Option-cases s.block_expires_at) [
    | inl endless' ↦ ground arith
    | inr (until, e) ↦ ground (arith, lasts_at_most_mono since until a b h)
  ]
]
