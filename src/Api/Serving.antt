-- ===== src/Api/Serving.antt =====
-- What the two handlers of app.py name, change and promise.
use wikifame.Base.{
  ℕ, ◌+◌, ◌≤◌, ◌≡◌, refl, sym, ap, ◌∙◌, subst, inl, inr, Bool, true, false, not, false≢true, Option,
  some, List, [], ◌∷◌, arith, ◌==◌, if◌then◌else◌, Bool-cases, Option-cases, length, any, filter,
  All, Member, All-filter_if, length-filter-le, All-Member, All-map, Text,
}
use wikifame.Models.{Time, Contributor, AttributionResult, Database}
use wikifame.Config.{max_visible_block_seconds_for}
use wikifame.Policy.Standing.{AccountStanding, is_nameable_account}
use wikifame.Repository.OptOut.{is_opted_out}
use wikifame.Repository.Standing.{standing_for, standing_of}
use wikifame.Api.Handlers.{
  user_ids_of, standing_entry, is_nameable, nameable_contributors, attribution_fields,
}
use wikifame.Api.{AttributionFields, Runtime}
use wikifame.Api.Standings.{own_standing}

-- Where sanctioned accounts are hidden, the account's own standing allows its name.
abbrev pub IsAllowed : Runtime → Time → Database → Text → Contributor → Type 0
IsAllowed runtime now db wiki c =
    runtime.settings.hide_sanctioned_contributors ≡ true
    → (id : ℕ) → c.user_id ≡ some id
    → is_nameable_account runtime.unicode (standing_of (standing_for db wiki (id ∷ [])) id)
        (max_visible_block_seconds_for runtime.settings wiki) now
      ≡ true

-- An account that the reply may name: a stored contributor whose own standing allows it.
pub record IsNameable (runtime : Runtime) (now : Time) (db : Database) (wiki : Text)
    (result : AttributionResult) (c : Contributor) : Type 0 where
  pub stored : Member c result.contributors
  pub allowed : IsAllowed runtime now db wiki c

-- Some entries of a list, in its order.
pub data Selected {A : Type 0} : List A → List A → Type 0 where
  done : Selected [] []
  keep : {x : A} {xs ys : List A} → Selected xs ys → Selected (x ∷ xs) (x ∷ ys)
  skip : {y : A} {xs ys : List A} → Selected xs ys → Selected xs (y ∷ ys)

Selected-refl : {A : Type 0} (xs : List A) → Selected xs xs
Selected-refl [] = done
Selected-refl (x ∷ xs) = keep (Selected-refl xs)

Selected-none : {A : Type 0} (xs : List A) → Selected [] xs
Selected-none [] = done
Selected-none (x ∷ xs) = skip (Selected-none xs)

Selected-filter : {A : Type 0} (p : A → Bool) (xs : List A) → Selected (filter p xs) xs
unfolding filter
Selected-filter p [] = done
Selected-filter p (x ∷ xs) = elim (Bool-cases (p x)) [
  | inl t ↦ rw t (keep (Selected-filter p xs))
  | inr f ↦ rw f (skip (Selected-filter p xs))
]

Member-filter :
    {A : Type 0} (p : A → Bool) (xs : List A) {x : A}
    → Member x xs
    → p x ≡ true
    → Member x (filter p xs)
unfolding filter
Member-filter p [] m h = absurd m
Member-filter p (y ∷ ys) {x} (inl e) h = let here : p y ≡ true = ap p (sym e) ∙ h in rw here (inl e)
Member-filter p (y ∷ ys) (inr m) h = elim (Bool-cases (p y)) [
  | inl t ↦ rw t (inr (Member-filter p ys m h))
  | inr f ↦ rw f (Member-filter p ys m h)
]

-- The fields are right: nobody is named on an opted-out page, on any other exactly the stored
-- contributors are named that may be, in the stored order, and the count is the stored one, of
-- which the named ones and the others are the parts.
pub record IsPresented (runtime : Runtime) (now : Time) (db : Database) (wiki : Text) (page_id : ℕ)
    (result : AttributionResult) (fields : AttributionFields) : Type 0 where
  pub silent : is_opted_out db wiki page_id ≡ true → fields.contributors ≡ []
  pub reported : fields.opted_out ≡ is_opted_out db wiki page_id
  pub nameable : All (IsNameable runtime now db wiki result) fields.contributors
  pub complete :
      is_opted_out db wiki page_id ≡ false
      → (c : Contributor) → Member c result.contributors
      → IsAllowed runtime now db wiki c
      → Member c fields.contributors
  pub in_order : Selected fields.contributors result.contributors
  pub counted : fields.distinct_contributors ≡ result.distinct_contributors
  pub shorter : length fields.contributors ≤ length result.contributors
  pub divided :
      length result.contributors ≤ result.distinct_contributors
      → length fields.contributors + fields.other_contributors ≡ result.distinct_contributors

asked_of :
    (contributors : List Contributor) (c : Contributor) (id : ℕ)
    → Member c contributors
    → c.user_id ≡ some id
    → any (λ i. id == i) (user_ids_of contributors) ≡ true
unfolding any user_ids_of
asked_of [] c id m has = absurd m
asked_of (d ∷ contributors) c id (inl e) has =
    let same : d.user_id ≡ some id = ap (λ (x : Contributor). x.user_id) (sym e) ∙ has in
    rw (user_ids_of, same) (ground arith)
asked_of (d ∷ contributors) c id (inr m) has = elim (Option-cases d.user_id) [
  | inl n ↦ rw (user_ids_of, n) (asked_of contributors c id m has)
  | inr (other, s) ↦ rw (user_ids_of, s) (ground (arith, asked_of contributors c id m has))
]

All-unless :
    (P : Contributor → Type 0) (b : Bool) (xs ys : List Contributor)
    → (b ≡ false → All P xs)
    → (b ≡ true → All P ys)
    → All P (if not b then xs else ys)
All-unless P true xs ys off on = on refl
All-unless P false xs ys off on = off refl

nameable_contributors-IsNameable :
    (runtime : Runtime) (now : Time) (db : Database) (wiki : Text) (result : AttributionResult)
    → All
        (IsNameable runtime now db wiki result)
        (nameable_contributors runtime now db wiki result.contributors)
unfolding nameable_contributors
nameable_contributors-IsNameable runtime now db wiki result =
    let stored = All-Member result.contributors in
    let p = is_nameable runtime wiki now db (user_ids_of result.contributors) in
    All-unless (IsNameable runtime now db wiki result) runtime.settings.hide_sanctioned_contributors
      _ _
      (λ off.
        All-map (λ c. Member c result.contributors) result.contributors
          (λ c m. record { stored = m; allowed = λ on. absurd (false≢true (sym off ∙ on)) }) stored)
      (λ on. All-filter_if (IsNameable runtime now db wiki result) p result.contributors (
        All-map (λ c. Member c result.contributors) result.contributors
          (λ c m kept. record {
            stored = m;
            allowed = λ _ id has.
                let entry = λ (o : Option AccountStanding).
                  is_nameable_account runtime.unicode o
                    (max_visible_block_seconds_for runtime.settings wiki) now
                  ≡ true in
                let ids = user_ids_of result.contributors in
                subst entry (own_standing db wiki ids id (asked_of result.contributors c id m has))
                  (subst (λ u. entry (standing_entry (standing_for db wiki ids) u)) has kept);
          })
          stored))

nameable-of_allowed :
    (runtime : Runtime) (now : Time) (db : Database) (wiki : Text) (contributors : List Contributor)
    (c : Contributor)
    → runtime.settings.hide_sanctioned_contributors ≡ true
    → Member c contributors
    → IsAllowed runtime now db wiki c
    → is_nameable runtime wiki now db (user_ids_of contributors) c ≡ true
unfolding is_nameable_account
nameable-of_allowed runtime now db wiki contributors c on m allowed =
    let ids = user_ids_of contributors in
    elim (Option-cases c.user_id) [
      | inl n ↦ rw (is_nameable, n) refl
      | inr (id, has) ↦
          let own = own_standing db wiki ids id (asked_of contributors c id m has) in
          rw (is_nameable, has, own) (allowed on id has)
    ]

nameable_contributors_complete :
    (runtime : Runtime) (now : Time) (db : Database) (wiki : Text) (contributors : List Contributor)
    → ((c : Contributor)
        → Member c contributors
        → IsAllowed runtime now db wiki c
        → Member c (nameable_contributors runtime now db wiki contributors))
      × Selected (nameable_contributors runtime now db wiki contributors) contributors
unfolding nameable_contributors
nameable_contributors_complete runtime now db wiki contributors =
    let p = is_nameable runtime wiki now db (user_ids_of contributors) in
    go runtime.settings.hide_sanctioned_contributors (filter p contributors)
      (λ _. (λ c m allowed. m, Selected-refl contributors))
      (λ on. (
        λ c m allowed.
            Member-filter p contributors m
              (nameable-of_allowed runtime now db wiki contributors c on m allowed),
        Selected-filter p contributors,
      ))
  where
    Goal : List Contributor → Type 0
    Goal shown =
        ((c : Contributor)
          → Member c contributors
          → IsAllowed runtime now db wiki c
          → Member c shown)
        × Selected shown contributors

    go :
        (b : Bool) (shown : List Contributor)
        → (b ≡ false → Goal contributors)
        → (b ≡ true → Goal shown)
        → Goal (if not b then contributors else shown)
    go true shown off on = on refl
    go false shown off on = off refl

length-nameable :
    (runtime : Runtime) (now : Time) (db : Database) (wiki : Text) (contributors : List Contributor)
    → length (nameable_contributors runtime now db wiki contributors) ≤ length contributors
unfolding nameable_contributors
length-nameable runtime now db wiki contributors =
    go runtime.settings.hide_sanctioned_contributors _ (length-filter-le _ contributors)
  where
    go :
        (b : Bool) (ys : List Contributor)
        → length ys ≤ length contributors
        → length (if not b then contributors else ys) ≤ length contributors
    go true ys h = h
    go false ys h = omega arith

-- The fields name nobody on an opted-out page, and else, in the stored order, the stored
-- contributors whose own standing allows it where sanctioned ones are hidden; the count is the stored one, and the others
-- are those who are not named, if the count is at least that of the stored contributors.
pub attribution_fields-IsPresented :
    (runtime : Runtime) (now : Time) (db : Database) (wiki : Text) (page_id : ℕ)
    (result : AttributionResult)
    → IsPresented runtime now db wiki page_id result
        (attribution_fields runtime now db wiki page_id result)
unfolding attribution_fields
attribution_fields-IsPresented runtime now db wiki page_id result =
    let shorter = length-nameable runtime now db wiki result.contributors in
    let named = nameable_contributors_complete runtime now db wiki result.contributors in
    elim (Bool-cases (is_opted_out db wiki page_id)) [
      | inl out ↦ record {
        silent = λ _. rw out refl;
        reported = refl;
        nameable = rw out tt;
        complete = λ on. absurd (false≢true (sym on ∙ out));
        in_order = rw out (Selected-none result.contributors);
        counted = refl;
        shorter = rw out (omega arith);
        divided = λ bounded. rw out (omega arith);
      }
      | inr on ↦ record {
        silent = λ out. absurd (false≢true (sym on ∙ out));
        reported = refl;
        nameable = rw on (nameable_contributors-IsNameable runtime now db wiki result);
        complete = λ _ c m allowed. rw on (named.0 c m allowed);
        in_order = rw on named.1;
        counted = refl;
        shorter = rw on shorter;
        divided = λ bounded. rw on (omega (arith, bounded, shorter));
      }
    ]
