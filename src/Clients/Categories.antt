-- ===== src/Clients/Categories.antt =====
-- Which members of a category the loop of `category_members` returns.
use wikifame.Base.{
  ℕ, zero, suc, ◌+◌, ◌-◌, ◌≤◌, ◌<◌, ◌≡◌, refl, sym, ap, inl, inr, Bool, true, false, List, [], ◌∷◌,
  ◌++◌, append-nil, append_assoc, arith, ltb, Bool-cases, length, take, All, length-append, Text,
}
use wikifame.Batches.{concat}
use wikifame.Errors.{Result, ok}
use wikifame.Clients.Paging.{Answers}
use wikifame.Json.{Json, object, no_members, truthy}
use wikifame.Api.Handlers.{positive}
use wikifame.Upstream.{CategoryMember}
use wikifame.Clients.Walks.{member_page, walk_category, category_members}
use wikifame.Clients.{Net, MediaWikiClient}

module _ {A : Type 0} where
  take-append : (n : ℕ) (xs ys : List A) → n ≤ length xs → take n (xs ++ ys) ≡ take n xs
  take-append zero xs ys h = refl
  take-append (suc n) [] ys h = absurd (omega arith)
  take-append (suc n) (x ∷ xs) ys h = ap (λ t. x ∷ t) (take-append n xs ys (omega arith))

  abbrev pub Filled : List A → Type 0
  Filled xs = 0 < length xs

  pub length-concat : (xss : List (List A)) → All Filled xss → length xss ≤ length (concat xss)
  length-concat [] h = omega arith
  length-concat (xs ∷ xss) (f, h) =
      omega (arith, length-append xs (concat xss), length-concat xss h)

module _ {S : Type 0} (c : MediaWikiClient S) (wiki category : Text) (limit : ℕ) where
  -- The answer where the members are those of a list.
  abbrev cut : List CategoryMember → Result (List CategoryMember × Bool)
  cut members = ok (take limit members, ltb limit (length members))

  -- Behind the limit, the loop ends at once, and the members that it has not read do not matter.
  walk_enough :
      (rounds : ℕ) (members more : List CategoryMember) (continuation : Json) (net : Net S)
      → limit ≤ length members
      → Filled more
      → (walk_category c wiki category limit rounds members continuation net).0
        ≡ cut (members ++ more)
  unfolding walk_category
  walk_enough zero members more continuation net h f =
      let enough : ltb (length members) limit ≡ false = ground arith in
      let cut_off : ltb limit (length (members ++ more)) ≡ true =
        ground (arith, length-append members more) in
      rw (walk_category, enough, cut_off, take-append limit members more h) refl
  walk_enough (suc rounds) members more continuation net h f =
      let enough : ltb (length members) limit ≡ false = ground arith in
      let cut_off : ltb limit (length (members ++ more)) ≡ true =
        ground (arith, length-append members more) in
      rw (walk_category, enough, cut_off, take-append limit members more h) refl

  walk_pages :
      (rounds : ℕ) (members : List CategoryMember) (continuation : Json) (net : Net S)
      (p : List CategoryMember) (ps : List (List CategoryMember))
      → limit ≤ rounds + length members
      → All Filled (p ∷ ps)
      → Answers (member_page c wiki category) continuation net (p ∷ ps)
      → (walk_category c wiki category limit rounds members continuation net).0
        ≡ cut (members ++ concat (p ∷ ps))
  unfolding walk_category
  walk_pages zero members continuation net p ps h (f, fs) a =
      walk_enough zero members (concat (p ∷ ps)) continuation net (omega arith)
        (omega (arith, length-append p (concat ps)))
  walk_pages (suc rounds) members continuation net p [] h (f, fs) (following, e, end, a) =
      elim (Bool-cases (ltb (length members) limit)) [
        | inl goes_on ↦ rw (walk_category, goes_on, e, end, append-nil p) refl
        | inr enough ↦
            walk_enough (suc rounds) members (concat (p ∷ [])) continuation net (ground arith)
              (rw (append-nil p) f)
      ]
  walk_pages (suc rounds) members continuation net p (q ∷ ps) h (f, fs) (following, e, more, a) =
      elim (Bool-cases (ltb (length members) limit)) [
        | inl goes_on ↦
            let more' : truthy following ≡ true = ground arith in
            rw (walk_category, goes_on, e, more', sym (append_assoc members p (concat (q ∷ ps))))
              (walk_pages rounds (members ++ p) following
                (member_page c wiki category continuation net).1 q ps
                (omega (arith, length-append members p)) fs a)
        | inr enough ↦
            walk_enough (suc rounds) members (concat (p ∷ q ∷ ps)) continuation net (ground arith)
              (omega (arith, length-append p (concat (q ∷ ps))))
      ]

  walk_first :
      (rounds : ℕ) (net : Net S) (p : List CategoryMember) (ps : List (List CategoryMember))
      → 0 < limit
      → limit ≤ rounds
      → All Filled ps
      → Answers (member_page c wiki category) (object no_members) net (p ∷ ps)
      → (walk_category c wiki category limit (suc rounds) [] (object no_members) net).0
        ≡ cut (concat (p ∷ ps))
  unfolding walk_category
  walk_first rounds net p [] positive h fs (following, e, end, a) =
      let goes_on : ltb 0 limit ≡ true = ground arith in
      rw (walk_category, goes_on, e, end, append-nil p) refl
  walk_first rounds net p (q ∷ ps) positive h fs (following, e, more, a) =
      let goes_on : ltb 0 limit ≡ true = ground arith in
      let more' : truthy following ≡ true = ground arith in
      rw (walk_category, goes_on, e, more')
        (walk_pages rounds p following (member_page c wiki category (object no_members) net).1 q ps
          (omega arith) fs a)

  pub category_pages_lem :
      (net : Net S) (p : List CategoryMember) (ps : List (List CategoryMember))
      → 0 < limit
      → limit < c.max_rounds
      → All Filled ps
      → Answers (member_page c wiki category) (object no_members) net (p ∷ ps)
      → (category_members c wiki category limit net).0
        ≡ ok (take limit (concat (p ∷ ps)), ltb limit (length (concat (p ∷ ps))))
  unfolding category_members
  category_pages_lem net p ps positive h fs a =
      let last_round = c.max_rounds - 1 in
      let same : c.max_rounds ≡ suc last_round = omega arith in
      rw same (walk_first last_round net p ps positive (omega arith) fs a)
