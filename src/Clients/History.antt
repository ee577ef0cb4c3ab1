-- ===== src/Clients/History.antt =====
-- What the loop of `get_editor_history` counts.
use wikifame.Base.{
  ℕ, zero, suc, ◌+◌, ◌≤◌, ◌<◌, ◌≡◌, refl, sym, ap, inl, inr, true, false, some, List, [], ◌∷◌, ◌++◌,
  map, append-nil, arith, ltb, ◌==◌, if◌then◌else◌, ==_iff, Bool-cases, length, All, length-append,
  Counter, increment, count_of, count_of-increment, Text,
}
use wikifame.Batches.{concat}
use wikifame.Errors.{Result, ok}
use wikifame.Upstream.{EditorHistory}
use wikifame.Clients.Walks.{tally, history_with, history_page, walk_history, get_editor_history}
use wikifame.Clients.{Net, MediaWikiClient}
use wikifame.Json.{Json, object, no_members, truthy}
use wikifame.Clients.Paging.{Answers}
use wikifame.Clients.Categories.{Filled}

-- How many revisions an account has made, from their list.
abbrev pub occurrences : ℕ → List ℕ → ℕ
occurrences id [] = 0
occurrences id (other ∷ ids) = (if other == id then 1 else 0) + occurrences id ids

count_of-tally :
    (id : ℕ) (ids : List ℕ) (counts : Counter ℕ)
    → count_of ◌==◌ (suc id) (tally ids counts)
      ≡ occurrences (suc id) ids + count_of ◌==◌ (suc id) counts
unfolding tally
count_of-tally id [] counts = omega arith
count_of-tally id (zero ∷ ids) counts =
    let anonymous : (0 == suc id) ≡ false = ground arith in
    rw anonymous (omega (arith, count_of-tally id ids counts))
count_of-tally id (suc other ∷ ids) counts = omega (
  arith,
  count_of-tally id ids (increment ◌==◌ (suc other) counts),
  count_of-increment ◌==◌ ==_iff (suc other) (suc id) counts,
)

count_of-tally_all :
    (id : ℕ) (ids : List ℕ) → count_of ◌==◌ (suc id) (tally ids []) ≡ occurrences (suc id) ids
unfolding count_of
count_of-tally_all id ids = omega (arith, count_of-tally id ids [])

tally-append :
    (xs ys : List ℕ) (counts : Counter ℕ) → tally (xs ++ ys) counts ≡ tally ys (tally xs counts)
unfolding tally
tally-append [] ys counts = refl
tally-append (zero ∷ xs) ys counts = tally-append xs ys counts
tally-append (suc id ∷ xs) ys counts = tally-append xs ys (increment ◌==◌ (suc id) counts)

module _ {S : Type 0} (c : MediaWikiClient S) (wiki : Text) (page_id max_revisions : ℕ) where
  -- Each of the pages is asked for while fewer revisions than the budget have been read.
  abbrev pub Within : ℕ → List (List ℕ) → Type 0
  Within revisions [] = Unit
  Within revisions (p ∷ pages) = (revisions < max_revisions) × Within (revisions + length p) pages

  -- From `counts` and `revisions`, the loop reads the first of the pages, up to the budget.
  abbrev Window : Counter ℕ → ℕ → List (List ℕ) → Result EditorHistory → Type 0
  Window counts revisions pages result =
      (before : List (List ℕ)) × (behind : List (List ℕ)) × (pages ≡ before ++ behind)
      × (result
          ≡ ok (
              history_with (tally (concat before) counts) (revisions + length (concat before))
                (length behind == 0)))
      × (0 < length behind → max_revisions ≤ revisions + length (concat before))
      × Within revisions before

  walk_stops :
      (rounds : ℕ) (counts : Counter ℕ) (revisions : ℕ) (continuation : Json) (net : Net S)
      (p : List ℕ) (ps : List (List ℕ))
      → max_revisions ≤ revisions
      → Window counts revisions
          (p ∷ ps)
          (walk_history c wiki page_id max_revisions rounds counts revisions continuation net).0
  unfolding walk_history
  walk_stops zero counts revisions continuation net p ps h =
      let enough : ltb revisions max_revisions ≡ false = ground arith in
      let some_behind : (length (p ∷ ps) == 0) ≡ false = ground arith in
      (
        [],
        p ∷ ps,
        refl,
        rw (walk_history, enough, some_behind) (ground arith),
        λ b. omega arith,
        tt,
      )
  walk_stops (suc rounds) counts revisions continuation net p ps h =
      let enough : ltb revisions max_revisions ≡ false = ground arith in
      let some_behind : (length (p ∷ ps) == 0) ≡ false = ground arith in
      (
        [],
        p ∷ ps,
        refl,
        rw (walk_history, enough, some_behind) (ground arith),
        λ b. omega arith,
        tt,
      )

  -- A page that is read before a window.
  Window-page :
      (counts : Counter ℕ) (revisions : ℕ) (p : List ℕ) (pages : List (List ℕ))
      (result : Result EditorHistory)
      → revisions < max_revisions
      → Window (tally p counts) (revisions + length p) pages result
      → Window counts revisions (p ∷ pages) result
  Window-page counts revisions p pages result left (before, behind, split, e, h, w) =
      let more : revisions + length p + length (concat before)
          ≡ revisions + length (p ++ concat before) =
        omega (arith, length-append p (concat before)) in
      (
        p ∷ before,
        behind,
        ap (λ xs. p ∷ xs) split,
        rw (tally-append p (concat before) counts, sym more) e,
        λ b. rw (sym more) (h b),
        (left, w),
      )

  walk_history-reads :
      (rounds : ℕ) (counts : Counter ℕ) (revisions : ℕ) (continuation : Json) (net : Net S)
      (p : List ℕ) (ps : List (List ℕ))
      → max_revisions ≤ rounds + revisions
      → All Filled (p ∷ ps)
      → Answers (history_page c wiki page_id) continuation net (map some (p ∷ ps))
      → Window counts revisions
          (p ∷ ps)
          (walk_history c wiki page_id max_revisions rounds counts revisions continuation net).0
  unfolding walk_history
  walk_history-reads zero counts revisions continuation net p ps h f a =
      walk_stops zero counts revisions continuation net p ps (omega arith)
  walk_history-reads (suc rounds) counts revisions continuation net p [] h (f, fs)
        (following, e, end, a) =
      elim (Bool-cases (ltb revisions max_revisions)) [
        | inl goes_on ↦ (
          p ∷ [],
          [],
          refl,
          rw (walk_history, goes_on, e, end, append-nil p) refl,
          λ b. absurd (omega arith),
          (ground arith, tt),
        )
        | inr enough ↦ walk_stops (suc rounds) counts revisions continuation net p [] (ground arith)
      ]
  walk_history-reads (suc rounds) counts revisions continuation net p (q ∷ ps) h (f, fs)
        (following, e, more, a) =
      elim (Bool-cases (ltb revisions max_revisions)) [
        | inl goes_on ↦
            let more' : truthy following ≡ true = ground arith in
            Window-page counts revisions p (q ∷ ps) _ (ground arith) (
              rw (walk_history, goes_on, e, more')
                (walk_history-reads rounds (tally p counts) (revisions + length p) following
                  (history_page c wiki page_id continuation net).1 q ps (omega arith) fs a))
        | inr enough ↦
            walk_stops (suc rounds) counts revisions continuation net p (q ∷ ps) (ground arith)
      ]

  -- The history is that of the pages read: their counts, complete if no page is left, with at least
  -- the budget if one is, and no page asked for behind the budget.
  abbrev pub IsHistory : List (List ℕ) → Result EditorHistory → Type 0
  IsHistory pages result =
      (before : List (List ℕ)) × (behind : List (List ℕ)) × (counts : Counter ℕ) × (pages
        ≡ before ++ behind)
      × (result ≡ ok (history_with counts (length (concat before)) (length behind == 0)))
      × ((id : ℕ) → count_of ◌==◌ (suc id) counts ≡ occurrences (suc id) (concat before))
      × (0 < length behind → max_revisions ≤ length (concat before))
      × Within 0 before

  pub history_pages_lem :
      (net : Net S) (p : List ℕ) (ps : List (List ℕ))
      → max_revisions ≤ c.max_rounds
      → All Filled (p ∷ ps)
      → Answers (history_page c wiki page_id) (object no_members) net (map some (p ∷ ps))
      → IsHistory (p ∷ ps) (get_editor_history c wiki page_id max_revisions net).0
  unfolding get_editor_history
  history_pages_lem net p ps h f a =
      let (before, behind, split, e, b, w) =
        walk_history-reads c.max_rounds [] 0 (object no_members) net p ps (omega arith) f a in
      let from_zero : 0 + length (concat before) ≡ length (concat before) = omega arith in
      (
        before,
        behind,
        tally (concat before) [],
        split,
        rw from_zero at e,
        λ id. count_of-tally_all id (concat before),
        λ m. rw from_zero at (b m),
        w,
      )
