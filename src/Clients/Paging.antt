-- ===== src/Clients/Paging.antt =====
-- What the loops over continuations read, in terms of the pages that MediaWiki has.
use wikifame.Base.{
  ℕ, zero, suc, ◌+◌, ◌≡◌, refl, true, false, List, [], ◌∷◌, arith, ltb, leb, if◌then◌else◌, length,
  Text, codes,
}
use wikifame.Errors.{Failure, retryable_upstream, ok, err, Exec}
use wikifame.Clients.Walks.{bot_page, count_bots, get_bot_contributor_count}
use wikifame.Clients.{Net, MediaWikiClient}
use wikifame.Json.{Json, object, no_members, truthy}

module _ {S P : Type 0} where
  -- The requests of a loop are answered with these pages: the first continuation leads to the first
  -- of them, each answer continues with the next, and only the last has no continuation.
  abbrev pub Answers : (Json → Exec S (P × Json)) → Json → S → List P → Type 0
  Answers page continuation s [] = Unit
  Answers page continuation s (p ∷ ps) =
      (following : Json) × ((page continuation s).0 ≡ ok (p, following))
      × (truthy following ≡ ltb 0 (length ps))
      × Answers page following (page continuation s).1 ps

abbrev pub sum : List ℕ → ℕ
sum [] = 0
sum (n ∷ ns) = n + sum ns

abbrev pub too_many_bots : Failure
too_many_bots = retryable_upstream (codes "Pagination des bots anormalement longue")

module _ {S : Type 0} (c : MediaWikiClient S) (wiki : Text) where
  count_bots_lem :
      (page_id turns count : ℕ) (continuation : Json) (net : Net S) (n : ℕ) (ns : List ℕ)
      → Answers (bot_page c wiki page_id) continuation net (n ∷ ns)
      → (count_bots c wiki page_id turns count continuation net).0
        ≡ (if leb (length (n ∷ ns)) turns then ok (count + sum (n ∷ ns)) else err too_many_bots)
  unfolding count_bots
  count_bots_lem page_id zero count continuation net n ns h =
      let none_left : leb (suc (length ns)) 0 ≡ false = ground arith in rw none_left refl
  count_bots_lem page_id (suc turns) count continuation net n [] (following, e, end, h) =
      rw (count_bots, e, end) (ground arith)
  count_bots_lem page_id (suc turns) count continuation net n (m ∷ ns) (following, e, more, h) =
      let same : leb (length (n ∷ m ∷ ns)) (suc turns) ≡ leb (length (m ∷ ns)) turns =
        ground arith in
      let total : count + sum (n ∷ m ∷ ns) ≡ count + n + sum (m ∷ ns) = omega arith in
      let goes_on : truthy following ≡ true = ground arith in
      rw (count_bots, e, goes_on, same, total)
        (count_bots_lem page_id turns (count + n) following
          (bot_page c wiki page_id continuation net).1 m ns h)

  count_all_bots :
      (page_id turns : ℕ) (net : Net S) (n : ℕ) (ns : List ℕ)
      → Answers (bot_page c wiki page_id) (object no_members) net (n ∷ ns)
      → (count_bots c wiki page_id turns 0 (object no_members) net).0
        ≡ (if leb (length (n ∷ ns)) turns then ok (sum (n ∷ ns)) else err too_many_bots)
  count_all_bots page_id turns net n ns h =
      let total : 0 + sum (n ∷ ns) ≡ sum (n ∷ ns) = omega arith in
      rw total at (count_bots_lem page_id turns 0 (object no_members) net n ns h)

  pub bot_pages_lem :
      (page_id : ℕ) (net : Net S) (n : ℕ) (ns : List ℕ)
      → Answers (bot_page c wiki page_id) (object no_members) net (n ∷ ns)
      → (get_bot_contributor_count c wiki page_id net).0
        ≡ (if leb (length (n ∷ ns)) 100 then ok (sum (n ∷ ns)) else err too_many_bots)
  unfolding get_bot_contributor_count
  bot_pages_lem page_id net n ns h = count_all_bots page_id 100 net n ns h
