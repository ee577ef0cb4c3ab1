-- ===== src/Jobs/Days.antt =====
-- How many days of page views the prewarming takes.
use wikifame.Base.{
  ℕ, ◌+◌, ◌*◌, ◌≤◌, ◌<◌, max, ◌≡◌, subst, inl, inr, Option, none, some, List, [], ◌∷◌, ◌++◌, arith,
  ◌==◌, Bool-cases, length, length-append, Text,
}
use wikifame.Jobs.Prewarm.{
  PrewarmJob, previous_days, update_titles, Loaded, day_loaded, load_days, some_day,
  collect_recent_top_titles,
}
use wikifame.Errors.{Result, ok, Exec, >>=-eq-ok}
use wikifame.Replica.{last}
use wikifame.Repository.Cleanup.{days}

module _ {S : Type 0} (job : PrewarmJob S) (wiki : Text) where
  -- What the rest of the loop keeps.
  abbrev Bounds : ℕ → (Loaded → Exec S Loaded) → Type 0
  Bounds target more =
      (found : Loaded) (s : S) (last : Loaded)
      → length found.1 < target
      → (more found s).0 ≡ ok last
      → length last.1 ≤ target

  day_loaded-bounded :
      (target day : ℕ) (articles : Option (List Text)) (found : Loaded)
      (more : Loaded → Exec S Loaded) (s : S) (last : Loaded)
      → Bounds target more
      → length found.1 < target
      → (day_loaded job wiki target day articles found more s).0 ≡ ok last
      → length last.1 ≤ target
  day_loaded-bounded target day none found more s last rest room e = rest found s last room e
  day_loaded-bounded target day (some articles) (titles, loaded) more s last rest room e =
      let next_found : Loaded = (update_titles articles titles, loaded ++ day ∷ []) in
      let longer : length (loaded ++ day ∷ []) ≡ length loaded + 1 =
        length-append loaded (day ∷ []) in
      elim (Bool-cases (length loaded + 1 == target)) [
        | inl enough ↦
            let same : ◌≡◌ {A = Result Loaded} (ok next_found) (ok last) = rw enough at e in
            let same' : next_found ≡ last = ground arith in
            subst (λ (l : Loaded). length l.1 ≤ target) same' (ground (arith, longer, enough))
        | inr few ↦ rest next_found s last (ground (arith, longer, few, room)) (rw few at e)
      ]

  load_days-bounded : (target : ℕ) (days : List ℕ) → Bounds target (load_days job wiki target days)
  unfolding load_days
  load_days-bounded target [] found s last room e =
      let same : found ≡ last = ground arith in
      subst (λ (l : Loaded). length l.1 ≤ target) same (omega (arith, room))
  load_days-bounded target (day ∷ days) found s last room e =
      let (articles, a, e') =
        >>=-eq-ok (job.top_pages wiki day)
          (λ articles.
            day_loaded job wiki target day articles found (load_days job wiki target days))
          s e in
      day_loaded-bounded target day articles found (load_days job wiki target days)
        (job.top_pages wiki day s).1 last (load_days-bounded target days) room e'

  some_day-ok :
      (found : Loaded) (s : S) (last : Loaded)
      → (some_day job wiki found s).0 ≡ ok last
      → (found ≡ last) × (1 ≤ length last.1)
  some_day-ok (titles, []) s last e = absurd (ground arith)
  some_day-ok (titles, day ∷ days) s last e =
      let same : (titles, day ∷ days) ≡ last = ground arith in
      (same, subst (λ (l : Loaded). 1 ≤ length l.1) same (omega arith))

  -- If titles of popular pages are collected, they are those of at least one day, and of at most
  -- as many days as were asked for, or of one if none was.
  pub collect_recent_top_titles-bounded :
      (days today : ℕ) (s : S) (last : Loaded)
      → (collect_recent_top_titles job wiki days today s).0 ≡ ok last
      → (1 ≤ length last.1) × (length last.1 ≤ max 1 days)
  unfolding collect_recent_top_titles
  collect_recent_top_titles-bounded days today s last e =
      let target = max 1 days in
      let lookback = previous_days (max 14 (target * 3)) today in
      let (found, f, e') =
        >>=-eq-ok (load_days job wiki target lookback ([], [])) (some_day job wiki) s e in
      let (same, filled) =
        some_day-ok found (load_days job wiki target lookback ([], []) s).1 last e' in
      (
        filled,
        subst (λ (l : Loaded). length l.1 ≤ target) same
            (load_days-bounded target lookback ([], []) s found (ground arith) f),
      )
