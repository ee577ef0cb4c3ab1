-- ===== src/Tests/Copied.antt =====
-- The theorems on counts, overrides and the migration at concrete inputs.
use wikifame.Config.Environment.{int_by_wiki}
use wikifame.Base.Int.{pos, negsuc}
use wikifame.Config.Overrides.{KnowsSigns, override_text, IsName, int_by_wiki-override_text}
use wikifame.Base.{
  Bool, not, ◌&&◌, any, ◌++◌, ℕ, ◌+◌, ◌≡◌, refl, true, false, List, [], ◌∷◌, map, arith, ◌==◌,
  if◌then◌else◌, length, filter, All, count_of, total, Distinct, Text, codes, text_eq,
}
use wikifame.Migrate.Copies.{migrate-copies}
use wikifame.Errors.{Failure, ok, err}
use wikifame.Repository.Counts.{state_name, stats}
use wikifame.Migrate.{TableOutcome, is_complete_outcome, Engine, migrate}
use wikifame.Tests.Data.{queue_of_two, ascii}
use wikifame.Repository.Counts.Totals.{stats_lem}
use wikifame.Models.{WorkState, WorkItem}
use wikifame.Texts.{join}
use wikifame.Tests.Walks.{ascii-KnowsDigits}

-- Two tables of numbers, which are their keys.
abbrev is_new : List ℕ → Bool
is_new [] = true
is_new (n ∷ ns) = not (any (λ m. m == n) ns) && is_new ns

abbrev engine : Engine ℕ
engine = record {
  accepts = λ name rows batch. is_new (rows ++ batch);
  sorted_tables = codes "a" ∷ codes "b" ∷ [];
}

abbrev source_tables : Text → List ℕ
source_tables name = if text_eq name (codes "a") then 1 ∷ 2 ∷ [] else 3 ∷ []

abbrev target_tables : Text → List ℕ
target_tables name = if text_eq name (codes "a") then 2 ∷ 9 ∷ [] else []

apart : Distinct {A = Text} (λ name. name) engine.sorted_tables
apart = ((λ e. ground arith, tt), (tt, tt))

migrate-copies_example :
    let (r, target') = migrate engine source_tables target_tables true in
    ((outcomes : List TableOutcome)
      → r ≡ ok outcomes
      → All (λ outcome. is_complete_outcome outcome ≡ true) outcomes
        × All (λ name. target' name ≡ source_tables name) engine.sorted_tables)
    × ((e : Failure) → r ≡ err e → target' ≡ target_tables)
migrate-copies_example = migrate-copies engine source_tables target_tables true apart

stats_lem_example :
    ((state : WorkState)
      → count_of text_eq (state_name state) (stats queue_of_two)
        ≡ length (
            filter
              (λ (w : WorkItem). text_eq (state_name w.state) (state_name state))
              queue_of_two.work_queue))
    × (total (stats queue_of_two)
        ≡ length queue_of_two.attribution_results + length queue_of_two.work_queue)
stats_lem_example = stats_lem queue_of_two

signs_known : KnowsSigns ascii
signs_known = record {
  digits_known = ascii-KnowsDigits;
  digit_solid = λ d low. ground arith;
  minus_solid = refl;
  colon_solid = refl;
}

abbrev wiki_name : Text
wiki_name = codes "dewiki"

wiki_named : IsName ascii signs_known wiki_name
wiki_named =
    let r : All (λ c. ascii.is_space c ≡ false) wiki_name =
      (refl, (refl, (refl, (refl, (refl, (refl, tt)))))) in
    let s : All (λ c. (c == b',') ≡ false) wiki_name =
      (refl, (refl, (refl, (refl, (refl, (refl, tt)))))) in
    let t : All (λ c. (c == b':') ≡ false) wiki_name =
      (refl, (refl, (refl, (refl, (refl, (refl, tt)))))) in
    ((r, (b'd', codes "ewiki", refl)), s, t)

int_by_wiki-override_text_example :
    int_by_wiki ascii
      (join (codes ",") (map override_text ((wiki_name, pos 2592000) ∷ (wiki_name, negsuc 0) ∷ [])))
    ≡ ok ((wiki_name, pos 2592000) ∷ (wiki_name, negsuc 0) ∷ [])
int_by_wiki-override_text_example =
    int_by_wiki-override_text ascii signs_known
      ((wiki_name, pos 2592000) ∷ (wiki_name, negsuc 0) ∷ []) (wiki_named, (wiki_named, tt))
