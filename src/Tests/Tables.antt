-- ===== src/Tests/Tables.antt =====
-- The results and the opt-outs at concrete inputs.
use wikifame.Base.{ℕ, ◌≡◌, ◌≢◌, false, some, List, [], ◌∷◌, ◌==◌, any, codes, text_eq}
use wikifame.Models.{Database, empty_database}
use wikifame.Repository.Results.{get_result, get_latest_result, row_of, save_result}
use wikifame.Repository.Results.Valid.{
  IsResultsValid, save_result-IsResultsValid, get_result-save_result,
}
use wikifame.Repository.Cleanup.{cleanup}
use wikifame.Repository.Cleanup.Keeps.{get_latest_result-cleanup}
use wikifame.Repository.OptOut.{OptOutEntry, is_opted_out, replace_optout}
use wikifame.Repository.OptOut.Replace.{is_opted_out-replace_optout}
use wikifame.Tests.Data.{clock_at, page_of, revision_of, values_of}

empty-IsResultsValid : IsResultsValid empty_database
empty-IsResultsValid = record { known = tt; ids = tt; keys = tt }

abbrev stored_once : Database
stored_once = save_result empty_database (values_of 7 30 100)

abbrev stored_twice : Database
stored_twice = save_result stored_once (values_of 7 31 900)

stored_once-IsResultsValid : IsResultsValid stored_once
stored_once-IsResultsValid =
    save_result-IsResultsValid empty_database (values_of 7 30 100) empty-IsResultsValid

get_result-save_result_example :
    ((id : ℕ) × (get_result stored_twice (revision_of 7 31)
        ≡ some (row_of id (values_of 7 31 900))))
    × (revision_of 7 30 ≢ revision_of 7 31
        → get_result stored_twice (revision_of 7 30) ≡ get_result stored_once (revision_of 7 30))
get_result-save_result_example =
    get_result-save_result stored_once (values_of 7 31 900) (revision_of 7 30)
      stored_once-IsResultsValid

stored_twice-IsResultsValid : IsResultsValid stored_twice
stored_twice-IsResultsValid =
    save_result-IsResultsValid stored_once (values_of 7 31 900) stored_once-IsResultsValid

get_latest_result-cleanup_example :
    get_latest_result (cleanup (clock_at 99999999) 30 30 stored_twice).0 (page_of 7)
    ≡ get_latest_result stored_twice (page_of 7)
get_latest_result-cleanup_example =
    get_latest_result-cleanup (clock_at 99999999) 30 30 stored_twice (page_of 7)
      stored_twice-IsResultsValid

abbrev entries : List OptOutEntry
entries =
    record { page_id = 7; title = codes "A"; source = codes "Liste" }
    ∷ record { page_id = 9; title = codes "B"; source = codes "Liste" }
    ∷ []

abbrev listed : Database
listed = record empty_database {
  page_optout =
      record {
        wiki = codes "frwiki";
        page_id = 8;
        title = codes "C";
        source = codes "Liste";
        synced_at = 5;
      }
      ∷ [];
}

is_opted_out-replace_optout_example :
    (is_opted_out
        (replace_optout (clock_at 50) (codes "frwiki") entries listed).0
        (codes "frwiki")
        8
      ≡ any (λ e. e.page_id == 8) entries)
    × (text_eq (codes "frwiki") (codes "enwiki") ≡ false
        → is_opted_out
            (replace_optout (clock_at 50) (codes "frwiki") entries listed).0
            (codes "enwiki")
            8
          ≡ is_opted_out listed (codes "enwiki") 8)
is_opted_out-replace_optout_example =
    is_opted_out-replace_optout (clock_at 50) (codes "frwiki") (codes "enwiki") entries listed 8
