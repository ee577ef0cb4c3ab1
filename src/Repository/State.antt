-- ===== src/Repository/State.antt =====
-- The methods of `Repository` on `app_state`.
pub mod Lookup
use wikifame.Base.{Bool, Option, none, some, ◌∷◌, find?, update_where, Text, text_eq}
use wikifame.Models.{Clock, AppState, Database}

abbrev pub of_key : Text → AppState → Bool
of_key key row = text_eq row.key key

unfoldable pub get_state : Database → Text → Option Text
unfolding find?
get_state db key = elim (find? (of_key key) db.app_state) [
  | none ↦ none
  | some row ↦ some row.value
]

abbrev pub set_value : Clock → Text → AppState → AppState
set_value clock value row = record row { value = value; updated_at = clock 0 }

unfoldable pub set_state : Clock → Text → Text → Database → Database
unfolding find? update_where
set_state clock key value db = elim (find? (of_key key) db.app_state) [
  | none ↦ record db {
    app_state = record { key = key; value = value; updated_at = clock 0 } ∷ db.app_state;
  }
  | some row ↦ record db {
    app_state = update_where (of_key key) (set_value clock value) db.app_state;
  }
]
