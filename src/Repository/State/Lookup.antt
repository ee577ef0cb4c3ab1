-- ===== src/Repository/State/Lookup.antt =====
-- What `set_state` stores is what `get_state` reads.
use wikifame.Base.{
  ◌≡◌, refl, inl, inr, true, false, some, arith, Bool-cases, Option-cases, find?,
  find?-update_where, find?-update_apart, find?-holds, Text, text_eq, text_eq_iff,
}
use wikifame.Models.{Clock, Database}
use wikifame.Repository.State.{of_key, get_state, set_value, set_state}

-- After `set_state`, `get_state` reads the value under the key, and under another what it did.
pub get_state-set_state :
    (clock : Clock) (key value : Text) (db : Database)
    → (get_state (set_state clock key value db) key ≡ some value)
      × ((other : Text)
          → text_eq key other ≡ false
          → get_state (set_state clock key value db) other ≡ get_state db other)
unfolding get_state set_state
get_state-set_state clock key value db = elim (Option-cases (find? (of_key key) db.app_state)) [
  | inl new ↦
      let own : text_eq key key ≡ true = (text_eq_iff key key).1 refl in
      rw (new, set_state, get_state) (rw own refl, λ other apart. rw apart refl)
  | inr (row, known) ↦
      let same =
        find?-update_where (of_key key) (of_key key) (set_value clock value) db.app_state
          (λ row. refl) in
      let own : of_key key row ≡ true = find?-holds (of_key key) db.app_state known in
      rw (known, set_state, get_state)
        (
          rw (same, known, own) refl,
          λ other apart.
              rw
                (find?-update_apart (of_key other) (of_key key) (set_value clock value) db.app_state
                  (λ row. refl)
                  (λ row hit. elim (Bool-cases (of_key key row)) [
                    | inl t ↦ absurd (
                        ground (
                          arith,
                          text_eq_iff row.key key,
                          text_eq_iff row.key other,
                          text_eq_iff key other,
                        ))
                    | inr f ↦ f
                  ]))
                refl,
        )
]
