-- ===== src/Repository/Steps/Tables.antt =====
-- Well-formed tables, and the calls that change others than the queue.
use wikifame.Base.{
  ℕ, ◌<◌, ◌≡◌, refl, sym, ◌∙◌, inl, inr, false, false≢true, Bool-cases, Option-cases, any, find?,
  Distinct, All-filter, All-map, find?-none, any-none, Distinct-filter, Distinct-update_where, Text,
  text_eq_iff,
}
use wikifame.Repository.Cleanup.{cleanup}
use wikifame.Repository.Wikis.{of_wiki, seen_again, register_active_wiki}
use wikifame.Repository.State.{of_key, set_value, set_state}
use wikifame.Repository.Results.{get_result, ResultValues, save_result}
use wikifame.Repository.OptOut.Keys.{optout_key}
use wikifame.Repository.Standing.Keys.{standing_key}
use wikifame.Repository.Queue.Valid.{IsQueueValid}
use wikifame.Models.{Clock, ActiveWiki, AppState, Database, empty_database}
use wikifame.Repository.Results.Valid.{
  IsResultsValid, insert_result-IsResultsValid, overwrite_result-IsResultsValid,
}

pub record IsConsistent (db : Database) : Type 0 where
  pub queue : IsQueueValid db
  pub results : IsResultsValid db
  pub wikis : Distinct (λ (row : ActiveWiki). row.wiki) db.active_wikis
  pub states : Distinct (λ (row : AppState). row.key) db.app_state
  pub optouts : Distinct optout_key db.page_optout
  pub standings : Distinct standing_key db.contributor_standing

pub empty_database-IsConsistent : IsConsistent empty_database
empty_database-IsConsistent = record {
  queue = record { items = tt; ids = tt; keys = tt };
  results = record { known = tt; ids = tt; keys = tt };
  wikis = tt;
  states = tt;
  optouts = tt;
  standings = tt;
}

pub save_result-IsConsistent :
    (db : Database) (v : ResultValues) → IsConsistent db → IsConsistent (save_result db v)
unfolding save_result
save_result-IsConsistent db v c = elim (Option-cases (get_result db v.key)) [
  | inl absent ↦
      rw (absent, save_result)
        (record {
          queue = c.queue;
          results = insert_result-IsResultsValid db v absent c.results;
          wikis = c.wikis;
          states = c.states;
          optouts = c.optouts;
          standings = c.standings;
        })
  | inr (existing, found) ↦
      rw (found, save_result)
        (record {
          queue = c.queue;
          results = overwrite_result-IsResultsValid db v existing found c.results;
          wikis = c.wikis;
          states = c.states;
          optouts = c.optouts;
          standings = c.standings;
        })
]

pub cleanup-IsResultsValid :
    (clock : Clock) (queue_days result_days : ℕ) (db : Database)
    → IsResultsValid db
    → IsResultsValid (cleanup clock queue_days result_days db).0
unfolding cleanup
cleanup-IsResultsValid clock queue_days result_days db v = record {
  known = All-filter (λ r. r.id < db.next_result_id) _ db.attribution_results v.known;
  ids = Distinct-filter (λ r. r.id) _ db.attribution_results v.ids;
  keys = Distinct-filter (λ r. r.key) _ db.attribution_results v.keys;
}

pub register_active_wiki-IsConsistent :
    (clock : Clock) (wiki : Text) (db : Database)
    → IsConsistent db
    → IsConsistent (register_active_wiki clock wiki db).0
unfolding register_active_wiki
register_active_wiki-IsConsistent clock wiki db c =
    elim (Bool-cases (any (of_wiki wiki) db.active_wikis)) [
      | inl known ↦
          rw (known, register_active_wiki)
            (record {
              queue = c.queue;
              results = c.results;
              wikis =
                  Distinct-update_where (λ row. row.wiki) (of_wiki wiki) (seen_again clock)
                    db.active_wikis (λ row. refl) c.wikis;
              states = c.states;
              optouts = c.optouts;
              standings = c.standings;
            })
      | inr new ↦
          rw (new, register_active_wiki)
            (record {
              queue = c.queue;
              results = c.results;
              wikis = (
                All-map (λ row. of_wiki wiki row ≡ false) db.active_wikis
                    (λ row apart same.
                      absurd (false≢true (sym apart ∙ (text_eq_iff row.wiki wiki).1 same)))
                    (any-none (of_wiki wiki) db.active_wikis new),
                c.wikis,
              );
              states = c.states;
              optouts = c.optouts;
              standings = c.standings;
            })
    ]

pub set_state-IsConsistent :
    (clock : Clock) (key value : Text) (db : Database)
    → IsConsistent db
    → IsConsistent (set_state clock key value db)
unfolding set_state
set_state-IsConsistent clock key value db c =
    elim (Option-cases (find? (of_key key) db.app_state)) [
      | inr (row, known) ↦
          rw (known, set_state)
            (record {
              queue = c.queue;
              results = c.results;
              wikis = c.wikis;
              states =
                  Distinct-update_where (λ row. row.key) (of_key key) (set_value clock value)
                    db.app_state (λ row. refl) c.states;
              optouts = c.optouts;
              standings = c.standings;
            })
      | inl new ↦
          rw (new, set_state)
            (record {
              queue = c.queue;
              results = c.results;
              wikis = c.wikis;
              states = (
                All-map (λ row. of_key key row ≡ false) db.app_state
                    (λ row apart same.
                      absurd (false≢true (sym apart ∙ (text_eq_iff row.key key).1 same)))
                    (find?-none (of_key key) db.app_state new),
                c.states,
              );
              optouts = c.optouts;
              standings = c.standings;
            })
    ]
