-- ===== src/Jobs/Articles.antt =====
-- What the opt-out job makes of the table.
use wikifame.Base.{
  ℕ, ◌≡◌, refl, sym, subst, Bool, true, false, List, arith, ◌==◌, any, Text, text_eq,
}
use wikifame.Jobs.OptOut.{Collected, OptOutJob, read_entries, write_entries, sync_wiki}
use wikifame.Repository.OptOut.{OptOutEntry, is_opted_out}
use wikifame.Errors.{Failure, Result, ok, err, and_then}
use wikifame.Models.{Clock}
use wikifame.Upstream.{World}
use wikifame.Repository.OptOut.Replace.{is_opted_out-replace_optout}

abbrev covers : ℕ → List OptOutEntry → Bool
covers page_id entries = any (λ e. e.page_id == page_id) entries

module _ {S : Type 0} (job : OptOutJob S) (wiki : Text) (clock : Clock) where
  -- The rest of a run, once the entries are read or are not.
  abbrev written : Bool → Result Collected → World S → Result (ℕ × ℕ × ℕ) × World S
  written dry_run r w = and_then r (write_entries job wiki clock dry_run) w

  failed_unchanged :
      (dry_run : Bool) (r : Result Collected) (w : World S) (e : Failure)
      → (written dry_run r w).0 ≡ err e
      → (written dry_run r w).1.db ≡ w.db
  failed_unchanged dry_run (err x) w e h = refl
  failed_unchanged true (ok (entries, skipped)) w e h = refl
  failed_unchanged false (ok (entries, skipped)) w e h = absurd (ground arith)

  reported_unchanged : (r : Result Collected) (w : World S) → (written true r w).1.db ≡ w.db
  reported_unchanged (err x) w = refl
  reported_unchanged (ok (entries, skipped)) w = refl

  -- A run of the opt-out job for a wiki changes no table if it raises, and a dry run changes none
  -- either way.
  pub sync_wiki-unchanged :
      (dry_run : Bool) (w : World S)
      → ((e : Failure)
          → (sync_wiki job wiki clock dry_run w).0 ≡ err e
          → (sync_wiki job wiki clock dry_run w).1.db ≡ w.db)
        × ((sync_wiki job wiki clock true w).1.db ≡ w.db)
  unfolding sync_wiki
  sync_wiki-unchanged dry_run w =
      let (r, net) = read_entries job wiki w.net in
      let start : World S = record { db = w.db; net = net } in
      (failed_unchanged dry_run r start, reported_unchanged r start)

  -- If the entries of a wiki are read, then after its run of the opt-out job the opted-out pages
  -- of the wiki are exactly those of the entries, and those of every other wiki are the ones that
  -- they were.
  pub sync_wiki-covers :
      (w : World S) (entries : List OptOutEntry) (skipped : List Text)
      → (read_entries job wiki w.net).0 ≡ ok (entries, skipped)
      → (page_id : ℕ) (other : Text)
      → (is_opted_out (sync_wiki job wiki clock false w).1.db wiki page_id
          ≡ any (λ e. e.page_id == page_id) entries)
        × (text_eq wiki other ≡ false
            → is_opted_out (sync_wiki job wiki clock false w).1.db other page_id
              ≡ is_opted_out w.db other page_id)
  unfolding sync_wiki
  sync_wiki-covers w entries skipped e page_id other =
      let net = (read_entries job wiki w.net).1 in
      subst
        (λ r.
          (is_opted_out (written false r (record { db = w.db; net = net })).1.db wiki page_id
            ≡ any (λ e. e.page_id == page_id) entries)
          × (text_eq wiki other ≡ false
              → is_opted_out (written false r (record { db = w.db; net = net })).1.db other page_id
                ≡ is_opted_out w.db other page_id))
        (sym e) (is_opted_out-replace_optout clock wiki other entries w.db page_id)
