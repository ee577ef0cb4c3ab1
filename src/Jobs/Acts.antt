-- ===== src/Jobs/Acts.antt =====
-- The jobs change the tables by calls of `Repository` only.
use wikifame.Base.{ℕ, inl, inr, Bool, true, false, Option, List, [], ◌∷◌, Bool-cases, Text}
use wikifame.Jobs.{resolve_target_wikis, add_count, go_on, sync_each}
use wikifame.Errors.{is_wikipeople_error, Result, ok, err, Exec}
use wikifame.Models.{Clock, later, Database}
use wikifame.Repository.Steps.{optouts_replaced, standings_replaced, Reach, here, next, Reach_trans}
use wikifame.Upstream.{World, ask}
use wikifame.Upstream.Advances.{Advances, ask-Advances, >>=-Advances}
use wikifame.Jobs.OptOut.{
  Collected, OptOutJob, read_entries, write_entries, covered_by, sync_optouts,
}
use wikifame.Jobs.Standing.{
  StandingJob, Refreshed, on_wiki, write_records, tracked_by, sync_standings,
}
use wikifame.Repository.OptOut.{replace_optout}
use wikifame.Sites.{SiteResolver}
use wikifame.Jobs.OptOut.{
  Collected, OptOutJob, read_entries, write_entries, covered_by, sync_optouts,
  sync_wiki as sync_optout,
}
use wikifame.Jobs.Standing.{
  StandingJob, Refreshed, on_wiki, write_records, tracked_by, sync_standings,
  sync_wiki as sync_standing,
}

add_count-Reach :
    {S : Type 0} (n : ℕ) (r : Result ℕ × World S) (start : Database)
    → Reach start r.1.db
    → Reach start (add_count n r).1.db
add_count-Reach n (ok more, w) start h = h
add_count-Reach n (err e, w) start h = h

module _ {S : Type 0} where
  go_on-Advances :
      (r : Result ℕ × World S) (rest : Exec (World S) ℕ) (start : Database)
      → Reach start r.1.db
      → Advances rest
      → Reach start (go_on r rest).1.db
  go_on-Advances (ok n, w) rest start reached more =
      add_count-Reach n (rest w) start (Reach_trans reached (more w))
  go_on-Advances (err e, w) rest start reached more = elim (Bool-cases (is_wikipeople_error e)) [
    | inl caught ↦ rw caught (Reach_trans reached (more w))
    | inr raised ↦ rw raised reached
  ]

  -- A loop over wikis advances if its body does.
  pub sync_each-Advances :
      (sync : Text → Exec (World S) ℕ) (wikis : List Text)
      → ((wiki : Text) → Advances (sync wiki))
      → Advances (sync_each sync wikis)
  unfolding sync_each
  sync_each-Advances sync [] each w = here
  sync_each-Advances sync (wiki ∷ wikis) each w =
      go_on-Advances (sync wiki w) (sync_each sync wikis) w.db (each wiki w)
        (sync_each-Advances sync wikis each)

module _ {S : Type 0} (job : OptOutJob S) (wiki : Text) (clock : Clock) where
  write_entries-Advances :
      (dry_run : Bool) (c : Collected) → Advances (write_entries job wiki clock dry_run c)
  unfolding replace_optout
  write_entries-Advances true (entries, skipped) w = here
  write_entries-Advances false (entries, skipped) w =
      next here (optouts_replaced clock wiki entries w.db)

  covered-Advances : (dry_run : Bool) → Advances (sync_optout job wiki clock dry_run)
  unfolding sync_optout
  covered-Advances dry_run =
      >>=-Advances (ask (read_entries job wiki)) (write_entries job wiki clock dry_run)
        (ask-Advances (read_entries job wiki)) (λ w c e. write_entries-Advances dry_run c)

module _ {S : Type 0} (job : StandingJob S) (wiki : Text) (clock : Clock) where
  write_records-Advances :
      (dry_run : Bool) (r : Refreshed) → Advances {S = S} (write_records wiki clock dry_run r)
  write_records-Advances true (records, n) w = here
  write_records-Advances false (records, n) w =
      next here (standings_replaced (later 1 clock) wiki records w.db)

  tracked-Advances : (dry_run : Bool) → Advances (sync_standing job wiki clock dry_run)
  unfolding sync_standing
  tracked-Advances dry_run =
      >>=-Advances (on_wiki job wiki (clock 0)) (write_records wiki clock dry_run) (λ w. here)
        (λ w r e. write_records-Advances dry_run r)

-- Whatever MediaWiki answers or raises, all that the opt-out job does to the tables is a sequence
-- of writing calls of `Repository`.
pub sync_optouts-Reach :
    {S : Type 0} (job : OptOutJob S) (clocks : Text → Clock) (dry_run : Bool)
    (resolver : SiteResolver) (explicit : Option Text) (w : World S)
    → Reach w.db (sync_optouts job clocks dry_run resolver explicit w).1.db
unfolding sync_optouts
sync_optouts-Reach job clocks dry_run resolver explicit w =
    sync_each-Advances (covered_by job clocks dry_run) (resolve_target_wikis resolver w.db explicit)
      (λ wiki.
        >>=-Advances (sync_optout job wiki (clocks wiki) dry_run) _
          (covered-Advances job wiki (clocks wiki) dry_run) (λ w' n e w''. here))
      w

-- Whatever MediaWiki answers or raises, all that the standing job does to the tables is a sequence
-- of writing calls of `Repository`.
pub sync_standings-Reach :
    {S : Type 0} (job : StandingJob S) (clocks : Text → Clock) (dry_run : Bool)
    (resolver : SiteResolver) (explicit : Option Text) (w : World S)
    → Reach w.db (sync_standings job clocks dry_run resolver explicit w).1.db
unfolding sync_standings
sync_standings-Reach job clocks dry_run resolver explicit w =
    sync_each-Advances (tracked_by job clocks dry_run) (resolve_target_wikis resolver w.db explicit)
      (λ wiki.
        >>=-Advances (sync_standing job wiki (clocks wiki) dry_run) _
          (tracked-Advances job wiki (clocks wiki) dry_run) (λ w' n e w''. here))
      w
