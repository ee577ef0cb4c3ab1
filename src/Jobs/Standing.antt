-- ===== src/Jobs/Standing.antt =====
-- src/wikipeople/standing.py: refreshing what is known of the accounts that are named.
use wikifame.Base.{
  ℕ, ◌+◌, ◌-◌, Bool, true, false, not, Option, none, some, List, [], ◌∷◌, ◌++◌, ◌==◌, if◌then◌else◌,
  is_some, length, take, any, filter, Text,
}
use wikifame.Jobs.{resolve_target_wikis, sync_each, counted}
use wikifame.Config.{Settings}
use wikifame.Models.{Time, seconds, Clock, later, Database}
use wikifame.Errors.{Failure, is_wikipeople_error, Result, ok, err, Exec, pure, ◌>>=◌}
use wikifame.Repository.Standing.{
  StandingRecord, standing_records, wanted_record, lock_check_candidates, named_contributor_ids,
  replace_standing,
}
use wikifame.Sites.{SiteResolver}
use wikifame.Upstream.{GlobalUserInfo, Standings, MediaWiki, World, ask, query}
use wikifame.Policy.Standing.{AccountStanding}

-- What a run of the job is built from.
pub record StandingJob (S : Type 0) : Type 0 where
  pub settings : Settings
  pub mediawiki : MediaWiki S

-- `user_id not in known`
unfoldable pub unseen : List StandingRecord → List ℕ → List ℕ
unfolding filter wanted_record
unseen known user_ids = filter (λ id. not (is_some (wanted_record known id))) user_ids

-- The accounts whose lock is asked for: those that wait longest, and then those without a row. The
-- rows of a wiki have different accounts, so the set is as large as the list.
unfoldable pub due_ids : Settings → Text → Time → Database → List ℕ
unfolding lock_check_candidates unseen named_contributor_ids standing_records
due_ids settings wiki now db =
    let cutoff = now - seconds settings.standing_lock_recheck_seconds in
    let limit = settings.standing_lock_checks_per_run in
    let candidates = lock_check_candidates db wiki cutoff limit in
    candidates
    ++ take (limit - length candidates)
        (unseen (standing_records db wiki) (named_contributor_ids db wiki))

-- What is known of the lock of an account.
pub record LockState : Type 0 where
  pub locked : Bool
  pub reason : Option Text
  pub checked_at : Option Time

abbrev pub lock_known : Option StandingRecord → LockState
lock_known none = record { locked = false; reason = none; checked_at = none }
lock_known (some r) = record {
  locked = r.standing.globally_locked;
  reason = r.standing.lock_reason;
  checked_at = r.lock_checked_at;
}

-- `except WikiPeopleError`: the account keeps what the assignments before had set.
abbrev pub or_keep : {S : Type 0} → LockState → Failure → S → Result (LockState × Bool) × S
or_keep lock e s = if is_wikipeople_error e then (ok (lock, false), s) else (err e, s)

abbrev pub refreshed_record : AccountStanding → ℕ → LockState → StandingRecord
refreshed_record block user_id lock = record {
  standing = record block {
    user_id = user_id;
    globally_locked = lock.locked;
    lock_reason = lock.reason;
  };
  lock_checked_at = lock.checked_at;
}

abbrev pub is_due : List ℕ → ℕ → Bool
is_due due user_id = any (λ id. id == user_id) due

abbrev pub keep : Option StandingRecord → List StandingRecord → List StandingRecord
keep none records = records
keep (some r) records = r ∷ records

abbrev pub Refreshed : Type 0
Refreshed = List StandingRecord × ℕ

module _ {S : Type 0} (job : StandingJob S) (wiki : Text) (now : Time) where
  -- Behind the answer of `global_lock_reason`.
  abbrev pub reason_given : LockState → Result (Option Text) × S → Result (LockState × Bool) × S
  reason_given lock (ok reason, s) =
      (ok (record { locked = true; reason = reason; checked_at = some now }, true), s)
  reason_given lock (err e, s) = or_keep (record lock { locked = true }) e s

  -- Behind the answer of `global_user_info`.
  abbrev pub info_given :
      Text → LockState → Result GlobalUserInfo × S → Result (LockState × Bool) × S
  info_given username lock (ok info, s) =
      if info.locked
      then reason_given lock (job.mediawiki.global_lock_reason username s)
      else (ok (record { locked = false; reason = none; checked_at = some now }, true), s)
  info_given username lock (err e, s) = or_keep lock e s

  -- The lock of an account that is due, and whether it was read.
  unfoldable pub check_lock : Text → LockState → Exec S (LockState × Bool)
  check_lock username lock s =
      info_given username lock (job.mediawiki.global_user_info wiki username s)

  -- The record of an account that MediaWiki knows, and how many locks were read for it.
  unfoldable pub refresh :
      List ℕ → ℕ → AccountStanding → Option StandingRecord → Exec S (StandingRecord × ℕ)
  unfolding check_lock any
  refresh due user_id block previous =
      if is_due due user_id
      then (check_lock block.username (lock_known previous) >>= λ (lock, read).
          pure (refreshed_record block user_id lock, if read then 1 else 0))
      else pure (refreshed_record block user_id (lock_known previous), 0)

  -- The loop over the accounts.
  unfoldable pub refresh_all : List StandingRecord → Standings → List ℕ → List ℕ → Exec S Refreshed
  unfolding refresh wanted_record
  refresh_all known blocks due [] = pure ([], 0)
  refresh_all known blocks due (user_id ∷ user_ids) =
      let previous = wanted_record known user_id in
      let rest = refresh_all known blocks due user_ids in
      elim (blocks user_id) [
        | none ↦ rest >>= λ (records, n). pure (keep previous records, n)
        | some block ↦ refresh due user_id block previous >>= λ (r, read).
            rest >>= λ (records, n). pure (r ∷ records, read + n)
      ]

  -- The records that the run has for the wiki, and how many locks were read.
  unfoldable pub read_records : Database → Exec S Refreshed
  unfolding named_contributor_ids standing_records due_ids refresh_all
  read_records db =
      let user_ids = named_contributor_ids db wiki in
      job.mediawiki.fetch_standing wiki user_ids >>= λ blocks.
      refresh_all (standing_records db wiki) blocks (due_ids job.settings wiki now db) user_ids

  abbrev pub on_wiki : Exec (World S) Refreshed
  on_wiki w = ask (read_records w.db) w

abbrev pub write_records :
    {S : Type 0} → Text → Clock → Bool → List StandingRecord × ℕ → Exec (World S) (ℕ × ℕ × ℕ × ℕ)
write_records wiki clock true (records, read) = pure (length records, 0, 0, 0)
write_records wiki clock false (records, read) =
    query (counted (replace_standing (later 1 clock) wiki records)) >>= λ (added, removed).
    pure (length records, added, removed, read)

-- How many accounts are tracked, how many rows were added and removed, and how many locks read.
unfoldable pub sync_wiki :
    {S : Type 0} → StandingJob S → Text → Clock → Bool → Exec (World S) (ℕ × ℕ × ℕ × ℕ)
unfolding read_records replace_standing
sync_wiki job wiki clock dry_run = on_wiki job wiki (clock 0) >>= write_records wiki clock dry_run

module _ {S : Type 0} (job : StandingJob S) (clocks : Text → Clock) (dry_run : Bool) where
  abbrev pub tracked_by : Text → Exec (World S) ℕ
  tracked_by wiki = sync_wiki job wiki (clocks wiki) dry_run >>= λ n. pure n.0

  unfoldable pub sync_standings : SiteResolver → Option Text → Exec (World S) ℕ
  unfolding sync_each sync_wiki resolve_target_wikis
  sync_standings resolver explicit w =
      sync_each tracked_by (resolve_target_wikis resolver w.db explicit) w
