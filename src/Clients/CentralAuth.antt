-- ===== src/Clients/CentralAuth.antt =====
-- src/wikipeople/clients.py: the answers about accounts of all wikis, and the cache of them.
use wikifame.Base.Int.{pos}
use wikifame.Base.{
  ℕ, false, not, Option, none, some, List, [], ◌∷◌, ◌++◌, leb, if◌then◌else◌, length, Text, codes,
  text_eq,
}
use wikifame.Texts.{strip}
use wikifame.Clients.{Net, MediaWikiClient, fields, word, query_member, request, action}
use wikifame.Errors.{Result, ok, Exec, lift, ◌>>=◌, ◌>>>◌}
use wikifame.Clients.Pages.{no_pages, text_of}
use wikifame.Json.{
  Json, null, integer, object, Members, no_members, get_or, elements, at_zero, truthy, str_value,
}
use wikifame.Upstream.{GlobalUserInfo}
use wikifame.Clients.Accounts.{or_empty, some_text, group_names}

abbrev pub global_group_cache_size : ℕ
global_group_cache_size = 4096

abbrev pub global_account_log_host : Text
global_account_log_host = codes "meta.wikimedia.org"

-- `self._global_users.get(username)`
unfoldable pub cached : Text → List (Text × GlobalUserInfo) → Option GlobalUserInfo
cached username [] = none
cached username ((name, info) ∷ rest) =
    let later = cached username rest in if text_eq name username then some info else later

-- The cache with one more account, and without all others if it was full.
unfoldable pub keep_user :
    Text → GlobalUserInfo → List (Text × GlobalUserInfo) → List (Text × GlobalUserInfo)
keep_user username info users =
    (username, info) ∷ (if leb global_group_cache_size (length users) then [] else users)

abbrev pub remember : {S : Type 0} → Text → GlobalUserInfo → Exec (Net S) GlobalUserInfo
remember username info net =
    (ok info, record { global_users = keep_user username info net.global_users; http = net.http })

module _ {S : Type 0} (c : MediaWikiClient S) where
  -- What `global_lock_reason` makes of the answer.
  unfoldable pub lock_reason_of : Json → Result (Option Text)
  unfolding query_member truthy at_zero get_or some_text strip or_empty str_value
  lock_reason_of received = query_member (codes "logevents") no_pages received >>> λ events.
      if not (truthy events)
      then ok none
      else at_zero events >>> get_or (codes "comment") null >>> λ comment.
          ok (some_text (strip c.python.unicode (text_of c (or_empty comment))))

  unfoldable pub global_lock_reason : Text → Exec (Net S) (Option Text)
  unfolding request lock_reason_of
  global_lock_reason username =
      request c global_account_log_host
        (fields (
          (codes "action", word (codes "query"))
          ∷ (codes "list", word (codes "logevents"))
          ∷ (codes "letype", word (codes "globalauth"))
          ∷ (codes "letitle", word (codes "User:" ++ username ++ codes "@global"))
          ∷ (codes "leprop", word (codes "comment|timestamp"))
          ∷ (codes "lelimit", integer (pos 1))
          ∷ []))
        false
      >>= λ received. lift (lock_reason_of received)

  -- What `global_user_info` makes of the answer.
  unfoldable pub info_of : Json → Result GlobalUserInfo
  unfolding query_member get_or truthy elements group_names
  info_of received = query_member (codes "globaluserinfo") (object no_members) received >>> λ info.
      get_or (codes "groups") null info >>> λ groups.
      (if truthy groups then elements groups >>> group_names else ok []) >>> λ names.
      get_or (codes "locked") null info >>> λ locked.
      ok (record { groups = names; locked = truthy locked })

  abbrev pub user_params : Text → Members
  user_params username = fields (
      (codes "action", word (codes "query"))
      ∷ (codes "meta", word (codes "globaluserinfo"))
      ∷ (codes "guiuser", word username)
      ∷ (codes "guiprop", word (codes "groups"))
      ∷ [])

  -- The request of `global_user_info`.
  unfoldable pub ask_user : Text → Text → Exec (Net S) GlobalUserInfo
  unfolding action info_of
  ask_user wiki username =
      action c wiki (user_params username) false >>= λ received. lift (info_of received)

  unfoldable pub global_user_info : Text → Text → Exec (Net S) GlobalUserInfo
  unfolding cached ask_user keep_user
  global_user_info wiki username net = elim (cached username net.global_users) [
    | some info ↦ (ok info, net)
    | none ↦ (ask_user wiki username >>= remember username) net
  ]
