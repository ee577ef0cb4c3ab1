-- ===== src/Clients/Cache.antt =====
-- What the cache of `global_user_info` keeps, and what it saves.
use wikifame.Base.{
  ◌≤◌, ◌≡◌, refl, sym, inl, inr, Bool, false, none, some, List, arith, leb, Bool-cases,
  Option-cases, length, Text, text_eq_refl,
}
use wikifame.Clients.CentralAuth.{
  global_group_cache_size, cached, keep_user, remember, info_of, user_params, ask_user,
  global_user_info,
}
use wikifame.Clients.{Net, MediaWikiClient, request, action}
use wikifame.Upstream.{GlobalUserInfo}
use wikifame.Json.{Members}
use wikifame.Errors.{Result, ok, err, Exec, lift, and_then, ◌>>=◌}
use wikifame.Sites.{host}
use wikifame.Replica.{decode}

-- As many accounts as the client keeps, at most.
abbrev pub IsBounded : {S : Type 0} → Net S → Type 0
IsBounded net = length net.global_users ≤ global_group_cache_size

length-keep_user :
    (username : Text) (info : GlobalUserInfo) (users : List (Text × GlobalUserInfo))
    → length users ≤ global_group_cache_size
    → length (keep_user username info users) ≤ global_group_cache_size
unfolding keep_user
length-keep_user username info users h =
    elim (Bool-cases (leb global_group_cache_size (length users))) [
      | inl full ↦ rw full (omega arith)
      | inr free ↦ rw free (ground arith)
    ]

cached-keep_user :
    (username : Text) (info : GlobalUserInfo) (users : List (Text × GlobalUserInfo))
    → cached username (keep_user username info users) ≡ some info
unfolding cached keep_user
cached-keep_user username info users = rw (text_eq_refl username) refl

module _ {S A : Type 0} where
  -- However the call ends, the cache is within its bound if it was before.
  abbrev Keeps : Exec (Net S) A → Type 0
  Keeps m = (net : Net S) → IsBounded net → IsBounded (m net).1

  lift-Keeps : (r : Result A) → Keeps (lift r)
  lift-Keeps r net h = h

module _ {S A B : Type 0} where
  >>=-Keeps :
      (m : Exec (Net S) A) (f : A → Exec (Net S) B)
      → Keeps m
      → ((a : A) → Keeps (f a))
      → Keeps (m >>= f)
  >>=-Keeps m f first rest net h = go (m net).0
    where
      go : (r : Result A) → IsBounded (and_then r f (m net).1).1
      go (ok a) = rest a (m net).1 (first net h)
      go (err e) = first net h

  -- Decoding an answer changes no cache.
  decoded-Keeps :
      (m : Exec (Net S) A) (decode : A → Result B) → Keeps m → Keeps (m >>= λ a. lift (decode a))
  decoded-Keeps m decode first =
      >>=-Keeps m (λ a. lift (decode a)) first (λ a. lift-Keeps (decode a))

module _ {S : Type 0} (c : MediaWikiClient S) where
  action-Keeps :
      (wiki : Text) (params : Members) (posts : Bool) → Keeps (action c wiki params posts)
  unfolding action request
  action-Keeps wiki params posts =
      >>=-Keeps (lift (host c.resolver wiki)) (λ h. request c h params posts)
        (lift-Keeps (host c.resolver wiki)) (λ h net bounded. bounded)

  remember-Keeps :
      (username : Text) (info : GlobalUserInfo) → Keeps (remember {S = S} username info)
  remember-Keeps username info net h = length-keep_user username info net.global_users h

  -- Whatever CentralAuth answers or fails to answer, the cache of accounts never holds more than
  -- 4096 entries after a call if it did not before.
  pub global_user_info-IsBounded :
      (wiki username : Text) (net : Net S)
      → IsBounded net
      → IsBounded (global_user_info c wiki username net).1
  unfolding global_user_info ask_user
  global_user_info-IsBounded wiki username net h =
      elim (Option-cases (cached username net.global_users)) [
        | inl absent ↦
            rw (global_user_info, absent)
              (>>=-Keeps (ask_user c wiki username) (remember username)
                (decoded-Keeps (action c wiki (user_params c username) false) (info_of c)
                  (action-Keeps wiki (user_params c username) false))
                (remember-Keeps username) net h)
        | inr (info, known) ↦ rw (global_user_info, known) h
      ]

  -- An account in the cache is not asked about.
  global_user_info-cached :
      (wiki username : Text) (net : Net S) {info : GlobalUserInfo}
      → cached username net.global_users ≡ some info
      → global_user_info c wiki username net ≡ (ok info, net)
  unfolding global_user_info
  global_user_info-cached wiki username net known = rw (global_user_info, known) refl

  global_user_info-absent :
      (wiki username : Text) (net : Net S)
      → cached username net.global_users ≡ none
      → global_user_info c wiki username net ≡ (ask_user c wiki username >>= remember username) net
  unfolding global_user_info
  global_user_info-absent wiki username net absent = rw (global_user_info, absent) refl

  -- What a call that asks leaves behind.
  abbrev Repeats : Text → Text → Result GlobalUserInfo × Net S → Type 0
  Repeats wiki username (r, net) =
      (info : GlobalUserInfo) → r ≡ ok info → global_user_info c wiki username net ≡ (ok info, net)

  remember-Repeats :
      (wiki username : Text) (r : Result GlobalUserInfo) (net : Net S)
      → Repeats wiki username (and_then r (remember username) net)
  remember-Repeats wiki username (ok info) net info' e =
      let same : info ≡ info' = ground arith in
      rw (sym same)
        (global_user_info-cached wiki username _ (cached-keep_user username info net.global_users))
  remember-Repeats wiki username (err x) net info e = cc

  -- If the groups and the lock of an account are read, then a second question about it, of whatever
  -- wiki, has the same answer, and makes no request.
  pub global_user_info-repeats :
      (wiki username : Text) (net : Net S) {info : GlobalUserInfo}
      → (global_user_info c wiki username net).0 ≡ ok info
      → (later_wiki : Text)
      → global_user_info c later_wiki username (global_user_info c wiki username net).1
        ≡ (ok info, (global_user_info c wiki username net).1)
  global_user_info-repeats wiki username net {info} e later_wiki =
      elim (Option-cases (cached username net.global_users)) [
        | inl absent ↦
            let asked = ask_user c wiki username net in
            let missed = global_user_info-absent wiki username net absent in
            rw missed (remember-Repeats later_wiki username asked.0 asked.1 info (rw missed at e))
        | inr (info', known) ↦
            let hit = global_user_info-cached wiki username net known in
            let same : info' ≡ info = ground (arith, hit) in
            rw hit (global_user_info-cached later_wiki username net (rw same at known))
      ]
