-- ===== src/Login/Laws.antt =====
-- internal/handlers/login.go: what a login and a logout leave in the database.
use mathlib.Core.Option
use gdrive_bot.Base.{
  ℕ, ◌≡◌, refl, sym, ◌∙◌, ap, subst, Bool, true, false, Option, none, some, [], Str, bytes, str_eq,
  if◌then◌else◌, ℤ, Error, Result, ok, err, ok_inj, Act, ◌>>◌, continue-ok, map_error, wrap,
  some_inj,
}
use gdrive_bot.Database.States.{get_login, or_not_found, outcome-ok}
use gdrive_bot.Database.Users.{get, save_google_token, clear_google_token}
use gdrive_bot.Deps.{drive_client_for, client_for, client_of, not_logged_in}
use gdrive_bot.Models.{User, GoogleToken, PendingLogin}
use gdrive_bot.Login.{
  Env, World, dropped, not_connected, remote_removed, say_logged_out, remote_name, on_users,
  no_pending_login, make_remote, save_credentials, forget_login, keep_login, exchanged,
  connect_drive, complete_with, complete_login, disconnect, logout_user, logout,
}

map_error-ok :
    {A : Type 0} (f : Error → Error) (r : Result A) {a : A} → map_error f r ≡ ok a → r ≡ ok a
map_error-ok f (ok b) e = e
map_error-ok f (err x) e = cc

module _ (env : Env) (now : ℕ) (id : ℤ) where
  -- the user's document with these credentials
  abbrev pub Connected : User → Str → World env → Type 0
  Connected u remote w =
      (t : GoogleToken) × (env.users.docs w.users id
        ≡ some (record u { google_token = some t; rclone_remote = remote; updated_at = now }))

  saved-Connected :
      (t : GoogleToken) (w : World env) (u : User) (x : Unit {0})
      → env.users.docs w.users id ≡ some u
      → (save_credentials env now id t w).1 ≡ ok x
      → Connected u (remote_name id) (save_credentials env now id t w).0
  unfolding save_google_token
  saved-Connected t w u x h e =
      let written = outcome-ok _ (map_error-ok (wrap (bytes "saving credentials: ")) _ e) in
      (
        t,
        env.users.write_docs w.users id _ written
            ∙ ap
                (Option.map {A = User} (λ u. record u {
                  google_token = some t;
                  rclone_remote = remote_name id;
                  updated_at = now;
                }))
                h,
      )

  keep_login-Connected :
      (t : GoogleToken) (remote : Str) (w : World env) (u : User)
      → env.users.docs w.users id ≡ some u
      → (keep_login env now id t w).1 ≡ ok remote
      → (remote ≡ remote_name id) × Connected u remote (keep_login env now id t w).0
  unfolding keep_login forget_login
  keep_login-Connected t remote w u h e =
      let saving : Act (World env) Str = save_credentials env now id t >> forget_login env id in
      let (x, made, q) = continue-ok (make_remote env id t w) (λ _. saving) e in
      let e1 = sym (ap (λ q. q.1) q) ∙ e in
      let w1 = (make_remote env id t w).0 in
      let (y, saved, r) =
        continue-ok (save_credentials env now id t w1) (λ _. forget_login env id) e1 in
      let same : remote ≡ remote_name id = sym (ok_inj (sym (ap (λ q. q.1) r) ∙ e1)) in
      let (c, d) = saved-Connected t w1 u y h saved in
      (
        same,
        (
          c,
          ap (λ q. env.users.docs q.0.users id) (q ∙ r)
              ∙ (d
                  ∙ ap
                      (λ n.
                        some
                          (record u { google_token = some c; rclone_remote = n; updated_at = now }))
                      (sym same)),
        ),
      )

  connect_drive-Connected :
      (code remote : Str) (w : World env) (u : User)
      → env.users.docs w.users id ≡ some u
      → (connect_drive env now id code w).1 ≡ ok remote
      → (remote ≡ remote_name id) × Connected u remote (connect_drive env now id code w).0
  unfolding connect_drive
  connect_drive-Connected code remote w u h e =
      let (t, _, q) = continue-ok (exchanged env code w) (keep_login env now id) e in
      let (same, (c, d)) =
        keep_login-Connected t remote (exchanged env code w).0 u h (sym (ap (λ q. q.1) q) ∙ e) in
      (same, (c, ap (λ q. env.users.docs q.0.users id) q ∙ d))

  complete_with-Connected :
      (r : Result PendingLogin) (remote : Str) (w : World env) (u : User)
      → env.users.docs w.users id ≡ some u
      → (complete_with env now id r w).1 ≡ ok remote
      → (remote ≡ remote_name id) × Connected u remote (complete_with env now id r w).0
  unfolding complete_with
  complete_with-Connected (err x) remote w u h e = cc
  complete_with-Connected (ok p) remote w u h e =
      elim (str_eq p.auth_code [])
          as (λ b.
            (step b).1 ≡ ok remote → (remote ≡ remote_name id) × Connected u remote (step b).0) [
              | true ↦ λ g. cc
              | false ↦ λ g. connect_drive-Connected p.auth_code remote w u h g
            ]
        e
    where
      step : Bool → World env × Result Str
      step b = if b then (w, err (no_pending_login env)) else connect_drive env now id p.auth_code w

  -- Where CompleteLogin succeeds for a user whom the database holds, the user's document has a
  -- token and the remote that is returned, which is the user's own, and else is as before.
  pub complete_login-Connected :
      (remote : Str) (w : World env) (u : User)
      → env.users.docs w.users id ≡ some u
      → (complete_login env now id w).1 ≡ ok remote
      → (remote ≡ remote_name id) × Connected u remote (complete_login env now id w).0
  unfolding complete_login
  complete_login-Connected remote w u h e =
      complete_with-Connected (get_login env.logins id w.logins).1 remote w u h e

  -- A read of the user that finds no token is no Drive client.
  no_client :
      (connect : GoogleToken → Option Error) (s : env.users.Store)
      → ((u : User) → env.users.docs s id ≡ some u → u.google_token ≡ none)
      → drive_client_for env.users connect id s ≡ err not_logged_in
  unfolding drive_client_for
  no_client connect s none_there = go (env.users.find_one s id) refl
    where
      go :
          (r : Result (Option User))
          → env.users.find_one s id ≡ r
          → client_for connect r ≡ err not_logged_in
      go (err e) q = refl
      go (ok none) q = refl
      go (ok (some u)) q =
          ap (client_of connect) (none_there u (sym (env.users.find_one_docs s id (some u) q)))

  cleared :
      (w : World env) (x : Unit {0})
      → (on_users env (clear_google_token env.users now id) w).1 ≡ ok x
      → (u : User)
      → env.users.docs (on_users env (clear_google_token env.users now id) w).0.users id ≡ some u
      → u.google_token ≡ none
  unfolding clear_google_token
  cleared w x e u h =
      token_of (env.users.docs w.users id)
        (sym (env.users.write_docs w.users id _ (outcome-ok _ e)) ∙ h)
    where
      token_of :
          (o : Option User)
          → Option.map {A = User}
              (λ u. record u { google_token = none; rclone_remote = []; updated_at = now })
              o
            ≡ some u
          → u.google_token ≡ none
      token_of none q = cc
      token_of (some v) q = ap (λ u. u.google_token) (sym (some_inj q))

  dropped-ok :
      {A : Type 0} (p : World env × Result A) → (dropped env p).1 ≡ ok tt → (a : A) × (p.1 ≡ ok a)
  dropped-ok (w, ok a) e = (a, refl)
  dropped-ok (w, err x) e = cc

  dropped-state : {A : Type 0} (p : World env × Result A) → (dropped env p).0 ≡ p.0
  dropped-state (w, ok a) = refl
  dropped-state (w, err x) = refl

  abbrev NoToken : World env → Type 0
  NoToken w = (u : User) → env.users.docs w.users id ≡ some u → u.google_token ≡ none

  disconnect-NoToken :
      (u : User) (w : World env)
      → (disconnect env now id u w).1 ≡ ok tt
      → NoToken (disconnect env now id u w).0
  unfolding disconnect
  disconnect-NoToken u w e =
      let w1 = remote_removed env u w in
      let (a, g) =
        dropped-ok ((on_users env (clear_google_token env.users now id) >> say_logged_out env) w1)
          e in
      let (x, gone, q) =
        continue-ok (on_users env (clear_google_token env.users now id) w1)
          (λ _. say_logged_out env) g in
      subst NoToken (sym (dropped-state _ ∙ ap (λ p. p.0) q)) (cleared w1 x gone)

  not_connected-NoToken : (w : World env) → NoToken w → NoToken (not_connected env w).0
  not_connected-NoToken w n = subst NoToken (sym (dropped-state _)) n

  logout_user-NoToken :
      (w : World env) (o : Option User)
      → env.users.docs w.users id ≡ o
      → (logout_user env now id (or_not_found (ok o)) w).1 ≡ ok tt
      → NoToken (logout_user env now id (or_not_found (ok o)) w).0
  unfolding logout_user
  logout_user-NoToken w none d e = not_connected-NoToken w (λ u h. cc (d, h))
  logout_user-NoToken w (some u) d e = by_token u.google_token refl e
    where
      step : Option GoogleToken → World env × Result (Unit {0})
      step t = elim t [ none ↦ not_connected env w | some t ↦ disconnect env now id u w ]

      by_token :
          (t : Option GoogleToken) → u.google_token ≡ t → (step t).1 ≡ ok tt → NoToken (step t).0
      by_token none q g =
          not_connected-NoToken w (λ v h. ap (λ x. x.google_token) (sym (some_inj (sym d ∙ h))) ∙ q)
      by_token (some t) q g = disconnect-NoToken u w g

  -- Where Logout can read the user and succeeds, the user has no Drive client afterwards.
  pub drive_client_for-logout :
      (connect : GoogleToken → Option Error) (w : World env) (o : Option User)
      → env.users.find_one w.users id ≡ ok o
      → (logout env now id w).1 ≡ ok tt
      → drive_client_for env.users connect id (logout env now id w).0.users ≡ err not_logged_in
  unfolding logout get
  drive_client_for-logout connect w o f e =
      let found : env.users.docs w.users id ≡ o = sym (env.users.find_one_docs w.users id o f) in
      let e' = subst (λ r. (logout_user env now id (or_not_found r) w).1 ≡ ok tt) f e in
      let gone = logout_user-NoToken w o found e' in
      no_client connect _
        (subst (λ r. NoToken (logout_user env now id (or_not_found r) w).0) (sym f) gone)
