-- ===== src/Auth/Revived.antt =====
-- internal/auth/oauth.go: what a use of a Drive client stores for a user.
use mathlib.Core.Option
use gdrive_bot.Base.{ℕ, ◌≡◌, sym, ap, subst, ◌∙◌, none, some, [], ℤ, Result, ok, err, ok_inj}
use gdrive_bot.Database.{Collection}
use gdrive_bot.Database.Users.{update_access_token, with_access}
use gdrive_bot.Models.{User, GoogleToken}
use gdrive_bot.Auth.{OauthToken, World, on_refresh, refreshed, token}

-- a token of which only the access token and its expiry are there
abbrev pub revived : OauthToken → GoogleToken
revived t = record {
  access_token = t.access_token;
  refresh_token = [];
  token_type = [];
  expiry = t.expiry;
}

module _ (users : Collection ℤ User) (Source : Type 0)
    (inner : Source → Source × Result OauthToken) where
  refreshed_docs :
      (now : ℕ) (id : ℤ) (w : World users Source inner) (s : Source) (r : Result OauthToken)
      (t : OauthToken)
      → r ≡ ok t
      → (users.write w.stored id
          (Option.map {A = User} (with_access now t.access_token t.expiry))).1
        ≡ none
      → users.docs (refreshed users Source inner now id (record w { source = s }, r)).0.stored id
        ≡ Option.map {A = User} (with_access now t.access_token t.expiry) (users.docs w.stored id)
  unfolding refreshed on_refresh update_access_token
  refreshed_docs now id w s (err x) t e h = cc
  refreshed_docs now id w s (ok q) t e h =
      subst
        (λ k.
          users.docs (refreshed users Source inner now id (record w { source = s }, ok k)).0.stored
            id
          ≡ Option.map {A = User} (with_access now t.access_token t.expiry)
              (users.docs w.stored id))
        (sym (ok_inj e)) (users.write_docs w.stored id _ h)

  with_access-none :
      (now : ℕ) (t : OauthToken) (u : User)
      → u.google_token ≡ none
      → with_access now t.access_token t.expiry u
        ≡ record u { google_token = some (revived t); updated_at = now }
  unfolding with_access
  with_access-none now t u h =
      ap
        (λ g. record u {
          google_token = some (elim g [
            | none ↦ revived t
            | some k ↦ record k { access_token = t.access_token; expiry = t.expiry }
          ]);
          updated_at = now;
        })
        h

  -- Where a user's document has no token, as after a logout, and a Drive client that was made before asks for its token, gets one and the database takes the write, the document has a token again, without a refresh token.
  pub token_revives :
      (now : ℕ) (id : ℤ) (w : World users Source inner) (u : User) (t : OauthToken)
      → users.docs w.stored id ≡ some u
      → u.google_token ≡ none
      → (inner w.source).1 ≡ ok t
      → (users.write w.stored id
          (Option.map {A = User} (with_access now t.access_token t.expiry))).1
        ≡ none
      → users.docs (token users Source inner now id w).0.stored id
        ≡ some (record u { google_token = some (revived t); updated_at = now })
  unfolding token
  token_revives now id w u t h n e k =
      refreshed_docs now id w (inner w.source).0 (inner w.source).1 t e k
      ∙ ap (Option.map {A = User} (with_access now t.access_token t.expiry)) h
      ∙ ap some (with_access-none now t u n)
