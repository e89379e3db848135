-- ===== src/Callbacks/Sharing.antt =====
-- The share button: what IsPublic says before and after a press.
use gdrive_bot.Base.{
  ◌≡◌, refl, sym, ◌∙◌, ap, subst, Bool, not, Str, ok, Act, ◌>>◌, continue, continue-ok,
}
use gdrive_bot.Drive.Operations.{is_public, set_public}
use gdrive_bot.Drive.Sharing.{PermissionLaws, is_public-set_public}
use gdrive_bot.Callbacks.{Env, World, on_remote}
use gdrive_bot.Callbacks.Kept.{share_or_links-Keeps}
use gdrive_bot.Callbacks.Router.{share_or_links, toggle_share}

module _ (env : Env) (laws : PermissionLaws env.explorer.files) where
  -- the menu that is shown leaves the Drive alone
  remote-share_or_links : (id : Str) (w : World env) → (share_or_links env id w).0.remote ≡ w.remote
  remote-share_or_links id w = (share_or_links-Keeps env (λ r. r ≡ w.remote) id).keeps w refl

  -- Where a press of the share button succeeds, whose file IsPublic reported as b before, IsPublic,
  -- where it succeeds next, reports the opposite.
  pub is_public-toggle_share :
      (id : Str) (w : World env) (b after : Bool)
      → is_public env.explorer.files id w.remote ≡ ok b
      → (toggle_share env id w).1 ≡ ok tt
      → is_public env.explorer.files id (toggle_share env id w).0.remote ≡ ok after
      → after ≡ not b
  unfolding toggle_share
  is_public-toggle_share id w b after before done next =
      let rest : Bool → Act (World env) (Unit {0}) = λ public.
        on_remote env (set_public env.explorer.files id (not public)) >> share_or_links env id in
      let toggled : toggle_share env id w ≡ rest b w = ap (λ r. continue (w, r) rest) before in
      let (u, set, second) =
        continue-ok (on_remote env (set_public env.explorer.files id (not b)) w)
          (λ _. share_or_links env id) (sym (ap (λ q. q.1) toggled) ∙ done) in
      let left : (toggle_share env id w).0.remote
          ≡ (set_public env.explorer.files id (not b) w.remote).0 =
        ap (λ q. q.0.remote) (toggled ∙ second) ∙ remote-share_or_links id _ in
      is_public-set_public env.explorer.files laws id (not b) w.remote after set
        (subst (λ r. is_public env.explorer.files id r ≡ ok after) left next)
