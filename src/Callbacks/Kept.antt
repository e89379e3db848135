-- ===== src/Callbacks/Kept.antt =====
-- What a press that does not confirm a deletion leaves of the Drive.
use gdrive_bot.Base.{
  ◌≡◌, refl, sym, ap, subst, Bool, true, false, Option, none, some, some_inj, List, [], ◌∷◌, ◌++◌,
  Str, bytes, str_eq, if◌then◌else◌, Error, Result, ok, err, Act, ◌>>=◌, continue, arith, raise,
  plain, pos, negsuc,
}
use gdrive_bot.Drive.{FilesService, Permission}
use gdrive_bot.Drive.Operations.{reported, then_rest, remove_public, remove_listed, set_public}
use gdrive_bot.Drive.{Entry}
use gdrive_bot.Explorer.{
  Request, await_search, await_rename, back, home, refresh, page, clear_search, open_folder,
  render_current,
}
use gdrive_bot.Explorer.Menus.{download_menu}
use gdrive_bot.Explorer.Render.{View}
use gdrive_bot.Callbacks.{
  Env, World, Press, strip_prefix, prefixed, read, with_client, edit_view, edit_message, show,
  on_message, meta, open_file_menu, open_download_menu,
}
use gdrive_bot.Callbacks.Router.{ask_search, navigate, handle_explorer, share_or_links}

-- a prefix in two parts
pub strip_prefix-append :
    (p q s t : Str) → strip_prefix p s ≡ some t → strip_prefix (p ++ q) s ≡ strip_prefix q t
unfolding strip_prefix
strip_prefix-append [] q s t e = ap (strip_prefix q) (some_inj e)
strip_prefix-append (c ∷ p) q [] t e = cc
strip_prefix-append (c ∷ p) q (d ∷ s) t e = ground (arith, strip_prefix-append p q s t)

module _ (svc : FilesService) (P : svc.Remote → Type 0) where
  -- what a new permission and a deleted one leave
  abbrev pub SharingKeeps : Type 0
  SharingKeeps =
      ((r : svc.Remote) (f type role : Str) → P r → P (svc.create_permission r f type role).0)
      × ((r : svc.Remote) (f id : Str) → P r → P (svc.delete_permission r f id).0)

  reported_keeps : (prefix : Str) (d : svc.Remote × Option Error) → P d.0 → P (reported prefix d).0
  reported_keeps prefix (r, none) h = h
  reported_keeps prefix (r, some e) h = h

  then_rest_keeps :
      (d : svc.Remote × Option Error) (rest : Act svc.Remote (Unit {0}))
      → ((r : svc.Remote) → P r → P (rest r).0)
      → P d.0
      → P (then_rest svc d rest).0
  then_rest_keeps (r, none) rest k h = k r h
  then_rest_keeps (r, some e) rest k h = h

  module _ (keeps : SharingKeeps) (f : Str) where
    remove_public_keeps :
        (ps : List Permission) (r : svc.Remote) → P r → P (remove_public svc f ps r).0
    unfolding remove_public
    remove_public_keeps [] r h = h
    remove_public_keeps (q ∷ ps) r h =
        elim (str_eq q.type (bytes "anyone"))
          as (λ b.
            P
              (elim b as (λ _. svc.Remote × Result (Unit {0})) [
                | true ↦ then_rest svc (svc.delete_permission r f q.id) (remove_public svc f ps)
                | false ↦ remove_public svc f ps r
              ]).0) [
                | true ↦ then_rest_keeps _ _ (remove_public_keeps ps) (keeps.1 r f q.id h)
                | false ↦ remove_public_keeps ps r h
              ]

    remove_listed_keeps :
        (l : Result (List Permission)) (r : svc.Remote) → P r → P (remove_listed svc f l r).0
    unfolding remove_listed
    remove_listed_keeps (err e) r h = h
    remove_listed_keeps (ok ps) r h = remove_public_keeps ps r h

    pub set_public_keeps : (on : Bool) (r : svc.Remote) → P r → P (set_public svc f on r).0
    unfolding set_public
    set_public_keeps true r h = reported_keeps _ _ (keeps.0 r f _ _ h)
    set_public_keeps false r h = remove_listed_keeps _ r h

module _ (env : Env) (P : env.explorer.files.Remote → Type 0) where
  -- an action that keeps what holds of the Drive
  pub record Keeps {A : Type 0} (m : Act (World env) A) : Type 0 where
    pub keeps : (w : World env) → P w.remote → P (m w).0.remote

  pub continue_keeps :
      {A B : Type 0} (q : World env × Result A) (f : A → Act (World env) B)
      → P q.0.remote
      → ((a : A) → Keeps (f a))
      → P (continue q f).0.remote
  continue_keeps (w, ok a) f h k = (k a).keeps w h
  continue_keeps (w, err e) f h k = h

  pub then-Keeps :
      {A B : Type 0} (m : Act (World env) A) (f : A → Act (World env) B)
      → Keeps m
      → ((a : A) → Keeps (f a))
      → Keeps (m >>= f)
  then-Keeps m f hm hf = record { keeps = λ w h. continue_keeps (m w) f (hm.keeps w h) hf }

  -- an action that does not touch the Drive
  pub same-Keeps :
      {A : Type 0} (m : Act (World env) A) → ((w : World env) → (m w).0.remote ≡ w.remote) → Keeps m
  same-Keeps m e = record { keeps = λ w h. subst P (sym (e w)) h }

  pub prefixed-Keeps :
      {A : Type 0} (prefix s : Str) (act : Str → Act (World env) A) (others : Act (World env) A)
      → ((t : Str) → strip_prefix prefix s ≡ some t → Keeps (act t))
      → (strip_prefix prefix s ≡ none → Keeps others)
      → Keeps (prefixed prefix s act others)
  prefixed-Keeps {A} prefix s act others hs hn =
      elim (strip_prefix prefix s)
          as (λ o.
            strip_prefix prefix s ≡ o
            → Keeps (elim o as (λ _. Act (World env) A) [ some rest ↦ act rest | none ↦ others ])) [
              | some t ↦ hs t
              | none ↦ hn
            ]
        refl

  if-Keeps :
      {A : Type 0} (b : Bool) (m n : Act (World env) A)
      → Keeps m
      → Keeps n
      → Keeps (if b then m else n)
  if-Keeps true m n hm hn = hm
  if-Keeps false m n hm hn = hn

  pub with_client-Keeps :
      (p : Press) (m : Act (World env) (Unit {0})) → Keeps m → Keeps (with_client env p m)
  unfolding with_client
  with_client-Keeps p m k = record { keeps = λ w h. continue_keeps (w, _) (λ _. m) h (λ _. k) }

  pub show-Keeps :
      (p : Press) (m : Request env.explorer → Act (gdrive_bot.Explorer.World env.explorer) View)
      → Keeps (show env p m)
  unfolding show on_message edit_view edit_message
  show-Keeps p m =
      then-Keeps (on_message env p m) (edit_view env) (same-Keeps _ (λ w. refl))
        (λ v. same-Keeps _ (λ w. refl))

  pub open_file_menu-Keeps : (id : Str) → Keeps (open_file_menu env id)
  unfolding open_file_menu meta edit_view edit_message
  open_file_menu-Keeps id =
      then-Keeps (meta env id) _ (same-Keeps _ (λ w. refl)) (λ v. same-Keeps _ (λ w. refl))

  open_download_menu-Keeps : (e : Entry) → Keeps (open_download_menu env e)
  unfolding open_download_menu edit_view edit_message
  open_download_menu-Keeps e =
      then-Keeps (read env (download_menu env.explorer.files env.explorer.tenths e)) (edit_view env)
        (same-Keeps _ (λ w. refl)) (λ v. same-Keeps _ (λ w. refl))

  pub share_or_links-Keeps : (id : Str) → Keeps (share_or_links env id)
  unfolding share_or_links meta
  share_or_links-Keeps id =
      then-Keeps (meta env id) (open_download_menu env) (same-Keeps _ (λ w. refl))
        open_download_menu-Keeps

  ask_search-Keeps : (p : Press) → Keeps (ask_search env p)
  unfolding ask_search on_message edit_message
  ask_search-Keeps p =
      then-Keeps (on_message env p (await_search env.explorer)) _ (same-Keeps _ (λ w. refl))
        (λ _. same-Keeps _ (λ w. refl))

  navigate-Keeps : (p : Press) (action : Str) → Keeps (navigate env p action)
  unfolding navigate
  navigate-Keeps p action = on (bytes "back") (show-Keeps p (back env.explorer)) (
      on (bytes "home") (show-Keeps p (home env.explorer)) (
        on (bytes "refresh") (show-Keeps p (refresh env.explorer)) (
          on (bytes "prevpage") (show-Keeps p (λ req. page env.explorer req (negsuc 0))) (
            on (bytes "nextpage") (show-Keeps p (λ req. page env.explorer req (pos 1))) (
              on (bytes "search") (ask_search-Keeps p) (
                on (bytes "clearsearch") (show-Keeps p (clear_search env.explorer)) (
                  same-Keeps
                    (raise (plain (bytes "unknown explorer action: " ++ env.quoted action)))
                    (λ w. refl))))))))
    where
      on :
          (name : Str) {m n : Act (World env) (Unit {0})}
          → Keeps m
          → Keeps n
          → Keeps (if str_eq action name then m else n)
      on name {m} {n} hm hn = if-Keeps (str_eq action name) m n hm hn

  pub handle_explorer-Keeps : (p : Press) (action : Str) → Keeps (handle_explorer env p action)
  unfolding handle_explorer
  handle_explorer-Keeps p action = with_client-Keeps p _ (
      prefixed-Keeps (bytes "open:") action
        (λ id. show env p (λ req. open_folder env.explorer req id)) _
        (λ id _. show-Keeps p (λ req. open_folder env.explorer req id))
        (λ _.
          prefixed-Keeps (bytes "file:") action (open_file_menu env) (navigate env p action)
            (λ id _. open_file_menu-Keeps id) (λ _. navigate-Keeps p action)))
