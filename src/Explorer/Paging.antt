-- ===== src/Explorer/Paging.antt =====
-- Pages of a listing: what a method shows, by internal/explorer's render.
use gdrive_bot.Base.{
  continue-ok, ok_inj, map, ◌||◌, bytes, ◌≡◌, refl, sym, ◌∙◌, ap, subst, Bool, true, false, not,
  none, some, List, [], ◌∷◌, ◌++◌, Str, str_eq, pos, add64, eqb_ℤ_refl, Result, ok, arith,
}
use gdrive_bot.Drive.{Entry}
use gdrive_bot.Models.{BreadcrumbEntry, ExplorerState}
use gdrive_bot.Explorer.Render.{
  View, Button, nav_row, has_token, render_keyboard, controls, entry_button, search_row,
  row_unless_empty,
}
use gdrive_bot.Explorer.State.{CachedPage, at_folder, pop_crumb, last_crumb, put_token}
use gdrive_bot.Explorer.{
  Env, World, Request, render, shown, fetched, listing, view_of, page_key, keep_token, store_raw,
  back, back_to, save_and_render, upsert, must_state,
}

-- Whether a keyboard has a button with this data.
abbrev row_offers : Str → List Button → Bool
row_offers d [] = false
row_offers d (b ∷ bs) = str_eq b.callback_data d || row_offers d bs

abbrev pub offers : Str → List (List Button) → Bool
offers d [] = false
offers d (r ∷ rs) = row_offers d r || offers d rs

offers-append :
    (d : Str) (rs ts : List (List Button)) → offers d (rs ++ ts) ≡ (offers d rs || offers d ts)
offers-append d [] ts = refl
offers-append d (r ∷ rs) ts = ground (arith, offers-append d rs ts)

abbrev pub next_data : Str
next_data = bytes "expl:nextpage"

entry_rows : (es : List Entry) → offers next_data (map (λ e. entry_button e ∷ []) es) ≡ false
unfolding entry_button str_eq
entry_rows [] = refl
entry_rows (e ∷ es) = ground (arith, entry_rows es)

search_rows : (q : Str) → row_offers next_data (search_row q) ≡ false
unfolding search_row str_eq
search_rows q = ground arith

nav_rows :
    (s : ExplorerState)
    → offers next_data (row_unless_empty (nav_row s))
      ≡ has_token (add64 s.page (pos 1)) s.page_tokens
unfolding nav_row str_eq
nav_rows s = ground arith

-- The keyboard of a listing has a Next button exactly when the state has the next page's token.
pub offers_next :
    (s : ExplorerState) (es : List Entry)
    → offers next_data (render_keyboard s es) ≡ has_token (add64 s.page (pos 1)) s.page_tokens
unfolding render_keyboard str_eq
offers_next s es =
    offers-append next_data (map (λ e. entry_button e ∷ []) es) _
    ∙ (rw (entry_rows es) (
        offers-append next_data (row_unless_empty (nav_row s))
          (controls ∷ search_row s.search_query ∷ [])
        ∙ ground (arith, nav_rows s, search_rows s.search_query)))

module _ (env : Env) where
  -- A cached page is shown as it was stored, and the Drive is not asked.
  render_hit :
      (req : Request env) (s : ExplorerState) (w : World env) (raw : Str)
      → env.cache.seen req.now w.cached (page_key env s) ≡ some raw
      → (render env req s w).1 ≡ ok (view_of env s (env.codec.unmarshal raw).entries)
  unfolding render shown
  render_hit req s w raw h =
      ap
        (λ r.
          (shown env req s r
            (record w { cached = (env.cache.get req.now (page_key env s) w.cached).0 })).1)
        (env.cache.get_seen req.now (page_key env s) w.cached ∙ h)

  render_miss :
      (req : Request env) (s : ExplorerState) (w : World env)
      → env.cache.seen req.now w.cached (page_key env s) ≡ none
      → (render env req s w)
        ≡ fetched env req s
            (page_key env s)
            (listing env req s)
            (record w { cached = (env.cache.get req.now (page_key env s) w.cached).0 })
  unfolding render shown
  render_miss req s w h =
      ap
        (λ r.
          shown env req s r
            (record w { cached = (env.cache.get req.now (page_key env s) w.cached).0 }))
        (env.cache.get_seen req.now (page_key env s) w.cached ∙ h)

  offers-keep_token :
      (b : Bool) (s : ExplorerState) (next : Str) (entries : List Entry) (x : World env)
      → offers next_data (view_of env (keep_token env b s next x).1 entries).keyboard
        ≡ (not b || has_token (add64 s.page (pos 1)) s.page_tokens)
  unfolding keep_token view_of put_token
  offers-keep_token true s next entries x = offers_next s entries
  offers-keep_token false s next entries x =
      offers_next _ entries ∙ ground (arith, eqb_ℤ_refl (add64 s.page (pos 1)))

  fetched_shows :
      (req : Request env) (s : ExplorerState) (key : Str) (r : Result (List Entry × Str))
      (w : World env) (entries : List Entry) (next : Str)
      → r ≡ ok (entries, next)
      → (v : View) × ((fetched env req s key r w).1 ≡ ok v)
        × (offers next_data v.keyboard
            ≡ (not (str_eq next []) || has_token (add64 s.page (pos 1)) s.page_tokens))
  unfolding fetched
  fetched_shows req s key r w entries next e =
      let raw = env.codec.marshal (record { entries = entries; next_page_token = next }) in
      let x = store_raw env req.now key raw w in
      (
        view_of env (keep_token env (str_eq next []) s next x).1 entries,
        ap (λ y. (fetched env req s key y w).1) e,
        offers-keep_token (str_eq next []) s next entries x,
      )

  -- A page that is not cached shows the Drive's answer, with a Next button exactly when the answer
  -- has a successor or one was known already.
  pub render_fresh :
      (req : Request env) (s : ExplorerState) (w : World env) (entries : List Entry) (next : Str)
      → env.cache.seen req.now w.cached (page_key env s) ≡ none
      → listing env req s ≡ ok (entries, next)
      → (v : View) × ((render env req s w).1 ≡ ok v)
        × (offers next_data v.keyboard
            ≡ (not (str_eq next []) || has_token (add64 s.page (pos 1)) s.page_tokens))
  render_fresh req s w entries next miss answer =
      let c = record w { cached = (env.cache.get req.now (page_key env s) w.cached).0 } in
      let (v, shows, has) =
        fetched_shows req s (page_key env s) (listing env req s) c entries next answer in
      (v, ap (λ r. r.1) (render_miss req s w miss) ∙ shows, has)

  -- Back to a folder whose first page is cached shows the cached entries and no Next button, also
  -- where the cached page has a successor.
  pub back_hides_next :
      (req : Request env) (w : World env) (s : ExplorerState) (c : BreadcrumbEntry)
      (page : CachedPage) (raw : Str) (v : View)
      → (must_state env req.key w).1 ≡ ok s
      → last_crumb (pop_crumb s.breadcrumb) ≡ some c
      → env.codec.marshal page ≡ some raw
      → env.cache.seen req.now w.cached
          (page_key env (at_folder (record s { breadcrumb = pop_crumb s.breadcrumb }) c.folder_id))
        ≡ some raw
      → (back env req w).1 ≡ ok v
      → (v
          ≡ view_of env
              (at_folder (record s { breadcrumb = pop_crumb s.breadcrumb }) c.folder_id)
              page.entries)
        × (offers next_data v.keyboard ≡ false)
  unfolding back must_state back_to save_and_render view_of
  back_hides_next req w s c page raw v loads top codes hit e =
      let t = at_folder (record s { breadcrumb = pop_crumb s.breadcrumb }) c.folder_id in
      let (s', loads', run) =
        continue-ok (must_state env req.key w)
          (λ x. back_to env req x (last_crumb (pop_crumb x.breadcrumb))) e in
      let same : s' ≡ s = ok_inj (sym loads' ∙ loads) in
      let run1 : (back_to env req s (some c) w).1 ≡ ok v =
        subst (λ o. (back_to env req s o w).1 ≡ ok v) top
          (subst (λ x. (back_to env req x (last_crumb (pop_crumb x.breadcrumb)) w).1 ≡ ok v) same
            (sym (ap (λ r. r.1) run) ∙ e)) in
      let (_, _, run2) = continue-ok (upsert env t w) (λ _. render env req t) run1 in
      let shows : ok v ≡ ok (view_of env t (env.codec.unmarshal raw).entries) =
        sym run1 ∙ ap (λ r. r.1) run2 ∙ render_hit req t (upsert env t w).0 raw hit in
      let isv : v ≡ view_of env t page.entries =
        ok_inj shows
        ∙ ap (λ p. view_of env t p.entries) (env.codec.unmarshal-marshal page raw codes) in
      (isv, ap (λ x. offers next_data x.keyboard) isv ∙ offers_next t page.entries)
