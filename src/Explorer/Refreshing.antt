-- ===== src/Explorer/Refreshing.antt =====
-- Refresh of internal/explorer: the cached pages of one message.
use gdrive_bot.Base.{
  ◌≡◌, ◌≢◌, sym, ◌∙◌, ap, subst, true, not, ◌||◌, none, List, [], Str, str_eq, ℤ, pos, add64, ok,
  has_prefix, if◌then◌else◌, inl, inr, Bool-cases, continue,
}
use gdrive_bot.Database.States.{StateKey, key_of, get_state, found}
use gdrive_bot.Drive.{Entry}
use gdrive_bot.Models.{ExplorerState}
use gdrive_bot.Explorer.Render.{View, has_token}
use gdrive_bot.Explorer.State.{list_cache_key, refresh_prefix}
use gdrive_bot.Explorer.{
  Env, World, Request, render, listing, page_key, refresh, drop_pages, must_state,
}
use gdrive_bot.Explorer.Key.{list_cache_key-HasPrefix, refresh_spares}
use gdrive_bot.Explorer.Navigation.{AllValid}
use gdrive_bot.Explorer.Paging.{offers, next_data, render_fresh}

module _ (env : Env) where
  -- Refresh shows what the Drive answers now, whatever pages the cache holds.
  pub refresh_fresh :
      (req : Request env) (s : ExplorerState) (w : World env) (entries : List Entry) (next : Str)
      → AllValid env w
      → (must_state env req.key w).1 ≡ ok s
      → listing env req s ≡ ok (entries, next)
      → (v : View) × ((refresh env req w).1 ≡ ok v)
        × (offers next_data v.keyboard
            ≡ (not (str_eq next []) || has_token (add64 s.page (pos 1)) s.page_tokens))
  unfolding refresh drop_pages must_state get_state
  refresh_fresh req s w entries next all loads answer =
      let d = sym (
        env.states.find_one_docs w.stored req.key _
          (found _ (env.states.find_one w.stored req.key) loads)) in
      let prefixed : has_prefix (page_key env s) (refresh_prefix req.key) ≡ true =
        subst (λ k. has_prefix (page_key env s) (refresh_prefix k) ≡ true) (all req.key s d).keyed
          (list_cache_key-HasPrefix (key_of s) s.current_folder_id s.search_query s.page) in
      let gone =
        env.cache.seen_invalidate req.now (refresh_prefix req.key) w.cached (page_key env s)
        ∙ ap (λ b. if b then none else env.cache.seen req.now w.cached (page_key env s)) prefixed in
      let (v, shows, has) =
        render_fresh env req s (drop_pages env req.key w) entries next gone answer in
      (
        v,
        ap (λ r. (continue (w, r) (λ state x. render env req state (drop_pages env req.key x))).1)
              loads
            ∙ shows,
        has,
      )

  -- The pages that it drops are those of its own message: a page cached for another message stays.
  pub drop_pages_spares :
      (req : Request env) (w : World env) (l : StateKey) (f q : Str) (m : ℤ)
      → req.key ≢ l
      → env.cache.seen req.now (drop_pages env req.key w).cached (list_cache_key l f q m)
        ≡ env.cache.seen req.now w.cached (list_cache_key l f q m)
  unfolding drop_pages
  drop_pages_spares req w l f q m other =
      env.cache.seen_invalidate req.now (refresh_prefix req.key) w.cached (list_cache_key l f q m)
      ∙ elim (Bool-cases (has_prefix (list_cache_key l f q m) (refresh_prefix req.key))) [
        | inl e ↦ absurd (other (refresh_spares req.key l f q m e))
        | inr e ↦ rw e
      ]
