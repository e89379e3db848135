-- ===== src/Explorer/Session.antt =====
-- Sessions: any calls of the explorer, by any users and messages, in any order.
use gdrive_bot.Base.{
  ◌≡◌, refl, true, List, [], ◌∷◌, Str, bytes, str_eq, ℤ, Option, none, some, Result, ok, err, arith,
}
use gdrive_bot.Database.States.{StateKey, loaded, or_not_found, awaits, find_awaiting}
use gdrive_bot.Drive.{build_breadcrumb}
use gdrive_bot.Models.{BreadcrumbEntry, ExplorerState}
use gdrive_bot.Explorer.State.{opened, consumed, last_crumb, pop_crumb, at_folder}
use gdrive_bot.Explorer.{
  Env, World, Request, upsert, open_with, open_root, enter, open_folder, back_to, back, home_from,
  home, page, search, clear_search, drop_pages, refresh, await_rename, await_search, consume_prompt,
  find_pending, render_current,
}
use gdrive_bot.Explorer.Navigation.{
  IsValid, AllValid, entered-IsValid, turned-IsValid, searched-IsValid, consume-IsValid,
  popped-IsValid, upsert-AllValid, render-AllValid, continue-AllValid, save_and_render-AllValid,
  loading-AllValid, self-IsValid, IsRooted,
}

-- The calls that the handlers make of the explorer.
pub data Call : Type 0 where
  opens turns : ℤ → Call
  enters searches renames : Str → Call
  goes_back goes_home clears refreshes searching renders : Call
  pends : ℤ → ℤ → Call

module _ (env : Env) where
  -- the state after a call, whether it succeeds or fails
  unfoldable pub after : Request env → Call → World env → World env
  after req (opens n) w = (open_root env req n w).0
  after req (turns d) w = (page env req d w).0
  after req (enters f) w = (open_folder env req f w).0
  after req (searches q) w = (search env req q w).0
  after req (renames f) w = (await_rename env req f w).0
  after req goes_back w = (back env req w).0
  after req goes_home w = (home env req w).0
  after req clears w = (clear_search env req w).0
  after req refreshes w = (refresh env req w).0
  after req searching w = (await_search env req w).0
  after req renders w = (render_current env req w).0
  after req (pends u c) w = (find_pending env u c w).0

  open_with-AllValid :
      (req : Request env) (n : ℤ) (w : World env)
      → AllValid env w
      → AllValid env (open_root env req n w).0
  unfolding open_root open_with build_breadcrumb str_eq
  open_with-AllValid req n w all =
      save_and_render-AllValid env req _ w
        (unfold opened last_crumb in
          record { keyed = refl; on_page = omega arith; rooted = refl; ends = (_, refl, refl) })
        all

  enter-AllValid :
      (req : Request env) (s : ExplorerState) (f : Str) (r : Result Str) (w : World env)
      → IsValid req.key s
      → AllValid env w
      → AllValid env (enter env req s f r w).0
  unfolding enter
  enter-AllValid req s f (err e) w v all = all
  enter-AllValid req s f (ok n) w v all =
      save_and_render-AllValid env req _ w
        (self-IsValid env req.key _ (entered-IsValid req.key s f n v)) all

  back_to-AllValid :
      (req : Request env) (s : ExplorerState) (c : Option BreadcrumbEntry) (w : World env)
      → last_crumb (pop_crumb s.breadcrumb) ≡ c
      → IsValid req.key s
      → AllValid env w
      → AllValid env (back_to env req s c w).0
  unfolding back_to
  back_to-AllValid req s none w e v all = all
  back_to-AllValid req s (some c) w e v all =
      save_and_render-AllValid env req _ w
        (self-IsValid env req.key _ (popped-IsValid req.key s c v e)) all

  home_from-AllValid :
      (req : Request env) (s : ExplorerState) (cs : List BreadcrumbEntry) (w : World env)
      → IsRooted cs
      → IsValid req.key s
      → AllValid env w
      → AllValid env (home_from env req s cs w).0
  unfolding home_from
  home_from-AllValid req s [] w h v all = all
  home_from-AllValid req s (c ∷ cs) w h v all =
      save_and_render-AllValid env req _ w
        (self-IsValid env req.key (at_folder (record s { breadcrumb = c ∷ [] }) (bytes "root")) (
          unfold last_crumb in
          record { keyed = v.keyed; on_page = omega arith; rooted = h; ends = (c, refl, h) }))
        all

  find_pending-AllValid :
      (u c : ℤ) (w : World env) → AllValid env w → AllValid env (find_pending env u c w).0
  unfolding find_pending find_awaiting consume_prompt consumed
  find_pending-AllValid u c w all = continue-AllValid env _ (consume_prompt env) all λ s e.
      let (_, k, d) = pending_doc s e in
      let kept =
        upsert-AllValid env _ w (self-IsValid env _ _ (consume-IsValid _ _ k s (all k s d))) all in
      continue-AllValid env (upsert env (consumed s).0 w) _ kept (λ _ _. kept)
    where
      pending_doc :
          (s : ExplorerState)
          → or_not_found (env.states.find_first w.stored (awaits env.states u c)) ≡ ok s
          → (awaits env.states u c s ≡ true)
            × (k : StateKey) × (env.states.docs w.stored k ≡ some s)
      pending_doc s e =
          let f = env.states.find_first_some w.stored _ s (loaded _ e) in (f.0, f.1.0, f.1.1)

  -- Every call keeps every stored state valid, whether it succeeds, fails or panics, and whatever
  -- the Drive, the database and the cache answer.
  pub after-AllValid :
      (req : Request env) (c : Call) (w : World env) → AllValid env w → AllValid env (after req c w)
  unfolding after
  after-AllValid req (opens n) w all = open_with-AllValid req n w all
  after-AllValid req (turns d) w all =
      unfold page in
      loading-AllValid env req.key _ w all λ s v.
        save_and_render-AllValid env req _ w
          (self-IsValid env req.key _ (turned-IsValid req.key s d v)) all
  after-AllValid req (enters f) w all =
      unfold open_folder in
      loading-AllValid env req.key _ w all λ s v. enter-AllValid req s f _ w v all
  after-AllValid req (searches q) w all =
      unfold search in
      loading-AllValid env req.key _ w all λ s v.
        save_and_render-AllValid env req _ w
          (self-IsValid env req.key _ (searched-IsValid req.key s q v)) all
  after-AllValid req (renames f) w all =
      unfold await_rename in
      loading-AllValid env req.key _ w all λ s v.
        upsert-AllValid env _ w
          (self-IsValid env req.key (record s { awaiting_rename_file_id = f })
            (record { keyed = v.keyed; on_page = v.on_page; rooted = v.rooted; ends = v.ends }))
          all
  after-AllValid req goes_back w all =
      unfold back in
      loading-AllValid env req.key _ w all λ s v. back_to-AllValid req s _ w refl v all
  after-AllValid req goes_home w all =
      unfold home in
      loading-AllValid env req.key _ w all
        λ s v. home_from-AllValid req s s.breadcrumb w v.rooted v all
  after-AllValid req clears w all =
      unfold clear_search search in
      loading-AllValid env req.key _ w all λ s v.
        save_and_render-AllValid env req _ w
          (self-IsValid env req.key _ (searched-IsValid req.key s [] v)) all
  after-AllValid req refreshes w all =
      unfold refresh drop_pages in
      loading-AllValid env req.key _ w all
        λ s v. render-AllValid env req s _ (self-IsValid env req.key s v) all
  after-AllValid req searching w all =
      unfold await_search in
      loading-AllValid env req.key _ w all λ s v.
        upsert-AllValid env _ w
          (self-IsValid env req.key (record s { awaiting_search = true })
            (record { keyed = v.keyed; on_page = v.on_page; rooted = v.rooted; ends = v.ends }))
          all
  after-AllValid req renders w all =
      unfold render_current in
      loading-AllValid env req.key _ w all
        λ s v. render-AllValid env req s w (self-IsValid env req.key s v) all
  after-AllValid req (pends u c) w all = find_pending-AllValid u c w all

  unfoldable pub run : List (Request env × Call) → World env → World env
  unfolding after
  run [] w = w
  run ((req, c) ∷ cs) w = run cs (after req c w)

  -- Whatever calls are made from a store of valid states, every stored state stays valid: it lies
  -- under its own message, on a page from 1 on, and its breadcrumb leads from the root to the
  -- folder that it shows.
  pub run-AllValid :
      (cs : List (Request env × Call)) (w : World env) → AllValid env w → AllValid env (run cs w)
  unfolding run
  run-AllValid [] w all = all
  run-AllValid ((req, c) ∷ cs) w all = run-AllValid cs _ (after-AllValid req c w all)
