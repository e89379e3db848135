-- ===== src/Explorer.antt =====
-- internal/explorer/explorer.go: the /myfiles browser. A method is an action on the persisted
-- explorer states and the cache; the user's Drive is read. `Request` holds what every method takes:
-- the time, the Drive client and the message.
pub mod Render
pub mod State
pub mod Menus
pub mod Key
pub mod Paging
pub mod Navigation
pub mod Session
pub mod Prompts
pub mod Cancel
pub mod Refreshing
pub mod Tests
use gdrive_bot.Base.{
  ℕ, ◌+◌, ◌≡◌, Bool, true, false, not, ◌&&◌, ◌||◌, Option, none, some, List, [], ◌∷◌, ◌++◌, Str,
  bytes, str_eq, if◌then◌else◌, ℤ, pos, negsuc, eqb_ℤ, ltb_ℤ, add64, format_int, Error, plain,
  Result, ok, err, wrap, Act, ◌>>=◌, ◌>>◌, pure, raise, continue, map_error,
}
use gdrive_bot.Cache.Interface.{Cache}
use gdrive_bot.Database.{Collection}
use gdrive_bot.Database.States.{StateKey, get_state, upsert_state, find_awaiting}
use gdrive_bot.Drive.{FilesService, Entry, list_page, folder_name, build_breadcrumb}
use gdrive_bot.Models.{BreadcrumbEntry, ExplorerState}
use Render.{View, render_text, render_keyboard}
use State.{
  CachedPage, PendingPrompt, list_cache_key, refresh_prefix, page_ttl, find_token, or_empty,
  put_token, at_folder, pop_crumb, last_crumb, opened, entered, turned, searched, consumed,
}

-- encoding/json at `cachedPage`: what Marshal gives, and what Unmarshal leaves in the destination.
pub record PageCodec : Type 0 where
  pub marshal : CachedPage → Option Str
  pub unmarshal : Str → CachedPage
  pub unmarshal-marshal : (p : CachedPage) (raw : Str) → marshal p ≡ some raw → unmarshal raw ≡ p

-- What the service is built on.
pub record Env : Type 1 where
  pub states : Collection StateKey ExplorerState
  pub cache : Cache
  pub codec : PageCodec
  pub files : FilesService
  -- `%.1f` of a quotient, for the sizes in the listing
  pub tenths : ℕ → ℕ → Str

-- A slice or an index out of range panics; the dispatcher ends the handler.
abbrev pub out_of_range : Error
out_of_range = plain (bytes "runtime error: index out of range")

module _ (env : Env) where
  pub record World : Type 0 where
    pub stored : env.states.Store
    pub cached : env.cache.Store

  pub record Request : Type 0 where
    pub now : ℕ
    pub remote : env.files.Remote
    pub key : StateKey

  -- an action on the states alone
  abbrev pub on_states : {A : Type 0} → Act env.states.Store A → Act World A
  on_states m w = let (s, r) = m w.stored in (record w { stored = s }, r)

  unfoldable pub upsert : ExplorerState → Act World (Unit {0})
  unfolding upsert_state
  upsert state = on_states (upsert_state env.states state)

  abbrev pub no_state : Error → Error
  no_state = wrap (bytes "explorer: state not found, send /myfiles again: ")

  unfoldable pub must_state : StateKey → Act World ExplorerState
  unfolding get_state
  must_state key w =
      let (w', r) = on_states (get_state env.states key) w in (w', map_error no_state r)

  unfoldable pub view_of : ExplorerState → List Entry → View
  view_of state entries = record {
    text = render_text env.tenths state entries;
    keyboard = render_keyboard state entries;
  }

  -- the key of the page that a state shows
  abbrev pub page_key : ExplorerState → Str
  page_key s =
      list_cache_key (s.user_id, s.chat_id, s.message_id) s.current_folder_id s.search_query s.page

  -- `_ = s.cache.Set(…)`: a page that cannot be marshalled is not stored
  unfoldable pub store_raw : ℕ → Str → Option Str → World → World
  store_raw now key none w = w
  store_raw now key (some raw) w = record w { cached = env.cache.set now key raw page_ttl w.cached }

  -- `if nextToken != ""`; a failed upsert is ignored here
  unfoldable pub keep_token : Bool → ExplorerState → Str → World → World × ExplorerState
  unfolding upsert put_token
  keep_token true state token w = (w, state)
  keep_token false state token w =
      let state' : ExplorerState = record state {
        page_tokens = put_token (add64 state.page (pos 1)) token state.page_tokens;
      } in
      ((upsert state' w).0, state')

  -- a miss, with the answer of the Drive: store the page and its successor's token
  unfoldable pub fetched :
      Request → ExplorerState → Str → Result (List Entry × Str) → Act World View
  unfolding store_raw keep_token view_of
  fetched req state key (err e) w = (w, err e)
  fetched req state key (ok (entries, next)) w =
      let raw = env.codec.marshal (record { entries = entries; next_page_token = next }) in
      let (w', state') = keep_token (str_eq next []) state next (store_raw req.now key raw w) in
      (w', ok (view_of state' entries))

  -- the Drive's answer for the page of a state
  unfoldable pub listing : Request → ExplorerState → Result (List Entry × Str)
  listing req state =
      list_page env.files req.remote state.current_folder_id state.search_query state.page_size
        (or_empty (find_token state.page state.page_tokens))

  -- a hit or a miss
  unfoldable pub shown : Request → ExplorerState → Option Str → Act World View
  unfolding fetched listing view_of
  shown req state (some raw) w = (w, ok (view_of state (env.codec.unmarshal raw).entries))
  shown req state none w = fetched req state (page_key state) (listing req state) w

  unfoldable pub render : Request → ExplorerState → Act World View
  unfolding shown
  render req state w =
      let (c, raw) = env.cache.get req.now (page_key state) w.cached in
      shown req state raw (record w { cached = c })

  -- persist, then show
  unfoldable pub save_and_render : Request → ExplorerState → Act World View
  unfolding upsert render
  save_and_render req state = upsert state >> render req state

  unfoldable pub open_with : Request → ℤ → Result (List BreadcrumbEntry) → Act World View
  unfolding save_and_render
  open_with req page_size (err e) = raise e
  open_with req page_size (ok crumbs) = save_and_render req (opened req.key page_size crumbs)

  -- Open
  unfoldable pub open_root : Request → ℤ → Act World View
  unfolding open_with
  open_root req page_size =
      open_with req page_size (build_breadcrumb env.files req.remote (bytes "root"))

  unfoldable pub enter : Request → ExplorerState → Str → Result Str → Act World View
  unfolding save_and_render
  enter req state folder_id (err e) = raise e
  enter req state folder_id (ok name) = save_and_render req (entered state folder_id name)

  unfoldable pub open_folder : Request → Str → Act World View
  unfolding must_state enter
  open_folder req folder_id = must_state req.key >>= λ state.
      enter req state folder_id (folder_name env.files req.remote folder_id)

  unfoldable pub back_to : Request → ExplorerState → Option BreadcrumbEntry → Act World View
  unfolding save_and_render
  back_to req state none = raise out_of_range
  back_to req state (some last) =
      save_and_render req
        (at_folder (record state { breadcrumb = pop_crumb state.breadcrumb }) last.folder_id)

  unfoldable pub back : Request → Act World View
  unfolding must_state back_to
  back req =
      must_state req.key >>= λ state. back_to req state (last_crumb (pop_crumb state.breadcrumb))

  -- `state.Breadcrumb[:1]`
  unfoldable pub home_from : Request → ExplorerState → List BreadcrumbEntry → Act World View
  unfolding save_and_render
  home_from req state [] = raise out_of_range
  home_from req state (c ∷ cs) =
      save_and_render req (at_folder (record state { breadcrumb = c ∷ [] }) (bytes "root"))

  unfoldable pub home : Request → Act World View
  unfolding must_state home_from
  home req = must_state req.key >>= λ state. home_from req state state.breadcrumb

  unfoldable pub page : Request → ℤ → Act World View
  unfolding must_state save_and_render
  page req delta = must_state req.key >>= λ state. save_and_render req (turned state delta)

  unfoldable pub search : Request → Str → Act World View
  unfolding must_state save_and_render
  search req query = must_state req.key >>= λ state. save_and_render req (searched state query)

  unfoldable pub clear_search : Request → Act World View
  unfolding search
  clear_search req = search req []

  -- drop every cached page of the message
  unfoldable pub drop_pages : StateKey → World → World
  drop_pages key w = record w { cached = env.cache.invalidate_prefix (refresh_prefix key) w.cached }

  unfoldable pub refresh : Request → Act World View
  unfolding must_state drop_pages render
  refresh req = must_state req.key >>= λ state w. render req state (drop_pages req.key w)

  unfoldable pub await_rename : Request → Str → Act World (Unit {0})
  unfolding must_state upsert
  await_rename req file_id =
      must_state req.key >>= λ state. upsert (record state { awaiting_rename_file_id = file_id })

  unfoldable pub await_search : Request → Act World (Unit {0})
  unfolding must_state upsert
  await_search req =
      must_state req.key >>= λ state. upsert (record state { awaiting_search = true })

  -- persist the cleared flag, then report the prompt
  unfoldable pub consume_prompt : ExplorerState → Act World PendingPrompt
  unfolding upsert
  consume_prompt state = upsert (consumed state).0 >> pure (consumed state).1

  unfoldable pub find_pending : ℤ → ℤ → Act World PendingPrompt
  unfolding find_awaiting consume_prompt
  find_pending user_id chat_id =
      on_states (find_awaiting env.states user_id chat_id) >>= consume_prompt

  unfoldable pub render_current : Request → Act World View
  unfolding must_state render
  render_current req = must_state req.key >>= render req
