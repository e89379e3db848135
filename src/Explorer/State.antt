-- ===== src/Explorer/State.antt =====
-- internal/explorer/explorer.go: what the methods do to one explorer state, and the cache keys.
use gdrive_bot.Base.{
  Bool, true, false, not, Option, none, some, List, [], ◌∷◌, ◌++◌, Str, bytes, str_eq,
  if◌then◌else◌, ℤ, pos, eqb_ℤ, ltb_ℤ, add64, format_int,
}
use gdrive_bot.Database.States.{StateKey}
use gdrive_bot.Drive.{Entry}
use gdrive_bot.Models.{BreadcrumbEntry, ExplorerState}

pub record CachedPage : Type 0 where
  pub entries : List Entry
  pub next_page_token : Str

-- listCacheKey
unfoldable pub list_cache_key : StateKey → Str → Str → ℤ → Str
list_cache_key (user_id, chat_id, message_id) folder_id query page =
    bytes "explist:"
    ++ (format_int user_id
        ++ b':'
          ∷ (format_int chat_id
              ++ b':'
                ∷ (format_int message_id
                    ++ b':' ∷ (folder_id ++ b':' ∷ (query ++ b':' ∷ format_int page)))))

-- the prefix that Refresh drops
unfoldable pub refresh_prefix : StateKey → Str
refresh_prefix (user_id, chat_id, message_id) =
    bytes "explist:"
    ++ (format_int user_id
        ++ b':' ∷ (format_int chat_id ++ b':' ∷ (format_int message_id ++ b':' ∷ [])))

-- 2 * time.Minute
abbrev pub page_ttl : ℤ
page_ttl = pos 120000000000

-- `state.PageTokens[page]`, and whether it is there
unfoldable pub find_token : ℤ → List (ℤ × Str) → Option Str
find_token page [] = none
find_token page ((p, t) ∷ ts) = if eqb_ℤ p page then some t else find_token page ts

abbrev pub or_empty : Option Str → Str
or_empty none = []
or_empty (some t) = t

-- `state.PageTokens[page] = token`
unfoldable pub put_token : ℤ → Str → List (ℤ × Str) → List (ℤ × Str)
put_token page token ts = (page, token) ∷ ts

-- The start of a listing: first page, no search, no tokens.
abbrev pub at_folder : ExplorerState → Str → ExplorerState
at_folder s folder_id = record s {
  current_folder_id = folder_id;
  page = pos 1;
  search_query = [];
  page_tokens = [];
}

-- all but the last element, and the last
unfoldable pub init_crumbs : List BreadcrumbEntry → List BreadcrumbEntry
init_crumbs [] = []
init_crumbs (c ∷ []) = []
init_crumbs (c ∷ d ∷ cs) = c ∷ init_crumbs (d ∷ cs)

unfoldable pub last_crumb : List BreadcrumbEntry → Option BreadcrumbEntry
last_crumb [] = none
last_crumb (c ∷ []) = some c
last_crumb (c ∷ d ∷ cs) = last_crumb (d ∷ cs)

-- `if len(b) > 1 { b = b[:len(b)-1] }`
unfoldable pub pop_crumb : List BreadcrumbEntry → List BreadcrumbEntry
unfolding init_crumbs
pop_crumb [] = []
pop_crumb (c ∷ []) = c ∷ []
pop_crumb (c ∷ d ∷ cs) = init_crumbs (c ∷ d ∷ cs)

-- The state that Open persists.
unfoldable pub opened : StateKey → ℤ → List BreadcrumbEntry → ExplorerState
opened (user_id, chat_id, message_id) page_size crumbs = record {
  user_id = user_id;
  chat_id = chat_id;
  message_id = message_id;
  current_folder_id = bytes "root";
  breadcrumb = crumbs;
  page = pos 1;
  page_size = page_size;
  search_query = [];
  page_tokens = [];
  awaiting_rename_file_id = [];
  awaiting_search = false;
}

-- The state that OpenFolder persists.
unfoldable pub entered : ExplorerState → Str → Str → ExplorerState
entered state folder_id name =
    let crumb : BreadcrumbEntry = record { folder_id = folder_id; name = name } in
    at_folder (record state { breadcrumb = state.breadcrumb ++ crumb ∷ [] }) folder_id

-- `newPage := state.Page + delta; if newPage < 1 { newPage = 1 }`
unfoldable pub turned : ExplorerState → ℤ → ExplorerState
turned state delta =
    let new_page = add64 state.page delta in
    record state { page = if ltb_ℤ new_page (pos 1) then pos 1 else new_page }

-- The state that Search persists.
unfoldable pub searched : ExplorerState → Str → ExplorerState
searched state query = record state { search_query = query; page = pos 1; page_tokens = [] }

pub record PendingPrompt : Type 0 where
  pub message_id : ℤ
  pub rename_file_id : Str
  pub is_search : Bool

-- FindPending clears the flag that it reports: a rename before a search. The two flags come first.
unfoldable pub consume : Bool → Bool → ExplorerState → ExplorerState × PendingPrompt
consume true b s = (
  record s { awaiting_rename_file_id = [] },
  record {
    message_id = s.message_id;
    rename_file_id = s.awaiting_rename_file_id;
    is_search = false;
  },
)
consume false true s = (
  record s { awaiting_search = false },
  record { message_id = s.message_id; rename_file_id = []; is_search = true },
)
consume false false s =
    (s, record { message_id = s.message_id; rename_file_id = []; is_search = false })

unfoldable pub consumed : ExplorerState → ExplorerState × PendingPrompt
unfolding consume
consumed s = consume (not (str_eq s.awaiting_rename_file_id [])) s.awaiting_search s
