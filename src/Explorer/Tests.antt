-- ===== src/Explorer/Tests.antt =====
-- A concrete explorer: the in-memory collection and cache, and a Drive with one folder.
use native.Mathlib.Decide.{ℕ_discrete}
use gdrive_bot.Base.{
  sym, some_inj, ◌≡◌, refl, false, Option, none, some, List, [], ◌∷◌, Str, bytes, str_eq, pos,
  negsuc, ok, add64, format_nat, format_int,
}
use gdrive_bot.Cache
use gdrive_bot.Cache.Interface.{memory_cache}
use gdrive_bot.Database.Assoc.{assoc_collection}
use gdrive_bot.Database.States.{StateKey, awaits}
use gdrive_bot.Drive.{folder_name, build_breadcrumb, list_page, FilesService, DriveFile, Entry}
use gdrive_bot.Models.{ExplorerState}
use gdrive_bot.Explorer.Render.{render_text}
use gdrive_bot.Explorer.State.{
  CachedPage, list_cache_key, opened, entered, consumed, pop_crumb, last_crumb,
}
use gdrive_bot.Explorer.{
  Env, World, Request, PageCodec, view_of, await_rename, open_root, open_folder, find_pending,
  render_current, back, refresh,
}
use gdrive_bot.Explorer.Navigation.{AllValid, StateKey-discrete}
use gdrive_bot.Explorer.Session.{Call, enters, opens, turns, renames, goes_back, run, run-AllValid}
use gdrive_bot.Explorer.Prompts.{Consumes, find_pending-Consumes}

abbrev movie : DriveFile
movie = record {
  id = bytes "f1";
  name = bytes "movie.mkv";
  mime_type = bytes "video";
  size = pos 2048;
  parents = bytes "root" ∷ [];
}

-- Its first page is empty, and has a successor, as the service may answer.
abbrev sparse_drive : FilesService
sparse_drive = record {
  Remote = Unit {0};
  list = λ r q n t. ok ([], bytes "t2");
  get = λ r f. ok movie;
  update_name = λ r f n. (r, none);
  remove = λ r f. (r, none);
  permissions = λ r f. [];
  list_permissions = λ r f. ok [];
  create_permission = λ r f t p. (r, none);
  delete_permission = λ r f p. (r, none);
  create = λ r n t p. (r, ok (bytes "new"));
}

abbrev a_page : CachedPage
a_page = record { entries = []; next_page_token = bytes "t2" }

-- A codec of the pages with no entries.
abbrev encode : List Entry → Str → Option Str
encode [] t = some t
encode (e ∷ es) t = none

abbrev decode : Str → CachedPage
decode t = record { entries = []; next_page_token = t }

pub decode-encode :
    (es : List Entry) (t raw : Str)
    → encode es t ≡ some raw
    → decode raw ≡ record { entries = es; next_page_token = t }
decode-encode [] t raw e = λ i. record { entries = []; next_page_token = sym (some_inj e) i }
decode-encode (x ∷ es) t raw e = cc

abbrev pub empty_pages : PageCodec
empty_pages = record {
  marshal = λ p. encode p.entries p.next_page_token;
  unmarshal = decode;
  unmarshal-marshal = λ p raw e. decode-encode p.entries p.next_page_token raw e;
}

abbrev pub env : Env
env = record {
  states = assoc_collection StateKey-discrete;
  cache = memory_cache;
  codec = empty_pages;
  files = sparse_drive;
  tenths = λ b d. format_nat b;
}

abbrev here : StateKey
here = (pos 7, negsuc 99, pos 3)

abbrev request : Request env
request = record { now = 1000; remote = tt; key = here }

abbrev empty_world : World env
empty_world = record { stored = []; cached = [] }

empty-AllValid : AllValid env empty_world
empty-AllValid k s e = cc

run-AllValid_example : AllValid env (
    run env
      ((request, opens (pos 10)) ∷ (request, turns (pos 1)) ∷ (request, goes_back) ∷ [])
      empty_world)
run-AllValid_example =
    run-AllValid env
      ((request, opens (pos 10)) ∷ (request, turns (pos 1)) ∷ (request, goes_back) ∷ []) empty_world
      empty-AllValid

-- What a run on this environment computes with.
play : List (Request env × Call) → World env → World env
unfolding run find_pending back StateKey-discrete await_rename open_root open_folder folder_name
    build_breadcrumb str_eq Cache.get Cache.set list_page opened entered ℕ_discrete awaits consumed
    list_cache_key refresh view_of pop_crumb last_crumb render_text format_int
play = run env

-- The user opens the explorer, and then asks to rename a file.
abbrev renaming : List (Request env × Call)
renaming = (request, opens (pos 10)) ∷ (request, renames (bytes "f1")) ∷ []

abbrev waiting : World env
waiting = run env renaming empty_world

waiting-AllValid : AllValid env waiting
waiting-AllValid = run-AllValid env renaming empty_world empty-AllValid

find_pending-Consumes_example :
    Consumes env
      (pos 7)
      (negsuc 99)
      waiting
      (record { message_id = pos 3; rename_file_id = bytes "f1"; is_search = false })
      (find_pending env (pos 7) (negsuc 99) waiting).0
unfolding play add64
find_pending-Consumes_example =
    find_pending-Consumes env (pos 7) (negsuc 99) waiting _ waiting-AllValid refl

-- The prompt that was cancelled is still reported.
still_reported :
    (find_pending env (pos 7) (negsuc 99) (render_current env request waiting).0).1
    ≡ ok (record { message_id = pos 3; rename_file_id = bytes "f1"; is_search = false })
unfolding play render_current
still_reported = refl

-- The user opens the explorer, and then a folder.
abbrev inside : World env
inside = run env ((request, opens (pos 10)) ∷ (request, enters (bytes "f1")) ∷ []) empty_world

abbrev root_state : ExplorerState
root_state = record {
  user_id = pos 7;
  chat_id = negsuc 99;
  message_id = pos 3;
  current_folder_id = bytes "root";
  breadcrumb = record { folder_id = bytes "root"; name = bytes "Root" } ∷ [];
  page = pos 1;
  page_size = pos 10;
  search_query = [];
  page_tokens = [];
  awaiting_rename_file_id = [];
  awaiting_search = false;
}

abbrev inside_state : ExplorerState
inside_state = record root_state {
  current_folder_id = bytes "f1";
  breadcrumb =
      record { folder_id = bytes "root"; name = bytes "Root" }
      ∷ record { folder_id = bytes "f1"; name = bytes "movie.mkv" }
      ∷ [];
  page_tokens = (pos 2, bytes "t2") ∷ [];
}
