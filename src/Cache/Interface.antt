-- ===== src/Cache/Interface.antt =====
-- The interface `Cache` of internal/cache/cache.go: what the handlers depend on, with the laws of a
-- cache that works. The in-memory cache is one.
use gdrive_bot.Base.{ℕ, ◌≤◌, ◌≡◌, Option, none, some, Str, str_eq, has_prefix, if◌then◌else◌, ℤ}
use gdrive_bot.Cache.{MemoryCache, get, set, delete, invalidate_prefix}
use gdrive_bot.Cache.Laws.{
  live, lasts, get_visible, get_keeps, live-set, live-delete, live-invalidate,
}

-- A method of the interface acts on a state; `seen` is what a reader would find.
pub record Cache : Type 1 where
  pub Store : Type 0
  pub get : ℕ → Str → Store → Store × Option Str
  pub set : ℕ → Str → Str → ℤ → Store → Store
  pub delete : Str → Store → Store
  pub invalidate_prefix : Str → Store → Store
  pub seen : ℕ → Store → Str → Option Str
  pub get_seen : (now : ℕ) (key : Str) (s : Store) → (get now key s).1 ≡ seen now s key
  pub seen_get :
      (now : ℕ) (key : Str) (s : Store) (j : Str) (t : ℕ)
      → now ≤ t
      → seen t (get now key s).0 j ≡ seen t s j
  pub seen_set :
      (now : ℕ) (key raw : Str) (ttl : ℤ) (s : Store) (j : Str) (t : ℕ)
      → seen t (set now key raw ttl s) j
        ≡ (if str_eq key j then (if lasts now ttl t then some raw else none) else seen t s j)
  pub seen_delete :
      (now : ℕ) (key : Str) (s : Store) (j : Str)
      → seen now (delete key s) j ≡ (if str_eq j key then none else seen now s j)
  pub seen_invalidate :
      (now : ℕ) (prefix : Str) (s : Store) (j : Str)
      → seen now (invalidate_prefix prefix s) j
        ≡ (if has_prefix j prefix then none else seen now s j)

-- `New("", …)`: the in-process map.
abbrev pub memory_cache : Cache
memory_cache = record {
  Store = MemoryCache;
  get = get;
  set = set;
  delete = delete;
  invalidate_prefix = invalidate_prefix;
  seen = live;
  get_seen = λ now key s. get_visible now s key;
  seen_get = λ now key s j t h. get_keeps now s key j t h;
  seen_set = λ now key raw ttl s j t. live-set now s key raw ttl j t;
  seen_delete = λ now key s j. live-delete now s key j;
  seen_invalidate = λ now prefix s j. live-invalidate now s prefix j;
}
