-- ===== src/Cache.antt =====
-- internal/cache/cache.go: the in-memory cache, and the interface that its users depend on.
--
-- Keys and values are byte strings: a value is what `json.Marshal` gave. Times are nanoseconds on
-- one clock, and `now` is the reading of `time.Now()` in a call; the zero time, which means that an
-- entry never expires, is `none`. The map is an association list. The Redis client is third-party
-- code: it can only be another `Cache`. Locks are not modelled: the calls run one
-- at a time.
pub mod Laws
pub mod Interface
pub mod Tests
use gdrive_bot.Base.{
  ℕ, ◌+◌, ◌≡◌, Bool, true, false, not, Option, none, some, List, [], ◌∷◌, Str, str_eq, has_prefix,
  ltb, if◌then◌else◌, ℤ, pos, negsuc,
}

pub record MemoryEntry : Type 0 where
  pub value : Str
  pub expires : Option ℕ

abbrev pub MemoryCache : Type 0
MemoryCache = List (Str × MemoryEntry)

-- newMemoryCache
abbrev pub new_memory_cache : MemoryCache
new_memory_cache = []

-- `entry, ok := m.data[key]`
unfoldable pub lookup : Str → MemoryCache → Option MemoryEntry
lookup k [] = none
lookup k ((j, v) ∷ m) = if str_eq j k then some v else lookup k m

-- `delete` of every key that passes the test
unfoldable pub remove_keys : (Str → MemoryEntry → Bool) → MemoryCache → MemoryCache
remove_keys p [] = []
remove_keys p ((j, v) ∷ m) = let rest = remove_keys p m in if p j v then rest else (j, v) ∷ rest

-- `!expires.IsZero() && now.After(expires)`
abbrev pub expired : ℕ → MemoryEntry → Bool
expired now e = elim e.expires [ none ↦ false | some t ↦ ltb t now ]

-- An expired entry is dropped and reported as a miss.
unfoldable pub get : ℕ → Str → MemoryCache → MemoryCache × Option Str
unfolding lookup remove_keys
get now key m = elim (lookup key m) [
  | none ↦ (m, none)
  | some e ↦
      if expired now e then (remove_keys (λ j _. str_eq j key) m, none) else (m, some e.value)
]

-- `if ttl > 0 { expires = time.Now().Add(ttl) }`
abbrev pub expiry : ℕ → ℤ → Option ℕ
expiry now (pos n) = if ltb 0 n then some (now + n) else none
expiry now (negsuc n) = none

unfoldable pub set : ℕ → Str → Str → ℤ → MemoryCache → MemoryCache
unfolding remove_keys
set now key raw ttl m =
    (key, record { value = raw; expires = expiry now ttl }) ∷ remove_keys (λ j _. str_eq j key) m

unfoldable pub delete : Str → MemoryCache → MemoryCache
unfolding remove_keys
delete key m = remove_keys (λ j _. str_eq j key) m

unfoldable pub invalidate_prefix : Str → MemoryCache → MemoryCache
unfolding remove_keys
invalidate_prefix prefix m = remove_keys (λ j _. has_prefix j prefix) m

-- One sweep of `janitor`.
pub sweep : ℕ → MemoryCache → MemoryCache
unfolding remove_keys
sweep now m = remove_keys (λ _ e. expired now e) m
