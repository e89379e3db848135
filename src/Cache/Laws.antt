-- ===== src/Cache/Laws.antt =====
-- What each method of the in-memory cache does to the entries that a reader can still see.
use gdrive_bot.Base.{
  subst, ℕ, ◌+◌, ◌≤◌, ◌≡◌, refl, Bool, true, Option, none, some, [], ◌∷◌, Str, str_eq, str_eq_iff,
  str_eq_refl, has_prefix, ltb, leb, if◌then◌else◌, Bool-cases, inl, inr, arith, ℤ, pos, negsuc,
}
use gdrive_bot.Cache.{
  MemoryEntry, MemoryCache, lookup, remove_keys, expired, get, set, delete, invalidate_prefix,
  sweep,
}

-- The abstract cache: what a read of `key` at time `now` yields.
abbrev pub visible : ℕ → Option MemoryEntry → Option Str
visible now none = none
visible now (some e) = if expired now e then none else some e.value

abbrev pub live : ℕ → MemoryCache → Str → Option Str
live now m key = visible now (lookup key m)

-- Whether a value stored at `now` for `ttl` can still be read at time `t`.
abbrev pub lasts : ℕ → ℤ → ℕ → Bool
lasts now (pos n) t = if ltb 0 n then leb t (now + n) else true
lasts now (negsuc n) t = true

lookup-remove_keys :
    (p : Str → Bool) (k : Str) (m : MemoryCache)
    → lookup k (remove_keys (λ j _. p j) m) ≡ (if p k then none else lookup k m)
unfolding lookup remove_keys
lookup-remove_keys p k [] = ground arith
lookup-remove_keys p k ((j, v) ∷ m) = elim (Bool-cases (str_eq j k)) [
  | inl e ↦ rw ((str_eq_iff j k).0 e) (ground (arith, lookup-remove_keys p k m, str_eq_refl k))
  | inr e ↦ ground (arith, lookup-remove_keys p k m)
]

module _ (now : ℕ) (m : MemoryCache) where
  pub get_visible : (key : Str) → (get now key m).1 ≡ live now m key
  unfolding get
  get_visible key = ground arith

  pub get_keeps : (key j : Str) (t : ℕ) → now ≤ t → live t (get now key m).0 j ≡ live t m j
  unfolding get
  get_keeps key j t h = elim (Bool-cases (str_eq j key)) [
    | inl e ↦
        rw ((str_eq_iff j key).0 e)
          (ground (arith, lookup-remove_keys (λ i. str_eq i key) key m, str_eq_refl key))
    | inr e ↦ ground (arith, lookup-remove_keys (λ i. str_eq i key) j m)
  ]

  pub live-set :
      (key raw : Str) (ttl : ℤ) (j : Str) (t : ℕ)
      → live t (set now key raw ttl m) j
        ≡ (if str_eq key j then (if lasts now ttl t then some raw else none) else live t m j)
  unfolding set lookup
  live-set key raw (pos n) j t = elim (Bool-cases (str_eq key j)) [
    | inl e ↦ ground arith
    | inr e ↦
        ground
          (arith, lookup-remove_keys (λ i. str_eq i key) j m, str_eq_iff j key, str_eq_iff key j)
  ]
  live-set key raw (negsuc n) j t =
      ground (arith, lookup-remove_keys (λ i. str_eq i key) j m, str_eq_iff j key, str_eq_iff key j)

  pub live-delete :
      (key j : Str) → live now (delete key m) j ≡ (if str_eq j key then none else live now m j)
  unfolding delete
  live-delete key j = ground (arith, lookup-remove_keys (λ i. str_eq i key) j m)

  pub live-invalidate :
      (prefix j : Str)
      → live now (invalidate_prefix prefix m) j
        ≡ (if has_prefix j prefix then none else live now m j)
  unfolding invalidate_prefix
  live-invalidate prefix j = ground (arith, lookup-remove_keys (λ i. has_prefix i prefix) j m)

-- A map has each key once.
abbrev pub Unique : MemoryCache → Type 0
Unique [] = Unit
Unique ((j, v) ∷ m) = (lookup j m ≡ none) × Unique m

lookup-remove_none :
    (p : Str → MemoryEntry → Bool) (k : Str) (m : MemoryCache)
    → lookup k m ≡ none
    → lookup k (remove_keys p m) ≡ none
unfolding lookup remove_keys
lookup-remove_none p k [] h = refl
lookup-remove_none p k ((j, v) ∷ m) h = ground (arith, lookup-remove_none p k m)

remove_keys-Unique :
    (p : Str → MemoryEntry → Bool) (m : MemoryCache) → Unique m → Unique (remove_keys p m)
unfolding remove_keys
remove_keys-Unique p [] h = tt
remove_keys-Unique p ((j, v) ∷ m) h =
    ground (arith, remove_keys-Unique p m h.1, lookup-remove_none p j m h.0)

visible-expired :
    (now t : ℕ) (e : MemoryEntry) → now ≤ t → expired now e ≡ true → visible t (some e) ≡ none
visible-expired now t e h x = ground arith

-- A sweep of the janitor changes nothing that a reader can see, then or later.
pub live-sweep :
    (now t : ℕ) (m : MemoryCache) (key : Str)
    → Unique m
    → now ≤ t
    → live t (sweep now m) key ≡ live t m key
unfolding sweep remove_keys lookup
live-sweep now t [] key u h = refl
live-sweep now t ((j, v) ∷ m) key u h = elim (Bool-cases (str_eq j key)) [
  | inl e ↦
      let gone : lookup key m ≡ none =
        subst (λ x. lookup x m ≡ none) ((str_eq_iff j key).0 e) u.0 in
      ground
        (arith, visible-expired now t v h, lookup-remove_none (λ _ x. expired now x) key m gone)
  | inr e ↦ ground (arith, live-sweep now t m key u.1 h)
]

-- Every method keeps the keys distinct.
pub set-Unique :
    (now : ℕ) (key raw : Str) (ttl : ℤ) (m : MemoryCache)
    → Unique m
    → Unique (set now key raw ttl m)
unfolding set
set-Unique now key raw ttl m u = (
  ground (arith, lookup-remove_keys (λ i. str_eq i key) key m, str_eq_refl key),
  remove_keys-Unique (λ j _. str_eq j key) m u,
)

pub get-Unique : (now : ℕ) (key : Str) (m : MemoryCache) → Unique m → Unique (get now key m).0
unfolding get
get-Unique now key m u = ground (arith, remove_keys-Unique (λ j _. str_eq j key) m u)
