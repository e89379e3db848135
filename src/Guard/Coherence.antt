-- ===== src/Guard/Coherence.antt =====
-- The answers that internal/middleware/auth.go keeps in the cache against the users in the
-- database: how long they agree, and what follows for /auth and /unauth.
use native.Mathlib.Decide.{ℕ_discrete}
use gdrive_bot.Base.{
  ℕ, drop, ◌≤◌, ◌≡◌, ◌≢◌, refl, sym, ◌∙◌, ap, subst, Bool, true, false, Option, none, some,
  some_inj, inl, inr, ◌⊎◌, Str, str_eq, str_eq_iff, if◌then◌else◌, ℤ, Error, ok, continue, arith,
}
use gdrive_bot.Cache.Interface.{Cache}
use gdrive_bot.Cache.Laws.{lasts}
use gdrive_bot.Database.{Collection}
use gdrive_bot.Database.States.{done, loaded}
use gdrive_bot.Database.Users.{ensured, ensure_exists, get, may_use}
use gdrive_bot.Explorer.Key.{format_int-injective}
use gdrive_bot.Guard.{cache_key, marshal_bool, unmarshal_bool}
use gdrive_bot.Models.{User}

-- what the database says of a user
abbrev pub allowed : Option User → Bool
allowed none = false
allowed (some u) = may_use u

true_ne : true ≢ false
true_ne e = cc

unmarshal-marshal_bool : (b : Bool) → unmarshal_bool (marshal_bool b) ≡ b
unfolding str_eq
unmarshal-marshal_bool true = refl
unmarshal-marshal_bool false = refl

cache_key-injective : (a b : ℤ) → cache_key a ≡ cache_key b → a ≡ b
unfolding cache_key
cache_key-injective a b e = format_int-injective a b (ap (drop 6) e)

ensured_keeps :
    (now : ℕ) (id : ℤ) (name : Str) (o : Option User)
    → allowed (ensured now id name false o) ≡ allowed o
unfolding ensured
ensured_keeps now id name none = refl
ensured_keeps now id name (some u) = refl

ℤ_discrete : Discrete ℤ
ℤ_discrete = hlevel ℕ_discrete

key_ne : (j id : ℤ) → str_eq (cache_key j) (cache_key id) ≡ false → id ≢ j
key_ne j id q k = true_ne (sym ((str_eq_iff _ _).1 (ap cache_key (sym k))) ∙ q)

module _ (users : Collection ℤ User) where
  write_allowed :
      (s : users.Store) (id : ℤ) (f : Option User → Option User) (j : ℤ)
      → ((o : Option User) → allowed (f o) ≡ allowed o)
      → allowed (users.docs (users.write s id f).0 j) ≡ allowed (users.docs s j)
  write_allowed s id f j keep = elim (ℤ_discrete id j) [
    | yes same ↦
        subst (λ i. allowed (users.docs (users.write s id f).0 i) ≡ allowed (users.docs s i)) same
          (at (users.write_atomic s id f))
    | no other ↦ ap allowed (users.write_other s id f j other)
  ]
    where
      at :
          (users.docs (users.write s id f).0 id ≡ f (users.docs s id))
            ⊎ (users.docs (users.write s id f).0 id ≡ users.docs s id)
          → allowed (users.docs (users.write s id f).0 id) ≡ allowed (users.docs s id)
      at (inl e) = ap allowed e ∙ keep (users.docs s id)
      at (inr e) = ap allowed e

  got_state :
      (id : ℤ) (p : users.Store × Option Error) → (continue (done p) (λ _. get users id)).0 ≡ p.0
  unfolding get
  got_state id (s, none) = refl
  got_state id (s, some e) = refl

  pub ensure_allowed :
      (now : ℕ) (id : ℤ) (name : Str) (s : users.Store) (j : ℤ)
      → allowed (users.docs (ensure_exists users now id name false s).0 j)
        ≡ allowed (users.docs s j)
  unfolding ensure_exists
  ensure_allowed now id name s j =
      ap (λ x. allowed (users.docs x j))
        (got_state id (users.write s id (ensured now id name false)))
      ∙ write_allowed s id (ensured now id name false) j (ensured_keeps now id name)

  got_doc :
      (id : ℤ) (p : users.Store × Option Error) {u : User}
      → (continue (done p) (λ _. get users id)).1 ≡ ok u
      → users.docs p.0 id ≡ some u
  unfolding get
  got_doc id (s, none) e = sym (users.find_one_docs s id _ (loaded _ e))
  got_doc id (s, some x) e = cc

  pub ensure_doc :
      (now : ℕ) (id : ℤ) (name : Str) (b : Bool) (s : users.Store) {u : User}
      → (ensure_exists users now id name b s).1 ≡ ok u
      → users.docs (ensure_exists users now id name b s).0 id ≡ some u
  unfolding ensure_exists
  ensure_doc now id name b s e =
      let p = users.write s id (ensured now id name b) in
      ap (λ x. users.docs x id) (got_state id p) ∙ got_doc id p e

module _ (users : Collection ℤ User) (cache : Cache) where
  -- From `now` on, a cached answer is the answer of the database.
  abbrev pub Agrees : ℕ → cache.Store → users.Store → Type 0
  Agrees now c s =
      (id : ℤ) (t : ℕ) (raw : Str)
      → now ≤ t
      → cache.seen t c (cache_key id) ≡ some raw
      → unmarshal_bool raw ≡ allowed (users.docs s id)

  pub Agrees-later :
      (now t : ℕ) (c : cache.Store) (s : users.Store) → now ≤ t → Agrees now c s → Agrees t c s
  Agrees-later now t c s h a id u raw k e = a id u raw (omega arith) e

  pub Agrees-docs :
      (now : ℕ) (c : cache.Store) (s s' : users.Store)
      → ((j : ℤ) → allowed (users.docs s' j) ≡ allowed (users.docs s j))
      → Agrees now c s
      → Agrees now c s'
  Agrees-docs now c s s' same a id t raw h e = a id t raw h e ∙ sym (same id)

  pub Agrees-get :
      (now : ℕ) (c : cache.Store) (s : users.Store) (key : Str)
      → Agrees now c s
      → Agrees now (cache.get now key c).0 s
  Agrees-get now c s key a id t raw h e =
      a id t raw h (sym (cache.seen_get now key c (cache_key id) t h) ∙ e)

  stored_raw : (b : Bool) (r raw : Str) → (if b then some r else none) ≡ some raw → r ≡ raw
  stored_raw true r raw e = some_inj e
  stored_raw false r raw e = cc

  pub Agrees-set :
      (now : ℕ) (id : ℤ) (u : User) (ttl : ℤ) (c : cache.Store) (s : users.Store)
      → users.docs s id ≡ some u
      → Agrees now c s
      → Agrees now (cache.set now (cache_key id) (marshal_bool (may_use u)) ttl c) s
  Agrees-set now id u ttl c s doc a j t raw h e =
      go (str_eq (cache_key id) (cache_key j)) refl (
        sym (cache.seen_set now (cache_key id) (marshal_bool (may_use u)) ttl c (cache_key j) t)
        ∙ e)
    where
      go :
          (b : Bool)
          → str_eq (cache_key id) (cache_key j) ≡ b
          → (if b
              then (if lasts now ttl t then some (marshal_bool (may_use u)) else none)
              else cache.seen t c (cache_key j))
            ≡ some raw
          → unmarshal_bool raw ≡ allowed (users.docs s j)
      go true q g =
          let same = cache_key-injective id j ((str_eq_iff _ _).0 q) in
          subst (λ r. unmarshal_bool r ≡ allowed (users.docs s j)) (stored_raw _ _ _ g)
            (unmarshal-marshal_bool (may_use u)
              ∙ sym (ap allowed (subst (λ i. users.docs s i ≡ some u) same doc)))
      go false q g = a j t raw h g

  pub Agrees-delete :
      (now : ℕ) (id : ℤ) (c : cache.Store) (s s' : users.Store)
      → ((j : ℤ) → id ≢ j → allowed (users.docs s' j) ≡ allowed (users.docs s j))
      → Agrees now c s
      → Agrees now (cache.delete (cache_key id) c) s'
  Agrees-delete now id c s s' same a j t raw h e =
      go (str_eq (cache_key j) (cache_key id)) refl
        (sym (cache.seen_delete t (cache_key id) c (cache_key j)) ∙ e)
    where
      go :
          (b : Bool)
          → str_eq (cache_key j) (cache_key id) ≡ b
          → (if b then none else cache.seen t c (cache_key j)) ≡ some raw
          → unmarshal_bool raw ≡ allowed (users.docs s' j)
      go true q g = cc
      go false q g = a j t raw h g ∙ sym (same j (key_ne j id q))
