-- ===== src/Guard/Answers.antt =====
-- What `IsAuthorized` of internal/middleware/auth.go answers.
use gdrive_bot.Base.{
  ℕ, ◌≡◌, refl, sym, ◌∙◌, ap, subst, Bool, true, false, ◌||◌, Option, none, some, Str,
  if◌then◌else◌, ℤ, eqb_ℤ, Result, ok, err, ok_inj, continue, arith,
}
use gdrive_bot.Cache.Interface.{Cache}
use gdrive_bot.Database.{Collection}
use gdrive_bot.Database.Users.{ensure_exists}
use gdrive_bot.Guard.{
  World, auth_cache_ttl, cache_key, unmarshal_bool, remember, decide, consult, is_authorized,
}
use gdrive_bot.Guard.Coherence.{
  allowed, Agrees, Agrees-docs, Agrees-get, Agrees-set, ensure_allowed, ensure_doc,
}
use gdrive_bot.Models.{User}

module _ (users : Collection ℤ User) (cache : Cache) (owner_id : ℤ) where
  -- From `now` on, what the cache holds is what the database says.
  abbrev pub Coherent : ℕ → World users cache owner_id → Type 0
  Coherent now w = Agrees users cache now w.cached w.stored

  remembered-Coherent :
      (now : ℕ) (id : ℤ) (r : Result User) (w : World users cache owner_id)
      → ((u : User) → r ≡ ok u → users.docs w.stored id ≡ some u)
      → Coherent now w
      → Coherent now (continue (w, r) (remember users cache owner_id now id)).0
  unfolding remember
  remembered-Coherent now id (err e) w doc h = h
  remembered-Coherent now id (ok u) w doc h =
      Agrees-set users cache now id u auth_cache_ttl w.cached w.stored (doc u refl) h

  remembered_answer :
      (now : ℕ) (id : ℤ) (r : Result User) (w : World users cache owner_id) {b : Bool}
      → ((u : User) → r ≡ ok u → users.docs w.stored id ≡ some u)
      → (continue (w, r) (remember users cache owner_id now id)).1 ≡ ok b
      → b ≡ allowed (users.docs w.stored id)
  unfolding remember
  remembered_answer now id (err x) w doc e = cc
  remembered_answer now id (ok u) w doc e = sym (ok_inj e) ∙ sym (ap allowed (doc u refl))

  module _ (now : ℕ) (id : ℤ) (name : Str) where
    -- The user whom the database answers, when it is asked for one who is not the owner.
    asked_allowed :
        (s : users.Store) (j : ℤ)
        → eqb_ℤ id owner_id ≡ false
        → allowed (users.docs (ensure_exists users now id name (eqb_ℤ id owner_id) s).0 j)
          ≡ allowed (users.docs s j)
    asked_allowed s j q =
        subst
          (λ b.
            allowed (users.docs (ensure_exists users now id name b s).0 j)
            ≡ allowed (users.docs s j))
          (sym q) (ensure_allowed users now id name s j)

    decide-Coherent :
        (raw : Option Str) (w : World users cache owner_id)
        → eqb_ℤ id owner_id ≡ false
        → Coherent now w
        → Coherent now (decide users cache owner_id now id name raw w).0
    unfolding decide
    decide-Coherent (some raw) w q h = h
    decide-Coherent none w q h =
        remembered-Coherent now id _ _
          (λ u e. ensure_doc users now id name (eqb_ℤ id owner_id) w.stored e)
          (Agrees-docs users cache now w.cached w.stored _ (λ j. asked_allowed w.stored j q) h)

    decide_answer :
        (raw : Option Str) (w : World users cache owner_id) {b : Bool}
        → eqb_ℤ id owner_id ≡ false
        → ((r : Str) → raw ≡ some r → unmarshal_bool r ≡ allowed (users.docs w.stored id))
        → (decide users cache owner_id now id name raw w).1 ≡ ok b
        → b ≡ allowed (users.docs w.stored id)
    unfolding decide
    decide_answer (some raw) w q hit e = sym (ok_inj e) ∙ hit raw refl
    decide_answer none w q hit e =
        remembered_answer now id _ _
          (λ u x. ensure_doc users now id name (eqb_ℤ id owner_id) w.stored x) e
        ∙ asked_allowed w.stored id q

    -- Asking keeps the cache in agreement with the database, also where the database fails.
    pub is_authorized-Coherent :
        (w : World users cache owner_id)
        → Coherent now w
        → Coherent now (is_authorized users cache owner_id now id name w).0
    unfolding is_authorized consult
    is_authorized-Coherent w h =
        elim (eqb_ℤ id owner_id)
            as (λ b.
              eqb_ℤ id owner_id ≡ b
              → Coherent now
                  (if b then (w, ok true) else consult users cache owner_id now id name w).0) [
                    | true ↦ λ _. h
                    | false ↦ λ q.
                        decide-Coherent _ _ q
                          (Agrees-get users cache now w.cached w.stored (cache_key id) h)
                  ]
          refl

    -- Where the cache agrees with the database, and IsAuthorized answers without an error, it
    -- answers yes exactly for the owner and for the users to whom the database gives the right.
    pub is_authorized_answer :
        (w : World users cache owner_id) (b : Bool)
        → Coherent now w
        → (is_authorized users cache owner_id now id name w).1 ≡ ok b
        → b ≡ (eqb_ℤ id owner_id || allowed (users.docs w.stored id))
    unfolding is_authorized consult
    is_authorized_answer w b h =
        elim (eqb_ℤ id owner_id)
            as (λ o.
              eqb_ℤ id owner_id ≡ o
              → (if o then (w, ok true) else consult users cache owner_id now id name w).1 ≡ ok b
              → b ≡ (o || allowed (users.docs w.stored id))) [
                | true ↦ λ _ e. sym (ok_inj e)
                | false ↦ λ q e.
                    decide_answer _ _ q
                      (λ r g.
                        h id now r (omega arith)
                          (sym (cache.get_seen now (cache_key id) w.cached) ∙ g))
                      e
              ]
          refl
