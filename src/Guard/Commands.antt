-- ===== src/Guard/Commands.antt =====
-- What /auth and /unauth of internal/handlers/ownercommands.go change for internal/middleware/auth.go.
use mathlib.Core.Option
use gdrive_bot.Base.{
  ℕ, ◌≤◌, ◌≡◌, ◌≢◌, refl, sym, ◌∙◌, ap, subst, Bool, true, false, ◌||◌, Option, none, some, Str, [],
  if◌then◌else◌, ℤ, eqb_ℤ, eqb_ℤ_refl, Error, Result, ok, err, continue, ◌>>◌,
}
use gdrive_bot.Cache.Interface.{Cache}
use gdrive_bot.Database.{Collection}
use gdrive_bot.Database.States.{outcome}
use gdrive_bot.Database.Users.{ensure_exists, with_authed, set_authed}
use gdrive_bot.Guard.{
  World, on_users, is_authorized, is_owner, invalidate, grant, revoke, owner_command, authorize,
  unauth,
}
use gdrive_bot.Guard.Coherence.{
  allowed, Agrees, Agrees-later, Agrees-docs, Agrees-delete, ensure_allowed, ensure_doc,
}
use gdrive_bot.Guard.Answers.{Coherent, is_authorized_answer}
use gdrive_bot.Models.{User}

-- whether the database holds the user as an owner
abbrev pub stored_owner : Option User → Bool
stored_owner none = false
stored_owner (some u) = u.is_owner

or_true : (b : Bool) → (b || true) ≡ true
or_true true = refl
or_true false = refl

or_false : (b : Bool) → (b || false) ≡ b
or_false true = refl
or_false false = refl

allowed-with_authed :
    (now : ℕ) (b : Bool) (by : ℤ) (o : Option User)
    → allowed (Option.map {A = User} (with_authed now b by) o)
      ≡ elim o [ none ↦ false | some u ↦ u.is_owner || b ]
unfolding with_authed
allowed-with_authed now true by none = refl
allowed-with_authed now false by none = refl
allowed-with_authed now true by (some u) = refl
allowed-with_authed now false by (some u) = refl

module _ (users : Collection ℤ User) (cache : Cache) (owner_id : ℤ) where
  -- A right that was stored, and an answer that was forgotten.
  abbrev Changed :
      ℕ → ℤ → Bool → ℤ → World users cache owner_id → World users cache owner_id → Type 0
  Changed now target authed by w w' =
      Coherent users cache owner_id now w'
      × (allowed (users.docs w'.stored target)
          ≡ allowed
              (Option.map {A = User} (with_authed now authed by) (users.docs w.stored target)))

  set_then_forget :
      (now : ℕ) (by target : ℤ) (authed : Bool) (o : Option Error)
      (w w' : World users cache owner_id)
      → w'.cached ≡ w.cached
      → (o ≡ none
          → users.docs w'.stored target
            ≡ Option.map {A = User} (with_authed now authed by) (users.docs w.stored target))
      → ((j : ℤ) → target ≢ j → users.docs w'.stored j ≡ users.docs w.stored j)
      → Coherent users cache owner_id now w
      → (continue (w', outcome o) (λ _. invalidate users cache owner_id target)).1 ≡ ok tt
      → Changed now target authed by w
          (continue (w', outcome o) (λ _. invalidate users cache owner_id target)).0
  unfolding invalidate
  set_then_forget now by target authed (some x) w w' same at other h e = cc
  set_then_forget now by target authed none w w' same at other h e = (
    Agrees-delete users cache now target w'.cached w.stored w'.stored
        (λ j n. ap allowed (other j n))
        (subst (λ c. Agrees users cache now c w.stored) (sym same) h),
    ap allowed (at refl),
  )

  revoke-Changed :
      (now : ℕ) (by target : ℤ) (w : World users cache owner_id)
      → Coherent users cache owner_id now w
      → (revoke users cache owner_id now by target w).1 ≡ ok tt
      → Changed now target false by w (revoke users cache owner_id now by target w).0
  unfolding revoke set_authed
  revoke-Changed now by target w h e =
      let f = Option.map {A = User} (with_authed now false by) in
      let p = users.write w.stored target f in
      set_then_forget now by target false p.1 w (record w { stored = p.0 }) refl
        (λ g. users.write_docs w.stored target f g) (λ j n. users.write_other w.stored target f j n)
        h e

  granted_Changed :
      (now : ℕ) (by target : ℤ) (r : Result User) (w : World users cache owner_id)
      → ((u : User) → r ≡ ok u → users.docs w.stored target ≡ some u)
      → Coherent users cache owner_id now w
      → let q =
          continue
            (w, r)
            (λ _.
              on_users users cache owner_id (set_authed users now target true by)
              >> invalidate users cache owner_id target) in
        q.1 ≡ ok tt
        → Coherent users cache owner_id now q.0 × (allowed (users.docs q.0.stored target) ≡ true)
  unfolding set_authed
  granted_Changed now by target (err x) w doc h e = cc
  granted_Changed now by target (ok u) w doc h e =
      let f = Option.map {A = User} (with_authed now true by) in
      let p = users.write w.stored target f in
      let (coherent, set) =
        set_then_forget now by target true p.1 w (record w { stored = p.0 }) refl
          (λ g. users.write_docs w.stored target f g)
          (λ j n. users.write_other w.stored target f j n) h e in
      (
        coherent,
        set
            ∙ (allowed-with_authed now true by (users.docs w.stored target)
                ∙ ap (λ o. elim o [ none ↦ false | some v ↦ v.is_owner || true ]) (doc u refl)
                ∙ or_true u.is_owner),
      )

  grant_Changed :
      (now : ℕ) (by target : ℤ) (w : World users cache owner_id)
      → Coherent users cache owner_id now w
      → (grant users cache owner_id now by target w).1 ≡ ok tt
      → Coherent users cache owner_id now (grant users cache owner_id now by target w).0
        × (allowed (users.docs (grant users cache owner_id now by target w).0.stored target) ≡ true)
  unfolding grant
  grant_Changed now by target w h e =
      let p = ensure_exists users now target [] false w.stored in
      granted_Changed now by target p.1 (record w { stored = p.0 })
        (λ u q. ensure_doc users now target [] false w.stored q)
        (Agrees-docs users cache now w.cached w.stored p.0
          (ensure_allowed users now target [] w.stored) h)
        e

  unauth_is :
      (now : ℕ) (target : ℤ)
      → unauth users cache owner_id now owner_id (some target)
        ≡ revoke users cache owner_id now owner_id target
  unfolding unauth owner_command is_owner
  unauth_is now target =
      ap (λ b w. if b then revoke users cache owner_id now owner_id target w else (w, ok tt))
        (eqb_ℤ_refl owner_id)

  authorize_is :
      (now : ℕ) (target : ℤ)
      → authorize users cache owner_id now owner_id (some target)
        ≡ grant users cache owner_id now owner_id target
  unfolding authorize owner_command is_owner
  authorize_is now target =
      ap (λ b w. if b then grant users cache owner_id now owner_id target w else (w, ok tt))
        (eqb_ℤ_refl owner_id)

  stored_owner-allowed :
      (now : ℕ) (by : ℤ) (o : Option User)
      → stored_owner o ≡ false
      → allowed (Option.map {A = User} (with_authed now false by) o) ≡ false
  stored_owner-allowed now by none h = refl
  stored_owner-allowed now by (some u) h =
      allowed-with_authed now false by (some u) ∙ (or_false u.is_owner ∙ h)

  -- The owner's /unauth of a user whom neither the configuration nor the database holds as an owner
  -- takes effect at once: where the cache agreed with the database and the command returned no
  -- error, the cache still agrees, and no later answer to that user's next request is yes.
  pub unauth_denies :
      (now : ℕ) (target : ℤ) (w : World users cache owner_id) (t : ℕ) (name : Str) (b : Bool)
      → Coherent users cache owner_id now w
      → eqb_ℤ target owner_id ≡ false
      → stored_owner (users.docs w.stored target) ≡ false
      → (unauth users cache owner_id now owner_id (some target) w).1 ≡ ok tt
      → now ≤ t
      → (is_authorized users cache owner_id t target name
          (unauth users cache owner_id now owner_id (some target) w).0).1
        ≡ ok b
      → Coherent users cache owner_id now
          (unauth users cache owner_id now owner_id (some target) w).0
        × (b ≡ false)
  unauth_denies now target w t name b h other plain_user e later a =
      let same : unauth users cache owner_id now owner_id (some target) w
          ≡ revoke users cache owner_id now owner_id target w =
        ap (λ f. f w) (unauth_is now target) in
      let w' = (unauth users cache owner_id now owner_id (some target) w).0 in
      let (coherent, set) =
        subst (λ p. Changed now target false owner_id w p.0) (sym same)
          (revoke-Changed now owner_id target w h (sym (ap (λ p. p.1) same) ∙ e)) in
      (
        coherent,
        is_authorized_answer users cache owner_id t target name w' b
              (Agrees-later users cache now t w'.cached w'.stored later coherent) a
            ∙ (ap (λ o. o || allowed (users.docs w'.stored target)) other
                ∙ (set
                    ∙ stored_owner-allowed now owner_id (users.docs w.stored target) plain_user)),
      )

  -- The owner's /auth takes effect at once, also for a user that the bot has never seen and for one
  -- who was refused a moment ago: where the cache agreed with the database and the command returned
  -- no error, the cache still agrees, and every answer to that user's next request is yes.
  pub authorize_admits :
      (now : ℕ) (target : ℤ) (w : World users cache owner_id) (t : ℕ) (name : Str) (b : Bool)
      → Coherent users cache owner_id now w
      → (authorize users cache owner_id now owner_id (some target) w).1 ≡ ok tt
      → now ≤ t
      → (is_authorized users cache owner_id t target name
          (authorize users cache owner_id now owner_id (some target) w).0).1
        ≡ ok b
      → Coherent users cache owner_id now
          (authorize users cache owner_id now owner_id (some target) w).0
        × (b ≡ true)
  authorize_admits now target w t name b h e later a =
      let same : authorize users cache owner_id now owner_id (some target) w
          ≡ grant users cache owner_id now owner_id target w =
        ap (λ f. f w) (authorize_is now target) in
      let w' = (authorize users cache owner_id now owner_id (some target) w).0 in
      let (coherent, set) =
        subst
          (λ p.
            Coherent users cache owner_id now p.0 × (allowed (users.docs p.0.stored target) ≡ true))
          (sym same) (grant_Changed now owner_id target w h (sym (ap (λ p. p.1) same) ∙ e)) in
      (
        coherent,
        is_authorized_answer users cache owner_id t target name w' b
              (Agrees-later users cache now t w'.cached w'.stored later coherent) a
            ∙ (ap (λ o. eqb_ℤ target owner_id || o) set ∙ or_true (eqb_ℤ target owner_id)),
      )
