-- ===== src/Explorer/Cancel.antt =====
-- What leaving a prompt by a button does to it: RenderCurrent of internal/explorer.
use gdrive_bot.Base.{
  some_inj, List, ℕ, ◌≡◌, refl, sym, ◌∙◌, ap, subst, Bool, true, false, Option, none, some, Str, [],
  str_eq, Result, ok, err, ◌⊎◌, inl, inr, continue,
}
use gdrive_bot.Database.States.{StateKey, key_of, found, get_state, upsert_state}
use gdrive_bot.Models.{ExplorerState}
use gdrive_bot.Explorer.{
  Env, World, Request, upsert, must_state, keep_token, store_raw, fetched, shown, listing, page_key,
  render, render_current,
}
use gdrive_bot.Explorer.Navigation.{AllValid, StateKey-discrete}
use gdrive_bot.Drive.{Entry}

module _ (env : Env) where
  -- The flags of a stored state, and the state itself, survive a change of the store.
  abbrev pub KeepsPrompts : World env → World env → Type 0
  KeepsPrompts w w' =
      (k : StateKey) (s : ExplorerState)
      → env.states.docs w.stored k ≡ some s
      → (t : ExplorerState) × (env.states.docs w'.stored k ≡ some t)
        × (t.awaiting_rename_file_id ≡ s.awaiting_rename_file_id)
        × (t.awaiting_search ≡ s.awaiting_search)

  -- A write of a state with the flags that the stored one has.
  upsert-KeepsPrompts :
      (s s' : ExplorerState) (w : World env)
      → env.states.docs w.stored (key_of s') ≡ some s
      → s'.awaiting_rename_file_id ≡ s.awaiting_rename_file_id
      → s'.awaiting_search ≡ s.awaiting_search
      → KeepsPrompts w (upsert env s' w).0
  unfolding upsert upsert_state
  upsert-KeepsPrompts s s' w d fr fs k t e = elim (StateKey-discrete (key_of s') k) [
    | yes q ↦
        subst
          (λ i.
            (x : ExplorerState) × (env.states.docs (upsert env s' w).0.stored i ≡ some x)
            × (x.awaiting_rename_file_id ≡ t.awaiting_rename_file_id)
            × (x.awaiting_search ≡ t.awaiting_search))
          q
          (written (some_inj (sym d ∙ subst (λ i. env.states.docs w.stored i ≡ some t) (sym q) e))
            (env.states.write_atomic w.stored (key_of s') (λ _. some s')))
    | no n ↦ (t, env.states.write_other w.stored (key_of s') (λ _. some s') k n ∙ e, refl, refl)
  ]
    where
      written :
          s ≡ t
          → (env.states.docs (upsert env s' w).0.stored (key_of s') ≡ some s')
            ⊎ (env.states.docs (upsert env s' w).0.stored (key_of s')
                ≡ env.states.docs w.stored (key_of s'))
          → (x : ExplorerState) × (env.states.docs (upsert env s' w).0.stored (key_of s') ≡ some x)
            × (x.awaiting_rename_file_id ≡ t.awaiting_rename_file_id)
            × (x.awaiting_search ≡ t.awaiting_search)
      written q (inl a) =
          (s', a, fr ∙ ap (λ x. x.awaiting_rename_file_id) q, fs ∙ ap (λ x. x.awaiting_search) q)
      written q (inr a) = (t, a ∙ d ∙ ap some q, refl, refl)

  keep_token-KeepsPrompts :
      (b : Bool) (s : ExplorerState) (token : Str) (w : World env)
      → env.states.docs w.stored (key_of s) ≡ some s
      → KeepsPrompts w (keep_token env b s token w).0
  unfolding keep_token
  keep_token-KeepsPrompts true s token w d = λ k t e. (t, e, refl, refl)
  keep_token-KeepsPrompts false s token w d = upsert-KeepsPrompts s _ w d refl refl

  stored-store_raw :
      (now : ℕ) (key : Str) (raw : Option Str) (w : World env)
      → (store_raw env now key raw w).stored ≡ w.stored
  unfolding store_raw
  stored-store_raw now key none w = refl
  stored-store_raw now key (some raw) w = refl

  from_same : (w v x : World env) → v.stored ≡ w.stored → KeepsPrompts v x → KeepsPrompts w x
  from_same w v x same h k t e = h k t (subst (λ y. env.states.docs y k ≡ some t) (sym same) e)

  fetched-KeepsPrompts :
      (req : Request env) (s : ExplorerState) (key : Str) (r : Result (List Entry × Str))
      (w : World env)
      → env.states.docs w.stored (key_of s) ≡ some s
      → KeepsPrompts w (fetched env req s key r w).0
  unfolding fetched
  fetched-KeepsPrompts req s key (err x) w d = λ k t e. (t, e, refl, refl)
  fetched-KeepsPrompts req s key (ok (entries, next)) w d =
      let raw = env.codec.marshal (record { entries = entries; next_page_token = next }) in
      let w' = store_raw env req.now key raw w in
      let same = stored-store_raw req.now key raw w in
      from_same w w' (keep_token env (str_eq next []) s next w').0 same (
        keep_token-KeepsPrompts (str_eq next []) s next w'
          (subst (λ y. env.states.docs y (key_of s) ≡ some s) (sym same) d))

  shown-KeepsPrompts :
      (req : Request env) (s : ExplorerState) (raw : Option Str) (w : World env)
      → env.states.docs w.stored (key_of s) ≡ some s
      → KeepsPrompts w (shown env req s raw w).0
  unfolding shown
  shown-KeepsPrompts req s (some raw) w d = λ k t e. (t, e, refl, refl)
  shown-KeepsPrompts req s none w d =
      fetched-KeepsPrompts req s (page_key env s) (listing env req s) w d

  -- The Cancel button under a rename prompt, and every other way back to the listing, runs
  -- RenderCurrent, which leaves every pending prompt as it was: the next text that the user sends
  -- is still taken for the new name.
  pub render_current-KeepsPrompts :
      (req : Request env) (w : World env)
      → AllValid env w
      → KeepsPrompts w (render_current env req w).0
  unfolding render_current render must_state get_state
  render_current-KeepsPrompts req w all = after_load (must_state env req.key w).1 refl
    where
      after_load :
          (r : Result ExplorerState)
          → (must_state env req.key w).1 ≡ r
          → KeepsPrompts w (continue (w, r) (render env req)).0
      after_load (err x) q = λ k t e. (t, e, refl, refl)
      after_load (ok s) q =
          let d = sym (
            env.states.find_one_docs w.stored req.key (some s)
              (found _ (env.states.find_one w.stored req.key) q)) in
          shown-KeepsPrompts req s _ _
            (subst (λ i. env.states.docs w.stored i ≡ some s) (sym (all req.key s d).keyed) d)
