-- ===== src/Explorer/Prompts.antt =====
-- Pending prompts of internal/explorer: AwaitRename, AwaitSearch and FindPending.
use gdrive_bot.Base.{
  eqb_ℤ_iff, continue-ok, ok_inj, pure, ◌≡◌, ◌≢◌, refl, sym, ◌∙◌, ap, subst, Bool, true, false, not,
  some, [], str_eq, str_eq_iff, ℤ, ok, arith, ◌⊎◌, inl, inr,
}
use gdrive_bot.Database.States.{
  StateKey, key_of, loaded, found, awaits, find_awaiting, upsert_state, outcome-ok,
}
use gdrive_bot.Models.{ExplorerState}
use gdrive_bot.Explorer.State.{PendingPrompt, consume, consumed}
use gdrive_bot.Explorer.{Env, World, on_states, upsert, find_pending, consume_prompt}
use gdrive_bot.Explorer.Navigation.{AllValid}

-- What a prompt says of the state that it was found in.
abbrev Reports : ExplorerState → PendingPrompt → ExplorerState → Type 0
Reports s p t =
    (p.message_id ≡ s.message_id)
    × (((s.awaiting_rename_file_id ≢ [])
          × (p.rename_file_id ≡ s.awaiting_rename_file_id)
          × (p.is_search ≡ false)
          × (t ≡ record s { awaiting_rename_file_id = [] }))
        ⊎ ((s.awaiting_rename_file_id ≡ [])
            × (s.awaiting_search ≡ true)
            × (p.rename_file_id ≡ [])
            × (p.is_search ≡ true)
            × (t ≡ record s { awaiting_search = false })))

consume-Reports :
    (b c : Bool) (s : ExplorerState)
    → b ≡ not (str_eq s.awaiting_rename_file_id [])
    → c ≡ s.awaiting_search
    → (s.awaiting_rename_file_id ≢ []) ⊎ (s.awaiting_search ≡ true)
    → Reports s (consume b c s).1 (consume b c s).0
unfolding consume
consume-Reports true c s hb hc h =
    (refl, inl (ground (arith, str_eq_iff s.awaiting_rename_file_id []), refl, refl, refl))
consume-Reports false true s hb hc h =
    (refl, inr (ground (arith, str_eq_iff s.awaiting_rename_file_id []), sym hc, refl, refl, refl))
consume-Reports false false s hb hc h =
    absurd (ground (arith, str_eq_iff s.awaiting_rename_file_id []))

consume-key : (b c : Bool) (s : ExplorerState) → key_of (consume b c s).0 ≡ key_of s
unfolding consume
consume-key true c s = refl
consume-key false true s = refl
consume-key false false s = refl

module _ (env : Env) where
  pub upsert-ok :
      (s : ExplorerState) (w : World env) {u : Unit {0}}
      → (upsert env s w).1 ≡ ok u
      → env.states.docs (upsert env s w).0.stored (key_of s) ≡ some s
  unfolding upsert upsert_state
  upsert-ok s w e = env.states.write_docs w.stored (key_of s) (λ _. some s) (outcome-ok _ e)

  pub upsert_other :
      (s : ExplorerState) (w : World env) (k : StateKey)
      → key_of s ≢ k
      → env.states.docs (upsert env s w).0.stored k ≡ env.states.docs w.stored k
  unfolding upsert upsert_state
  upsert_other s w k h = env.states.write_other w.stored (key_of s) (λ _. some s) k h

  -- What FindPending found and did.
  pub record Consumes (u c : ℤ) (w : World env) (p : PendingPrompt) (w' : World env) : Type 0 where
    pub key : StateKey
    pub state : ExplorerState
    pub keyed : key_of state ≡ key
    pub was : env.states.docs w.stored key ≡ some state
    pub of_user : (state.user_id ≡ u) × (state.chat_id ≡ c)
    pub is : env.states.docs w'.stored key ≡ some (consumed state).0
    pub reports : Reports state p (consumed state).0
    pub others : (k : StateKey) → key ≢ k → env.states.docs w'.stored k ≡ env.states.docs w.stored k

  awaited :
      (u c : ℤ) (s : ExplorerState)
      → awaits env.states u c s ≡ true
      → (s.user_id ≡ u)
        × (s.chat_id ≡ c)
        × ((s.awaiting_rename_file_id ≢ []) ⊎ (s.awaiting_search ≡ true))
  unfolding awaits
  awaited u c s e =
      ground (
        arith,
        eqb_ℤ_iff s.user_id u,
        eqb_ℤ_iff s.chat_id c,
        str_eq_iff s.awaiting_rename_file_id [],
      )

  -- Where every stored explorer state is well formed, a FindPending that succeeds found the state of one message in this user's chat that waited for a reply, reports that message and what it waited for, a rename of its file before a search, clears exactly that flag of that state, and changes no other state.
  pub find_pending-Consumes :
      (u c : ℤ) (w : World env) (p : PendingPrompt)
      → AllValid env w
      → (find_pending env u c w).1 ≡ ok p
      → Consumes u c w p (find_pending env u c w).0
  unfolding find_pending find_awaiting consume_prompt consumed
  find_pending-Consumes u c w p all e =
      let (s, found, run) =
        continue-ok (on_states env (find_awaiting env.states u c) w) (consume_prompt env) e in
      let (yes_awaits, kd) = env.states.find_first_some w.stored _ s (loaded _ found) in
      let (k, d) = kd in
      let (is_user, is_chat, flagged) = awaited u c s yes_awaits in
      let (_, stored, run') =
        continue-ok (upsert env (consumed s).0 w) (λ _. pure (consumed s).1)
          (sym (ap (λ r. r.1) run) ∙ e) in
      let same_key : key_of (consumed s).0 ≡ k = consume-key _ _ s ∙ (all k s d).keyed in
      let runs : (find_pending env u c w) ≡ ((upsert env (consumed s).0 w).0, ok (consumed s).1) =
        run ∙ run' in
      record {
        key = k;
        state = s;
        keyed = (all k s d).keyed;
        was = d;
        of_user = (is_user, is_chat);
        is =
            subst (λ r. env.states.docs r.0.stored k ≡ some (consumed s).0) (sym runs)
              (subst
                (λ i.
                  env.states.docs (upsert env (consumed s).0 w).0.stored i ≡ some (consumed s).0)
                same_key (upsert-ok (consumed s).0 w stored));
        reports =
            subst (λ q. Reports s q (consumed s).0) (ok_inj (sym (ap (λ r. r.1) runs) ∙ e))
              (consume-Reports _ _ s refl refl flagged);
        others = λ j h.
            subst (λ r. env.states.docs r.0.stored j ≡ env.states.docs w.stored j) (sym runs)
              (upsert_other (consumed s).0 w j (λ q. h (sym same_key ∙ q)));
      }
