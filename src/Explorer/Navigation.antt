-- ===== src/Explorer/Navigation.antt =====
-- The invariant of the persisted explorer states, kept by every method of internal/explorer.
use gdrive_bot.Base.{
  some_inj, continue, ℕ, ◌≡◌, refl, sym, subst, Bool, true, false, List, [], ◌∷◌, ◌++◌, Str, bytes,
  ℤ, pos, ◌≤ℤ◌, arith, Option, none, some, Result, ok, err, Act,
}
use native.Mathlib.Decide.{ℕ_discrete}
use gdrive_bot.Database.{write_keeps}
use gdrive_bot.Database.States.{StateKey, upsert_state, get_state, key_of, found}
use gdrive_bot.Drive.{Entry}
use gdrive_bot.Models.{BreadcrumbEntry, ExplorerState}
use gdrive_bot.Explorer.State.{
  pop_crumb, init_crumbs, last_crumb, entered, turned, searched, consume, at_folder,
}
use gdrive_bot.Explorer.{
  Env, World, Request, upsert, must_state, store_raw, keep_token, fetched, shown, render,
  save_and_render,
}

-- The breadcrumb starts at the root folder.
abbrev pub IsRooted : List BreadcrumbEntry → Type 0
IsRooted [] = ⊥
IsRooted (c ∷ cs) = c.folder_id ≡ bytes "root"

-- and it ends at this folder.
abbrev pub EndsAt : List BreadcrumbEntry → Str → Type 0
EndsAt cs f = (c : BreadcrumbEntry) × (last_crumb cs ≡ some c) × (c.folder_id ≡ f)

-- A state is stored under its own message, on a page from 1 on, and its breadcrumb leads from the
-- root to the folder that it shows.
pub record IsValid (k : StateKey) (s : ExplorerState) : Type 0 where
  pub keyed : (s.user_id, s.chat_id, s.message_id) ≡ k
  pub on_page : pos 1 ≤ℤ s.page
  pub rooted : IsRooted s.breadcrumb
  pub ends : EndsAt s.breadcrumb s.current_folder_id

last_crumb-append :
    (cs : List BreadcrumbEntry) (c : BreadcrumbEntry) → last_crumb (cs ++ c ∷ []) ≡ some c
unfolding last_crumb
last_crumb-append [] c = refl
last_crumb-append (d ∷ []) c = refl
last_crumb-append (d ∷ e ∷ cs) c = last_crumb-append (e ∷ cs) c

IsRooted-append : (cs ds : List BreadcrumbEntry) → IsRooted cs → IsRooted (cs ++ ds)
IsRooted-append [] ds h = absurd h
IsRooted-append (c ∷ cs) ds h = h

IsRooted-pop : (cs : List BreadcrumbEntry) → IsRooted cs → IsRooted (pop_crumb cs)
unfolding pop_crumb init_crumbs
IsRooted-pop [] h = h
IsRooted-pop (c ∷ []) h = h
IsRooted-pop (c ∷ d ∷ cs) h = h

last_crumb-rooted :
    (cs : List BreadcrumbEntry) → IsRooted cs → (c : BreadcrumbEntry) × (last_crumb cs ≡ some c)
unfolding last_crumb
last_crumb-rooted [] h = absurd h
last_crumb-rooted (c ∷ []) h = (c, refl)
last_crumb-rooted (c ∷ d ∷ cs) h = last_crumb-more c d cs
  where
    last_crumb-more :
        (c d : BreadcrumbEntry) (cs : List BreadcrumbEntry)
        → (x : BreadcrumbEntry) × (last_crumb (c ∷ d ∷ cs) ≡ some x)
    last_crumb-more c d [] = (d, refl)
    last_crumb-more c d (e ∷ cs) = last_crumb-more d e cs

pub entered-IsValid :
    (k : StateKey) (s : ExplorerState) (f n : Str) → IsValid k s → IsValid k (entered s f n)
unfolding entered
entered-IsValid k s f n v = record {
  keyed = v.keyed;
  on_page = omega arith;
  rooted = IsRooted-append s.breadcrumb _ v.rooted;
  ends = (_, last_crumb-append s.breadcrumb _, refl);
}

pub turned-IsValid :
    (k : StateKey) (s : ExplorerState) (d : ℤ) → IsValid k s → IsValid k (turned s d)
unfolding turned
turned-IsValid k s d v = record {
  keyed = v.keyed;
  on_page = ground arith;
  rooted = v.rooted;
  ends = v.ends;
}

pub searched-IsValid :
    (k : StateKey) (s : ExplorerState) (q : Str) → IsValid k s → IsValid k (searched s q)
unfolding searched
searched-IsValid k s q v = record {
  keyed = v.keyed;
  on_page = omega arith;
  rooted = v.rooted;
  ends = v.ends;
}

pub consume-IsValid :
    (b c : Bool) (k : StateKey) (s : ExplorerState) → IsValid k s → IsValid k (consume b c s).0
unfolding consume
consume-IsValid true c k s v = record {
  keyed = v.keyed;
  on_page = v.on_page;
  rooted = v.rooted;
  ends = v.ends;
}
consume-IsValid false true k s v = record {
  keyed = v.keyed;
  on_page = v.on_page;
  rooted = v.rooted;
  ends = v.ends;
}
consume-IsValid false false k s v = v

pub popped-IsValid :
    (k : StateKey) (s : ExplorerState) (c : BreadcrumbEntry)
    → IsValid k s
    → last_crumb (pop_crumb s.breadcrumb) ≡ some c
    → IsValid k (at_folder (record s { breadcrumb = pop_crumb s.breadcrumb }) c.folder_id)
popped-IsValid k s c v e = record {
  keyed = v.keyed;
  on_page = omega arith;
  rooted = IsRooted-pop s.breadcrumb v.rooted;
  ends = (c, e, refl);
}

unfoldable pub StateKey-discrete : Discrete StateKey
StateKey-discrete = hlevel ℕ_discrete

module _ (env : Env) where
  -- Every stored state is valid.
  abbrev pub AllValid : World env → Type 0
  AllValid w =
      (k : StateKey) (s : ExplorerState) → env.states.docs w.stored k ≡ some s → IsValid k s

  pub upsert-AllValid :
      (s : ExplorerState) (w : World env)
      → IsValid (key_of s) s
      → AllValid w
      → AllValid (upsert env s w).0
  unfolding upsert upsert_state
  upsert-AllValid s w v all =
      write_keeps StateKey-discrete env.states IsValid w.stored (key_of s) (λ _. some s)
        (λ t e. subst (IsValid (key_of s)) (some_inj e) v) all

  store_raw-AllValid :
      (now : ℕ) (key : Str) (raw : Option Str) (w : World env)
      → AllValid w
      → AllValid (store_raw env now key raw w)
  unfolding store_raw
  store_raw-AllValid now key none w all = all
  store_raw-AllValid now key (some raw) w all = all

  keep_token-AllValid :
      (b : Bool) (s : ExplorerState) (t : Str) (w : World env)
      → IsValid (key_of s) s
      → AllValid w
      → AllValid (keep_token env b s t w).0
  unfolding keep_token
  keep_token-AllValid true s t w v all = all
  keep_token-AllValid false s t w v all =
      upsert-AllValid _ w
        (record { keyed = v.keyed; on_page = v.on_page; rooted = v.rooted; ends = v.ends }) all

  fetched-AllValid :
      (req : Request env) (s : ExplorerState) (key : Str) (r : Result (List Entry × Str))
      (w : World env)
      → IsValid (key_of s) s
      → AllValid w
      → AllValid (fetched env req s key r w).0
  unfolding fetched
  fetched-AllValid req s key (err e) w v all = all
  fetched-AllValid req s key (ok (entries, next)) w v all =
      keep_token-AllValid _ s next _ v (store_raw-AllValid _ _ _ w all)

  shown-AllValid :
      (req : Request env) (s : ExplorerState) (r : Option Str) (w : World env)
      → IsValid (key_of s) s
      → AllValid w
      → AllValid (shown env req s r w).0
  unfolding shown
  shown-AllValid req s (some raw) w v all = all
  shown-AllValid req s none w v all = fetched-AllValid req s _ _ w v all

  pub render-AllValid :
      (req : Request env) (s : ExplorerState) (w : World env)
      → IsValid (key_of s) s
      → AllValid w
      → AllValid (render env req s w).0
  unfolding render
  render-AllValid req s w v all = shown-AllValid req s _ _ v all

  -- The rest of a chain runs only on success.
  pub continue-AllValid :
      {A B : Type 0} (p : World env × Result A) (f : A → Act (World env) B)
      → AllValid p.0
      → ((a : A) → p.1 ≡ ok a → AllValid (f a p.0).0)
      → AllValid (continue p f).0
  continue-AllValid (w, ok a) f all next = next a refl
  continue-AllValid (w, err e) f all next = all

  pub save_and_render-AllValid :
      (req : Request env) (s : ExplorerState) (w : World env)
      → IsValid (key_of s) s
      → AllValid w
      → AllValid (save_and_render env req s w).0
  unfolding save_and_render
  save_and_render-AllValid req s w v all =
      let all' = upsert-AllValid s w v all in
      continue-AllValid (upsert env s w) (λ _. render env req s) all'
        (λ _ _. render-AllValid req s _ v all')

  must_state-IsValid :
      (key : StateKey) (w : World env) (s : ExplorerState)
      → AllValid w
      → (must_state env key w).1 ≡ ok s
      → IsValid key s
  unfolding must_state get_state
  must_state-IsValid key w s all e = all key s (
      sym (
        env.states.find_one_docs w.stored key (some s)
          (found _ (env.states.find_one w.stored key) e)))

  -- A method that loads its state, and then keeps the invariant, keeps it.
  pub loading-AllValid :
      {B : Type 0} (key : StateKey) (f : ExplorerState → Act (World env) B) (w : World env)
      → AllValid w
      → ((s : ExplorerState) → IsValid key s → AllValid (f s w).0)
      → AllValid (continue (must_state env key w) f).0
  unfolding must_state get_state
  loading-AllValid key f w all next =
      continue-AllValid (must_state env key w) f all
        (λ s e. next s (must_state-IsValid key w s all e))

  pub self-IsValid : (k : StateKey) (s : ExplorerState) → IsValid k s → IsValid (key_of s) s
  self-IsValid k s v = subst (λ x. IsValid x s) (sym v.keyed) v
