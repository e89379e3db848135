-- ===== src/Database/States.antt =====
-- internal/database/state.go: the explorer states and the pending logins.
use gdrive_bot.Base.{
  refl, ap, map_error, ◌≡◌, Bool, not, ◌||◌, Option, none, some, str_eq, [], ℤ, eqb_ℤ, ◌&&◌, Error,
  Result, ok, err, Act,
}
use gdrive_bot.Database.{Collection, not_found}
use gdrive_bot.Models.{ExplorerState, PendingLogin}

abbrev pub StateKey : Type 0
StateKey = ℤ × ℤ × ℤ

-- `errors.Is(err, mongo.ErrNoDocuments)` becomes ErrNotFound
abbrev pub or_not_found : {V : Type 0} → Result (Option V) → Result V
or_not_found (ok (some v)) = ok v
or_not_found (ok none) = err not_found
or_not_found (err e) = err e

-- A load succeeds with the document that the driver found.
pub found :
    {V : Type 0} (f : Error → Error) (r : Result (Option V)) {v : V}
    → map_error f (or_not_found r) ≡ ok v
    → r ≡ ok (some v)
found f (ok (some v)) e = ap (λ x. elim x [ ok y ↦ ok (some y) | err z ↦ ok (some v) ]) e
found f (ok none) e = cc
found f (err e) h = cc

pub loaded : {V : Type 0} (r : Result (Option V)) {v : V} → or_not_found r ≡ ok v → r ≡ ok (some v)
loaded (ok (some v)) e = ap (λ x. elim x [ ok y ↦ ok (some y) | err z ↦ ok (some v) ]) e
loaded (ok none) e = cc
loaded (err e) h = cc

abbrev pub outcome : Option Error → Result (Unit {0})
outcome none = ok tt
outcome (some e) = err e

pub outcome-ok : (o : Option Error) {u : Unit {0}} → outcome o ≡ ok u → o ≡ none
outcome-ok none e = refl
outcome-ok (some x) e = cc

abbrev pub done : {S : Type 0} → S × Option Error → S × Result (Unit {0})
done p = (p.0, outcome p.1)

-- ExplorerStateRepo.key of a state
abbrev pub key_of : ExplorerState → StateKey
key_of s = (s.user_id, s.chat_id, s.message_id)

module _ (col : Collection StateKey ExplorerState) where
  unfoldable pub get_state : StateKey → Act col.Store ExplorerState
  get_state k s = (s, or_not_found (col.find_one s k))

  -- Upsert; `UpdatedAt`, which nothing reads, is left out
  unfoldable pub upsert_state : ExplorerState → Act col.Store (Unit {0})
  upsert_state state s = done (col.write s (key_of state) (λ _. some state))

  unfoldable pub delete_state : StateKey → Act col.Store (Unit {0})
  delete_state k s = done (col.write s k (λ _. none))

  -- the filter of FindAwaiting
  unfoldable pub awaits : ℤ → ℤ → ExplorerState → Bool
  awaits user_id chat_id s =
      eqb_ℤ s.user_id user_id
      && (eqb_ℤ s.chat_id chat_id
          && (not (str_eq s.awaiting_rename_file_id []) || s.awaiting_search))

  unfoldable pub find_awaiting : ℤ → ℤ → Act col.Store ExplorerState
  find_awaiting user_id chat_id s = (s, or_not_found (col.find_first s (awaits user_id chat_id)))

module _ (col : Collection ℤ PendingLogin) where
  unfoldable pub get_login : ℤ → Act col.Store PendingLogin
  get_login id s = (s, or_not_found (col.find_one s id))

  unfoldable pub upsert_login : PendingLogin → Act col.Store (Unit {0})
  upsert_login p s = done (col.write s p.telegram_id (λ _. some p))

  unfoldable pub delete_login : ℤ → Act col.Store (Unit {0})
  delete_login id s = done (col.write s id (λ _. none))
