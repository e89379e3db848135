-- ===== src/Guard/Tests.antt =====
-- A concrete guard: the in-memory collection and cache, and the owner 1.
use native.Mathlib.Decide.{ℕ_discrete}
use gdrive_bot.Base.{
  ℕ, ◌≡◌, refl, true, false, ◌||◌, none, some, [], ◌∷◌, bytes, ℤ, pos, eqb_ℤ, arith,
}
use gdrive_bot.Cache
use gdrive_bot.Cache.Interface.{memory_cache}
use gdrive_bot.Database.{Collection}
use gdrive_bot.Database.Assoc.{assoc_collection}
use gdrive_bot.Models.{User}
use gdrive_bot.Guard.{World, is_authorized, authorize, unauth}
use gdrive_bot.Guard.Coherence.{allowed}
use gdrive_bot.Guard.Answers.{Coherent, is_authorized-Coherent, is_authorized_answer}
use gdrive_bot.Guard.Commands.{unauth_denies, authorize_admits}

int_discrete : Discrete ℤ
int_discrete = hlevel ℕ_discrete

abbrev col : Collection ℤ User
col = assoc_collection int_discrete

abbrev guest : User
guest = record {
  telegram_id = pos 7;
  username = bytes "ann";
  is_owner = false;
  is_authed = true;
  authed_by = pos 1;
  authed_at = 10;
  google_token = none;
  rclone_remote = [];
  root_folder_id = [];
  created_at = 5;
  updated_at = 10;
}

-- one user has access, and nothing is cached
abbrev cold : World col memory_cache (pos 1)
cold = record { stored = (pos 7, guest) ∷ []; cached = [] }

cold-Coherent : (now : ℕ) → Coherent col memory_cache (pos 1) now cold
unfolding Cache.lookup
cold-Coherent now id t raw h e = cc

is_authorized-Coherent_example :
    Coherent col memory_cache
      (pos 1)
      20
      (is_authorized col memory_cache (pos 1) 20 (pos 7) (bytes "ann") cold).0
is_authorized-Coherent_example =
    is_authorized-Coherent col memory_cache (pos 1) 20 (pos 7) (bytes "ann") cold (cold-Coherent 20)

is_authorized_answer_example : true ≡ (eqb_ℤ (pos 7) (pos 1) || allowed (some guest))
unfolding is_authorized gdrive_bot.Cache.get int_discrete ℕ_discrete
is_authorized_answer_example =
    is_authorized_answer col memory_cache (pos 1) 20 (pos 7) (bytes "ann") cold true
      (cold-Coherent 20) refl

unauth_denies_example :
    Coherent col memory_cache
      (pos 1)
      20
      (unauth col memory_cache (pos 1) 20 (pos 1) (some (pos 7)) cold).0
    × (false ≡ false)
unfolding int_discrete ℕ_discrete unauth is_authorized gdrive_bot.Cache.get gdrive_bot.Cache.delete
unauth_denies_example =
    unauth_denies col memory_cache (pos 1) 20 (pos 7) cold 30 (bytes "ann") false (cold-Coherent 20)
      refl refl refl (omega arith) refl

authorize_admits_example :
    Coherent col memory_cache
      (pos 1)
      20
      (authorize col memory_cache (pos 1) 20 (pos 1) (some (pos 8)) cold).0
    × (true ≡ true)
unfolding authorize int_discrete ℕ_discrete is_authorized gdrive_bot.Cache.get
    gdrive_bot.Cache.delete
authorize_admits_example =
    authorize_admits col memory_cache (pos 1) 20 (pos 8) cold 30 (bytes "bob") true
      (cold-Coherent 20) refl (omega arith) refl
