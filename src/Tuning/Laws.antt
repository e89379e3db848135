-- ===== src/Tuning/Laws.antt =====
-- What the tuning commands of internal/handlers/ownercommands.go leave in the settings.
use gdrive_bot.Base.{
  ℕ, ◌≡◌, ◌≢◌, refl, sym, ◌∙◌, ap, subst, false, Option, some, ℤ, pos, eqb_ℤ_refl, ltb_ℤ, Result,
  ok, err, Act, arith,
}
use gdrive_bot.Database.{Collection}
use gdrive_bot.Database.Settings.{update, get_or_create, mutated}
use gdrive_bot.Database.Settings.Laws.{get_or_create-update}
use gdrive_bot.Models.{Settings, default_settings}
use gdrive_bot.Tuning.{stored, tune, set_workers, set_queue, set_download_limit, set_upload_limit}

-- the four settings, each with its least value and its command
pub data Tunable : Type 0 where
  worker_count queue_length download_limit upload_limit : Tunable

abbrev pub value_of : Tunable → Settings → ℤ
value_of worker_count s = s.workers
value_of queue_length s = s.queue_size
value_of download_limit s = s.download_limit_mb
value_of upload_limit s = s.upload_limit_mb

abbrev pub least_of : Tunable → ℤ
least_of worker_count = pos 1
least_of queue_length = pos 1
least_of download_limit = pos 0
least_of upload_limit = pos 0

abbrev changed : Tunable → ℤ → Settings → Settings
changed worker_count n s = record s { workers = n }
changed queue_length n s = record s { queue_size = n }
changed download_limit n s = record s { download_limit_mb = n }
changed upload_limit n s = record s { upload_limit_mb = n }

value_of-changed :
    (k : Tunable) (now : ℕ) (by n : ℤ) (c : Settings)
    → (value_of k (mutated now by (changed k n) c) ≡ n)
      × ((j : Tunable) → j ≢ k → value_of j (mutated now by (changed k n) c) ≡ value_of j c)
unfolding mutated
value_of-changed k now by n c = (same k, others k)
  where
    same : (k : Tunable) → value_of k (mutated now by (changed k n) c) ≡ n
    same worker_count = refl
    same queue_length = refl
    same download_limit = refl
    same upload_limit = refl

    others : (k j : Tunable) → j ≢ k → value_of j (mutated now by (changed k n) c) ≡ value_of j c
    others k j d = ground arith

module _ (col : Collection (Unit {0}) Settings) (owner_id : ℤ) where
  abbrev pub command : Tunable → ℕ → ℤ → Option ℤ → Act col.Store (Unit {0})
  command worker_count = set_workers col owner_id
  command queue_length = set_queue col owner_id
  command download_limit = set_download_limit col owner_id
  command upload_limit = set_upload_limit col owner_id

  -- what a read of the settings finds
  abbrev pub read : Settings → col.Store → Result Settings
  read defaults s = (get_or_create col defaults s).1

  command_tunes :
      (k : Tunable) (now : ℕ) (by : ℤ) (arg : Option ℤ) (s : col.Store)
      → command k now by arg s ≡ tune col owner_id now by (least_of k) (changed k) arg s
  unfolding set_workers set_queue set_download_limit set_upload_limit
  command_tunes worker_count now by arg s = refl
  command_tunes queue_length now by arg s = refl
  command_tunes download_limit now by arg s = refl
  command_tunes upload_limit now by arg s = refl

  stored-ok :
      (p : col.Store × Result Settings)
      → (stored p).1 ≡ ok tt
      → (v : Settings) × (p.1 ≡ ok v) × ((stored p).0 ≡ p.0)
  stored-ok (s, ok v) e = (v, refl, refl)
  stored-ok (s, err x) e = cc

  command_updates :
      (k : Tunable) (now : ℕ) (n : ℤ) (s : col.Store)
      → ltb_ℤ n (least_of k) ≡ false
      → command k now owner_id (some n) s ≡ stored (update col now owner_id (changed k n) s)
  unfolding tune
  command_updates k now n s big =
      command_tunes k now owner_id (some n) s ∙ rw (eqb_ℤ_refl owner_id, big) refl

  -- From the settings that a read found before, one has this value, and the others are as they were.
  abbrev pub Tuned : Tunable → ℤ → Settings → Settings → Type 0
  Tuned k n c x = (value_of k x ≡ n) × ((j : Tunable) → j ≢ k → value_of j x ≡ value_of j c)

  -- Where the owner's command succeeds with a number that is not below the least one, a read of the
  -- settings had found some before, or the defaults, and every later read that succeeds finds
  -- the number there, and the other three settings as before.
  pub command-Tuned :
      (k : Tunable) (now : ℕ) (n : ℤ) (s : col.Store)
      → ltb_ℤ n (least_of k) ≡ false
      → (command k now owner_id (some n) s).1 ≡ ok tt
      → (c : Settings) × (read (default_settings now (pos 4) (pos 50) (pos 0) (pos 0)) s ≡ ok c)
        × ((defaults x : Settings)
            → read defaults (command k now owner_id (some n) s).0 ≡ ok x
            → Tuned k n c x)
  command-Tuned k now n s big done =
      let same = command_updates k now n s big in
      let (v, e, left) =
        stored-ok (update col now owner_id (changed k n) s) (sym (ap (λ p. p.1) same) ∙ done) in
      let state : (command k now owner_id (some n) s).0
          ≡ (update col now owner_id (changed k n) s).0 =
        ap (λ p. p.0) same ∙ left in
      let (c, found, made) =
        (get_or_create-update col now owner_id (changed k n) s
          (default_settings now (pos 4) (pos 50) (pos 0) (pos 0)) v e).0 in
      (
        c,
        found,
        λ defaults x h.
            subst (Tuned k n c)
              (sym made
                ∙ sym (
                    (get_or_create-update col now owner_id (changed k n) s defaults v e).1 x
                      (subst (λ t. read defaults t ≡ ok x) state h)))
              (value_of-changed k now owner_id n c),
      )
