-- ===== src/Cleaner/Laws.antt =====
-- Which files a sweep of internal/bot/cleaner.go leaves.
use gdrive_bot.Base.{
  ℕ, ◌+◌, ◌≡◌, ◌≢◌, refl, sym, ◌∙◌, ap, subst, Bool, true, false, not, ◌&&◌, ◌||◌, some, List, [],
  ◌∷◌, ◌++◌, append_assoc, append-nil, Str, str_eq, str_eq_iff, str_eq_refl, if◌then◌else◌, inl,
  inr, ok, err, Error, pos, arith, length, length-append, take-append, drop-append, ltb, All, drop,
  take,
}
use gdrive_bot.Database.{Collection, In, In-if_head, In-if_tail}
use gdrive_bot.Database.Tasks.{pending, is_pending}
use gdrive_bot.Models.{Task, TaskStatus}
use gdrive_bot.Utils.Files.Laws.{IsId, IsHex}
use gdrive_bot.Processor.{local_name}
use gdrive_bot.Cleaner.{
  DirEntry, FileCalls, Swept, all_hex, task_id_from_filename, is_active, active_ids,
  active_task_ids, has_id, is_protected, sweep_entry, sweep_entries, run_sweep,
}

all_hex-IsHex : (s : Str) → All IsHex s → all_hex s ≡ true
unfolding all_hex
all_hex-IsHex [] h = refl
all_hex-IsHex (c ∷ s) h = ground (arith, all_hex-IsHex s h.1)

-- The ID that begins a file name is read back, whatever follows the bar.
pub task_id_from_filename_lem :
    (id rest : Str) → IsId id → task_id_from_filename (id ++ b'_' ∷ rest) ≡ id
unfolding task_id_from_filename
task_id_from_filename_lem id rest h =
    let shorter : ltb (length (id ++ b'_' ∷ rest)) 17 ≡ false =
      ground (arith, length-append id (b'_' ∷ rest), h.0) in
    let cut : take 16 (id ++ b'_' ∷ rest) ≡ id =
      subst (λ n. take n (id ++ b'_' ∷ rest) ≡ id) h.0 (take-append id (b'_' ∷ rest)) in
    let bar : drop 16 (id ++ b'_' ∷ rest) ≡ b'_' ∷ rest =
      subst (λ n. drop n (id ++ b'_' ∷ rest) ≡ b'_' ∷ rest) h.0 (drop-append id (b'_' ∷ rest)) in
    rw (bar, cut, shorter, all_hex-IsHex id h.1) refl

has_id-In : (id : Str) (ids : List Str) → In id ids → has_id id ids ≡ true
unfolding has_id
has_id-In id [] h = absurd h
has_id-In id (i ∷ ids) (inl e) = ground (arith, str_eq_refl id, str_eq_iff i id)
has_id-In id (i ∷ ids) (inr h) = ground (arith, has_id-In id ids h)

In-active_ids :
    (t : Task) (ts : List Task) → In t ts → is_active t.status ≡ true → In t.id (active_ids ts)
unfolding active_ids
In-active_ids t [] h a = absurd h
In-active_ids t (u ∷ ts) (inl e) a =
    In-if_head (is_active u.status) t.id u.id (active_ids ts)
      (ap (λ x. is_active x.status) (sym e) ∙ a) (ap (λ x. x.id) e)
In-active_ids t (u ∷ ts) (inr h) a =
    In-if_tail (is_active u.status) t.id u.id (active_ids ts) (In-active_ids t ts h a)

active_pending : (s : TaskStatus) → is_active s ≡ true → is_pending s ≡ true
active_pending s h = ground arith

nonempty : {s : Str} → length s ≡ 16 → s ≢ []
nonempty h e = absurd (omega (arith, ap length e))

protects :
    (t : Task) (drawn : List ℕ) (active : List Str) {name : Str}
    → IsId t.id
    → has_id t.id active ≡ true
    → name ≡ local_name drawn t
    → is_protected active name ≡ true
unfolding is_protected local_name
protects t drawn active {name} is known n =
    let same : task_id_from_filename name ≡ t.id =
      ap task_id_from_filename n ∙ task_id_from_filename_lem t.id _ is in
    elim (str_eq t.id []) as (λ b. str_eq t.id [] ≡ b → is_protected active name ≡ true) [
      | true ↦ λ q. absurd (nonempty is.0 ((str_eq_iff t.id []).0 q))
      | false ↦ λ q. rw (same, q, known) refl
    ]
      refl

module _ (fs : FileCalls) (active : List Str) where
  -- whether a file stays
  abbrev stays : DirEntry → Bool
  stays e =
      e.is_dir || (is_protected active e.name || not (fs.stat_ok e.name && fs.remove_ok e.name))

  abbrev staying : List DirEntry → List DirEntry
  staying [] = []
  staying (e ∷ es) = if stays e then e ∷ staying es else staying es

  left-sweep_entry :
      (e : DirEntry) (es : List DirEntry) (s : Swept)
      → (sweep_entry fs active e s).left ++ staying es ≡ s.left ++ staying (e ∷ es)
  unfolding sweep_entry
  left-sweep_entry e es s = ground (arith, append_assoc s.left (e ∷ []) (staying es))

  left-sweep_entries :
      (es : List DirEntry) (s : Swept) → (sweep_entries fs active es s).left ≡ s.left ++ staying es
  unfolding sweep_entries
  left-sweep_entries [] s = sym (append-nil s.left)
  left-sweep_entries (e ∷ es) s =
      left-sweep_entries es (sweep_entry fs active e s) ∙ left-sweep_entry e es s

  In-staying : (e : DirEntry) (es : List DirEntry) → In e es → stays e ≡ true → In e (staying es)
  In-staying e [] h k = absurd h
  In-staying e (f ∷ es) (inl q) k = In-if_head (stays f) e f (staying es) (ap stays (sym q) ∙ k) q
  In-staying e (f ∷ es) (inr h) k = In-if_tail (stays f) e f (staying es) (In-staying e es h k)

  stays-staying : (e : DirEntry) (es : List DirEntry) → In e (staying es) → stays e ≡ true
  stays-staying e [] h = absurd h
  stays-staying e (f ∷ es) h =
      elim (stays f)
          as (λ b. stays f ≡ b → In e (if b then f ∷ staying es else staying es) → stays e ≡ true) [
            | true ↦ λ q. elim [ inl g ↦ ap stays g ∙ q | inr g ↦ stays-staying e es g ]
            | false ↦ λ q g. stays-staying e es g
          ]
        refl h

module _ (col : Collection Str Task) (fs : FileCalls) where
  -- What a sweep leaves of the files in the directory.
  left-run_sweep :
      (entries : List DirEntry) (s : col.Store)
      → (run_sweep col fs (some entries) s).left
        ≡ staying fs (active_task_ids (pending col s).1) entries
  unfolding run_sweep
  left-run_sweep entries s = left-sweep_entries fs (active_task_ids (pending col s).1) entries _

  -- Where the database answers, a sweep leaves the local file of every task that is stored as
  -- downloading or uploading, and whose ID has the form that NewID gives.
  pub run_sweep_spares :
      (entries : List DirEntry) (s : col.Store) (ts : List Task) (t : Task) (drawn : List ℕ)
      (e : DirEntry)
      → (pending col s).1 ≡ ok ts
      → col.docs s t.id ≡ some t
      → is_active t.status ≡ true
      → IsId t.id
      → In e entries
      → e.name ≡ local_name drawn t
      → In e (run_sweep col fs (some entries) s).left
  unfolding pending active_task_ids
  run_sweep_spares entries s ts t drawn e answer doc act is i n =
      let loaded : In t ts =
        col.find_all_complete s _ ts t.id t answer doc (active_pending t.status act) in
      let known : has_id t.id (active_ids ts) ≡ true =
        has_id-In t.id _ (In-active_ids t ts loaded act) in
      let safe : is_protected (active_ids ts) e.name ≡ true =
        protects t drawn (active_ids ts) is known n in
      let kept : stays fs (active_ids ts) e ≡ true = ground arith in
      subst (In e) (sym (left-run_sweep entries s)) (
        subst (λ r. In e (staying fs (active_task_ids r) entries)) (sym answer)
          (In-staying fs (active_ids ts) e entries i kept))

  -- Where the database does not answer, a sweep leaves no file that it can remove, whatever task it
  -- belongs to.
  pub run_sweep_blind :
      (entries : List DirEntry) (s : col.Store) (x : Error) (e : DirEntry)
      → (pending col s).1 ≡ err x
      → e.is_dir ≡ false
      → fs.stat_ok e.name ≡ true
      → fs.remove_ok e.name ≡ true
      → ¬ In e (run_sweep col fs (some entries) s).left
  unfolding is_protected has_id active_task_ids
  run_sweep_blind entries s x e answer file st rm i =
      let left = subst (In e) (left-run_sweep entries s) i in
      let blind = subst (λ r. In e (staying fs (active_task_ids r) entries)) answer left in
      ground (arith, stays-staying fs (active_task_ids (err x)) e entries blind)

  counted_entry :
      (active : List Str) (e : DirEntry) (s : Swept)
      → length (sweep_entry fs active e s).left + (sweep_entry fs active e s).removed
        ≡ length s.left + s.removed + 1
  unfolding sweep_entry
  counted_entry active e s = ground (arith, length-append s.left (e ∷ []))

  counted :
      (active : List Str) (es : List DirEntry) (s : Swept)
      → length (sweep_entries fs active es s).left + (sweep_entries fs active es s).removed
        ≡ length s.left + s.removed + length es
  unfolding sweep_entries
  counted active [] s = omega arith
  counted active (e ∷ es) s =
      omega (arith, counted active es (sweep_entry fs active e s), counted_entry active e s)

  -- The files that a sweep leaves and the number that it reports as removed add up to the directory.
  pub run_sweep_counts :
      (entries : List DirEntry) (s : col.Store)
      → length (run_sweep col fs (some entries) s).left
          + (run_sweep col fs (some entries) s).removed
        ≡ length entries
  unfolding run_sweep
  run_sweep_counts entries s = omega (
    arith,
    counted (active_task_ids (pending col s).1) entries
        (record { left = []; freed = pos 0; removed = 0 }),
  )
