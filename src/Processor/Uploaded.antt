-- ===== src/Processor/Uploaded.antt =====
-- What findUploadedFile of internal/bot/processor.go can find: rclone copies a local file under its
-- own name, so that the upload of a task stands in the Drive as the task's local name.
use gdrive_bot.Base.{
  ℕ, zero, suc, ◌≡◌, ◌≢◌, refl, sym, ◌∙◌, ap, true, false, Option, none, some, some_inj, List, [],
  ◌∷◌, Str, str_eq, str_eq_iff, Error, Result, ok, err, ok_inj, arith, if◌then◌else◌, length,
  length-append, pos,
}
use gdrive_bot.Drive.{Entry, list_page}
use gdrive_bot.Models.{Task}
use gdrive_bot.Utils.Files.{safe_filename}
use gdrive_bot.Utils.Files.Laws.{safe_filename-IsSafe}
use gdrive_bot.Processor.{
  Env, local_name, named, or_again, after_round, search_rounds, find_uploaded_file,
}

named_name : (name : Str) (es : List Entry) (e : Entry) → named name es ≡ some e → e.name ≡ name
unfolding named
named_name name [] e h = cc
named_name name (f ∷ es) e h =
    elim (str_eq f.name name)
        as (λ b.
          str_eq f.name name ≡ b → (if b then some f else named name es) ≡ some e → e.name ≡ name) [
            | true ↦ λ q g. ap (λ x. x.name) (sym (some_inj g)) ∙ (str_eq_iff f.name name).0 q
            | false ↦ λ q g. named_name name es e g
          ]
      refl h

-- The local name of a task is longer than its file name.
local_name-ne : (drawn : List ℕ) (t : Task) → local_name drawn t ≢ t.file_name
unfolding local_name
local_name-ne drawn t e =
    let (_, long) = safe_filename-IsSafe drawn t.file_name in
    absurd (omega (arith, ap length e, length-append t.id (b'_' ∷ safe_filename drawn t.file_name)))

found_name :
    (again : Option Error → Result Entry) (name : Str) (last : Option Error) (es : List Entry)
    (e : Entry)
    → ((l : Option Error) → again l ≡ ok e → e.name ≡ name)
    → (o : Option Entry) → o ≡ named name es
    → or_again again last o ≡ ok e
    → e.name ≡ name
found_name again name last es e more none q h = more last h
found_name again name last es e more (some f) q h =
    named_name name es e (sym q ∙ ap some (ok_inj h))

after_round_name :
    (again : Option Error → Result Entry) (name : Str) (last : Option Error)
    (p : Result (List Entry × Str)) (e : Entry)
    → ((l : Option Error) → again l ≡ ok e → e.name ≡ name)
    → after_round again name last p ≡ ok e
    → e.name ≡ name
unfolding after_round
after_round_name again name last (err x) e more h = more (some x) h
after_round_name again name last (ok (es, token)) e more h =
    found_name again name last es e more (named name es) refl h

module _ (env : Env) where
  search_rounds_name :
      (n : ℕ) (folder name : Str) (last : Option Error) (r : env.files.Remote) (e : Entry)
      → search_rounds env n folder name last r ≡ ok e
      → e.name ≡ name
  unfolding search_rounds
  search_rounds_name zero folder name last r e h = cc
  search_rounds_name (suc n) folder name last r e h =
      after_round_name _ name last (list_page env.files r folder name (pos 5) []) e
        (λ l g. search_rounds_name n folder name l (env.later r) e g) h

  -- Whatever file findUploadedFile returns has the task's file name exactly, and so it is not one
  -- with the local name under which the task was uploaded.
  pub find_uploaded_file-ne :
      (drawn : List ℕ) (t : Task) (r : env.files.Remote) (e : Entry)
      → find_uploaded_file env t.dest_folder_id t.file_name r ≡ ok e
      → (e.name ≡ t.file_name) × (e.name ≢ local_name drawn t)
  unfolding find_uploaded_file
  find_uploaded_file-ne drawn t r e h =
      let same = search_rounds_name 5 _ t.file_name none r e h in
      (same, λ q. local_name-ne drawn t (sym q ∙ same))
