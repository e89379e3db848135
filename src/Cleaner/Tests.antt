-- ===== src/Cleaner/Tests.antt =====
-- A sweep of a directory with the file of a running download.
use native.Mathlib.Decide.{ℕ_discrete}
use gdrive_bot.Base.{
  length, ◌+◌, ◌≡◌, refl, false, true, none, some, List, [], ◌∷◌, Str, bytes, pos, negsuc, ok, err,
  plain, inl, arith, Option, Error, ℤ,
}
use gdrive_bot.Database.{Collection, In}
use gdrive_bot.Database.Assoc.{assoc_collection}
use gdrive_bot.Database.Tasks.{pending}
use gdrive_bot.Models.{Task, direct_link, downloading}
use gdrive_bot.Processor.{local_name}
use gdrive_bot.Cleaner.{DirEntry, FileCalls, new_cleaner, run_sweep}
use gdrive_bot.Cleaner.Laws.{run_sweep_spares}

Str_discrete : Discrete Str
Str_discrete = hlevel ℕ_discrete

abbrev col : Collection Str Task
col = assoc_collection Str_discrete

abbrev works : FileCalls
works = record { stat_ok = λ n. true; remove_ok = λ n. true }

abbrev a_task : Task
a_task = record {
  id = bytes "0123456789abcdef";
  user_id = pos 7;
  chat_id = negsuc 99;
  type = direct_link;
  status = downloading;
  source = bytes "https://example.org/a.iso";
  file_name = bytes "a.iso";
  file_size = pos 0;
  dest_folder_id = [];
  status_message_id = pos 3;
  retry_count = 0;
  last_error = [];
  created_at = 5;
  started_at = 6;
  completed_at = 0;
  result_file_id = [];
}

abbrev its_file : DirEntry
its_file = record { name = bytes "0123456789abcdef_a.iso"; is_dir = false; size = pos 10 }

abbrev stored : List (Str × Task)
stored = (bytes "0123456789abcdef", a_task) ∷ []

run_sweep_spares_example : In its_file (run_sweep col works (some (its_file ∷ [])) stored).left
unfolding pending Str_discrete ℕ_discrete local_name
run_sweep_spares_example =
    run_sweep_spares col works (its_file ∷ []) stored (a_task ∷ []) a_task [] its_file refl refl
      refl (refl, omega arith) (inl refl) refl

-- An interval of 0 minutes is taken for 60.
zero_interval : new_cleaner (pos 0) ≡ pos 3600000000000
unfolding new_cleaner gdrive_bot.Base.mul64
zero_interval = refl
