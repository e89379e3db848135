-- ===== src/Processor/Tests.antt =====
-- A concrete processor: in-memory collections, transfers that work, and a Drive with one file.
use native.Mathlib.Decide.{ℕ_discrete}
use gdrive_bot.Base.{
  ◌≡◌, ◌≢◌, refl, none, some, [], ◌∷◌, Str, bytes, ℤ, pos, negsuc, plain, ok, format_nat, str_eq,
  wrap,
}
use gdrive_bot.Database.{In}
use gdrive_bot.Database.Assoc.{assoc_collection}
use gdrive_bot.Database.Tasks.{pending}
use gdrive_bot.Drive.{FilesService, DriveFile, entry_of, list_page}
use gdrive_bot.Models.{Task, direct_link, queued}
use gdrive_bot.Processor.{Env, World, Transfers, process, find_uploaded_file, local_name}
use gdrive_bot.Processor.Outcome.{Recorded, process-Recorded, process_fails_lost}
use gdrive_bot.Processor.Uploaded.{find_uploaded_file-ne}

Str_discrete : Discrete Str
Str_discrete = hlevel ℕ_discrete

ℤ_discrete : Discrete ℤ
ℤ_discrete = hlevel ℕ_discrete

Unit_discrete : Discrete (Unit {0})
Unit_discrete = hlevel

abbrev old_copy : DriveFile
old_copy = record {
  id = bytes "f9";
  name = bytes "a.iso";
  mime_type = bytes "iso";
  size = pos 7;
  parents = [];
}

abbrev one_file : FilesService
one_file = record {
  Remote = Unit {0};
  list = λ r q n t. ok (old_copy ∷ [], []);
  get = λ r f. ok old_copy;
  update_name = λ r f n. (r, none);
  remove = λ r f. (r, none);
  permissions = λ r f. [];
  list_permissions = λ r f. ok [];
  create_permission = λ r f t p. (r, none);
  delete_permission = λ r f p. (r, none);
  create = λ r n t p. (r, ok (bytes "new"));
}

-- the network is down
abbrev broken : Transfers
broken = record {
  Outside = Unit {0};
  ensure_dir = λ o. (o, none);
  download = λ t s p o. (o, some (plain (bytes "download: request: timeout")));
  stat = λ p o. none;
  upload = λ r d p n o. (o, none);
  remove = λ p o. o;
}

abbrev env : Env
env = record {
  tasks = assoc_collection Str_discrete;
  users = assoc_collection ℤ_discrete;
  settings = assoc_collection Unit_discrete;
  files = one_file;
  transfers = broken;
  connect = λ t. none;
  defaults = record {
    workers = pos 4;
    queue_size = pos 50;
    download_limit_mb = pos 0;
    upload_limit_mb = pos 0;
  };
  tenths = λ b d. format_nat b;
  quoted = λ s. s;
  later = λ r. r;
}

abbrev a_task : Task
a_task = record {
  id = bytes "0123456789abcdef";
  user_id = pos 7;
  chat_id = negsuc 99;
  type = direct_link;
  status = queued;
  source = bytes "https://example.org/a.iso";
  file_name = bytes "a.iso";
  file_size = pos 0;
  dest_folder_id = [];
  status_message_id = pos 3;
  retry_count = 0;
  last_error = [];
  created_at = 5;
  started_at = 0;
  completed_at = 0;
  result_file_id = [];
}

abbrev start : World env
start = record {
  tasks = (bytes "0123456789abcdef", a_task) ∷ [];
  users = [];
  settings = [];
  remote = tt;
  outside = tt;
  file_size = pos 0;
}

process-Recorded_example :
    (d : Task) × (env.tasks.docs (process env 9 [] a_task start).0.tasks (bytes "0123456789abcdef")
      ≡ some d)
    × Recorded (process env 9 [] a_task start).1 d
unfolding Str_discrete ℕ_discrete
process-Recorded_example = process-Recorded env (λ s k f. refl) 9 [] a_task a_task start refl

process_fails_lost_example :
    (d : Task) × (env.tasks.docs (process env 9 [] a_task start).0.tasks (bytes "0123456789abcdef")
      ≡ some d)
    × (¬ In d [])
unfolding process pending Str_discrete ℕ_discrete wrap
process_fails_lost_example =
    process_fails_lost env (λ s k f. refl) 9 [] a_task a_task start
      (plain (bytes "download: request: timeout")) [] refl refl (λ q. cc) (λ x q. cc) refl

find_uploaded_file-ne_example :
    ((entry_of old_copy).name ≡ bytes "a.iso") × ((entry_of old_copy).name ≢ local_name [] a_task)
unfolding find_uploaded_file list_page str_eq entry_of
find_uploaded_file-ne_example = find_uploaded_file-ne env [] a_task tt (entry_of old_copy) refl
