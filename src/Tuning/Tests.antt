-- ===== src/Tuning/Tests.antt =====
-- The owner sets the number of workers in a new database.
use gdrive_bot.Base.{◌≡◌, refl, List, [], pos, negsuc, ok, some, bytes}
use gdrive_bot.Database.{Collection}
use gdrive_bot.Database.Assoc.{assoc_collection}
use gdrive_bot.Database.Settings.{mutated, get_or_create, update}
use gdrive_bot.Models.{Settings, default_settings}
use gdrive_bot.Tuning.{tune, set_workers, limit_label}
use gdrive_bot.Tuning.Laws.{worker_count, Tuned, command, read, command-Tuned}

pub Unit_discrete : Discrete (Unit {0})
Unit_discrete = hlevel

abbrev pub col : Collection (Unit {0}) Settings
col = assoc_collection Unit_discrete

abbrev empty : List (Unit {0} × Settings)
empty = []

-- what the theorem says of this run
abbrev WorkersSet : Type 0
WorkersSet =
    (c : Settings) × (read col (pos 1) (default_settings 5 (pos 4) (pos 50) (pos 0) (pos 0)) empty
      ≡ ok c)
    × ((defaults x : Settings)
        → read col (pos 1) defaults
            (command col (pos 1) worker_count 5 (pos 1) (some (pos 8)) empty).0
          ≡ ok x
        → Tuned col (pos 1) worker_count (pos 8) c x)

command-Tuned_example : WorkersSet
unfolding update get_or_create mutated Unit_discrete set_workers tune
command-Tuned_example = command-Tuned col (pos 1) worker_count 5 (pos 8) empty refl refl

-- a number below the least one changes nothing
too_small : set_workers col (pos 1) 5 (pos 1) (some (negsuc 0)) empty ≡ (empty, ok tt)
unfolding set_workers tune
too_small = refl

-- no limit is shown as such
no_limit : limit_label (pos 0) ≡ bytes "unlimited"
unfolding limit_label
no_limit = refl
