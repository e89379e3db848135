-- ===== src/Owner.antt =====
-- internal/handlers/ownercommands.go: the commands that report, /broadcast, /clean, /restart and
-- /shutdown. The file system and the system calls are a parameter, `Machine`; what the process is about
-- to do is `Fate`.
pub mod Laws
pub mod Broadcast
pub mod Tests
use gdrive_bot.Base.{
  ℕ, suc, ◌+◌, Bool, true, false, Option, none, some, List, [], ◌∷◌, ◌++◌, Str, bytes, str_eq,
  if◌then◌else◌, ℤ, pos, eqb_ℤ, format_int, format_nat, length, Error, error_text, Result, ok, err,
  Act, ◌>>=◌,
}
use gdrive_bot.Database.{Collection}
use gdrive_bot.Database.Settings.{get_or_create}
use gdrive_bot.Database.Users.{list_authorized}
use gdrive_bot.Deps.{Defaults, defaults_of}
use gdrive_bot.Models.{User, Settings}
use gdrive_bot.Tuning.{limit_label}
use gdrive_bot.Utils.Format.{human_bytes}

pub record Machine : Type 1 where
  pub Disk : Type 0
  -- utils.DirSize of the downloads directory, whose error is ignored
  pub dir_size : Disk → ℤ
  -- os.RemoveAll and utils.EnsureDir of it
  pub remove_all : Disk → Disk × Option Error
  pub ensure_dir : Disk → Disk
  -- utils.DiskUsage: total, used and free, as int64
  pub disk_usage : Disk → Result (ℤ × ℤ × ℤ)
  -- runtime.GOMAXPROCS(0)
  pub max_procs : ℕ

pub record Env : Type 1 where
  pub login : gdrive_bot.Login.Env
  pub settings : Collection (Unit {0}) Settings
  pub machine : Machine
  pub defaults : Defaults
  pub owner_id : ℤ
  pub tenths : ℕ → ℕ → Str

-- What the process does half a second later.
pub data Fate : Type 0 where
  goes_on : Fate
  exits : Fate
  stops_queue_and_exits : Fate

-- an emoji with the variation selector U+FE0F
abbrev emoji : Str → Str
emoji s = s ++ 239 ∷ 184 ∷ 143 ∷ []

-- a line of /users
unfoldable pub user_line : User → Str
unfolding format_int str_eq
user_line u =
    bytes "• <code>"
    ++ (format_int u.telegram_id
        ++ (bytes "</code> — @"
            ++ ((if str_eq u.username [] then bytes "(no username)" else u.username)
                ++ (bytes " ["
                    ++ ((if u.is_owner then bytes "owner" else bytes "user") ++ bytes "]\n")))))

unfoldable pub user_lines : List User → Str
unfolding user_line
user_lines [] = []
user_lines (u ∷ us) = user_line u ++ user_lines us

unfoldable pub users_text : List User → Str
unfolding user_lines format_nat
users_text us =
    bytes "👥 <b>"
    ++ (format_nat (length us) ++ (bytes " authorized user(s)</b>\n\n" ++ user_lines us))

unfoldable pub settings_text : ℕ → Settings → Str
unfolding limit_label format_int format_nat
settings_text max_procs s =
    emoji (bytes "⚙")
    ++ (bytes " <b>Settings</b>\n\n/setworkers <n>          — workers: <b>"
        ++ (format_int s.workers
            ++ (bytes "</b>\n/setqueue <n>            — queue size: <b>"
                ++ (format_int s.queue_size
                    ++ (bytes "</b>\n/setdownloadlimit <MB|0> — dl limit: <b>"
                        ++ (limit_label s.download_limit_mb
                            ++ (bytes "</b>\n/setuploadlimit <MB|0>   — ul limit: <b>"
                                ++ (limit_label s.upload_limit_mb
                                    ++ (bytes "</b>\n\nExplorer page size: "
                                        ++ (format_int s.page_size
                                            ++ (bytes "\nMax retries: "
                                                ++ (format_int s.max_retries
                                                    ++ (bytes "\nGOMAXPROCS: "
                                                        ++ format_nat max_procs)))))))))))))

unfoldable pub sent_text : ℕ → ℕ → Str
unfolding format_nat
sent_text sent all =
    bytes "✅ Broadcast sent to "
    ++ (format_nat sent ++ (bytes "/" ++ (format_nat all ++ bytes " users.")))

module _ (env : Env) where
  pub record World : Type 0 where
    pub login : gdrive_bot.Login.World env.login
    pub settings : env.settings.Store
    pub disk : env.machine.Disk
    pub fate : Fate

  abbrev with_chat : env.login.telegram.Chat → World → World
  with_chat c w = record w { login = record w.login { chat = c } }

  -- a reply whose error is the handler's, and one whose outcome is ignored
  abbrev as_unit : Result ℤ → Result (Unit {0})
  as_unit (ok id) = ok tt
  as_unit (err e) = err e

  unfoldable pub reply : Str → Act World (Unit {0})
  reply text w =
      let (c, r) = env.login.telegram.reply text w.login.chat in (with_chat c w, as_unit r)

  unfoldable pub refuse : Act World (Unit {0})
  unfolding reply
  refuse w = ((reply (bytes "🚫 Owner only.") w).0, ok tt)

  -- requireOwner, before what a command does
  unfoldable pub require_owner : ℤ → Act World (Unit {0}) → Act World (Unit {0})
  unfolding refuse
  require_owner caller act w = if eqb_ℤ caller env.owner_id then act w else refuse w

  abbrev shown_size : ℤ → Str
  shown_size n = elim (human_bytes env.tenths n) [ none ↦ [] | some s ↦ s ]

  unfoldable pub show_disk : Result (ℤ × ℤ × ℤ) → Act World (Unit {0})
  unfolding reply
  show_disk (err e) = reply (bytes "Couldn't read disk: " ++ error_text e)
  show_disk (ok (total, used, free)) = reply (
      bytes "💽 <b>Disk</b>\nUsed: "
      ++ (shown_size used
          ++ (bytes "\nFree: " ++ (shown_size free ++ (bytes "\nTotal: " ++ shown_size total)))))

  -- Disk, for which no rights are asked beyond those of a user
  unfoldable pub disk : Act World (Unit {0})
  unfolding show_disk
  disk w = show_disk (env.machine.disk_usage w.disk) w

  -- Users
  unfoldable pub users : ℤ → Act World (Unit {0})
  unfolding require_owner list_authorized users_text reply
  users caller = require_owner caller (λ w. elim (list_authorized env.login.users w.login.users).1 [
    | err e ↦ (w, err e)
    | ok us ↦ reply (users_text us) w
  ])

  -- what one recipient adds to the count
  abbrev counted : Option Error → ℕ → ℕ
  counted none n = suc n
  counted (some e) n = n

  -- the loop of Broadcast; the sender is counted without a message
  unfoldable pub deliver :
      ℤ → Str → List User → ℕ → env.login.telegram.Chat → env.login.telegram.Chat × ℕ
  deliver caller text [] n c = (c, n)
  deliver caller text (u ∷ us) n c =
      let (c', e) =
        (if eqb_ℤ u.telegram_id caller
          then (c, none)
          else env.login.telegram.send u.telegram_id text c) in
      deliver caller text us (counted e n) c'

  unfoldable pub broadcast_to : ℤ → Str → List User → Act World (Unit {0})
  unfolding deliver sent_text reply
  broadcast_to caller msg us w =
      let (c, sent) = deliver caller (bytes "📢 " ++ msg) us 0 w.login.chat in
      reply (sent_text sent (length us)) (with_chat c w)

  -- Broadcast
  unfoldable pub broadcast : ℤ → Str → Act World (Unit {0})
  unfolding require_owner list_authorized broadcast_to reply str_eq
  broadcast caller msg = require_owner caller (λ w.
      if str_eq msg []
      then reply (bytes "Usage: /broadcast <message>") w
      else elim (list_authorized env.login.users w.login.users).1 [
        | err e ↦ (w, err e)
        | ok us ↦ broadcast_to caller msg us w
      ])

  abbrev removed : ℤ → World × Option Error → World × Result (Unit {0})
  removed freed (w, some e) = reply (bytes "Cleanup failed: " ++ error_text e) w
  removed freed (w, none) =
      reply (bytes "🧹 Cleaned up downloads directory. Freed " ++ (shown_size freed ++ bytes "."))
        (record w { disk = env.machine.ensure_dir w.disk })

  -- Clean
  unfoldable pub clean : ℤ → Act World (Unit {0})
  unfolding require_owner reply
  clean caller = require_owner caller (λ w.
      let (d, e) = env.machine.remove_all w.disk in
      removed (env.machine.dir_size w.disk) (record w { disk = d }, e))

  abbrev listed : World × Result Settings → World × Result (Unit {0})
  listed (w, err e) = (w, err e)
  listed (w, ok s) = reply (settings_text env.machine.max_procs s) w

  -- Settings
  unfoldable pub settings : ℕ → ℤ → Act World (Unit {0})
  unfolding require_owner get_or_create settings_text reply
  settings now caller = require_owner caller (λ w.
      let (s, r) = get_or_create env.settings (defaults_of now env.defaults) w.settings in
      listed (record w { settings = s }, r))

  -- Restart and Shutdown
  unfoldable pub restart : ℤ → Act World (Unit {0})
  unfolding require_owner reply
  restart caller =
      require_owner caller
        (λ w. reply (emoji (bytes "♻") ++ bytes " Restarting…") (record w { fate = exits }))

  unfoldable pub shutdown : ℤ → Act World (Unit {0})
  unfolding require_owner reply
  shutdown caller =
      require_owner caller
        (λ w. reply (bytes "🛑 Shutting down.") (record w { fate = stops_queue_and_exits }))
