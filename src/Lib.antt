-- ===== src/Lib.antt =====
-- gdrive-bot, a Telegram bot that manages a user's Google Drive, as a verification library.
--
-- Parts and files (paths of the program are from the repository's root):
--   Base        strings as bytes, Go's int64, decimal printing, strconv.ParseInt, strings.TrimSpace, errors
--               and results
--   Models      internal/models: the persisted documents
--   Utils       internal/utils: Format (format.go), Retry (retry.go) and Files (utils.go)
--   Cache       internal/cache/cache.go: the in-memory cache (Cache.antt), what its readers see
--               (Laws), and the interface that the other parts use (Interface)
--   Database    internal/database: what the repositories ask of the MongoDB driver (Database.antt),
--               the repositories (Users, Tasks, States, Settings) and an in-memory driver (Assoc)
--   Drive       internal/drive: the Drive client over an abstract Files and Permissions service
--               (Drive.antt, Operations), sharing (Sharing) and the query of a search (Query)
--   Deps        internal/handlers/deps.go: the settings with their fallback, a user's Drive client
--   Guard       internal/middleware/auth.go with /auth and /unauth of
--               internal/handlers/ownercommands.go
--   Queue       internal/queue: Enqueue, Cancel, Resume and a worker's process (Queue.antt), what
--               they come to (Enqueue, Resume, Process); the pool of workers (Pool)
--   Processor   internal/bot/processor.go: one download and upload of a task, its outcome (Outcome) and
--               the search for the uploaded file (Uploaded)
--   Telegram    the Telegram client, as the handlers use it
--   Login       internal/handlers/login.go: the login conversation and the logout
--   Callbacks   internal/callbacks and the menus of internal/explorer/filemenu.go (Explorer.Menus): the
--               dispatch of a button's press (Router), what a press without rights (Denied) and one that
--               confirms no deletion (Kept, Confirmed) can do, sharing (Sharing), menus (Buttons)
--   Messages    internal/handlers/upload.go and the answers to a prompt of internal/handlers/myfiles.go:
--               the handlers (Incoming) and what cannot pass their gates (Gates)
--   Tuning      the settings commands of internal/handlers/ownercommands.go
--   Progress    internal/progress/editor.go: the coalescing editor, as a step relation, the
--               order of what it sends (Order) and the end of Close (Close)
--   Owner       the other commands of internal/handlers/ownercommands.go: reports, /broadcast, /clean,
--               /restart and /shutdown; whom /broadcast reaches (Laws, Broadcast)
--   Bot         internal/bot/bot.go: RequireAuth around a handler (Bot.antt), /start, /status and /myfiles
--               (Commands), and registerHandlers, from an update to its handler (Dispatch); what a user
--               without rights (Refused) and one who is not the owner (Owned) leave as it was
--   Download    internal/download: the copy loop, DirectLink and TelegramFile (Download.antt), what they
--               leave (Complete, Saved), that the loop returns (Ends) and how often it reports (Paced)
--   Rclone      internal/rclone/rclone.go and internal/upload/rclone_upload.go: an upload and its messages
--               (Rclone.antt, Forwarded), the command lines (Arguments), the parsing of a remaining time (Eta)
--   Auth        internal/auth/oauth.go: the code of a redirect, and the token source that stores what it
--               gets, also after a logout (Revived)
--   Config      internal/config/config.go: Load and validate over the environment
--   Cleaner     internal/bot/cleaner.go: one sweep of the downloads directory
--   Explorer    internal/explorer: Service (Explorer.antt), its state and keys (State), the listing's
--               text and keyboard (Render); Session runs any calls in any order
--
-- How the code is read. A method is an action: a function from the state to the new state and a
-- value or an error, and an error keeps the changes made so far, as in Go. Calls run one at a time,
-- but for the queue, where a critical section, a send or a receive is one step and other goroutines
-- act in the waits of a retry and between the steps of Resume, and for the editor (Progress) and the
-- pool of workers (Queue.Pool), whose steps interleave. Numbers are int64 where they may be negative or wrap (Base/Int), else
-- natural numbers. Strings are byte strings. A read of the clock and a random ID are arguments. A
-- panic is an error.
--
-- Third-party code is a parameter with named laws: Database.Collection (MongoDB: finds agree with
-- the documents, a write of one document is atomic, calls may fail), Cache.Interface.Cache (a
-- working cache; the in-memory one is an instance), Drive.FilesService (the Drive, which may answer
-- anything, with Drive.Sharing.PermissionLaws where sharing depends on it), Processor.Transfers
-- (the transfers and the disk), Download.Net and Download.Lawful (HTTP, the Bot API, reads and
-- writes), Rclone.Run and Rclone.Floats (the rclone process, floating point), Owner.Machine (the
-- file system), Bot.Env.is_command (the dispatcher's test of a command), Login.LoginCalls (oauth2,
-- rclone), Telegram.Telegram, Explorer.PageCodec (encoding/json at a cached page), and the printing
-- of a quotient by `%.1f` and of a text by `%q`. Database/Assoc and the Tests modules show that the
-- laws can be met.
--
-- Loops. Every loop is structural but these: the copy of a download has fuel (Download.Ends says
-- how much is enough), TrimSpace has the length of its text, HumanBytes has fuel 7, enough since an
-- int64 is below 1024 ^ 7, and decimal printing recurs on accessibility. The bound of 25 of
-- BuildBreadcrumb and the 5 rounds of findUploadedFile are the code's.
--
-- Not modelled: the calls of oauth2, the keyboards of replies, the Redis client, the text of
-- /stats, the start of the bot (Run), log lines, and the jitter of the retry delay: input and
-- output, or glue around the parts above.
pub mod Base
pub mod Models
pub mod Utils
pub mod Cache
pub mod Database
pub mod Drive
pub mod Deps
pub mod Guard
pub mod Queue
pub mod Explorer
pub mod Telegram
pub mod Login
pub mod Callbacks
pub mod Messages
pub mod Tuning
pub mod Processor
pub mod Cleaner
pub mod Progress
pub mod Download
pub mod Rclone
pub mod Config
pub mod Owner
pub mod Bot
pub mod Auth
