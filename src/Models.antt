-- ===== src/Models.antt =====
-- internal/models: the persisted documents. Times are nanoseconds (0 is the zero time), IDs are
-- int64, and an absent optional field of a document is the zero value that decoding leaves.
use gdrive_bot.Base.{ℕ, Option, List, Bool, Str, ℤ, pos}

-- internal/models/explorer_state.go
pub record BreadcrumbEntry : Type 0 where
  pub folder_id : Str
  pub name : Str

pub record ExplorerState : Type 0 where
  pub user_id : ℤ
  pub chat_id : ℤ
  pub message_id : ℤ
  pub current_folder_id : Str
  pub breadcrumb : List BreadcrumbEntry
  pub page : ℤ
  pub page_size : ℤ
  pub search_query : Str
  pub page_tokens : List (ℤ × Str)
  pub awaiting_rename_file_id : Str
  pub awaiting_search : Bool

-- internal/models/task.go
pub data TaskType : Type 0 where
  telegram_file direct_link : TaskType

pub data TaskStatus : Type 0 where
  queued downloading uploading completed failed canceled : TaskStatus

pub record Task : Type 0 where
  pub id : Str
  pub user_id : ℤ
  pub chat_id : ℤ
  pub type : TaskType
  pub status : TaskStatus
  pub source : Str
  pub file_name : Str
  pub file_size : ℤ
  pub dest_folder_id : Str
  pub status_message_id : ℤ
  pub retry_count : ℕ
  pub last_error : Str
  pub created_at : ℕ
  pub started_at : ℕ
  pub completed_at : ℕ
  pub result_file_id : Str

-- internal/models/user.go
pub record GoogleToken : Type 0 where
  pub access_token : Str
  pub refresh_token : Str
  pub token_type : Str
  pub expiry : ℕ

pub record User : Type 0 where
  pub telegram_id : ℤ
  pub username : Str
  pub is_owner : Bool
  pub is_authed : Bool
  pub authed_by : ℤ
  pub authed_at : ℕ
  pub google_token : Option GoogleToken
  pub rclone_remote : Str
  pub root_folder_id : Str
  pub created_at : ℕ
  pub updated_at : ℕ

pub record PendingLogin : Type 0 where
  pub telegram_id : ℤ
  pub step : ℕ
  pub auth_code : Str
  pub message_id : ℤ
  pub chat_id : ℤ
  pub created_at : ℕ
  pub expires_at : ℕ

-- internal/models/settings.go
pub record Settings : Type 0 where
  pub workers : ℤ
  pub queue_size : ℤ
  pub download_limit_mb : ℤ
  pub upload_limit_mb : ℤ
  pub page_size : ℤ
  pub auto_clean_interval_min : ℤ
  pub max_retries : ℤ
  pub updated_at : ℕ
  pub updated_by : ℤ

unfoldable pub default_settings : ℕ → ℤ → ℤ → ℤ → ℤ → Settings
default_settings now workers queue_size download_limit_mb upload_limit_mb = record {
  workers = workers;
  queue_size = queue_size;
  download_limit_mb = download_limit_mb;
  upload_limit_mb = upload_limit_mb;
  page_size = pos 10;
  auto_clean_interval_min = pos 60;
  max_retries = pos 10;
  updated_at = now;
  updated_by = pos 0;
}
