-- ===== src/Health.antt =====
-- database/types/health.go: the health record of a platform, a key or a model. Its users are
-- internal/app/health and internal/infra/portal/healthadapter, in the child modules.
pub mod Storage
pub mod Service
pub mod Counts
pub mod Query
mod Tests
use pinai.Base.{ℕ, Option}
use pinai.Base.Int.{ℤ}
use pinai.Base.Text.{Text}

-- `HealthStatus` and `ResourceType` are small integers, and the code compares them with these
-- constants; a number that is none of them is kept as it is. Negative ones are left out.
abbrev pub status_unknown : ℕ
status_unknown = 0

abbrev pub status_available : ℕ
status_available = 1

abbrev pub status_warning : ℕ
status_warning = 2

abbrev pub status_unavailable : ℕ
status_unavailable = 3

abbrev pub resource_platform : ℕ
resource_platform = 1

abbrev pub resource_api_key : ℕ
resource_api_key = 2

abbrev pub resource_model : ℕ
resource_model = 3

-- Times are numbers that grow with the clock; a nil pointer is `none`.
pub record Health : Type 0 where
  pub resource_type : ℕ
  pub resource_id : ℕ
  pub status : ℕ
  pub retry_count : ℤ
  pub next_available_at : Option ℕ
  pub backoff_duration : ℤ
  pub last_error : Text
  pub last_error_code : ℤ
  pub last_error_message : Text
  pub last_structured_error_code : Text
  pub last_http_status : Option ℤ
  pub last_error_from : Text
  pub last_cause_message : Text
  pub last_check_at : ℕ
  pub last_success_at : Option ℕ
  pub success_count : ℤ
  pub error_count : ℤ
  pub created_at : ℕ
  pub updated_at : ℕ
