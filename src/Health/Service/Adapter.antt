-- ===== src/Health/Service/Adapter.antt =====
-- internal/infra/portal/healthadapter/adapter.go: the storage behind the interface of the portal
-- library. `CoreHealth` has the fields of the library's record that the adapter reads and writes.
use pinai.Base.{ℕ, ◌≡◌, Option, none, some, arith}
use pinai.Base.Int.{ℤ}
use pinai.Base.Text.{Text}
use pinai.Health.{Health}
use pinai.Health.Storage.{Table, IsTable, Storage, Error, get, set_status, delete}
use pinai.Health.Storage.Coherence.{get-set_status}

pub record CoreHealth : Type 0 where
  pub resource_type : ℕ
  pub resource_id : ℕ
  pub status : ℕ
  pub retry_count : ℤ
  pub next_available_at : Option ℕ
  pub backoff_duration : ℤ
  pub last_error : Text
  pub last_error_code : ℤ
  pub last_error_message : Text
  pub last_structured_error_code : Text
  pub last_http_status : Option ℤ
  pub last_error_from : Text
  pub last_cause_message : Text
  pub last_check_at : ℕ
  pub last_success_at : Option ℕ
  pub success_count : ℤ
  pub error_count : ℤ
  pub created_at : ℕ
  pub updated_at : ℕ

-- `convertResourceTypeToInternal`: both types have the same numbers.
abbrev convert_resource_type : ℕ → ℕ
convert_resource_type t = t

-- The literal of `Get`, with the resource type that was asked for.
unfoldable pub to_core : ℕ → Health → CoreHealth
to_core resource_type h = record {
  resource_type = resource_type;
  resource_id = h.resource_id;
  status = h.status;
  retry_count = h.retry_count;
  next_available_at = h.next_available_at;
  backoff_duration = h.backoff_duration;
  last_error = h.last_error;
  last_error_code = h.last_error_code;
  last_error_message = h.last_error_message;
  last_structured_error_code = h.last_structured_error_code;
  last_http_status = h.last_http_status;
  last_error_from = h.last_error_from;
  last_cause_message = h.last_cause_message;
  last_check_at = h.last_check_at;
  last_success_at = h.last_success_at;
  success_count = h.success_count;
  error_count = h.error_count;
  created_at = h.created_at;
  updated_at = h.updated_at;
}

-- The literal of `Set`.
unfoldable pub from_core : CoreHealth → Health
from_core c = record {
  resource_type = convert_resource_type c.resource_type;
  resource_id = c.resource_id;
  status = c.status;
  retry_count = c.retry_count;
  next_available_at = c.next_available_at;
  backoff_duration = c.backoff_duration;
  last_error = c.last_error;
  last_error_code = c.last_error_code;
  last_error_message = c.last_error_message;
  last_structured_error_code = c.last_structured_error_code;
  last_http_status = c.last_http_status;
  last_error_from = c.last_error_from;
  last_cause_message = c.last_cause_message;
  last_check_at = c.last_check_at;
  last_success_at = c.last_success_at;
  success_count = c.success_count;
  error_count = c.error_count;
  created_at = c.created_at;
  updated_at = c.updated_at;
}

module _ {T : Table} where
  unfoldable pub adapter_get : ℕ → ℕ → Storage T → Option CoreHealth
  unfolding get to_core
  adapter_get t id s = elim (get (convert_resource_type t) id s) [
    | none ↦ none
    | some h ↦ some (to_core t h)
  ]

  unfoldable pub adapter_set : CoreHealth → Storage T → Storage T × Option Error
  unfolding set_status from_core
  adapter_set c s = set_status (from_core c) s

  unfoldable pub adapter_delete : ℕ → ℕ → Storage T → Storage T × Option Error
  unfolding delete
  adapter_delete t id s = delete (convert_resource_type t) id s

-- Over a table that keeps its laws, a record that the portal library stores comes back from the
-- adapter with every field but the two times that the database layer sets, whether or not the table
-- took it.
pub adapter_get-adapter_set :
    {T : Table} (laws : IsTable T) (c : CoreHealth) (s : Storage T)
    → adapter_get c.resource_type c.resource_id (adapter_set c s).0
      ≡ some (record c {
        created_at = (T.save (from_core c) s.db).0.created_at;
        updated_at = (T.save (from_core c) s.db).0.updated_at;
      })
unfolding adapter_get adapter_set from_core to_core
adapter_get-adapter_set laws c s =
    let view = (get-set_status (from_core c) s c.resource_type c.resource_id).0 in
    let kept = laws.save_times (from_core c) s.db in ground (arith, view, kept)
