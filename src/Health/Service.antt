-- ===== src/Health/Service.antt =====
-- internal/app/health/service.go (`EnableHealth`, `DisableHealth`) and the reader of
-- internal/app/provider/health_query_service.go, over one storage.
pub mod Adapter
use pinai.Base.{
  ℕ, ◌≡◌, refl, ◌≢◌, Bool, true, false, Option, none, some, ◌&&◌, ◌==◌, if◌then◌else◌, arith,
  Option-cases, Bool-cases, inl, inr,
}
use pinai.Base.Int.{pos}
use pinai.Base.Text.{codes}
use pinai.Health.{Health, status_unknown, status_unavailable}
use pinai.Health.Storage.{Table, IsTable, Storage, Error, get, set_status, delete}
use pinai.Health.Storage.Coherence.{get-set_status, get-delete}

-- The record that `DisableHealth` builds; the fields that it does not name have their zero values.
abbrev pub disabled_record : ℕ → ℕ → ℕ → Health
disabled_record now resource_type resource_id = record {
  resource_type = resource_type;
  resource_id = resource_id;
  status = status_unavailable;
  retry_count = pos 0;
  next_available_at = none;
  backoff_duration = pos 0;
  last_error = codes "手动禁用";
  last_error_code = pos 0;
  last_error_message = codes "";
  last_structured_error_code = codes "";
  last_http_status = none;
  last_error_from = codes "";
  last_cause_message = codes "";
  last_check_at = now;
  last_success_at = none;
  success_count = pos 0;
  error_count = pos 0;
  created_at = 0;
  updated_at = 0;
}

abbrev status_of : Option Health → ℕ
status_of none = status_unknown
status_of (some h) = h.status

module _ {T : Table} where
  unfoldable pub enable_health : ℕ → ℕ → Storage T → Storage T × Option Error
  unfolding delete
  enable_health resource_type resource_id s = delete resource_type resource_id s

  unfoldable pub disable_health : ℕ → ℕ → ℕ → Storage T → Storage T × Option Error
  unfolding set_status
  disable_health now resource_type resource_id s =
      set_status (disabled_record now resource_type resource_id) s

  -- `GetResourceHealthStatus`, with its reader; `none` for the error of a missing reader. The
  -- storage's `Get` reports no error.
  unfoldable pub get_resource_health_status : Option (Storage T) → ℕ → ℕ → Option ℕ
  unfolding get
  get_resource_health_status none resource_type resource_id = none
  get_resource_health_status (some s) resource_type resource_id =
      some (status_of (get resource_type resource_id s))

  -- An enabled resource reads as unknown, whether or not the table took the removal, and every
  -- other resource reads as before.
  pub status-enable_health :
      (t0 id0 : ℕ) (s : Storage T) (t id : ℕ)
      → get_resource_health_status (some (enable_health t0 id0 s).0) t id ≡ (
          if (t0 == t) && (id0 == id)
          then some status_unknown
          else get_resource_health_status (some s) t id)
  unfolding get_resource_health_status enable_health
  status-enable_health t0 id0 s t id = elim (Bool-cases ((t0 == t) && (id0 == id))) [
    | inl same ↦ ground (arith, (get-delete t0 id0 s t id).0)
    | inr other ↦ ground (arith, (get-delete t0 id0 s t id).0)
  ]

  -- A disabled resource reads as unavailable, whether or not the table took the record, and every
  -- other resource reads as before.
  pub status-disable_health :
      (laws : IsTable T) (now t0 id0 : ℕ) (s : Storage T) (t id : ℕ)
      → get_resource_health_status (some (disable_health now t0 id0 s).0) t id ≡ (
          if (t0 == t) && (id0 == id)
          then some status_unavailable
          else get_resource_health_status (some s) t id)
  unfolding get_resource_health_status disable_health
  status-disable_health laws now t0 id0 s t id =
      let view = (get-set_status (disabled_record now t0 id0) s t id).0 in
      let kept = laws.save_times (disabled_record now t0 id0) s.db in
      elim (Bool-cases ((t0 == t) && (id0 == id))) [
        | inl same ↦ ground (arith, view, kept)
        | inr other ↦ ground (arith, view, kept)
      ]
