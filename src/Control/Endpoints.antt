-- ===== src/Control/Endpoints.antt =====
-- The endpoints of a platform: endpoint_control_repository.go, endpoint_add_app_service.go,
-- endpoint_update_app_service.go and endpoint_delete_app_service.go of internal/app/provider.
pub mod Defaults
pub mod Uniqueness
pub mod Moving
pub mod Single
pub mod Signature
pub mod Batch
pub mod Groups
pub mod Together
pub mod Grouped
pub mod Requests
pub mod Applied
pub mod Joining
pub mod Equivalence
use pinai.Base.{
  ℕ, suc, ◌+◌, Bool, true, false, ◌&&◌, not, List, [], ◌∷◌, ◌++◌, Option, none, some, ltb, ◌==◌,
  if◌then◌else◌, map,
}
use pinai.Base.Text.{Text, is_empty}
use pinai.Control.{
  Endpoint, Platform, Tables, Store, Answer, returns, fails, Run, pure, raise, ◌>>=◌, query, write,
  or_not_found, within_tx, audited, some_row, succeed, resource_not_found, default_conflict,
  endpoint_create, endpoint_update, endpoint_delete,
}
use pinai.Control.Rows.{first_row, change_rows, delete_rows, count_rows}

-- `ExistsPlatform` of the four repositories.
unfoldable pub platform_exists : ℕ → Run Bool
unfolding count_rows
platform_exists id =
    query (λ t. returns (ltb 0 (count_rows (λ (p : Platform). p.id == id) t.platforms)))

unfoldable pub create_endpoint : Endpoint → Run Endpoint
create_endpoint e = write (λ t.
    let row : Endpoint = record e { id = t.next_endpoint } in
    (row, record t { endpoints = t.endpoints ++ row ∷ []; next_endpoint = suc t.next_endpoint }))

abbrev pub has_id : ℕ → Endpoint → Bool
has_id id e = e.id == id

unfoldable pub get_endpoint : ℕ → Run Endpoint
unfolding first_row
get_endpoint id = query (λ t. or_not_found (first_row (has_id id) t.endpoints))

-- The columns that an update selects.
pub data Field : Type 0 where
  type_field variant_field path_field headers_field default_field : Field

abbrev pub set_field : Endpoint → Field → Endpoint → Endpoint
set_field payload type_field e = record e { endpoint_type = payload.endpoint_type }
set_field payload variant_field e = record e { endpoint_variant = payload.endpoint_variant }
set_field payload path_field e = record e { path = payload.path }
set_field payload headers_field e = record e { custom_headers = payload.custom_headers }
set_field payload default_field e = record e { is_default = payload.is_default }

abbrev pub set_fields : Endpoint → List Field → Endpoint → Endpoint
set_fields payload [] e = e
set_fields payload (f ∷ fs) e = set_fields payload fs (set_field payload f e)

-- The rows that satisfy a condition are changed, and counted.
unfoldable pub update_where : (Endpoint → Bool) → (Endpoint → Endpoint) → Run ℕ
unfolding change_rows count_rows
update_where q f =
    write (λ t. (count_rows q t.endpoints, record t { endpoints = change_rows q f t.endpoints }))

unfoldable pub update_endpoint_fields : ℕ → Endpoint → List Field → Run ℕ
unfolding update_where
update_endpoint_fields id payload fields = update_where (has_id id) (set_fields payload fields)

unfoldable pub delete_endpoint_by_id : ℕ → Run ℕ
unfolding delete_rows count_rows
delete_endpoint_by_id id = write (λ t. (
  count_rows (has_id id) t.endpoints,
  record t { endpoints = delete_rows (has_id id) t.endpoints },
))

abbrev pub is_of : ℕ → Endpoint → Bool
is_of platform_id e = e.platform_id == platform_id

-- The last row, and so the one with the greatest id.
unfoldable pub latest_of : ℕ → List Endpoint → Option Endpoint
latest_of platform_id [] = none
latest_of platform_id (e ∷ es) = elim (latest_of platform_id es) [
  | some l ↦ some l
  | none ↦ if is_of platform_id e then some e else none
]

unfoldable pub get_latest_endpoint_by_platform : ℕ → Run (Option Endpoint)
unfolding latest_of
get_latest_endpoint_by_platform platform_id =
    query (λ t. returns (latest_of platform_id t.endpoints))

abbrev pub set_default : Endpoint → Endpoint
set_default e = record e { is_default = true }

-- gorm leaves out a field that is false, and then updates nothing.
unfoldable pub set_endpoint_default : ℕ → Bool → Run ℕ
unfolding update_where
set_endpoint_default id true = update_where (has_id id) set_default
set_endpoint_default id false = pure 0

abbrev pub is_default_of : ℕ → Endpoint → Bool
is_default_of platform_id e = is_of platform_id e && e.is_default

unfoldable pub count_default_endpoints_by_platform : ℕ → Run ℕ
unfolding count_rows
count_default_endpoints_by_platform platform_id =
    query (λ t. returns (count_rows (is_default_of platform_id) t.endpoints))

-- The check that the operations make after they set a default.
unfoldable pub check_default_unique : ℕ → Run (Unit {0})
unfolding count_default_endpoints_by_platform
check_default_unique platform_id = count_default_endpoints_by_platform platform_id >>= λ count.
    if ltb 1 count then raise default_conflict else pure tt

unfoldable pub create_checked : ℕ → Endpoint → Run Endpoint
unfolding create_endpoint check_default_unique
create_checked platform_id e = create_endpoint e >>= λ row.
    if e.is_default then (check_default_unique platform_id >>= λ u. pure row) else pure row

-- `addEndpointToPlatformApp`.
unfoldable pub add_endpoint : ℕ → Endpoint → Run Endpoint
unfolding platform_exists create_checked
add_endpoint platform_id e = audited endpoint_create 0 (platform_exists platform_id) >>= λ exists.
    audited endpoint_create 0 (
      if exists
      then within_tx (create_checked platform_id (record e { id = 0; platform_id = platform_id }))
      else raise resource_not_found)
    >>= λ row. succeed endpoint_create row.id row

abbrev pub select : Bool → Field → List Field → List Field
select true f fs = f ∷ fs
select false f fs = fs

abbrev pub is_some {ℓ} : {A : Type ℓ} → Option A → Bool
is_some none = false
is_some (some a) = true

-- The columns that the request gives; a default can only be set.
unfoldable pub selected_fields : Endpoint → List Field
selected_fields e = select (not (is_empty e.endpoint_type)) type_field (
    select (not (is_empty e.endpoint_variant)) variant_field (
      select (not (is_empty e.path)) path_field
        (select (is_some e.custom_headers) headers_field (select e.is_default default_field []))))

unfoldable pub update_selected : ℕ → Endpoint → List Field → Run (Unit {0})
unfolding update_endpoint_fields
update_selected id payload [] = pure tt
update_selected id payload (f ∷ fs) = update_endpoint_fields id payload (f ∷ fs) >>= some_row

unfoldable pub update_checked : ℕ → Endpoint → ℕ → Run Endpoint
unfolding update_selected selected_fields check_default_unique get_endpoint
update_checked id e platform_id = update_selected id e (selected_fields e) >>= λ u.
    (if e.is_default then check_default_unique platform_id else pure tt) >>= λ u. get_endpoint id

-- `updateEndpointApp`.
unfoldable pub update_endpoint : ℕ → Endpoint → Run Endpoint
unfolding get_endpoint update_checked
update_endpoint id e = audited endpoint_update id (get_endpoint id) >>= λ existing.
    audited endpoint_update id (within_tx (update_checked id e existing.platform_id)) >>= λ updated.
    succeed endpoint_update id updated

-- The default moves to the latest endpoint that is left.
unfoldable pub set_latest_default : Option Endpoint → Run (Unit {0})
unfolding set_endpoint_default
set_latest_default none = pure tt
set_latest_default (some latest) = set_endpoint_default latest.id true >>= some_row

unfoldable pub move_default : ℕ → Run (Unit {0})
unfolding count_default_endpoints_by_platform get_latest_endpoint_by_platform set_latest_default
move_default platform_id = count_default_endpoints_by_platform platform_id >>= λ count.
    if count == 0
    then (get_latest_endpoint_by_platform platform_id >>= set_latest_default)
    else pure tt

unfoldable pub delete_and_move : ℕ → Endpoint → Run (Unit {0})
unfolding delete_endpoint_by_id move_default
delete_and_move id endpoint = delete_endpoint_by_id id >>= some_row >>= λ u.
    if endpoint.is_default then move_default endpoint.platform_id else pure tt

-- `deleteEndpointApp`.
unfoldable pub delete_endpoint : ℕ → Run (Unit {0})
unfolding get_endpoint delete_and_move
delete_endpoint id = audited endpoint_delete id (get_endpoint id) >>= λ endpoint.
    audited endpoint_delete id (within_tx (delete_and_move id endpoint)) >>= λ u.
    succeed endpoint_delete id u
