-- ===== src/Health/Tests/Rows.antt =====
-- A table of health records, as a list without repeats, and the storage over it.
use pinai.Base.{
  ℕ, ◌≡◌, ◌↔◌, ◌≢◌, refl, ap, ◌∙◌, sym, inl, inr, List, [], ◌∷◌, Option, none, some, ◌&&◌, ◌==◌,
  if◌then◌else◌, arith, Bool-cases,
}
use pinai.Base.Text.{text_eq_eq, nat_eq}
use pinai.Base.Assoc.{insert}
use pinai.Health.{
  Health, resource_platform, resource_api_key, status_available, status_unknown, status_unavailable,
}
use pinai.Health.Storage.{
  Table, IsTable, Storage, find_first, IsUnique, timeless, without_times, get, new_storage,
  load_all, set_status, delete, key_of, make_key,
}
use pinai.Health.Storage.Coherence.{
  Write, sets, deletes, apply_all, AreTaken, restart_same, apply_all-IsCoherent, IsCoherent,
  new_storage-IsCoherent, get-set_status, get-delete,
}
use pinai.Health.Service.{
  disabled_record, get_resource_health_status, disable_health, status-disable_health, enable_health,
  status-enable_health,
}
use pinai.Health.Service.Adapter.{
  CoreHealth, to_core, from_core, adapter_get, adapter_set, adapter_get-adapter_set,
}
use pinai.Health.Storage.Key.{make_key_injective}

abbrev drop_row : ℕ → ℕ → List Health → List Health
drop_row t id [] = []
drop_row t id (h ∷ hs) =
    let rest = drop_row t id hs in
    if (h.resource_type == t) && (h.resource_id == id) then rest else h ∷ rest

find_first-drop_row :
    (t0 id0 : ℕ) (hs : List Health) (t id : ℕ)
    → find_first t id (drop_row t0 id0 hs)
      ≡ (if (t0 == t) && (id0 == id) then none else find_first t id hs)
find_first-drop_row t0 id0 [] t id = ground arith
find_first-drop_row t0 id0 (h ∷ hs) t id = ground (arith, find_first-drop_row t0 id0 hs t id)

drop_row-IsUnique : (t id : ℕ) (hs : List Health) → IsUnique hs → IsUnique (drop_row t id hs)
drop_row-IsUnique t id [] u = tt
drop_row-IsUnique t id (h ∷ hs) (fresh, u) =
    elim (Bool-cases ((h.resource_type == t) && (h.resource_id == id))) [
      | inl same ↦ rw same (drop_row-IsUnique t id hs u)
      | inr other ↦ rw other (
        ground (arith, find_first-drop_row t id hs h.resource_type h.resource_id, fresh),
        drop_row-IsUnique t id hs u,
      )
    ]

-- A list without repeats; a row that is saved takes the place of the one before it.
record Rows : Type 0 where
  rows : List Health
  unique : IsUnique rows

put-IsUnique :
    (h : Health) (db : Rows) → IsUnique (h ∷ drop_row h.resource_type h.resource_id db.rows)
put-IsUnique h db = (
  ground (
    arith,
    find_first-drop_row h.resource_type h.resource_id db.rows h.resource_type h.resource_id,
  ),
  drop_row-IsUnique h.resource_type h.resource_id db.rows db.unique,
)

abbrev put : Health → Rows → Rows
put h db = record {
  rows = h ∷ drop_row h.resource_type h.resource_id db.rows;
  unique = put-IsUnique h db;
}

-- The row of a saved record: an update keeps the time of the creation.
abbrev created_of : Health → Option Health → ℕ
created_of h none = h.created_at
created_of h (some old) = old.created_at

abbrev row_of : Health → Rows → Health
row_of h db = record h {
  created_at = created_of h (find_first h.resource_type h.resource_id db.rows);
  updated_at = 8;
}

abbrev table : Table
table = record {
  Db = Rows;
  find = λ db. some db.rows;
  save = λ h db. (record h { updated_at = 7 }, some (put (row_of h db) db));
  delete = λ t id db.
      some (record {
        rows = drop_row t id db.rows;
        unique = drop_row-IsUnique t id db.rows db.unique;
      });
}

row_of_put :
    (h : Health) (db : Rows) (t id : ℕ)
    → find_first t id (put h db).rows ≡ (
        if (h.resource_type == t) && (h.resource_id == id) then some h else find_first t id db.rows)
row_of_put h db t id =
    ground (arith, find_first-drop_row h.resource_type h.resource_id db.rows t id)

timeless-put :
    (h : Health) (db : Rows) (t id : ℕ)
    → timeless (find_first t id (put (row_of h db) db).rows) ≡ (
        if (h.resource_type == t) && (h.resource_id == id)
        then some (without_times h)
        else timeless (find_first t id db.rows))
timeless-put h db t id =
    ap timeless (row_of_put (row_of h db) db t id)
    ∙ elim (Bool-cases ((h.resource_type == t) && (h.resource_id == id))) [
      | inl e ↦ rw e refl
      | inr e ↦ rw e refl
    ]

abbrev value {ℓ} : {A : Type ℓ} → A → Option A → A
value d none = d
value d (some x) = x

table-IsTable : IsTable table
table-IsTable = record {
  row = λ t id db. find_first t id db.rows;
  find_row = λ db hs e t id. ap (λ o. find_first t id (value [] o)) (sym e);
  find_unique = λ db hs e. rw (ap (value []) e) at db.unique;
  save_times = λ h db. refl;
  row-save = λ h db db' e t id.
      ap (λ o. timeless (find_first t id (value db o).rows)) (sym e) ∙ timeless-put h db t id;
  row-delete = λ t0 id0 db db' e t id.
      ap (λ o. find_first t id (value db o).rows) (sym e) ∙ find_first-drop_row t0 id0 db.rows t id;
}

-- Two records, of a platform and of a key.
abbrev platform_record : Health
platform_record = disabled_record 100 resource_platform 1

abbrev key_record : Health
key_record = record (disabled_record 200 resource_api_key 1) { status = status_available }

abbrev start : Rows
start = record { rows = platform_record ∷ []; unique = (refl, tt) }

abbrev loaded : Storage table
loaded = record { cache = (key_of platform_record, platform_record) ∷ []; db = start }

abbrev writes : List Write
writes =
    sets (record platform_record { created_at = 5 })
    ∷ sets key_record
    ∷ deletes resource_platform 1
    ∷ []

-- What the storage says after the writes, and after a restart.
abbrev written : Storage table
written = apply_all writes loaded

abbrev reloaded : Storage table
reloaded = record { cache = load_all written.db.rows []; db = written.db }

loaded_is : new_storage start ≡ some loaded
unfolding new_storage load_all insert
loaded_is = refl

writes-AreTaken : AreTaken writes loaded
unfolding set_status delete
writes-AreTaken = (refl, (refl, (refl, tt)))

reloaded_is : new_storage written.db ≡ some reloaded
unfolding new_storage
reloaded_is = refl

restart_same_example :
    timeless (get resource_api_key 1 reloaded) ≡ timeless (get resource_api_key 1 written)
restart_same_example =
    restart_same table-IsTable start loaded reloaded writes loaded_is writes-AreTaken reloaded_is
      resource_api_key 1

apply_all-IsCoherent_example : IsCoherent table-IsTable written
apply_all-IsCoherent_example =
    apply_all-IsCoherent table-IsTable writes loaded
      (new_storage-IsCoherent table-IsTable start loaded loaded_is) writes-AreTaken

get-set_status_example :
    (get resource_platform 1 (set_status key_record loaded).0 ≡ get resource_platform 1 loaded)
    × (((set_status key_record loaded).1 ≡ none) ↔ ((table.save key_record start).1 ≢ none))
get-set_status_example = get-set_status key_record loaded resource_platform 1

get-delete_example :
    (get resource_platform 1 (delete resource_platform 1 loaded).0 ≡ none)
    × (((delete resource_platform 1 loaded).1 ≡ none)
        ↔ (table.delete resource_platform 1 start ≢ none))
get-delete_example = get-delete resource_platform 1 loaded resource_platform 1

status-disable_health_example :
    get_resource_health_status
      (some (disable_health 300 resource_api_key 1 loaded).0)
      resource_api_key
      1
    ≡ some status_unavailable
status-disable_health_example =
    status-disable_health table-IsTable 300 resource_api_key 1 loaded resource_api_key 1

status-enable_health_example :
    get_resource_health_status
      (some (enable_health resource_platform 1 loaded).0)
      resource_platform
      1
    ≡ some status_unknown
status-enable_health_example = status-enable_health resource_platform 1 loaded resource_platform 1

abbrev core_record : CoreHealth
core_record = to_core resource_api_key key_record

adapter_get-adapter_set_example :
    adapter_get resource_api_key 1 (adapter_set core_record loaded).0
    ≡ some (record core_record { updated_at = 7 })
unfolding to_core from_core
adapter_get-adapter_set_example = adapter_get-adapter_set table-IsTable core_record loaded

make_key_injective_example : (make_key 1 23 ≡ make_key 12 3) ↔ (◌≡◌ {A = ℕ} 1 12 × ◌≡◌ {A = ℕ} 23 3)
make_key_injective_example = make_key_injective 1 23 12 3
