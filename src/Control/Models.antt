-- ===== src/Control/Models.antt =====
-- The models of a platform: AddModelToPlatform of model.go, model_update_app_service.go,
-- model_delete_app_service.go, validateAndGetAPIKeys of utils.go and model_control_repository.go in
-- internal/app/provider.
pub mod Batch
pub mod Related
pub mod Changes
pub mod Deletion
pub mod Creation
pub mod Updates
pub mod Unrelated
pub mod Removal
pub mod Erasing
use pinai.Base.{
  ℕ, suc, ◌+◌, Bool, true, false, ◌&&◌, not, List, [], ◌∷◌, ◌++◌, none, some, ◌==◌, if◌then◌else◌,
  length,
}
use pinai.Base.Text.{Text, is_empty, text_eq}
use pinai.Task.{contains}
use pinai.Control.{
  Key, Model, Tables, Answer, returns, Run, pure, raise, ◌>>=◌, query, write, or_not_found,
  within_tx, audited, some_row, succeed, resource_not_belong, invalid_argument, model_update,
  model_delete,
}
use pinai.Control.Rows.{first_row, rows_where, change_rows, delete_rows, count_rows}
use pinai.Control.Endpoints.Batch.{validate_platform_exists}
use pinai.Control.Links.{
  add_keys, clear_model_api_keys, keys_of, list_api_keys_by_model, replace_model_api_keys,
}

-- What a request says of a model: `types.Model` with the ids of its keys.
pub record ModelInput : Type 0 where
  pub id : ℕ
  pub name : Text
  pub alias : Text
  pub key_ids : List ℕ

abbrev pub model_has_id : ℕ → Model → Bool
model_has_id id m = m.id == id

abbrev pub key_is_listed : List ℕ → ℕ → Key → Bool
key_is_listed ids platform_id k = contains k.id ids && (k.platform_id == platform_id)

-- `ListAPIKeysByPlatformAndIDs`.
unfoldable pub list_api_keys_by_platform_and_ids : ℕ → List ℕ → Run (List Key)
unfolding rows_where
list_api_keys_by_platform_and_ids platform_id [] = pure []
list_api_keys_by_platform_and_ids platform_id (id ∷ ids) =
    query (λ t. returns (rows_where (key_is_listed (id ∷ ids) platform_id) t.keys))

-- Fewer keys than ids were found.
abbrev pub match_keys : List ℕ → List Key → Run (List Key)
match_keys ids keys = if length keys == length ids then pure keys else raise resource_not_belong

-- `validateAndGetAPIKeys`.
unfoldable pub validate_and_get_api_keys : ℕ → List ℕ → Run (List Key)
unfolding list_api_keys_by_platform_and_ids
validate_and_get_api_keys platform_id [] = raise invalid_argument
validate_and_get_api_keys platform_id (id ∷ ids) =
    list_api_keys_by_platform_and_ids platform_id (id ∷ ids) >>= match_keys (id ∷ ids)

-- `CreateModel`: gorm writes the row and its relations in one transaction.
unfoldable pub create_model : ℕ → ModelInput → List Key → Run Model
unfolding add_keys
create_model platform_id m keys = write (λ t.
    let row : Model = record {
      id = t.next_model;
      platform_id = platform_id;
      name = m.name;
      alias = m.alias;
    } in
    (
      row,
      record t {
        models = t.models ++ row ∷ [];
        links = add_keys t.next_model keys t.links;
        next_model = suc t.next_model;
      },
    ))

-- `AddModelToPlatform`.
unfoldable pub add_model : ℕ → ModelInput → Run Model
unfolding validate_platform_exists validate_and_get_api_keys create_model
add_model platform_id m = validate_platform_exists platform_id >>= λ u.
    validate_and_get_api_keys platform_id m.key_ids >>= create_model platform_id m

unfoldable pub get_model : ℕ → Run Model
unfolding first_row
get_model id = query (λ t. or_not_found (first_row (model_has_id id) t.models))

-- `map[string]interface{}` with `name` and `alias`: the texts that are given and differ.
abbrev pub is_change : Text → Text → Bool
is_change given old = not (is_empty given) && not (text_eq given old)

abbrev pub update_model_row : Bool → Bool → ModelInput → Model → Model
update_model_row with_name with_alias m row = record row {
  name = if with_name then m.name else row.name;
  alias = if with_alias then m.alias else row.alias;
}

unfoldable pub update_model_by_id : ℕ → Bool → Bool → ModelInput → Run ℕ
unfolding change_rows count_rows
update_model_by_id id with_name with_alias m = write (λ t. (
  count_rows (model_has_id id) t.models,
  record t {
    models = change_rows (model_has_id id) (update_model_row with_name with_alias m) t.models;
  },
))

-- `UpdateModelFields`, which no field means no call; an update of no row is only logged.
unfoldable pub update_model_fields : Model → ModelInput → Run (Unit {0})
unfolding update_model_by_id
update_model_fields old m =
    let with_name = is_change m.name old.name in
    let with_alias = is_change m.alias old.alias in
    if with_name
    then (update_model_by_id old.id true with_alias m >>= λ n. pure tt)
    else if with_alias
    then (update_model_by_id old.id false true m >>= λ n. pure tt)
    else pure tt

-- The keys that the request gives, none where it gives none.
unfoldable pub given_keys : ℕ → List ℕ → Run (List Key)
unfolding list_api_keys_by_platform_and_ids
given_keys platform_id [] = pure []
given_keys platform_id (id ∷ ids) =
    list_api_keys_by_platform_and_ids platform_id (id ∷ ids) >>= match_keys (id ∷ ids)

unfoldable pub replace_and_update : Model → ModelInput → List Key → Run (Unit {0})
unfolding replace_model_api_keys update_model_fields
replace_and_update old m keys =
    replace_model_api_keys old.id keys >>= λ u. update_model_fields old m

-- `GetModelWithAPIKeys`.
unfoldable pub get_model_with_api_keys : ℕ → Run (Model × List Key)
unfolding first_row keys_of
get_model_with_api_keys id = query (λ t. elim (first_row (model_has_id id) t.models) [
  | none ↦ or_not_found none
  | some m ↦ returns (m, keys_of id t)
])

-- `updateModelApp`.
unfoldable pub update_model : ℕ → ModelInput → Run (Model × List Key)
unfolding get_model given_keys replace_and_update get_model_with_api_keys
update_model id m = audited model_update id (get_model id) >>= λ old.
    audited model_update id (given_keys old.platform_id m.key_ids) >>= λ keys.
    audited model_update id (within_tx (replace_and_update old m keys)) >>= λ u.
    audited model_update id (get_model_with_api_keys id) >>= λ updated.
    succeed model_update id updated

unfoldable pub delete_model_by_id : ℕ → Run ℕ
unfolding delete_rows count_rows
delete_model_by_id id = write (λ t. (
  count_rows (model_has_id id) t.models,
  record t { models = delete_rows (model_has_id id) t.models },
))

unfoldable pub clear_keys : ℕ → List Key → Run (Unit {0})
unfolding clear_model_api_keys
clear_keys id [] = pure tt
clear_keys id (k ∷ ks) = clear_model_api_keys id

-- The body of the transaction of the deletion.
unfoldable pub clear_and_delete : ℕ → Run (Unit {0})
unfolding list_api_keys_by_model clear_keys delete_model_by_id
clear_and_delete id =
    list_api_keys_by_model id >>= clear_keys id >>= λ u. delete_model_by_id id >>= some_row

-- `deleteModelApp`.
unfoldable pub delete_model : ℕ → Run (Unit {0})
unfolding get_model clear_and_delete
delete_model id = audited model_delete id (get_model id) >>= λ m.
    audited model_delete id (within_tx (clear_and_delete id)) >>= λ u. succeed model_delete id u
