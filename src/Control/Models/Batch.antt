-- ===== src/Control/Models/Batch.antt =====
-- The batch operations on the models of a platform: model_batch_add_app_service.go,
-- model_batch_update_app_service.go and model_batch_delete_app_service.go of internal/app/provider.
use pinai.Base.{ℕ, List, [], ◌∷◌, ◌++◌, Option, none, some, ◌==◌, if◌then◌else◌, length}
use pinai.Task.{contains}
use pinai.Control.{
  Key, Model, returns, Run, pure, raise, ◌>>=◌, query, or_restore, within_tx, audited, succeed,
  resource_not_found, resource_not_belong, invalid_argument, no_items, model_batch_create,
  model_batch_update, model_batch_delete,
}
use pinai.Control.Rows.{first_row, rows_where}
use pinai.Control.Endpoints.{platform_exists}
use pinai.Control.Links.{append_model_api_keys, clear_model_api_keys, list_api_keys_by_model}
use pinai.Control.Keys.{delete_models_by_ids, is_among, key_has_id}
use pinai.Control.Models.{
  ModelInput, create_model, get_model_with_api_keys, given_keys, list_api_keys_by_platform_and_ids,
  match_keys, model_has_id, replace_and_update,
}

-- A platform that is there, or the error that it is not found.
abbrev pub check_platform : ℕ → Run (Unit {0})
check_platform id =
    platform_exists id >>= λ exists. if exists then pure tt else raise resource_not_found

-- The set of the ids of the keys of all models; a model without keys is refused.
abbrev pub add_key_ids : List ℕ → List ℕ → List ℕ
add_key_ids [] set = set
add_key_ids (id ∷ ids) set = add_key_ids ids (if contains id set then set else set ++ id ∷ [])

unfoldable pub collect_key_ids : List ModelInput → List ℕ → Run (List ℕ)
collect_key_ids [] set = pure set
collect_key_ids (m ∷ ms) set = elim m.key_ids [
  | [] ↦ raise invalid_argument
  | id ∷ ids ↦ collect_key_ids ms (add_key_ids (id ∷ ids) set)
]

unfoldable pub map_keys : List ℕ → List Key → Run (List Key)
unfolding first_row
map_keys [] valid = pure []
map_keys (id ∷ ids) valid =
    let rest = map_keys ids valid in
    elim (first_row (key_has_id id) valid) [
      | none ↦ raise resource_not_belong
      | some k ↦ (rest >>= λ ks. pure (k ∷ ks))
    ]

-- The body of the transaction of the batch addition.
unfoldable pub create_models : ℕ → List ModelInput → List Key → Run (List Model)
unfolding map_keys create_model
create_models platform_id [] valid = pure []
create_models platform_id (m ∷ ms) valid =
    let rest = create_models platform_id ms valid in
    map_keys m.key_ids valid >>= create_model platform_id m >>= λ row.
    rest >>= λ rows. pure (row ∷ rows)

-- `batchAddModelsToPlatformApp`; only the transaction is logged.
unfoldable pub batch_add_models : ℕ → List ModelInput → Run (List Model)
unfolding platform_exists collect_key_ids list_api_keys_by_platform_and_ids create_models
batch_add_models platform_id [] = raise no_items
batch_add_models platform_id (m ∷ ms) = check_platform platform_id >>= λ u.
    collect_key_ids (m ∷ ms) [] >>= λ ids.
    list_api_keys_by_platform_and_ids platform_id ids >>= match_keys ids >>= λ valid.
    audited model_batch_create platform_id (within_tx (create_models platform_id (m ∷ ms) valid))
    >>= λ rows. succeed model_batch_create platform_id rows

-- `ListModelsByIDs`.
unfoldable pub list_models_by_ids : List ℕ → Run (List Model)
unfolding rows_where
list_models_by_ids [] = pure []
list_models_by_ids (id ∷ ids) = query (λ t. returns (rows_where (is_among (id ∷ ids)) t.models))

-- As many models as ids were found.
abbrev pub match_models : List ℕ → List Model → Run (List Model)
match_models ids models =
    if length models == length ids then pure models else raise resource_not_found

-- Every model is the platform's.
unfoldable pub check_belong : ℕ → List Model → Run (Unit {0})
check_belong platform_id [] = pure tt
check_belong platform_id (m ∷ ms) =
    if m.platform_id == platform_id then check_belong platform_id ms else raise resource_not_belong

abbrev pub input_ids : List ModelInput → List ℕ
input_ids [] = []
input_ids (m ∷ ms) = m.id ∷ input_ids ms

abbrev pub or_missing : Option Model → Run Model
or_missing none = raise resource_not_found
or_missing (some m) = pure m

abbrev pub update_one : ModelInput → Model → Run (Model × List Key)
update_one m old = given_keys old.platform_id m.key_ids >>= replace_and_update old m >>= λ u.
    get_model_with_api_keys m.id

-- The body of the transaction of the batch update.
unfoldable pub update_models : List ModelInput → List Model → Run (List (Model × List Key))
unfolding first_row given_keys replace_and_update get_model_with_api_keys
update_models [] models = pure []
update_models (m ∷ ms) models =
    let rest = update_models ms models in
    or_missing (first_row (model_has_id m.id) models) >>= update_one m >>= λ row.
    rest >>= λ rows. pure (row ∷ rows)

-- `batchUpdateModelsApp`; only the transaction is logged.
unfoldable pub batch_update_models : ℕ → List ModelInput → Run (List (Model × List Key))
unfolding platform_exists list_models_by_ids check_belong update_models
batch_update_models platform_id [] = raise no_items
batch_update_models platform_id (m ∷ ms) = check_platform platform_id >>= λ u.
    list_models_by_ids (input_ids (m ∷ ms)) >>= match_models (input_ids (m ∷ ms)) >>= λ models.
    check_belong platform_id models >>= λ u.
    audited model_batch_update platform_id (within_tx (update_models (m ∷ ms) models)) >>= λ rows.
    succeed model_batch_update platform_id rows

-- `modelAPIKeysBackup`.
pub record KeysBackup : Type 0 where
  pub model_id : ℕ
  pub api_keys : List Key

abbrev pub back_up : ℕ → List Key → List KeysBackup → List KeysBackup
back_up id [] backups = backups
back_up id (k ∷ ks) backups = record { model_id = id; api_keys = k ∷ ks } ∷ backups

-- The loop that checks the platform of each model and backs up its relations.
unfoldable pub back_up_models : ℕ → List Model → Run (List KeysBackup)
unfolding list_api_keys_by_model
back_up_models platform_id [] = pure []
back_up_models platform_id (m ∷ ms) =
    let rest = back_up_models platform_id ms in
    if m.platform_id == platform_id
    then (list_api_keys_by_model m.id >>= λ keys.
        rest >>= λ backups. pure (back_up m.id keys backups))
    else raise resource_not_belong

unfoldable pub clear_models : List Model → Run (Unit {0})
unfolding clear_model_api_keys
clear_models [] = pure tt
clear_models (m ∷ ms) = clear_model_api_keys m.id >>= λ u. clear_models ms

-- The error of one restoration is only logged.
unfoldable pub restore_models : List KeysBackup → Run (Unit {0})
unfolding append_model_api_keys
restore_models [] s = (returns tt, s)
restore_models (b ∷ bs) s = restore_models bs (append_model_api_keys b.model_id b.api_keys s).1

unfoldable pub delete_cleared : List ℕ → List KeysBackup → Run ℕ
unfolding delete_models_by_ids restore_models
delete_cleared ids backups =
    or_restore (within_tx (delete_models_by_ids ids)) (restore_models backups)

-- `batchDeleteModelsApp`.
unfoldable pub batch_delete_models : ℕ → List ℕ → Run ℕ
unfolding platform_exists list_models_by_ids back_up_models clear_models delete_cleared
batch_delete_models platform_id [] = raise no_items
batch_delete_models platform_id (id ∷ ids) =
    audited model_batch_delete platform_id (check_platform platform_id) >>= λ u.
    audited model_batch_delete platform_id
      (list_models_by_ids (id ∷ ids) >>= match_models (id ∷ ids))
    >>= λ models.
        audited model_batch_delete platform_id (back_up_models platform_id models) >>= λ backups.
        audited model_batch_delete platform_id (clear_models models) >>= λ u.
        audited model_batch_delete platform_id (delete_cleared (id ∷ ids) backups) >>= λ n.
        succeed model_batch_delete platform_id n
