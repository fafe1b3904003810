-- ===== src/Control/Platforms.antt =====
-- The platforms: CreatePlatform, UpdatePlatform and DeletePlatform of platform.go, and
-- platform_control_repository.go, in internal/app/provider.
use pinai.Base.{ℕ, suc, Bool, List, [], ◌∷◌, ◌++◌, ◌==◌, if◌then◌else◌}
use pinai.Control.{
  Key, Model, Platform, returns, Run, pure, raise, ◌>>=◌, query, write, or_restore, within_tx,
  audited, some_row, succeed, resource_not_found, already_deleted, platform_create, platform_update,
  platform_delete,
}
use pinai.Control.Rows.{rows_where, change_rows, delete_rows, count_rows}
use pinai.Control.Endpoints.{platform_exists}
use pinai.Control.Endpoints.Batch.{get_platform_by_id}
use pinai.Control.Links.{
  append_api_key_models, clear_api_key_models, count_models_by_api_key, list_models_by_api_key,
}
use pinai.Control.Keys.{or_keep_text}

abbrev pub platform_has_id : ℕ → Platform → Bool
platform_has_id id p = p.id == id

unfoldable pub create_platform_row : Platform → Run Platform
create_platform_row p = write (λ t.
    let row : Platform = record p { id = t.next_platform } in
    (row, record t { platforms = t.platforms ++ row ∷ []; next_platform = suc t.next_platform }))

-- gorm updates the columns whose fields are not zero.
abbrev pub update_platform_row : Platform → Platform → Platform
update_platform_row updates p = record p {
  name = or_keep_text updates.name p.name;
  base_url = or_keep_text updates.base_url p.base_url;
}

unfoldable pub update_platform_by_id : ℕ → Platform → Run ℕ
unfolding change_rows count_rows
update_platform_by_id id updates = write (λ t. (
  count_rows (platform_has_id id) t.platforms,
  record t {
    platforms = change_rows (platform_has_id id) (update_platform_row updates) t.platforms;
  },
))

unfoldable pub list_api_keys_by_platform : ℕ → Run (List Key)
unfolding rows_where
list_api_keys_by_platform platform_id =
    query (λ t. returns (rows_where (λ (k : Key). k.platform_id == platform_id) t.keys))

unfoldable pub delete_models_by_platform : ℕ → Run ℕ
unfolding delete_rows count_rows
delete_models_by_platform platform_id = write (λ t. (
  count_rows (λ (m : Model). m.platform_id == platform_id) t.models,
  record t { models = delete_rows (λ (m : Model). m.platform_id == platform_id) t.models },
))

unfoldable pub delete_api_keys_by_platform : ℕ → Run ℕ
unfolding delete_rows count_rows
delete_api_keys_by_platform platform_id = write (λ t. (
  count_rows (λ (k : Key). k.platform_id == platform_id) t.keys,
  record t { keys = delete_rows (λ (k : Key). k.platform_id == platform_id) t.keys },
))

unfoldable pub delete_platform_by_id : ℕ → Run ℕ
unfolding delete_rows count_rows
delete_platform_by_id id = write (λ t. (
  count_rows (platform_has_id id) t.platforms,
  record t { platforms = delete_rows (platform_has_id id) t.platforms },
))

-- `CreatePlatform` of the service.
unfoldable pub create_platform : Platform → Run Platform
unfolding create_platform_row
create_platform p =
    audited platform_create 0 (within_tx (create_platform_row (record p { id = 0 }))) >>= λ row.
    succeed platform_create row.id row

-- `UpdatePlatform` of the service.
unfoldable pub update_platform : ℕ → Platform → Run Platform
unfolding update_platform_by_id get_platform_by_id
update_platform id updates =
    audited platform_update id
      (within_tx (update_platform_by_id id updates >>= some_row >>= λ u. get_platform_by_id id))
    >>= λ row. succeed platform_update id row

-- `apiKeyModelsBackup`.
pub record Backup : Type 0 where
  pub api_key_id : ℕ
  pub models : List Model

abbrev pub back_up_key : ℕ → ℕ → List Backup → Run (List Backup)
back_up_key id count backups =
    if count == 0
    then pure backups
    else (list_models_by_api_key id >>= λ models.
        pure (backups ++ record { api_key_id = id; models = models } ∷ []))

-- The loop that backs up the relations of each key.
unfoldable pub back_up_keys : List Key → List Backup → Run (List Backup)
unfolding count_models_by_api_key list_models_by_api_key
back_up_keys [] backups = pure backups
back_up_keys (k ∷ ks) backups = count_models_by_api_key k.id >>= λ count.
    back_up_key k.id count backups >>= λ backups'. back_up_keys ks backups'

abbrev pub clear_if_any : ℕ → List Model → Run (Unit {0})
clear_if_any id [] = pure tt
clear_if_any id (m ∷ ms) = clear_api_key_models id

unfoldable pub clear_backups : List Backup → Run (Unit {0})
unfolding clear_api_key_models
clear_backups [] = pure tt
clear_backups (b ∷ bs) = clear_if_any b.api_key_id b.models >>= λ u. clear_backups bs

-- The error of one restoration is only logged.
unfoldable pub restore_backups : List Backup → Run (Unit {0})
unfolding append_api_key_models
restore_backups [] s = (returns tt, s)
restore_backups (b ∷ bs) s = restore_backups bs (append_api_key_models b.api_key_id b.models s).1

-- The body of the transaction of the deletion.
unfoldable pub delete_all : ℕ → Run (Unit {0})
unfolding delete_models_by_platform delete_api_keys_by_platform delete_platform_by_id
delete_all id = delete_models_by_platform id >>= λ models.
    delete_api_keys_by_platform id >>= λ keys.
    delete_platform_by_id id >>= λ n. if n == 0 then raise already_deleted else pure tt

unfoldable pub delete_existing : ℕ → Run (Unit {0})
unfolding list_api_keys_by_platform back_up_keys clear_backups delete_all restore_backups
delete_existing id = audited platform_delete id (list_api_keys_by_platform id) >>= λ keys.
    audited platform_delete id (back_up_keys keys []) >>= λ backups.
    audited platform_delete id (clear_backups backups) >>= λ u.
    audited platform_delete id (or_restore (within_tx (delete_all id)) (restore_backups backups))
    >>= λ u. succeed platform_delete id u

-- `DeletePlatform` of the service; a platform that is not there is not logged.
unfoldable pub delete_platform : ℕ → Run (Unit {0})
unfolding platform_exists delete_existing
delete_platform id = audited platform_delete id (platform_exists id) >>= λ exists.
    if exists then delete_existing id else raise resource_not_found
