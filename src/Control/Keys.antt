-- ===== src/Control/Keys.antt =====
-- The keys of a platform: key_add_app_service.go, key_update_app_service.go,
-- key_delete_app_service.go, key_control_repository.go, and removeOrphanedModels of utils.go in
-- internal/app/provider.
pub mod Related
pub mod Orphans
pub mod Deletion
pub mod Changes
pub mod Relinking
pub mod Restoring
use pinai.Base.{◌≡◌, ℕ, suc, ◌+◌, Bool, true, false, ◌&&◌, List, [], ◌∷◌, ◌++◌, ◌==◌, if◌then◌else◌}
use pinai.Base.Text.{Text, is_empty}
use pinai.Task.{contains}
use pinai.Control.{
  Key, Model, Tables, Answer, returns, Run, pure, raise, ◌>>=◌, query, write, or_not_found,
  or_restore, within_tx, audited, some_row, succeed, resource_not_found, key_create, key_update,
  key_delete,
}
use pinai.Control.Rows.{first_row, rows_where, change_rows, delete_rows, count_rows}
use pinai.Control.Endpoints.{platform_exists}
use pinai.Control.Links.{
  append_api_key_models, clear_api_key_models, keys_of, list_models_by_api_key,
}

abbrev pub key_has_id : ℕ → Key → Bool
key_has_id id k = k.id == id

-- What gorm does with the `Models` of a key: `Body` is a model as the request gives it, `save` what
-- gorm writes for a list of them together with the new row of the id, `update` what it writes
-- together with an update of the row.
pub record Associations : Type 1 where
  pub Body : Type 0
  pub save : ℕ → List Body → Tables → Tables
  pub update : ℕ → List Body → Tables → Tables

-- Without models, gorm writes the row only.
pub record SavesNone (gorm : Associations) : Type 0 where
  pub save_none : (id : ℕ) (t : Tables) → gorm.save id [] t ≡ t
  pub update_none : (id : ℕ) (t : Tables) → gorm.update id [] t ≡ t

-- `CreateAPIKey`, which stands under a savepoint: row, models and relations are made, or none.
unfoldable pub create_api_key : (gorm : Associations) → Key → List gorm.Body → Run Key
create_api_key gorm k models = write (λ t.
    let row : Key = record k { id = t.next_key } in
    (
      row,
      gorm.save t.next_key models
          (record t { keys = t.keys ++ row ∷ []; next_key = suc t.next_key }),
    ))

unfoldable pub get_api_key : ℕ → Run Key
unfolding first_row
get_api_key id = query (λ t. or_not_found (first_row (key_has_id id) t.keys))

abbrev pub or_keep_text : Text → Text → Text
or_keep_text given old = if is_empty given then old else given

abbrev pub or_keep_id : ℕ → ℕ → ℕ
or_keep_id given old = if given == 0 then old else given

-- gorm updates the columns whose fields are not zero.
abbrev pub update_key_row : Key → Key → Key
update_key_row updates k = record k {
  platform_id = or_keep_id updates.platform_id k.platform_id;
  value = or_keep_text updates.value k.value;
}

-- `UpdateAPIKey`.
unfoldable pub update_api_key : (gorm : Associations) → ℕ → Key → List gorm.Body → Run ℕ
unfolding change_rows count_rows
update_api_key gorm id updates models = write (λ t. (
  count_rows (key_has_id id) t.keys,
  gorm.update id models
      (record t { keys = change_rows (key_has_id id) (update_key_row updates) t.keys }),
))

unfoldable pub delete_api_key_by_id : ℕ → Run ℕ
unfolding delete_rows count_rows
delete_api_key_by_id id = write (λ t.
    (count_rows (key_has_id id) t.keys, record t { keys = delete_rows (key_has_id id) t.keys }))

-- `addKeyToPlatformApp`.
unfoldable pub add_key : (gorm : Associations) → ℕ → Key → List gorm.Body → Run Key
unfolding platform_exists create_api_key
add_key gorm platform_id k models = audited key_create 0 (platform_exists platform_id) >>= λ exists.
    audited key_create 0 (
      if exists
      then within_tx (create_api_key gorm (record k { id = 0; platform_id = platform_id }) models)
      else raise resource_not_found)
    >>= λ row. succeed key_create row.id row

-- `updateKeyApp`.
unfoldable pub update_key : (gorm : Associations) → ℕ → Key → List gorm.Body → Run Key
unfolding get_api_key update_api_key
update_key gorm id updates models = audited key_update id (get_api_key id) >>= λ old.
    audited key_update id (within_tx (update_api_key gorm id updates models >>= some_row)) >>= λ u.
    audited key_update id (get_api_key id) >>= λ updated. succeed key_update id updated

-- A model of the platform without a key.
abbrev pub is_orphan : ℕ → Tables → Model → Bool
is_orphan platform_id t m =
    m.platform_id == platform_id && (elim (keys_of m.id t) [ [] ↦ true | k ∷ ks ↦ false ])

abbrev pub model_ids : List Model → List ℕ
model_ids [] = []
model_ids (m ∷ ms) = m.id ∷ model_ids ms

unfoldable pub find_orphans : ℕ → Run (List Model)
unfolding rows_where keys_of
find_orphans platform_id = query (λ t. returns (rows_where (is_orphan platform_id t) t.models))

abbrev pub is_among : List ℕ → Model → Bool
is_among ids m = contains m.id ids

-- `DeleteModelsByIDs`.
unfoldable pub delete_models_by_ids : List ℕ → Run ℕ
unfolding delete_rows count_rows
delete_models_by_ids [] = pure 0
delete_models_by_ids (id ∷ ids) = write (λ t. (
  count_rows (is_among (id ∷ ids)) t.models,
  record t { models = delete_rows (is_among (id ∷ ids)) t.models },
))

-- `removeOrphanedModels`.
unfoldable pub remove_orphaned_models : ℕ → Run ℕ
unfolding find_orphans delete_models_by_ids
remove_orphaned_models platform_id =
    find_orphans platform_id >>= λ orphans. delete_models_by_ids (model_ids orphans)

-- The relations are cleared when there are any.
unfoldable pub clear_backed_up : ℕ → List Model → Run (Unit {0})
unfolding clear_api_key_models
clear_backed_up id [] = pure tt
clear_backed_up id (m ∷ ms) = clear_api_key_models id

unfoldable pub delete_or_restore : ℕ → List Model → Run (Unit {0})
unfolding delete_api_key_by_id append_api_key_models
delete_or_restore id backup =
    or_restore (within_tx (delete_api_key_by_id id >>= some_row)) (append_api_key_models id backup)

-- The deletion of the key that was read, from its last stage on.
abbrev pub end_deletion : ℕ → Key → Unit {0} → Run (Unit {0})
end_deletion id key u =
    audited key_delete id (remove_orphaned_models key.platform_id) >>= λ n. succeed key_delete id u

abbrev pub delete_cleared_key : ℕ → Key → List Model → Unit {0} → Run (Unit {0})
delete_cleared_key id key backup u =
    audited key_delete id (delete_or_restore id backup) >>= end_deletion id key

abbrev pub delete_backed_up : ℕ → Key → List Model → Run (Unit {0})
delete_backed_up id key backup =
    audited key_delete id (clear_backed_up id backup) >>= delete_cleared_key id key backup

unfoldable pub delete_found : ℕ → Key → Run (Unit {0})
unfolding list_models_by_api_key clear_backed_up delete_or_restore remove_orphaned_models
delete_found id key = audited key_delete id (list_models_by_api_key id) >>= delete_backed_up id key

-- `deleteKeyApp`.
unfoldable pub delete_key : ℕ → Run (Unit {0})
unfolding get_api_key delete_found
delete_key id = audited key_delete id (get_api_key id) >>= delete_found id
