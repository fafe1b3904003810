-- ===== src/Control/Links.antt =====
-- The relation between keys and models, `api_key_models`: the association queries of
-- key_control_repository.go, model_control_repository.go and platform_control_repository.go of
-- internal/app/provider.
pub mod Pairs
use pinai.Base.{ℕ, Bool, true, false, ◌&&◌, ◌||◌, List, [], ◌∷◌, ◌++◌, ◌==◌, if◌then◌else◌, length}
use pinai.Control.{
  Key, Link, Model, Tables, Store, Run, Answer, returns, pure, query, write, is_refused, later,
}
use pinai.Control.Rows.{rows_where, delete_rows}

unfoldable pub linked : ℕ → ℕ → List Link → Bool
linked key_id model_id [] = false
linked key_id model_id (l ∷ ls) =
    (l.key_id == key_id && l.model_id == model_id) || linked key_id model_id ls

unfoldable pub models_of : ℕ → Tables → List Model
unfolding linked rows_where
models_of key_id t = rows_where (λ (m : Model). linked key_id m.id t.links) t.models

unfoldable pub keys_of : ℕ → Tables → List Key
unfolding linked rows_where
keys_of model_id t = rows_where (λ (k : Key). linked k.id model_id t.links) t.keys

-- A pair that stands there is left alone.
unfoldable pub add_link : ℕ → ℕ → List Link → List Link
unfolding linked
add_link key_id model_id ls =
    if linked key_id model_id ls
    then ls
    else ls ++ record { key_id = key_id; model_id = model_id } ∷ []

unfoldable pub add_models : ℕ → List Model → List Link → List Link
unfolding add_link
add_models key_id [] ls = ls
add_models key_id (m ∷ ms) ls = add_models key_id ms (add_link key_id m.id ls)

unfoldable pub add_keys : ℕ → List Key → List Link → List Link
unfolding add_link
add_keys model_id [] ls = ls
add_keys model_id (k ∷ ks) ls = add_keys model_id ks (add_link k.id model_id ls)

abbrev pub of_key : ℕ → Link → Bool
of_key key_id l = l.key_id == key_id

abbrev pub of_model : ℕ → Link → Bool
of_model model_id l = l.model_id == model_id

-- `ListModelsByAPIKey`.
unfoldable pub list_models_by_api_key : ℕ → Run (List Model)
unfolding models_of
list_models_by_api_key key_id = query (λ t. returns (models_of key_id t))

-- `CountModelsByAPIKey`: the association counts no row where the database refuses the call.
unfoldable pub count_models_by_api_key : ℕ → Run ℕ
unfolding models_of
count_models_by_api_key key_id s =
    if is_refused s.faults
    then (returns 0, record s { faults = later s.faults })
    else (returns (length (models_of key_id s.tables)), record s { faults = later s.faults })

-- `ClearAPIKeyModelRelations`.
unfoldable pub clear_api_key_models : ℕ → Run (Unit {0})
unfolding delete_rows
clear_api_key_models key_id =
    write (λ t. (tt, record t { links = delete_rows (of_key key_id) t.links }))

-- `AppendAPIKeyModels`.
unfoldable pub append_api_key_models : ℕ → List Model → Run (Unit {0})
unfolding add_models
append_api_key_models key_id [] = pure tt
append_api_key_models key_id (m ∷ ms) =
    write (λ t. (tt, record t { links = add_models key_id (m ∷ ms) t.links }))

-- `ListAPIKeysByModel`.
unfoldable pub list_api_keys_by_model : ℕ → Run (List Key)
unfolding keys_of
list_api_keys_by_model model_id = query (λ t. returns (keys_of model_id t))

-- `ClearModelAPIKeyRelations`.
unfoldable pub clear_model_api_keys : ℕ → Run (Unit {0})
unfolding delete_rows
clear_model_api_keys model_id =
    write (λ t. (tt, record t { links = delete_rows (of_model model_id) t.links }))

-- `AppendModelAPIKeys`.
unfoldable pub append_model_api_keys : ℕ → List Key → Run (Unit {0})
unfolding add_keys
append_model_api_keys model_id [] = pure tt
append_model_api_keys model_id (k ∷ ks) =
    write (λ t. (tt, record t { links = add_keys model_id (k ∷ ks) t.links }))

-- `ReplaceModelAPIKeys`.
unfoldable pub replace_model_api_keys : ℕ → List Key → Run (Unit {0})
unfolding add_keys delete_rows
replace_model_api_keys model_id [] = pure tt
replace_model_api_keys model_id (k ∷ ks) = write (λ t.
    (tt, record t { links = add_keys model_id (k ∷ ks) (delete_rows (of_model model_id) t.links) }))
