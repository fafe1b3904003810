-- ===== src/Control/Tests.antt =====
-- Runs of the control services, and the theorems at concrete stores.
mod Grouping
use pinai.Base.{
  ℕ, ◌≡◌, ◌≢◌, refl, Bool, true, false, ◌&&◌, not, ◌++◌, List, [], ◌∷◌, Option, none, some, arith,
  map,
}
use pinai.Task.{contains}
use pinai.Base.Text.{Text, codes, text_eq_eq}
use pinai.Control.{
  Endpoint, Key, Link, Model, Tables, Store, Answer, returns, fails, default_conflict, database,
}
use pinai.Control.Rows.{count_rows, delete_rows, first_row}
use pinai.Control.Endpoints.{delete_endpoint}
use pinai.Control.Endpoints.Defaults.{IsSound}
use pinai.Control.Endpoints.Moving.{HasDefault}
use pinai.Control.Endpoints.Signature.{
  EndpointUpdateItem, headers_value, one_header, two_headers, value_signature,
  value_signature_collides,
}
use pinai.Control.Endpoints.Batch.{batch_update_endpoints}
use pinai.Control.Endpoints.Requests.{
  EndpointRequest, add, batch_add, delete, delete_endpoint-HasDefault, handle, handle_all,
  handle-unchanged, handle_all-IsSound, update,
}
use pinai.Control.Links.{add_models, linked, models_of}
use pinai.Control.Links.Pairs.{IsRelated, platform_at}
use pinai.Control.Keys.{Associations, SavesNone, add_key, delete_key, is_among, update_key}
use pinai.Control.Keys.Orphans.{HaveKeys}
use pinai.Control.Keys.Deletion.{delete_key-HaveKeys}
use pinai.Control.Keys.Restoring.{at_commit, delete_key_restores, start}
use pinai.Control.Models.Batch.{batch_delete_models}
use pinai.Control.Models.Erasing.{batch_delete_models_lem}
use pinai.Control.Platforms.{delete_platform}
use pinai.Control.Relations.{
  Change, adds_key, adds_model, deletes_key, deletes_model, deletes_models, make_changes,
  make_changes-IsRelated, updates_models, updates_key,
}

abbrev pub endpoint : ℕ → Bool → Endpoint
endpoint id is_default = record {
  id = id;
  platform_id = 1;
  endpoint_type = codes "openai";
  endpoint_variant = [];
  path = codes "/v1";
  custom_headers = none;
  is_default = is_default;
}

abbrev key : ℕ → Key
key id = record { id = id; platform_id = 1; value = codes "sk" }

abbrev model : ℕ → Model
model id = record { id = id; platform_id = 1; name = codes "m"; alias = [] }

abbrev link : ℕ → ℕ → Link
link k m = record { key_id = k; model_id = m }

abbrev pub tables : Tables
tables = record {
  platforms = record { id = 1; name = codes "p"; base_url = [] } ∷ [];
  endpoints = endpoint 1 true ∷ endpoint 2 false ∷ endpoint 3 false ∷ [];
  keys = key 1 ∷ key 2 ∷ [];
  models = model 1 ∷ model 2 ∷ [];
  links = link 1 1 ∷ link 1 2 ∷ link 2 2 ∷ [];
  next_platform = 2;
  next_endpoint = 4;
  next_key = 3;
  next_model = 3;
}

abbrev pub store : List Bool → Store
store faults = record { tables = tables; faults = faults; events = [] }

pub tables-IsSound : IsSound tables
unfolding count_rows
tables-IsSound = record {
  keyed = (
    omega arith,
    ((λ e. omega (arith, e)), ((λ e. omega (arith, e)), tt)),
    (omega arith, ((λ e. omega (arith, e)), tt), (omega arith, tt, tt)),
  );
  one = λ p. ground arith;
}

tables-IsRelated : IsRelated tables
unfolding platform_at
tables-IsRelated = record {
  keys_keyed = (omega arith, ((λ e. omega (arith, e)), tt), (omega arith, tt, tt));
  models_keyed = (omega arith, ((λ e. omega (arith, e)), tt), (omega arith, tt, tt));
  pairs = ((1, refl, refl), ((1, refl, refl), ((1, refl, refl), tt)));
}

abbrev requests : List EndpointRequest
requests =
    add 1 (endpoint 0 false)
    ∷ update 2 (endpoint 0 true)
    ∷ delete 1
    ∷ batch_add 1 (endpoint 0 true ∷ [])
    ∷ []

handle_all-IsSound_example : IsSound (handle_all requests (store (false ∷ true ∷ []))).tables
handle_all-IsSound_example = handle_all-IsSound requests (store (false ∷ true ∷ [])) tables-IsSound

-- A second default endpoint is refused.
second_default : (handle (update 2 (endpoint 0 true)) (store [])).0 ≡ fails default_conflict
unfolding handle
second_default = refl

handle-unchanged_example : (handle (update 2 (endpoint 0 true)) (store [])).1.tables ≡ tables
handle-unchanged_example =
    handle-unchanged (update 2 (endpoint 0 true)) (store []) default_conflict second_default

default_deleted : (delete_endpoint 1 (store [])).0 ≡ returns tt
unfolding delete_endpoint
default_deleted = refl

delete_endpoint-HasDefault_example : HasDefault 1 (delete_endpoint 1 (store [])).1.tables
unfolding first_row
delete_endpoint-HasDefault_example =
    delete_endpoint-HasDefault 1 (endpoint 1 true) (store []) tables-IsSound refl refl
      default_deleted

value_signature_collides_example :
    (value_signature (headers_value (one_header (codes "a") (codes "1") (codes "b") (codes "2")))
      ≡ value_signature
          (headers_value (two_headers (codes "a") (codes "1") (codes "b") (codes "2"))))
    × (one_header (codes "a") (codes "1") (codes "b") (codes "2")
        ≢ two_headers (codes "a") (codes "1") (codes "b") (codes "2"))
value_signature_collides_example =
    value_signature_collides (codes "a") (codes "1") (codes "b") (codes "2") refl

key_deleted : (delete_key 1 (store [])).0 ≡ returns tt
unfolding delete_key
key_deleted = refl

delete_key-HaveKeys_example : HaveKeys 1 (delete_key 1 (store [])).1.tables
unfolding first_row
delete_key-HaveKeys_example =
    delete_key-HaveKeys 1 (key 1) (store []) tables-IsRelated refl key_deleted

delete_key_restores_example :
    ((delete_key 1 (start at_commit tables [])).0 ≡ fails database)
    × ((delete_key 1 (start at_commit tables [])).1.tables.keys ≡ tables.keys)
    × ((delete_key 1 (start at_commit tables [])).1.tables.models ≡ tables.models)
    × ((i j : ℕ)
        → linked i j (delete_key 1 (start at_commit tables [])).1.tables.links
          ≡ linked i j tables.links)
unfolding first_row models_of
delete_key_restores_example =
    delete_key_restores at_commit 1 tables [] (key 1) (model 1) (model 2 ∷ []) tables-IsRelated refl
      refl

models_deleted : (batch_delete_models 1 (2 ∷ []) (store [])).0 ≡ returns 1
unfolding batch_delete_models
models_deleted = refl

batch_delete_models_lem_example :
    ((batch_delete_models 1 (2 ∷ []) (store [])).1.tables.models
      ≡ delete_rows (is_among (2 ∷ [])) tables.models)
    × ((batch_delete_models 1 (2 ∷ []) (store [])).1.tables.keys ≡ tables.keys)
    × ((k m : ℕ)
        → linked k m (batch_delete_models 1 (2 ∷ []) (store [])).1.tables.links
          ≡ (linked k m tables.links && not (contains m (2 ∷ []))))
batch_delete_models_lem_example =
    batch_delete_models_lem 1 (2 ∷ []) (store []) 1 tables-IsRelated models_deleted

-- The models of a new key that are there are related to it.
abbrev gorm : Associations
gorm = record {
  Body = Model;
  save = λ id models t. record t { links = add_models id models t.links };
  update = λ id models t. t;
}

gorm-SavesNone : SavesNone gorm
unfolding add_models
gorm-SavesNone = record { save_none = λ id t. refl; update_none = λ id t. refl }

abbrev changes : List (Change gorm)
changes =
    adds_key 1 (key 0) []
    ∷ updates_key 1 (record { id = 0; platform_id = 0; value = codes "v" }) []
    ∷ adds_model 1 (record { id = 0; name = codes "n"; alias = []; key_ids = 1 ∷ 2 ∷ [] })
    ∷ updates_models 1 (record { id = 1; name = codes "m"; alias = []; key_ids = 2 ∷ [] } ∷ [])
    ∷ deletes_models 1 (2 ∷ [])
    ∷ deletes_key 1
    ∷ deletes_model 2
    ∷ []

make_changes-IsRelated_example :
    IsRelated (make_changes gorm changes (store (false ∷ true ∷ []))).tables
make_changes-IsRelated_example =
    make_changes-IsRelated gorm changes (store (false ∷ true ∷ [])) gorm-SavesNone
      (refl, ((refl, refl, refl), (tt, (tt, (tt, (tt, (tt, tt))))))) tables-IsRelated

-- A deletion of the platform stops at the second key, whose relations the database refuses to
-- clear: the relations of the first key are gone.
abbrev partly_cleared : Answer (Unit {0}) × Store
partly_cleared =
    delete_platform 1 (store (false ∷ false ∷ false ∷ false ∷ false ∷ false ∷ false ∷ true ∷ []))

partly_cleared_run :
    (partly_cleared.0 ≡ fails database)
    × (partly_cleared.1.tables.keys ≡ tables.keys)
    × (partly_cleared.1.tables.links ≡ link 2 2 ∷ [])
unfolding delete_platform
partly_cleared_run = (refl, refl, refl)

-- A refused count is taken for zero: the platform goes, and the relations of its key stay.
dangling_run :
    ((delete_platform 1 (store (false ∷ false ∷ true ∷ []))).0 ≡ returns tt)
    × ((delete_platform 1 (store (false ∷ false ∷ true ∷ []))).1.tables.keys ≡ [])
    × ((delete_platform 1 (store (false ∷ false ∷ true ∷ []))).1.tables.links
        ≡ link 1 1 ∷ link 1 2 ∷ [])
    × ((delete_platform 1 (store (false ∷ false ∷ true ∷ []))).1.tables.endpoints
        ≡ tables.endpoints)
unfolding delete_platform
dangling_run = (refl, refl, refl, refl)

-- An update moves a key to a platform that is not there, and leaves its relations.
moved_run :
    (update_key gorm 1 (record { id = 0; platform_id = 9; value = [] }) [] (store [])).1.tables.keys
    ≡ record (key 1) { platform_id = 9 } ∷ key 2 ∷ []
unfolding update_key
moved_run = refl

-- A new key that comes with a model of another platform is related to it.
abbrev two_platforms : Tables
two_platforms = record tables {
  platforms =
      record { id = 1; name = codes "p"; base_url = [] }
      ∷ record { id = 2; name = codes "q"; base_url = [] }
      ∷ [];
}

foreign_model_run :
    (add_key gorm 2
      (key 0)
      (model 1 ∷ [])
      (record (store []) { tables = two_platforms })).1.tables.links
    ≡ tables.links ++ link 3 1 ∷ []
unfolding add_key add_models
foreign_model_run = refl

-- Two updates of one batch with one signature: the second endpoint receives the headers of the first.
abbrev headers_item : ℕ → List (Text × Text) → EndpointUpdateItem
headers_item id h = record {
  id = id;
  endpoint_type = none;
  endpoint_variant = none;
  path = none;
  custom_headers = some h;
  is_default = none;
}

abbrev headers_of : Answer (List Endpoint) → List (Option (List (Text × Text)))
headers_of (returns es) = map (λ (e : Endpoint). e.custom_headers) es
headers_of (fails e) = []

mixed_up_run :
    headers_of
      (batch_update_endpoints 1
        (headers_item 2 (one_header (codes "a") (codes "1") (codes "b") (codes "2"))
          ∷ headers_item 3 (two_headers (codes "a") (codes "1") (codes "b") (codes "2"))
          ∷ [])
        (store [])).0
    ≡ some (one_header (codes "a") (codes "1") (codes "b") (codes "2"))
      ∷ some (one_header (codes "a") (codes "1") (codes "b") (codes "2"))
      ∷ []
unfolding batch_update_endpoints
mixed_up_run = refl
