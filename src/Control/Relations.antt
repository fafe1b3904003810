-- ===== src/Control/Relations.antt =====
-- The operations on keys and models of internal/app/provider as the requests of one service, and the
-- relation between the two (key_add_app_service.go, key_update_app_service.go, key_delete_app_service.go, model.go,
-- model_update_app_service.go, model_delete_app_service.go, model_batch_add_app_service.go,
-- model_batch_update_app_service.go, model_batch_delete_app_service.go).
use pinai.Base.{ℕ, ◌≡◌, List, [], ◌∷◌}
use pinai.Control.{Key, Store, Run, pure, ◌>>=◌}
use pinai.Control.Rows.{AllRows}
use pinai.Control.Rules.{Ensures, at_end, bind_rule, pure_rule}
use pinai.Control.Links.Pairs.{IsRelated}
use pinai.Control.Keys.{Associations, SavesNone, add_key, delete_key, update_key}
use pinai.Control.Keys.Changes.{add_key-IsRelated, update_key-IsRelated}
use pinai.Control.Keys.Deletion.{delete_key-IsRelated}
use pinai.Control.Models.{ModelInput, add_model, delete_model, update_model}
use pinai.Control.Models.Related.{add_model-IsRelated}
use pinai.Control.Models.Changes.{update_model-IsRelated}
use pinai.Control.Models.Deletion.{delete_model-IsRelated}
use pinai.Control.Models.Batch.{batch_add_models, batch_delete_models, batch_update_models}
use pinai.Control.Models.Creation.{batch_add_models-IsRelated}
use pinai.Control.Models.Removal.{batch_delete_models-IsRelated}
use pinai.Control.Models.Updates.{batch_update_models-IsRelated}

module _ (gorm : Associations) where
  pub data Change : Type 0 where
    adds_key : ℕ → Key → List gorm.Body → Change
    updates_key : ℕ → Key → List gorm.Body → Change
    deletes_key : ℕ → Change
    adds_model : ℕ → ModelInput → Change
    updates_model : ℕ → ModelInput → Change
    deletes_model : ℕ → Change
    adds_models : ℕ → List ModelInput → Change
    updates_models : ℕ → List ModelInput → Change
    deletes_models : ℕ → List ℕ → Change

  unfoldable pub make_change : Change → Run (Unit {0})
  unfolding add_key update_key delete_key add_model update_model delete_model batch_add_models
      batch_update_models batch_delete_models
  make_change (adds_key p k models) = add_key gorm p k models >>= λ r. pure tt
  make_change (updates_key id k models) = update_key gorm id k models >>= λ r. pure tt
  make_change (deletes_key id) = delete_key id
  make_change (adds_model p m) = add_model p m >>= λ r. pure tt
  make_change (updates_model id m) = update_model id m >>= λ r. pure tt
  make_change (deletes_model id) = delete_model id
  make_change (adds_models p ms) = batch_add_models p ms >>= λ r. pure tt
  make_change (updates_models p ms) = batch_update_models p ms >>= λ r. pure tt
  make_change (deletes_models p ids) = batch_delete_models p ids >>= λ n. pure tt

  unfoldable pub make_changes : List Change → Store → Store
  unfolding make_change
  make_changes [] s = s
  make_changes (c ∷ cs) s = make_changes cs (make_change c s).1

  -- A key comes without models, and the update of a key names neither an id nor a platform.
  abbrev pub IsPlain : Change → Type 0
  IsPlain (adds_key p k models) = models ≡ []
  IsPlain (updates_key id k models) = (k.id ≡ 0) × (k.platform_id ≡ 0) × (models ≡ [])
  IsPlain (deletes_key id) = Unit
  IsPlain (adds_model p m) = Unit
  IsPlain (updates_model id m) = Unit
  IsPlain (deletes_model id) = Unit
  IsPlain (adds_models p ms) = Unit
  IsPlain (updates_models p ms) = Unit
  IsPlain (deletes_models p ids) = Unit

  make_change_rule :
      (c : Change)
      → SavesNone gorm
      → IsPlain c
      → Ensures IsRelated (make_change c) (λ u. IsRelated) IsRelated
  unfolding make_change
  make_change_rule (adds_key p k models) none_saved plain =
      rw plain (bind_rule (add_key-IsRelated gorm p k none_saved) (λ r. pure_rule tt (λ t h. h)))
  make_change_rule (updates_key id k models) none_saved (given, own, plain) =
      rw plain
        (bind_rule (update_key-IsRelated gorm id k none_saved own) (λ r. pure_rule tt (λ t h. h)))
  make_change_rule (deletes_key id) none_saved plain = delete_key-IsRelated id
  make_change_rule (adds_model p m) none_saved plain =
      bind_rule (add_model-IsRelated p m) (λ r. pure_rule tt (λ t h. h))
  make_change_rule (updates_model id m) none_saved plain =
      bind_rule (update_model-IsRelated id m) (λ r. pure_rule tt (λ t h. h))
  make_change_rule (deletes_model id) none_saved plain = delete_model-IsRelated id
  make_change_rule (adds_models p ms) none_saved plain =
      bind_rule (batch_add_models-IsRelated p ms) (λ r. pure_rule tt (λ t h. h))
  make_change_rule (updates_models p ms) none_saved plain =
      bind_rule (batch_update_models-IsRelated p ms) (λ r. pure_rule tt (λ t h. h))
  make_change_rule (deletes_models p ids) none_saved plain =
      bind_rule (batch_delete_models-IsRelated p ids) (λ n. pure_rule tt (λ t h. h))

  -- When gorm writes only the row of a key that comes without models, then however keys and models
  -- are added, updated and deleted, the models also in batches, and whatever calls the database
  -- refuses, each relation joins a key and a model that are there, of one platform, provided that
  -- the keys of the requests come without models and no update of a key names an id or a platform.
  pub make_changes-IsRelated :
      (cs : List Change) (s : Store)
      → SavesNone gorm
      → AllRows IsPlain cs
      → IsRelated s.tables
      → IsRelated (make_changes cs s).tables
  unfolding make_changes
  make_changes-IsRelated [] s none_saved plain h = h
  make_changes-IsRelated (c ∷ cs) s none_saved (p, plain) h =
      make_changes-IsRelated cs (make_change c s).1 none_saved plain
        (at_end (make_change_rule c none_saved p) s h)
