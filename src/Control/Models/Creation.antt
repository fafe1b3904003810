-- ===== src/Control/Models/Creation.antt =====
-- The relation between keys and models through the batch addition of models
-- (model_batch_add_app_service.go of internal/app/provider).
use pinai.Base.{ℕ, ◌≡◌, refl, Bool, true, false, List, [], ◌∷◌, Option, none, some, if◌then◌else◌}
use pinai.Control.{
  Key, Tables, Run, pure, raise, ◌>>=◌, no_items, invalid_argument, resource_not_found,
  resource_not_belong, model_batch_create,
}
use pinai.Control.Rows.{first_row, first_row-all}
use pinai.Control.Rules.{
  Ensures, audited_rule, bind_rule, call_rule, pure_rule, raise_rule, succeed_rule, weaken,
  within_tx_rule,
}
use pinai.Control.Endpoints.Uniqueness.{platform_exists_rule}
use pinai.Control.Links.Pairs.{IsRelated, key_platform}
use pinai.Control.Keys.{key_has_id}
use pinai.Control.Models.{ModelInput, create_model}
use pinai.Control.Models.Related.{AreKeysOf, created, list_keys_rule, match_keys_rule}
use pinai.Control.Models.Batch.{
  add_key_ids, batch_add_models, check_platform, collect_key_ids, create_models, map_keys,
}

pub check_platform_rule : {P : Tables → Type 0} (id : ℕ) → Ensures P (check_platform id) (λ u. P) P
check_platform_rule {P = P} id = bind_rule (platform_exists_rule id) found
  where
    found : (b : Bool) → Ensures {0} P (if b then pure tt else raise resource_not_found) (λ u. P) P
    found true = pure_rule tt (λ t h. h)
    found false = raise_rule resource_not_found (λ t h. h)

collect_rule :
    {P : Tables → Type 0} (ms : List ModelInput) (set : List ℕ)
    → Ensures P (collect_key_ids ms set) (λ ids. P) P
unfolding collect_key_ids
collect_rule [] set = pure_rule set (λ t h. h)
collect_rule {P = P} (m ∷ ms) set = go m.key_ids (λ s. collect_rule ms s)
  where
    go :
        (ids : List ℕ)
        → ((s : List ℕ) → Ensures P (collect_key_ids ms s) (λ ids. P) P)
        → Ensures {0} P
            (elim ids as (λ x. Run (List ℕ)) [
              | [] ↦ raise invalid_argument
              | id ∷ ids ↦ collect_key_ids ms (add_key_ids (id ∷ ids) set)
            ])
            (λ ids. P)
            P
    go [] rest = raise_rule invalid_argument (λ t h. h)
    go (id ∷ ids) rest = rest (add_key_ids (id ∷ ids) set)

abbrev WithKeys : ℕ → List Key → Tables → Type 0
WithKeys p valid t = IsRelated t × AreKeysOf p valid t

map_keys_rule :
    (p : ℕ) (ids : List ℕ) (valid : List Key)
    → Ensures
        (WithKeys p valid)
        (map_keys ids valid)
        (λ ks t. WithKeys p valid t × AreKeysOf p ks t)
        (λ t. Unit)
unfolding map_keys
map_keys_rule p [] valid = pure_rule [] (λ t h. (h, tt))
map_keys_rule p (id ∷ ids) valid =
    go (first_row (key_has_id id) valid) refl (map_keys_rule p ids valid)
  where
    go :
        (o : Option Key)
        → first_row (key_has_id id) valid ≡ o
        → Ensures
            (WithKeys p valid)
            (map_keys ids valid)
            (λ ks t. WithKeys p valid t × AreKeysOf p ks t)
            (λ t. Unit)
        → Ensures {0}
            (WithKeys p valid)
            (elim o as (λ x. Run (List Key)) [
              | none ↦ raise resource_not_belong
              | some k ↦ (map_keys ids valid >>= λ ks. pure (k ∷ ks))
            ])
            (λ ks t. WithKeys p valid t × AreKeysOf p ks t)
            (λ t. Unit)
    go none e rest = raise_rule resource_not_belong (λ t h. tt)
    go (some k) e rest = bind_rule rest (λ ks. pure_rule (k ∷ ks) (λ t (h, own). (
      h,
      (
        (first_row-all (λ k. key_platform k.id t.keys ≡ some p) (key_has_id id) valid k h.1 e).0,
        own,
      ),
    )))

create_rule :
    (p : ℕ) (m : ModelInput) (valid ks : List Key)
    → Ensures
        (λ t. WithKeys p valid t × AreKeysOf p ks t)
        (create_model p m ks)
        (λ r. WithKeys p valid)
        (λ t. Unit)
unfolding create_model
create_rule p m valid ks =
    call_rule _ (λ t h. tt) (λ t ((h, all), own). (created p m ks t h own, all))

create_models_rule :
    (p : ℕ) (ms : List ModelInput) (valid : List Key)
    → Ensures (WithKeys p valid) (create_models p ms valid) (λ rows. WithKeys p valid) (λ t. Unit)
unfolding create_models
create_models_rule p [] valid = pure_rule [] (λ t h. h)
create_models_rule p (m ∷ ms) valid =
    bind_rule (bind_rule (map_keys_rule p m.key_ids valid) (create_rule p m valid))
      (λ row. bind_rule (create_models_rule p ms valid) (λ rows. pure_rule (row ∷ rows) (λ t h. h)))

pub batch_add_models-IsRelated :
    (p : ℕ) (ms : List ModelInput)
    → Ensures IsRelated (batch_add_models p ms) (λ rows. IsRelated) IsRelated
unfolding batch_add_models
batch_add_models-IsRelated p [] = raise_rule no_items (λ t h. h)
batch_add_models-IsRelated p (m ∷ ms) = bind_rule (check_platform_rule p) (λ u.
    bind_rule (collect_rule (m ∷ ms) []) (λ ids.
      bind_rule (bind_rule (list_keys_rule p ids (λ t h. h)) (match_keys_rule p ids)) (λ valid.
        bind_rule
          (audited_rule model_batch_create p _ (
            within_tx_rule {Q = λ rows. IsRelated} (create_models p (m ∷ ms) valid) (λ t h. h.0)
              (weaken (λ t h. h) (λ rows t h. h.0) (λ t h. h)
                (create_models_rule p (m ∷ ms) valid))))
          (λ rows. succeed_rule model_batch_create p rows (λ t h. h)))))
