-- ===== src/Control/Models/Updates.antt =====
-- The relation between keys and models through the batch update of models
-- (model_batch_update_app_service.go of internal/app/provider).
use pinai.Base.{ℕ, ◌≡◌, refl, inl, inr, List, [], ◌∷◌, Option, none, some, ◌==◌, Bool-cases, length}
use pinai.Control.{
  Model, Tables, no_items, resource_not_found, resource_not_belong, model_batch_update,
}
use pinai.Control.Rows.{all-rows_where, first_row, first_row-all}
use pinai.Control.Rules.{
  Ensures, audited_rule, bind_rule, call_rule, pure_rule, raise_rule, succeed_rule, weaken,
  within_tx_rule,
}
use pinai.Control.Links.Pairs.{IsRelated, keyed-platform_at, model_id_of, model_platform_of}
use pinai.Control.Keys.{is_among}
use pinai.Control.Models.{ModelInput, model_has_id}
use pinai.Control.Models.Related.{IsRow}
use pinai.Control.Models.Changes.{
  WithRows, get_model_with_api_keys_rule, given_keys_rule, replace_and_update_rule,
}
use pinai.Control.Models.Batch.{
  batch_update_models, check_belong, input_ids, list_models_by_ids, match_models, or_missing,
  update_models, update_one,
}
use pinai.Control.Models.Creation.{check_platform_rule}

pub list_models_rule :
    (ids : List ℕ) → Ensures IsRelated (list_models_by_ids ids) (λ ms. WithRows ms) IsRelated
unfolding list_models_by_ids
list_models_rule [] = pure_rule [] (λ t h. (h, tt))
list_models_rule (id ∷ ids) =
    call_rule _ (λ t h. h)
      (λ t h. (
        h,
        all-rows_where (λ m. IsRow m t) (is_among (id ∷ ids)) t.models
            (keyed-platform_at model_id_of model_platform_of t.next_model t.models h.models_keyed),
      ))

match_models_rule :
    (ids : List ℕ) (ms : List Model)
    → Ensures (WithRows ms) (match_models ids ms) (λ ms. WithRows ms) IsRelated
match_models_rule ids ms = elim (Bool-cases (length ms == length ids)) [
  | inl e ↦ rw e (pure_rule ms (λ t h. h))
  | inr e ↦ rw e (raise_rule resource_not_found (λ t h. h.0))
]

check_belong_rule :
    {P F : Tables → Type 0} (p : ℕ) (ms : List Model)
    → ((t : Tables) → P t → F t)
    → Ensures P (check_belong p ms) (λ u. P) F
unfolding check_belong
check_belong_rule p [] f = pure_rule tt (λ t h. h)
check_belong_rule p (m ∷ ms) f = elim (Bool-cases (m.platform_id == p)) [
  | inl e ↦ rw e (check_belong_rule p ms f)
  | inr e ↦ rw e (raise_rule resource_not_belong f)
]

found_rule :
    (id : ℕ) (ms : List Model)
    → Ensures
        (WithRows ms)
        (or_missing (first_row (model_has_id id) ms))
        (λ old t. WithRows ms t × IsRow old t)
        (WithRows ms)
found_rule id ms = go (first_row (model_has_id id) ms) refl
  where
    go :
        (o : Option Model)
        → first_row (model_has_id id) ms ≡ o
        → Ensures {0}
            (WithRows ms)
            (or_missing o)
            (λ old t. WithRows ms t × IsRow old t)
            (WithRows ms)
    go none e = raise_rule resource_not_found (λ t h. h)
    go (some old) e =
        pure_rule old
          (λ t h. (h, (first_row-all (λ m. IsRow m t) (model_has_id id) ms old h.1 e).0))

update_one_rule :
    (ms : List Model) (m : ModelInput) (old : Model)
    → Ensures (λ t. WithRows ms t × IsRow old t) (update_one m old) (λ r. WithRows ms) (WithRows ms)
update_one_rule ms m old =
    bind_rule
      (bind_rule
        (weaken (λ t h. h) (λ ks t h. h) (λ t h. h.0)
          (given_keys_rule {P = λ t. WithRows ms t × IsRow old t} old.platform_id m.key_ids
            (λ t h. h.0.0)))
        (replace_and_update_rule ms old m))
      (λ u. get_model_with_api_keys_rule m.id)

update_models_rule :
    (is : List ModelInput) (ms : List Model)
    → Ensures (WithRows ms) (update_models is ms) (λ rows. WithRows ms) (WithRows ms)
unfolding update_models
update_models_rule [] ms = pure_rule [] (λ t h. h)
update_models_rule (m ∷ is) ms =
    bind_rule (bind_rule (found_rule m.id ms) (update_one_rule ms m))
      (λ row. bind_rule (update_models_rule is ms) (λ rows. pure_rule (row ∷ rows) (λ t h. h)))

pub batch_update_models-IsRelated :
    (p : ℕ) (is : List ModelInput)
    → Ensures IsRelated (batch_update_models p is) (λ rows. IsRelated) IsRelated
unfolding batch_update_models
batch_update_models-IsRelated p [] = raise_rule no_items (λ t h. h)
batch_update_models-IsRelated p (m ∷ is) = bind_rule (check_platform_rule p) (λ u.
    bind_rule
      (bind_rule (list_models_rule (input_ids (m ∷ is))) (match_models_rule (input_ids (m ∷ is))))
      (λ ms. bind_rule (check_belong_rule p ms (λ t h. h.0)) (λ u.
        bind_rule
          (audited_rule model_batch_update p _ (
            within_tx_rule {Q = λ rows. IsRelated} (update_models (m ∷ is) ms) (λ t h. h.0)
              (weaken (λ t h. h) (λ rows t h. h.0) (λ t h. tt) (update_models_rule (m ∷ is) ms))))
          (λ rows. succeed_rule model_batch_update p rows (λ t h. h)))))
