-- ===== src/Control/Models/Changes.antt =====
-- The relation between keys and models through the update and the deletion of a model
-- (model_update_app_service.go and model_delete_app_service.go of internal/app/provider).
use pinai.Base.{
  ℕ, ◌≡◌, refl, ◌∙◌, Bool, true, false, List, [], ◌∷◌, Option, none, some, if◌then◌else◌,
}
use pinai.Control.{
  Key, Link, Model, Tables, Answer, returns, pure, ◌>>=◌, or_not_found, model_update,
}
use pinai.Control.Rows.{AllRows, all_map, all-delete, change_rows, delete_rows, keyed-change}
use pinai.Control.Rules.{
  Ends, Ensures, audited_rule, bind_rule, call_rule, pure_rule, succeed_rule, weaken,
  within_tx_rule,
}
use pinai.Control.Links.{keys_of, of_model, replace_model_api_keys}
use pinai.Control.Links.Pairs.{
  IsPair, IsRelated, add_keys-pairs, model_id_of, model_platform_of, platform_at-change,
}
use pinai.Control.Models.{
  ModelInput, get_model_with_api_keys, given_keys, is_change, model_has_id, replace_and_update,
  update_model, update_model_by_id, update_model_fields, update_model_row,
}
use pinai.Control.Models.Related.{AreKeysOf, IsRow, get_model_rule, list_keys_rule, match_keys_rule}

-- Relations that are removed.
pub fewer :
    (q : Link → Bool) (t : Tables)
    → IsRelated t
    → IsRelated (record t { links = delete_rows q t.links })
fewer q t h = record {
  keys_keyed = h.keys_keyed;
  models_keyed = h.models_keyed;
  pairs = all-delete (λ l. IsPair t.keys t.models l.key_id l.model_id) q t.links h.pairs;
}

-- What is known of the tables stays known when the given keys are read.
pub given_keys_rule :
    {P : Tables → Type 0} (p : ℕ) (ids : List ℕ)
    → ((t : Tables) → P t → IsRelated t)
    → Ensures P (given_keys p ids) (λ ks t. P t × AreKeysOf p ks t) P
unfolding given_keys
given_keys_rule p [] r = pure_rule [] (λ t h. (h, tt))
given_keys_rule p (id ∷ ids) r =
    bind_rule (list_keys_rule p (id ∷ ids) r) (match_keys_rule p (id ∷ ids))

-- The models are there, with their platforms.
abbrev pub AreRows : List Model → Tables → Type 0
AreRows ms t = AllRows (λ m. IsRow m t) ms

abbrev pub WithRows : List Model → Tables → Type 0
WithRows ms t = IsRelated t × AreRows ms t

replace_rule :
    (ms : List Model) (old : Model) (ks : List Key)
    → Ensures
        (λ t. (WithRows ms t × IsRow old t) × AreKeysOf old.platform_id ks t)
        (replace_model_api_keys old.id ks)
        (λ u. WithRows ms)
        (WithRows ms)
unfolding replace_model_api_keys
replace_rule ms old [] = pure_rule tt (λ t h. h.0.0)
replace_rule ms old (k ∷ ks) =
    call_rule _ (λ t h. h.0.0)
      (λ t (((h, rows), row), own).
        let less = fewer (of_model old.id) t h in
        (
          record {
            keys_keyed = h.keys_keyed;
            models_keyed = h.models_keyed;
            pairs =
                add_keys-pairs t.keys t.models old.id (k ∷ ks)
                  (delete_rows (of_model old.id) t.links)
                  (all_map (k ∷ ks) (λ x at. (old.platform_id, at, row)) own) less.pairs;
          },
          rows,
        ))

changed :
    (q : Model → Bool) (f : Model → Model) (t : Tables)
    → ((m : Model) → (f m).id ≡ m.id)
    → ((m : Model) → (f m).platform_id ≡ m.platform_id)
    → IsRelated t
    → IsRelated (record t { models = change_rows q f t.models })
changed q f t ids own h = record {
  keys_keyed = h.keys_keyed;
  models_keyed = keyed-change model_id_of t.next_model q f t.models ids h.models_keyed;
  pairs =
      all_map t.links
        (λ l (p, k, m). (
          p,
          k,
          platform_at-change model_id_of model_platform_of l.model_id q f t.models ids own ∙ m,
        ))
        h.pairs;
}

changed_rows :
    (ms : List Model) (q : Model → Bool) (f : Model → Model) (t : Tables)
    → ((m : Model) → (f m).id ≡ m.id)
    → ((m : Model) → (f m).platform_id ≡ m.platform_id)
    → WithRows ms t
    → WithRows ms (record t { models = change_rows q f t.models })
changed_rows ms q f t ids own (h, rows) = (
  changed q f t ids own h,
  all_map ms
      (λ m at. platform_at-change model_id_of model_platform_of m.id q f t.models ids own ∙ at)
      rows,
)

update_by_id_rule :
    (ms : List Model) (id : ℕ) (with_name with_alias : Bool) (m : ModelInput)
    → Ensures
        (WithRows ms)
        (update_model_by_id id with_name with_alias m)
        (λ n. WithRows ms)
        (WithRows ms)
unfolding update_model_by_id
update_by_id_rule ms id with_name with_alias m =
    call_rule _ (λ t h. h)
      (λ t h.
        changed_rows ms (model_has_id id) (update_model_row with_name with_alias m) t (λ x. refl)
          (λ x. refl) h)

update_fields_rule :
    (ms : List Model) (old : Model) (m : ModelInput)
    → Ensures (WithRows ms) (update_model_fields old m) (λ u. WithRows ms) (WithRows ms)
unfolding update_model_fields
update_fields_rule ms old m = go (is_change m.name old.name) (is_change m.alias old.alias)
  where
    go :
        (n a : Bool)
        → Ensures {0}
            (WithRows ms)
            (if n
              then (update_model_by_id old.id true a m >>= λ n. pure tt)
              else if a
              then (update_model_by_id old.id false true m >>= λ n. pure tt)
              else pure tt)
            (λ u. WithRows ms)
            (WithRows ms)
    go true a = bind_rule (update_by_id_rule ms old.id true a m) (λ n. pure_rule tt (λ t h. h))
    go false true =
        bind_rule (update_by_id_rule ms old.id false true m) (λ n. pure_rule tt (λ t h. h))
    go false false = pure_rule tt (λ t h. h)

pub replace_and_update_rule :
    (ms : List Model) (old : Model) (m : ModelInput) (ks : List Key)
    → Ensures
        (λ t. (WithRows ms t × IsRow old t) × AreKeysOf old.platform_id ks t)
        (replace_and_update old m ks)
        (λ u. WithRows ms)
        (WithRows ms)
unfolding replace_and_update
replace_and_update_rule ms old m ks =
    bind_rule (replace_rule ms old ks) (λ u. update_fields_rule ms old m)

pub get_model_with_api_keys_rule :
    {P : Tables → Type 0} (id : ℕ) → Ensures P (get_model_with_api_keys id) (λ r. P) P
unfolding get_model_with_api_keys
get_model_with_api_keys_rule {P = P} id = call_rule _ (λ t h. h) (λ t h. found t h _)
  where
    found :
        (t : Tables)
        → P t
        → (o : Option Model)
        → Ends
            (λ r. P)
            P
            (elim o as (λ x. Answer (Model × List Key)) [
              | none ↦ or_not_found none
              | some m ↦ returns (m, keys_of id t)
            ])
            t
    found t h none = h
    found t h (some m) = h

pub update_model-IsRelated :
    (id : ℕ) (m : ModelInput) → Ensures IsRelated (update_model id m) (λ r. IsRelated) IsRelated
unfolding update_model
update_model-IsRelated id m = bind_rule (audited_rule model_update id _ (get_model_rule id)) (λ old.
    bind_rule
      (audited_rule model_update id _ (
        weaken (λ t h. h) (λ ks t h. h) (λ t h. h.0)
          (given_keys_rule {P = λ t. IsRelated t × IsRow old t} old.platform_id m.key_ids
            (λ t h. h.0))))
      (λ ks.
        bind_rule
          (audited_rule model_update id _ (
            within_tx_rule (replace_and_update old m ks) (λ t h. h.0.0)
              (weaken (λ t (h, own). (((h.0, tt), h.1), own)) (λ u t h. h.0) (λ t h. tt)
                (replace_and_update_rule [] old m ks))))
          (λ u.
            bind_rule (audited_rule model_update id _ (get_model_with_api_keys_rule id))
              (λ r. succeed_rule model_update id r (λ t h. h)))))
