-- ===== src/Control/Models/Removal.antt =====
-- The relation between keys and models through the batch deletion of models
-- (model_batch_delete_app_service.go of internal/app/provider), which clears the relations call by
-- call and restores them when the deletion fails.
use pinai.Base.{ℕ, ◌≡◌, refl, sym, inl, inr, Bool, false, List, [], ◌∷◌, ◌==◌, Bool-cases, length}
use pinai.Control.{
  Key, Link, Model, Tables, no_items, resource_not_found, resource_not_belong, model_batch_delete,
}
use pinai.Control.Rows.{AllRows, all_map, all-delete, delete_rows, rows_where, rows_where-AllRows}
use pinai.Control.Rules.{
  Ensures, at_end, audited_rule, bind_rule, call_rule, or_restore_rule, pure_rule, raise_rule,
  succeed_rule, weaken, within_tx_rule,
}
use pinai.Control.Links.{
  append_model_api_keys, clear_model_api_keys, keys_of, linked, list_api_keys_by_model, of_model,
}
use pinai.Control.Links.Pairs.{IsPair, IsRelated, add_keys-pairs, linked-IsPair}
use pinai.Control.Keys.{delete_models_by_ids, is_among}
use pinai.Control.Models.Changes.{fewer}
use pinai.Control.Models.Deletion.{IsFree, deleted_links-IsFree}
use pinai.Control.Models.Unrelated.{deleted_models, taken}
use pinai.Control.Models.Batch.{
  KeysBackup, back_up, back_up_models, batch_delete_models, clear_models, delete_cleared,
  list_models_by_ids, match_models, restore_models,
}
use pinai.Control.Models.Creation.{check_platform_rule}

-- The models are those of the ids.
abbrev Listed : List ℕ → List Model → Tables → Type 0
Listed ids ms t = IsRelated t × (ms ≡ rows_where (is_among ids) t.models)

-- Each backup can be restored.
abbrev AreBackups : List KeysBackup → Tables → Type 0
AreBackups bs t = AllRows (λ b. AllRows (λ k. IsPair t.keys t.models k.id b.model_id) b.api_keys) bs

list_rule :
    (id : ℕ) (ids : List ℕ)
    → Ensures IsRelated (list_models_by_ids (id ∷ ids)) (λ ms. Listed (id ∷ ids) ms) IsRelated
unfolding list_models_by_ids
list_rule id ids = call_rule _ (λ t h. h) (λ t h. (h, refl))

match_rule :
    (ids js : List ℕ) (ms : List Model)
    → Ensures (Listed ids ms) (match_models js ms) (λ ms. Listed ids ms) IsRelated
match_rule ids js ms = elim (Bool-cases (length ms == length js)) [
  | inl e ↦ rw e (pure_rule ms (λ t h. h))
  | inr e ↦ rw e (raise_rule resource_not_found (λ t h. h.0))
]

read_keys_rule :
    {P : Tables → Type 0} (id : ℕ)
    → ((t : Tables) → P t → IsRelated t)
    → Ensures P
        (list_api_keys_by_model id)
        (λ ks t. P t × AllRows (λ k. IsPair t.keys t.models k.id id) ks)
        IsRelated
unfolding list_api_keys_by_model keys_of
read_keys_rule id r = call_rule _ r (λ t h. (
  h,
  all_map (keys_of id t) (λ k. linked-IsPair t.keys t.models k.id id t.links (r t h).pairs)
      (rows_where-AllRows (λ k. linked k.id id t.links) t.keys),
))

back_up-AreBackups :
    (id : ℕ) (ks : List Key) (bs : List KeysBackup) (t : Tables)
    → AllRows (λ k. IsPair t.keys t.models k.id id) ks
    → AreBackups bs t
    → AreBackups (back_up id ks bs) t
back_up-AreBackups id [] bs t h g = g
back_up-AreBackups id (k ∷ ks) bs t h g = (h, g)

back_up_models_rule :
    {P : Tables → Type 0} (p : ℕ) (ms : List Model)
    → ((t : Tables) → P t → IsRelated t)
    → Ensures P (back_up_models p ms) (λ bs t. P t × AreBackups bs t) IsRelated
unfolding back_up_models
back_up_models_rule p [] r = pure_rule [] (λ t h. (h, tt))
back_up_models_rule {P = P} p (m ∷ ms) r = elim (Bool-cases (m.platform_id == p)) [
  | inl e ↦ rw e (
      bind_rule (read_keys_rule m.id r) (λ ks.
        bind_rule
          (back_up_models_rule {P = λ t. P t × AllRows (λ k. IsPair t.keys t.models k.id m.id) ks} p
            ms (λ t h. r t h.0))
          (λ bs.
            pure_rule (back_up m.id ks bs)
              (λ t ((h, own), g). (h, back_up-AreBackups m.id ks bs t own g)))))
  | inr e ↦ rw e (raise_rule resource_not_belong r)
]

-- What survives the removal of relations is known when those of the models are cleared.
clear_models_rule :
    {P : Tables → Type 0} (ms : List Model)
    → ((q : Link → Bool) (t : Tables) → P t → P (record t { links = delete_rows q t.links }))
    → ((t : Tables) → P t → IsRelated t)
    → Ensures P (clear_models ms) (λ u t. P t × AllRows (λ m. IsFree m.id t.links) ms) IsRelated
unfolding clear_models clear_model_api_keys
clear_models_rule [] keep r = pure_rule tt (λ t h. (h, tt))
clear_models_rule {P = P} (m ∷ ms) keep r =
    bind_rule
      (call_rule {Q = λ u t. P t × IsFree m.id t.links} _ r
        (λ t h. (keep (of_model m.id) t h, deleted_links-IsFree m.id t.links)))
      (λ u.
        weaken (λ t h. h) (λ u t ((h, f), fs). (h, (f, fs))) (λ t h. h)
          (clear_models_rule {P = λ t. P t × IsFree m.id t.links} ms
            (λ q t (h, f). (keep q t h, all-delete (λ l. of_model m.id l ≡ false) q t.links f))
            (λ t h. r t h.0)))

append_rule :
    (b : KeysBackup) (bs : List KeysBackup)
    → Ensures
        (λ t. IsRelated t × AreBackups (b ∷ bs) t)
        (append_model_api_keys b.model_id b.api_keys)
        (λ u t. IsRelated t × AreBackups bs t)
        (λ t. IsRelated t × AreBackups bs t)
unfolding append_model_api_keys
append_rule b bs = go b.api_keys
  where
    go :
        (ks : List Key)
        → Ensures {0}
            (λ t.
              IsRelated t
              × (AllRows (λ k. IsPair t.keys t.models k.id b.model_id) ks × AreBackups bs t))
            (append_model_api_keys b.model_id ks)
            (λ u t. IsRelated t × AreBackups bs t)
            (λ t. IsRelated t × AreBackups bs t)
    go [] = pure_rule tt (λ t (h, (own, g)). (h, g))
    go (k ∷ ks) =
        call_rule _ (λ t (h, (own, g)). (h, g))
          (λ t (h, (own, g)). (
            record {
              keys_keyed = h.keys_keyed;
              models_keyed = h.models_keyed;
              pairs = add_keys-pairs t.keys t.models b.model_id (k ∷ ks) t.links own h.pairs;
            },
            g,
          ))

restore_models_rule :
    (bs : List KeysBackup)
    → Ensures (λ t. IsRelated t × AreBackups bs t) (restore_models bs) (λ u. IsRelated) IsRelated
unfolding restore_models
restore_models_rule [] = record { run = λ s p. p.0 }
restore_models_rule (b ∷ bs) = record {
  run = λ s p.
      (restore_models_rule bs).run (append_model_api_keys b.model_id b.api_keys s).1
        (at_end (append_rule b bs) s p);
}

delete_cleared_rule :
    (id : ℕ) (ids : List ℕ) (ms : List Model) (bs : List KeysBackup)
    → Ensures
        (λ t. (Listed (id ∷ ids) ms t × AreBackups bs t) × AllRows (λ m. IsFree m.id t.links) ms)
        (delete_cleared (id ∷ ids) bs)
        (λ n. IsRelated)
        IsRelated
unfolding delete_cleared delete_models_by_ids
delete_cleared_rule id ids ms bs =
    or_restore_rule _ (restore_models bs)
      (within_tx_rule _ (λ t ((h, g), free). (h.0, g))
        (call_rule _ (λ t h. tt)
          (λ t (((h, listed), g), free). deleted_models (id ∷ ids) t h (
            taken (λ m. IsFree m.id t.links) (is_among (id ∷ ids)) t.models
              (rw (sym listed) free)))))
      (restore_models_rule bs)

pub batch_delete_models-IsRelated :
    (p : ℕ) (ids : List ℕ)
    → Ensures IsRelated (batch_delete_models p ids) (λ n. IsRelated) IsRelated
unfolding batch_delete_models
batch_delete_models-IsRelated p [] = raise_rule no_items (λ t h. h)
batch_delete_models-IsRelated p (id ∷ ids) =
    bind_rule (audited_rule model_batch_delete p _ (check_platform_rule p)) (λ u.
      bind_rule
        (audited_rule model_batch_delete p _
          (bind_rule (list_rule id ids) (match_rule (id ∷ ids) (id ∷ ids))))
        (λ ms.
          bind_rule
            (audited_rule model_batch_delete p _
              (back_up_models_rule {P = Listed (id ∷ ids) ms} p ms (λ t h. h.0)))
            (λ bs.
              bind_rule
                (audited_rule model_batch_delete p _ (
                  clear_models_rule {P = λ t. Listed (id ∷ ids) ms t × AreBackups bs t} ms
                    (λ q t (h, g). ((fewer q t h.0, h.1), g)) (λ t h. h.0.0)))
                (λ u.
                  bind_rule (audited_rule model_batch_delete p _ (delete_cleared_rule id ids ms bs))
                    (λ n. succeed_rule model_batch_delete p n (λ t h. h))))))
