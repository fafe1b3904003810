-- ===== src/Control/Models/Deletion.antt =====
-- The relation between keys and models through the deletion of a model
-- (model_delete_app_service.go of internal/app/provider).
use pinai.Base.{ℕ, ◌≡◌, refl, sym, ◌∙◌, inl, inr, true, false, List, [], ◌∷◌, arith, Bool-cases}
use pinai.Control.{Key, Link, Tables, model_delete}
use pinai.Control.Rows.{AllRows, delete_rows, keyed-delete}
use pinai.Control.Rules.{
  Ensures, audited_rule, bind_rule, call_rule, pure_rule, some_row_rule, succeed_rule, weaken,
  within_tx_rule,
}
use pinai.Control.Links.{clear_model_api_keys, keys_of, linked, list_api_keys_by_model, of_model}
use pinai.Control.Links.Pairs.{
  ArePairs, IsRelated, key_id_of, key_platform_of, model_id_of, model_platform_of,
  platform_at-delete, platform_at-rows_where,
}
use pinai.Control.Models.{
  clear_and_delete, clear_keys, delete_model, delete_model_by_id, model_has_id,
}
use pinai.Control.Models.Related.{get_model_rule}
use pinai.Control.Models.Changes.{fewer}

-- No relation of a model.
abbrev pub IsFree : ℕ → List Link → Type 0
IsFree id ls = AllRows (λ l. of_model id l ≡ false) ls

pub deleted_links-IsFree : (id : ℕ) (ls : List Link) → IsFree id (delete_rows (of_model id) ls)
unfolding delete_rows
deleted_links-IsFree id [] = tt
deleted_links-IsFree id (l ∷ ls) = elim (Bool-cases (of_model id l)) [
  | inl e ↦ rw e (deleted_links-IsFree id ls)
  | inr e ↦ rw e (e, deleted_links-IsFree id ls)
]

-- A model without keys has no relation.
unrelated : (id : ℕ) (t : Tables) → IsRelated t → keys_of id t ≡ [] → IsFree id t.links
unfolding keys_of linked
unrelated id t h none_left = go t.links h.pairs (λ k e. e)
  where
    go :
        (ls : List Link)
        → ArePairs t.keys t.models ls
        → ((k : ℕ) → linked k id ls ≡ true → linked k id t.links ≡ true)
        → IsFree id ls
    go [] h sub = tt
    go (l ∷ ls) ((p, k, m), hs) sub = (
      elim (Bool-cases (of_model id l)) [
        | inl c ↦ absurd (
            platform_at-rows_where key_id_of key_platform_of (λ x. linked x.id id t.links) l.key_id
              p t.keys (λ x same. sub x.id (ground (arith, c, same))) k none_left)
        | inr c ↦ c
      ],
      go ls hs (λ k' e. sub k' (ground (arith, e))),
    )

clear_keys_rule :
    (id : ℕ) (ks : List Key)
    → Ensures
        (λ t. IsRelated t × (ks ≡ keys_of id t))
        (clear_keys id ks)
        (λ u t. IsRelated t × IsFree id t.links)
        IsRelated
unfolding clear_keys clear_model_api_keys
clear_keys_rule id [] = pure_rule tt (λ t (h, e). (h, unrelated id t h (sym e)))
clear_keys_rule id (k ∷ ks) =
    call_rule _ (λ t h. h.0)
      (λ t (h, e). (fewer (of_model id) t h, deleted_links-IsFree id t.links))

-- The model may go when it has no relation.
deleted :
    (id : ℕ) (t : Tables)
    → IsRelated t
    → IsFree id t.links
    → IsRelated (record t { models = delete_rows (model_has_id id) t.models })
deleted id t h free = record {
  keys_keyed = h.keys_keyed;
  models_keyed = keyed-delete model_id_of t.next_model (model_has_id id) t.models h.models_keyed;
  pairs = go t.links h.pairs free;
}
  where
    go :
        (ls : List Link)
        → ArePairs t.keys t.models ls
        → IsFree id ls
        → ArePairs t.keys (delete_rows (model_has_id id) t.models) ls
    go [] h c = tt
    go (l ∷ ls) ((p, k, m), hs) (c, cs) = (
      (
        p,
        k,
        platform_at-delete model_id_of model_platform_of l.model_id (model_has_id id) t.models
              (λ r e. ground (arith, e, c))
            ∙ m,
      ),
      go ls hs cs,
    )

delete_by_id_rule :
    (id : ℕ)
    → Ensures
        (λ t. IsRelated t × IsFree id t.links)
        (delete_model_by_id id)
        (λ n. IsRelated)
        (λ t. Unit)
unfolding delete_model_by_id
delete_by_id_rule id = call_rule _ (λ t h. tt) (λ t (h, free). deleted id t h free)

list_rule :
    (id : ℕ)
    → Ensures IsRelated
        (list_api_keys_by_model id)
        (λ ks t. IsRelated t × (ks ≡ keys_of id t))
        IsRelated
unfolding list_api_keys_by_model
list_rule id = call_rule _ (λ t h. h) (λ t h. (h, refl))

clear_and_delete_rule :
    (id : ℕ) → Ensures IsRelated (clear_and_delete id) (λ u. IsRelated) (λ t. Unit)
unfolding clear_and_delete
clear_and_delete_rule id =
    bind_rule
      (weaken (λ t h. h) (λ u t h. h) (λ t h. tt) (bind_rule (list_rule id) (clear_keys_rule id)))
      (λ u. bind_rule (delete_by_id_rule id) some_row_rule)

pub delete_model-IsRelated :
    (id : ℕ) → Ensures IsRelated (delete_model id) (λ u. IsRelated) IsRelated
unfolding delete_model
delete_model-IsRelated id =
    bind_rule
      (audited_rule model_delete id _
        (weaken (λ t h. h) (λ m t h. h.0) (λ t h. h) (get_model_rule id)))
      (λ m.
        bind_rule
          (audited_rule model_delete id _
            (within_tx_rule (clear_and_delete id) (λ t h. h) (clear_and_delete_rule id)))
          (λ u. succeed_rule model_delete id u (λ t h. h)))
