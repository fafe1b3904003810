-- ===== src/Control/Keys/Deletion.antt =====
-- The deletion of a key as a whole (key_delete_app_service.go of internal/app/provider).
use pinai.Base.{ℕ, ◌≡◌, refl, sym, ap, List, [], ◌∷◌, Option, some}
use pinai.Control.{Key, Model, Tables, Store, returns, key_delete}
use pinai.Control.Rows.{all_map, first_row, rows_where}
use pinai.Control.Rules.{
  Ensures, assume_rule, audited_rule, bind_rule, call_rule, on_return, pure_rule, succeed_rule,
  weaken,
}
use pinai.Control.Links.{keys_of, list_models_by_api_key, models_of}
use pinai.Control.Links.Pairs.{IsRelated}
use pinai.Control.Keys.{
  delete_found, delete_key, delete_models_by_ids, find_orphans, is_orphan, key_has_id, model_ids,
  remove_orphaned_models,
}
use pinai.Control.Keys.Related.{clear_backed_up_rule, delete_rule}
use pinai.Control.Keys.Orphans.{
  Covers, HaveKeys, get_api_key_rule, kept, orphans_listed, removed, survivors,
}

covers :
    (p : ℕ) (t : Tables) (ids : List ℕ)
    → ids ≡ model_ids (rows_where (is_orphan p t) t.models)
    → Covers p t ids t.models
covers p t ids e = rw e (orphans_listed p t t.models)

remove_listed_rule :
    (p : ℕ) (orphans : List Model)
    → Ensures
        (λ t. IsRelated t × (orphans ≡ rows_where (is_orphan p t) t.models))
        (delete_models_by_ids (model_ids orphans))
        (λ n t. IsRelated t × HaveKeys p t)
        IsRelated
unfolding delete_models_by_ids keys_of
remove_listed_rule p [] = pure_rule 0 (λ t (h, e).
    (h, all_map t.models (λ m covers. kept p t [] m covers refl) (covers p t [] (ap model_ids e))))
remove_listed_rule p (o ∷ os) =
    call_rule _ (λ t h. h.0)
      (λ t (h, e). (
        removed p t (model_ids (o ∷ os)) (ap model_ids e) h,
        survivors p t (model_ids (o ∷ os)) t.models
            (covers p t (model_ids (o ∷ os)) (ap model_ids e)),
      ))

remove_orphaned_rule :
    (p : ℕ)
    → Ensures IsRelated (remove_orphaned_models p) (λ n t. IsRelated t × HaveKeys p t) IsRelated
unfolding remove_orphaned_models find_orphans
remove_orphaned_rule p =
    bind_rule
      (call_rule {Q = λ os t. IsRelated t × (os ≡ rows_where (is_orphan p t) t.models)} _ (λ t h. h)
        (λ t h. (h, refl)))
      (λ orphans. remove_listed_rule p orphans)

delete_found_rule :
    (id : ℕ) (k : Key)
    → Ensures IsRelated
        (delete_found id k)
        (λ u t. IsRelated t × HaveKeys k.platform_id t)
        IsRelated
unfolding delete_found list_models_by_api_key
delete_found_rule id k =
    bind_rule
      (audited_rule key_delete id _ (
        call_rule {Q = λ ms t. IsRelated t × (ms ≡ models_of id t)} _ (λ t h. h)
          (λ t h. (h, refl))))
      (λ backup. bind_rule (audited_rule key_delete id _ (clear_backed_up_rule id backup)) (λ u.
        bind_rule (audited_rule key_delete id _ (delete_rule id backup)) (λ u.
          bind_rule (audited_rule key_delete id _ (remove_orphaned_rule k.platform_id))
            (λ n. succeed_rule key_delete id u (λ t h. h)))))

pub delete_key_rule :
    (id : ℕ) (k : Key)
    → Ensures
        (λ t. IsRelated t × (first_row (key_has_id id) t.keys ≡ some k))
        (delete_key id)
        (λ u t. IsRelated t × HaveKeys k.platform_id t)
        IsRelated
unfolding delete_key
delete_key_rule id k =
    bind_rule
      (audited_rule key_delete id _ (
        weaken (λ t h. h) (λ x t (h, read). (h.0, same x h.1 read)) (λ t h. h.0)
          (get_api_key_rule id)))
      (λ x.
        assume_rule {C = x ≡ k}
          (λ e. weaken (λ t h. h) (λ u t h. rw (sym e) h) (λ t h. h) (delete_found_rule id x)))
  where
    same : (x : Key) → {o : Option Key} → o ≡ some k → o ≡ some x → x ≡ k
    same x e f = cc

-- When a key is deleted, every model of its platform that is left has a key that is left.
pub delete_key-HaveKeys :
    (id : ℕ) (k : Key) (s : Store)
    → IsRelated s.tables
    → first_row (key_has_id id) s.tables.keys ≡ some k
    → (delete_key id s).0 ≡ returns tt
    → HaveKeys k.platform_id (delete_key id s).1.tables
delete_key-HaveKeys id k s h found done = (on_return (delete_key_rule id k) s (h, found) tt done).1

pub delete_key-IsRelated : (id : ℕ) → Ensures IsRelated (delete_key id) (λ u. IsRelated) IsRelated
unfolding delete_key
delete_key-IsRelated id =
    bind_rule
      (audited_rule key_delete id _
        (weaken (λ t h. h) (λ x t h. h.0) (λ t h. h) (get_api_key_rule {P = IsRelated} id)))
      (λ x. weaken (λ t h. h) (λ u t h. h.0) (λ t h. h) (delete_found_rule id x))
