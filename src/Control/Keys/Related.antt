-- ===== src/Control/Keys/Related.antt =====
-- The relation between keys and models through the addition and the deletion of a key
-- (key_add_app_service.go, key_delete_app_service.go and removeOrphanedModels of utils.go in
-- internal/app/provider).
use pinai.Base.{ℕ, ◌≡◌, sym, ◌∙◌, inl, inr, true, false, List, [], ◌∷◌, arith, Bool-cases}
use pinai.Control.{Link, Model, Tables, ◌>>=◌, within_tx, some_row}
use pinai.Control.Rows.{
  AllRows, all_map, all-delete, delete_rows, keyed-delete, rows_where, rows_where-AllRows,
}
use pinai.Control.Rules.{
  Ensures, bind_rule, call_rule, or_restore_rule, pure_rule, some_row_rule, within_tx_rule,
}
use pinai.Control.Links.{append_api_key_models, clear_api_key_models, linked, models_of, of_key}
use pinai.Control.Links.Pairs.{
  ArePairs, IsPair, IsRelated, add_models-pairs, key_id_of, key_platform_of, linked-IsPair,
  model_id_of, model_platform_of, platform_at-delete, platform_at-rows_where,
}
use pinai.Control.Keys.{clear_backed_up, delete_api_key_by_id, delete_or_restore, key_has_id}

-- No relation of a key.
abbrev pub IsCleared : ℕ → List Link → Type 0
IsCleared id ls = AllRows (λ l. of_key id l ≡ false) ls

-- The backed up models may be related to the key again.
abbrev pub CanRelate : ℕ → List Model → Tables → Type 0
CanRelate id backup t = AllRows (λ m. IsPair t.keys t.models id m.id) backup

deleted_links-IsCleared : (id : ℕ) (ls : List Link) → IsCleared id (delete_rows (of_key id) ls)
unfolding delete_rows
deleted_links-IsCleared id [] = tt
deleted_links-IsCleared id (l ∷ ls) = elim (Bool-cases (of_key id l)) [
  | inl e ↦ rw e (deleted_links-IsCleared id ls)
  | inr e ↦ rw e (e, deleted_links-IsCleared id ls)
]

-- The models of a key can be related to it.
models_of-CanRelate : (id : ℕ) (t : Tables) → IsRelated t → CanRelate id (models_of id t) t
unfolding models_of
models_of-CanRelate id t h =
    all_map (rows_where (λ m. linked id m.id t.links) t.models)
      (λ m e. linked-IsPair t.keys t.models id m.id t.links h.pairs e)
      (rows_where-AllRows (λ m. linked id m.id t.links) t.models)

backed_up :
    (id : ℕ) (backup : List Model) (t : Tables)
    → IsRelated t
    → backup ≡ models_of id t
    → CanRelate id backup t
backed_up id backup t h e = rw e (models_of-CanRelate id t h)

-- A key without models has no relation.
unrelated : (id : ℕ) (t : Tables) → IsRelated t → models_of id t ≡ [] → IsCleared id t.links
unfolding models_of linked
unrelated id t h none_left = go t.links h.pairs (λ m e. e)
  where
    go :
        (ls : List Link)
        → ArePairs t.keys t.models ls
        → ((m : ℕ) → linked id m ls ≡ true → linked id m t.links ≡ true)
        → IsCleared id ls
    go [] h sub = tt
    go (l ∷ ls) ((p, k, m), hs) sub = (
      elim (Bool-cases (of_key id l)) [
        | inl c ↦ absurd (
            platform_at-rows_where model_id_of model_platform_of (λ x. linked id x.id t.links)
              l.model_id p t.models (λ x same. sub x.id (ground (arith, c, same))) m none_left)
        | inr c ↦ c
      ],
      go ls hs (λ m' e. sub m' (ground (arith, e))),
    )

pub clear_backed_up_rule :
    (id : ℕ) (backup : List Model)
    → Ensures
        (λ t. IsRelated t × (backup ≡ models_of id t))
        (clear_backed_up id backup)
        (λ u t. IsRelated t × IsCleared id t.links × CanRelate id backup t)
        IsRelated
unfolding clear_backed_up clear_api_key_models
clear_backed_up_rule id [] = pure_rule tt (λ t (h, e). (h, unrelated id t h (sym e), tt))
clear_backed_up_rule id (m ∷ ms) =
    call_rule _ (λ t h. h.0)
      (λ t (h, e). (
        record {
          keys_keyed = h.keys_keyed;
          models_keyed = h.models_keyed;
          pairs =
              all-delete (λ l. IsPair t.keys t.models l.key_id l.model_id) (of_key id) t.links
                h.pairs;
        },
        deleted_links-IsCleared id t.links,
        backed_up id (m ∷ ms) t h e,
      ))

-- The key may go when it has no relation.
deleted :
    (id : ℕ) (t : Tables)
    → IsRelated t
    → IsCleared id t.links
    → IsRelated (record t { keys = delete_rows (key_has_id id) t.keys })
deleted id t h clear = record {
  keys_keyed = keyed-delete key_id_of t.next_key (key_has_id id) t.keys h.keys_keyed;
  models_keyed = h.models_keyed;
  pairs = go t.links h.pairs clear;
}
  where
    go :
        (ls : List Link)
        → ArePairs t.keys t.models ls
        → IsCleared id ls
        → ArePairs (delete_rows (key_has_id id) t.keys) t.models ls
    go [] h c = tt
    go (l ∷ ls) ((p, k, m), hs) (c, cs) = (
      (
        p,
        platform_at-delete key_id_of key_platform_of l.key_id (key_has_id id) t.keys
              (λ r e. ground (arith, e, c))
            ∙ k,
        m,
      ),
      go ls hs cs,
    )

restore_rule :
    (id : ℕ) (backup : List Model)
    → Ensures
        (λ t. IsRelated t × CanRelate id backup t)
        (append_api_key_models id backup)
        (λ u. IsRelated)
        IsRelated
unfolding append_api_key_models
restore_rule id [] = pure_rule tt (λ t h. h.0)
restore_rule id (m ∷ ms) =
    call_rule _ (λ t h. h.0)
      (λ t (h, can). record {
        keys_keyed = h.keys_keyed;
        models_keyed = h.models_keyed;
        pairs = add_models-pairs t.keys t.models id (m ∷ ms) t.links can h.pairs;
      })

pub delete_rule :
    (id : ℕ) (backup : List Model)
    → Ensures
        (λ t. IsRelated t × IsCleared id t.links × CanRelate id backup t)
        (delete_or_restore id backup)
        (λ u. IsRelated)
        IsRelated
unfolding delete_or_restore delete_api_key_by_id
delete_rule id backup =
    or_restore_rule (within_tx (delete_api_key_by_id id >>= some_row))
      (append_api_key_models id backup)
      (within_tx_rule {F = λ t. IsRelated t × CanRelate id backup t}
        (delete_api_key_by_id id >>= some_row) (λ t (h, c, can). (h, can))
        (bind_rule
          (call_rule {Q = λ n. IsRelated} _ (λ t h. tt) (λ t (h, c, can). deleted id t h c))
          some_row_rule))
      (restore_rule id backup)
