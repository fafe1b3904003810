-- ===== src/Control/Models/Erasing.antt =====
-- What the batch deletion of models leaves (model_batch_delete_app_service.go of
-- internal/app/provider).
use pinai.Base.{
  ℕ, ◌≡◌, refl, ap, ◌∙◌, inl, inr, true, false, ◌&&◌, not, List, [], ◌∷◌, none, arith, ◌==◌,
  Bool-cases, length,
}
use pinai.Task.{contains}
use pinai.Control.{
  Link, Model, Store, Tables, no_items, resource_not_found, resource_not_belong, returns,
  model_batch_delete,
}
use pinai.Control.Rows.{AllRows, delete_rows, rows_where-AllRows}
use pinai.Control.Rules.{
  Ensures, assume_rule, audited_rule, bind_rule, call_rule, on_return, or_restore_rule, pure_rule,
  raise_rule, succeed_rule, trivial_rule, weaken, within_tx_rule,
}
use pinai.Control.Links.{clear_model_api_keys, linked, list_api_keys_by_model, of_model}
use pinai.Control.Links.Pairs.{IsPair, IsRelated, linked-IsPair, model_platform, platform_at}
use pinai.Control.Keys.{delete_models_by_ids, is_among}
use pinai.Control.Models.Batch.{
  KeysBackup, back_up, back_up_models, batch_delete_models, clear_models, delete_cleared,
  list_models_by_ids, match_models, restore_models,
}
use pinai.Control.Models.Creation.{check_platform_rule}
use pinai.Control.Models.Removal.{batch_delete_models-IsRelated}

-- The relations of the models that are not among the ids are those of before.
abbrev AreOthers : Tables → List ℕ → Tables → Type 0
AreOthers t₀ ids t = (k m : ℕ) → contains m ids ≡ false → linked k m t.links ≡ linked k m t₀.links

abbrev IsKept : Tables → List ℕ → Tables → Type 0
IsKept t₀ ids t = (t.models ≡ t₀.models) × ((t.keys ≡ t₀.keys) × AreOthers t₀ ids t)

abbrev IsErased : Tables → List ℕ → Tables → Type 0
IsErased t₀ ids t =
    (t.models ≡ delete_rows (is_among ids) t₀.models) × ((t.keys ≡ t₀.keys) × AreOthers t₀ ids t)

linked_other :
    (k m j : ℕ) (ls : List Link)
    → (j == m) ≡ false
    → linked k m (delete_rows (of_model j) ls) ≡ linked k m ls
unfolding linked delete_rows
linked_other k m j [] h = refl
linked_other k m j (l ∷ ls) h = elim (Bool-cases (of_model j l)) [
  | inl e ↦ rw e (ground (arith, e, h, linked_other k m j ls h))
  | inr e ↦ rw e (ground (arith, linked_other k m j ls h))
]

apart : (j m : ℕ) (ids : List ℕ) → contains j ids ≡ true → contains m ids ≡ false → (j == m) ≡ false
apart j m ids c d = elim (Bool-cases (j == m)) [
  | inl e ↦
      let same : j ≡ m = ground (arith, e) in let hit = ap (λ i. contains i ids) same in absurd cc
  | inr e ↦ e
]

list_rule :
    {P : Tables → Type 0} (id : ℕ) (ids : List ℕ)
    → Ensures P
        (list_models_by_ids (id ∷ ids))
        (λ ms t. P t × AllRows (λ m. is_among (id ∷ ids) m ≡ true) ms)
        (λ t. Unit)
unfolding list_models_by_ids
list_rule id ids =
    call_rule _ (λ t h. tt) (λ t h. (h, rows_where-AllRows (is_among (id ∷ ids)) t.models))

match_rule :
    {P : List Model → Tables → Type 0} (js : List ℕ) (ms : List Model)
    → Ensures (P ms) (match_models js ms) P (λ t. Unit)
match_rule js ms = elim (Bool-cases (length ms == length js)) [
  | inl e ↦ rw e (pure_rule ms (λ t h. h))
  | inr e ↦ rw e (raise_rule resource_not_found (λ t h. tt))
]

back_up_rule :
    {P : Tables → Type 0} (p : ℕ) (ms : List Model)
    → Ensures P (back_up_models p ms) (λ bs. P) (λ t. Unit)
unfolding back_up_models list_api_keys_by_model
back_up_rule p [] = pure_rule [] (λ t h. h)
back_up_rule {P = P} p (m ∷ ms) = elim (Bool-cases (m.platform_id == p)) [
  | inl e ↦ rw e (
      bind_rule (call_rule {Q = λ ks. P} _ (λ t h. tt) (λ t h. h))
        (λ ks. bind_rule (back_up_rule p ms) (λ bs. pure_rule (back_up m.id ks bs) (λ t h. h))))
  | inr e ↦ rw e (raise_rule resource_not_belong (λ t h. tt))
]

clear_rule :
    (t₀ : Tables) (ids : List ℕ) (ms : List Model)
    → AllRows (λ m. is_among ids m ≡ true) ms
    → Ensures (IsKept t₀ ids) (clear_models ms) (λ u. IsKept t₀ ids) (λ t. Unit)
unfolding clear_models clear_model_api_keys
clear_rule t₀ ids [] own = pure_rule tt (λ t h. h)
clear_rule t₀ ids (m ∷ ms) (c, own) =
    bind_rule
      (call_rule {Q = λ u. IsKept t₀ ids} _ (λ t h. tt)
        (λ t (ms, (ks, others)).
          (ms, (ks, λ k j d. linked_other k j m.id t.links (apart m.id j ids c d) ∙ others k j d))))
      (λ u. clear_rule t₀ ids ms own)

delete_rule :
    (t₀ : Tables) (id : ℕ) (ids : List ℕ) (bs : List KeysBackup)
    → Ensures
        (IsKept t₀ (id ∷ ids))
        (delete_cleared (id ∷ ids) bs)
        (λ n. IsErased t₀ (id ∷ ids))
        (λ t. Unit)
unfolding delete_cleared delete_models_by_ids
delete_rule t₀ id ids bs =
    or_restore_rule {F = λ t. Unit} _ (restore_models bs)
      (within_tx_rule _ (λ t h. tt)
        (call_rule _ (λ t h. tt)
          (λ t (ms, rest). (ap (delete_rows (is_among (id ∷ ids))) ms, rest))))
      (trivial_rule (restore_models bs))

batch_delete_rule :
    (t₀ : Tables) (p : ℕ) (ids : List ℕ)
    → Ensures (IsKept t₀ ids) (batch_delete_models p ids) (λ n. IsErased t₀ ids) (λ t. Unit)
unfolding batch_delete_models
batch_delete_rule t₀ p [] = raise_rule no_items (λ t h. tt)
batch_delete_rule t₀ p (id ∷ ids) =
    bind_rule
      (audited_rule model_batch_delete p _ (
        weaken (λ t h. h) (λ u t h. h) (λ t h. tt)
          (check_platform_rule {P = IsKept t₀ (id ∷ ids)} p)))
      (λ u.
        bind_rule
          (audited_rule model_batch_delete p _ (
            bind_rule (list_rule {P = IsKept t₀ (id ∷ ids)} id ids) (
              match_rule
                {P = λ ms t.
                  IsKept t₀ (id ∷ ids) t × AllRows (λ m. is_among (id ∷ ids) m ≡ true) ms}
                (id ∷ ids))))
          (λ ms. assume_rule (λ own.
            bind_rule (audited_rule model_batch_delete p _ (back_up_rule p ms)) (λ bs.
              bind_rule (audited_rule model_batch_delete p _ (clear_rule t₀ (id ∷ ids) ms own))
                (λ u.
                  bind_rule (audited_rule model_batch_delete p _ (delete_rule t₀ id ids bs))
                    (λ n. succeed_rule model_batch_delete p n (λ t h. h)))))))

deleted_platform :
    (ids : List ℕ) (j : ℕ) (ms : List Model)
    → contains j ids ≡ true
    → model_platform j (delete_rows (is_among ids) ms) ≡ none
unfolding platform_at delete_rows
deleted_platform ids j [] c = refl
deleted_platform ids j (m ∷ ms) c = elim (Bool-cases (contains m.id ids)) [
  | inl e ↦ rw e (deleted_platform ids j ms c)
  | inr e ↦ rw e (ground (arith, apart j m.id ids c e, deleted_platform ids j ms c))
]

-- A batch deletion of models that returns removes exactly the models of the ids, keeps every key,
-- and removes exactly the relations of those models.
pub batch_delete_models_lem :
    (p : ℕ) (ids : List ℕ) (s : Store) (n : ℕ)
    → IsRelated s.tables
    → (batch_delete_models p ids s).0 ≡ returns n
    → ((batch_delete_models p ids s).1.tables.models ≡ delete_rows (is_among ids) s.tables.models)
      × ((batch_delete_models p ids s).1.tables.keys ≡ s.tables.keys)
      × ((k m : ℕ)
          → linked k m (batch_delete_models p ids s).1.tables.links
            ≡ (linked k m s.tables.links && not (contains m ids)))
batch_delete_models_lem p ids s n h done =
    let erased =
      on_return (batch_delete_rule s.tables p ids) s (refl, (refl, λ k m c. refl)) n done in
    let related = on_return (batch_delete_models-IsRelated p ids) s h n done in
    (erased.0, erased.1.0, relations (batch_delete_models p ids s).1.tables erased related)
  where
    relations :
        (t : Tables)
        → IsErased s.tables ids t
        → IsRelated t
        → (k m : ℕ) → linked k m t.links ≡ (linked k m s.tables.links && not (contains m ids))
    relations t (gone, (ks, others)) r k m = elim (Bool-cases (contains m ids)) [
      | inr c ↦ ground (arith, c, others k m c)
      | inl c ↦ elim (Bool-cases (linked k m t.links)) [
        | inr d ↦ ground (arith, c, d)
        | inl d ↦
            let pair = linked-IsPair t.keys t.models k m t.links r.pairs d in
            let lost = ap (model_platform m) gone ∙ deleted_platform ids m s.tables.models c in
            absurd (found pair lost)
      ]
    ]
      where
        found : IsPair t.keys t.models k m → model_platform m t.models ≡ none → ⊥
        found (p, x, y) z = cc
