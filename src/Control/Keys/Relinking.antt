-- ===== src/Control/Keys/Relinking.antt =====
-- The relations that are cleared and appended again: the association queries of
-- key_control_repository.go of internal/app/provider, as key_delete_app_service.go uses them.
use pinai.Base.{
  ℕ, ◌≡◌, refl, sym, ap, ◌∙◌, inl, inr, true, ◌&&◌, ◌||◌, not, List, [], ◌∷◌, ◌++◌, some, arith,
  ◌==◌, Bool-cases,
}
use pinai.Task.{contains}
use pinai.Control.{Link, Model, Tables}
use pinai.Control.Rows.{delete_rows, rows_where}
use pinai.Control.Links.{add_link, add_models, linked, models_of, of_key}
use pinai.Control.Links.Pairs.{IsRelated, linked-IsPair, model_platform, platform_at}
use pinai.Control.Keys.{model_ids}

linked-append :
    (k m : ℕ) (ls : List Link) (l : Link)
    → linked k m (ls ++ l ∷ []) ≡ (linked k m ls || (l.key_id == k && l.model_id == m))
unfolding linked
linked-append k m [] l = ground arith
linked-append k m (x ∷ ls) l = ground (arith, linked-append k m ls l)

linked-add_link :
    (k m i j : ℕ) (ls : List Link)
    → linked k m (add_link i j ls) ≡ (linked k m ls || (i == k && j == m))
unfolding add_link
linked-add_link k m i j ls = elim (Bool-cases (linked i j ls)) [
  | inl e ↦ rw e (elim (Bool-cases (i == k && j == m)) [
    | inl c ↦
        let same : i ≡ k = ground (arith, c) in
        let same' : j ≡ m = ground (arith, c) in
        let here : linked k m ls ≡ true = rw (sym same, sym same') e in rw here refl
    | inr c ↦ rw c (ground arith)
  ])
  | inr e ↦ rw e (linked-append k m ls (record { key_id = i; model_id = j }))
]

linked-add_models :
    (k m i : ℕ) (ms : List Model) (ls : List Link)
    → linked k m (add_models i ms ls) ≡ (linked k m ls || (i == k && contains m (model_ids ms)))
unfolding add_models
linked-add_models k m i [] ls = ground arith
linked-add_models k m i (x ∷ ms) ls =
    ground (arith, linked-add_models k m i ms (add_link i x.id ls), linked-add_link k m i x.id ls)

linked-delete :
    (k m i : ℕ) (ls : List Link)
    → linked k m (delete_rows (of_key i) ls) ≡ (linked k m ls && not (i == k))
unfolding linked delete_rows
linked-delete k m i [] = refl
linked-delete k m i (l ∷ ls) = ground (arith, linked-delete k m i ls)

contains-rows_where :
    (i m : ℕ) (ls : List Link) (ms : List Model)
    → contains m (model_ids (rows_where (λ x. linked i x.id ls) ms))
      ≡ (linked i m ls && contains m (model_ids ms))
unfolding rows_where
contains-rows_where i m ls [] = ground arith
contains-rows_where i m ls (x ∷ ms) = elim (Bool-cases (m == x.id)) [
  | inl c ↦
      let same : m ≡ x.id = ground (arith, c) in
      rw same (ground (arith, contains-rows_where i x.id ls ms))
  | inr c ↦ ground (arith, c, contains-rows_where i m ls ms)
]

model_platform-contains :
    (m p : ℕ) (ms : List Model) → model_platform m ms ≡ some p → contains m (model_ids ms) ≡ true
unfolding platform_at
model_platform-contains m p [] h = absurd cc
model_platform-contains m p (x ∷ ms) h = ground (arith, h, model_platform-contains m p ms)

-- Relations that are cleared and then restored from the backup are the relations of before.
pub linked-restored :
    (k m i : ℕ) (t : Tables)
    → IsRelated t
    → linked k m (add_models i (models_of i t) (delete_rows (of_key i) t.links))
      ≡ linked k m t.links
unfolding models_of
linked-restored k m i t h = elim (Bool-cases (linked i m t.links)) [
  | inl e ↦
      let pair = linked-IsPair t.keys t.models i m t.links h.pairs e in
      let there = model_platform-contains m pair.0 t.models pair.2 in
      elim (Bool-cases (i == k)) [
        | inl c ↦
            let same : k ≡ i = ground (arith, c) in
            rw same (ground (arith, whole i, contains-rows_where i m t.links t.models, e, there))
        | inr c ↦ ground (arith, whole k, c)
      ]
  | inr e ↦ elim (Bool-cases (i == k)) [
    | inl c ↦
        let same : k ≡ i = ground (arith, c) in
        rw same (ground (arith, whole i, contains-rows_where i m t.links t.models, e))
    | inr c ↦ ground (arith, whole k, c)
  ]
]
  where
    whole :
        (k : ℕ)
        → linked k m (
            add_models i
              (rows_where (λ x. linked i x.id t.links) t.models)
              (delete_rows (of_key i) t.links))
          ≡ ((linked k m t.links && not (i == k))
              || (i == k
                  && contains m (model_ids (rows_where (λ x. linked i x.id t.links) t.models))))
    whole k =
        linked-add_models k m i (rows_where (λ x. linked i x.id t.links) t.models)
          (delete_rows (of_key i) t.links)
        ∙ ap
            (λ b.
              b
              || (i == k
                  && contains m (model_ids (rows_where (λ x. linked i x.id t.links) t.models))))
            (linked-delete k m i t.links)
