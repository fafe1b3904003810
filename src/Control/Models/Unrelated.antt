-- ===== src/Control/Models/Unrelated.antt =====
-- The relation between keys and models when the models of a list of ids are deleted
-- (DeleteModelsByIDs of model_control_repository.go, called by model_batch_delete_app_service.go, of
-- internal/app/provider).
use pinai.Base.{
  ℕ, ◌≡◌, refl, ap, sym, ◌∙◌, inl, inr, Bool, true, false, List, [], ◌∷◌, some, arith, ◌==◌,
  if◌then◌else◌, Bool-cases,
}
use pinai.Task.{contains}
use pinai.Control.{Link, Model, Tables}
use pinai.Control.Rows.{AllRows, delete_rows, keyed-delete, rows_where}
use pinai.Control.Links.Pairs.{
  ArePairs, IsRelated, model_id_of, model_platform, model_platform_of, platform_at,
  platform_at-delete,
}
use pinai.Control.Keys.{is_among}
use pinai.Control.Models.Deletion.{IsFree}

-- What holds of the rows that are taken holds of each row that would be.
pub taken :
    (D : Model → Type 0) (q : Model → Bool) (ms : List Model)
    → AllRows D (rows_where q ms)
    → AllRows (λ m. q m ≡ true → D m) ms
unfolding rows_where
taken D q [] h = tt
taken D q (m ∷ ms) h = go (q m) refl h (taken D q ms)
  where
    go :
        (b : Bool)
        → q m ≡ b
        → AllRows D (if b then m ∷ rows_where q ms else rows_where q ms)
        → (AllRows D (rows_where q ms) → AllRows (λ m. q m ≡ true → D m) ms)
        → AllRows (λ m. q m ≡ true → D m) (m ∷ ms)
    go true e (d, ds) rest = ((λ c. d), rest ds)
    go false e ds rest = ((λ c. absurd cc), rest ds)

-- A model that is there and among those of the ids has no relation when these have none.
freed :
    (ids : List ℕ) (j p : ℕ) (ms : List Model) (ls : List Link)
    → AllRows (λ m. is_among ids m ≡ true → IsFree m.id ls) ms
    → contains j ids ≡ true
    → model_platform j ms ≡ some p
    → IsFree j ls
unfolding platform_at
freed ids j p [] ls h c at = absurd cc
freed ids j p (m ∷ ms) ls (h, hs) c at = elim (Bool-cases (m.id == j)) [
  | inl e ↦
      let same : m.id ≡ j = ground (arith, e) in
      rw (sym same) (h (ap (λ i. contains i ids) same ∙ c))
  | inr e ↦ freed ids j p ms ls hs c (ground (arith, e, at))
]

pub deleted_models :
    (ids : List ℕ) (t : Tables)
    → IsRelated t
    → AllRows (λ m. is_among ids m ≡ true → IsFree m.id t.links) t.models
    → IsRelated (record t { models = delete_rows (is_among ids) t.models })
deleted_models ids t h free = record {
  keys_keyed = h.keys_keyed;
  models_keyed = keyed-delete model_id_of t.next_model (is_among ids) t.models h.models_keyed;
  pairs = go t.links h.pairs (λ j f. f);
}
  where
    go :
        (ls : List Link)
        → ArePairs t.keys t.models ls
        → ((j : ℕ) → IsFree j t.links → IsFree j ls)
        → ArePairs t.keys (delete_rows (is_among ids) t.models) ls
    go [] h sub = tt
    go (l ∷ ls) ((p, k, m), hs) sub =
        let kept : contains l.model_id ids ≡ false = elim (Bool-cases (contains l.model_id ids)) [
          | inl c ↦
              let gone = (sub l.model_id (freed ids l.model_id p t.models t.links free c m)).0 in
              absurd (ground (arith, gone))
          | inr c ↦ c
        ] in
        (
          (
            p,
            k,
            platform_at-delete model_id_of model_platform_of l.model_id (is_among ids) t.models
                  (λ r same. ap (λ i. contains i ids) same ∙ kept)
                ∙ m,
          ),
          go ls hs (λ j f. (sub j f).1),
        )
