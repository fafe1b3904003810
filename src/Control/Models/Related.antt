-- ===== src/Control/Models/Related.antt =====
-- The relation between keys and models through the addition, the update and the deletion of a model
-- (AddModelToPlatform of model.go, model_update_app_service.go and model_delete_app_service.go of
-- internal/app/provider).
use pinai.Base.{
  ℕ, suc, ◌≡◌, refl, ap, ◌∙◌, inl, inr, true, List, [], ◌∷◌, ◌++◌, Option, none, some, arith, ◌==◌,
  Bool-cases, length,
}
use pinai.Control.{Key, Model, Tables, or_not_found, invalid_argument, resource_not_belong}
use pinai.Control.Rows.{
  AllRows, all_map, all-rows_where, first_row, keyed-append, rows_where, rows_where-AllRows,
}
use pinai.Control.Rules.{Ends, Ensures, bind_rule, call_rule, pure_rule, raise_rule}
use pinai.Control.Endpoints.Together.{validate_platform_exists_rule}
use pinai.Control.Links.{add_keys}
use pinai.Control.Links.Pairs.{
  IsRelated, add_keys-pairs, key_id_of, key_platform, key_platform_of, keyed-platform_at,
  model_id_of, model_platform, model_platform_of, platform_at, platform_at-append, platform_at-new,
}
use pinai.Control.Models.{
  ModelInput, add_model, create_model, get_model, key_is_listed, list_api_keys_by_platform_and_ids,
  match_keys, model_has_id, validate_and_get_api_keys,
}

-- The keys are there, and the platform's.
abbrev pub AreKeysOf : ℕ → List Key → Tables → Type 0
AreKeysOf p ks t = AllRows (λ k. key_platform k.id t.keys ≡ some p) ks

listed_keys :
    (p : ℕ) (ids : List ℕ) (t : Tables)
    → IsRelated t
    → AreKeysOf p (rows_where (key_is_listed ids p) t.keys) t
listed_keys p ids t h =
    go (rows_where (key_is_listed ids p) t.keys)
      (all-rows_where (λ k. key_platform k.id t.keys ≡ some k.platform_id) (key_is_listed ids p)
        t.keys (keyed-platform_at key_id_of key_platform_of t.next_key t.keys h.keys_keyed))
      (rows_where-AllRows (key_is_listed ids p) t.keys)
  where
    go :
        (ks : List Key)
        → AllRows (λ k. key_platform k.id t.keys ≡ some k.platform_id) ks
        → AllRows (λ k. key_is_listed ids p k ≡ true) ks
        → AllRows (λ k. key_platform k.id t.keys ≡ some p) ks
    go [] a b = tt
    go (k ∷ ks) (a, as') (b, bs) =
        let same : k.platform_id ≡ p = ground (arith, b) in (a ∙ ap some same, go ks as' bs)

pub list_keys_rule :
    {P : Tables → Type 0} (p : ℕ) (ids : List ℕ)
    → ((t : Tables) → P t → IsRelated t)
    → Ensures P (list_api_keys_by_platform_and_ids p ids) (λ ks t. P t × AreKeysOf p ks t) P
unfolding list_api_keys_by_platform_and_ids
list_keys_rule p [] r = pure_rule [] (λ t h. (h, tt))
list_keys_rule p (id ∷ ids) r =
    call_rule _ (λ t h. h) (λ t h. (h, listed_keys p (id ∷ ids) t (r t h)))

pub match_keys_rule :
    {P : Tables → Type 0} (p : ℕ) (ids : List ℕ) (ks : List Key)
    → Ensures (λ t. P t × AreKeysOf p ks t) (match_keys ids ks) (λ ks t. P t × AreKeysOf p ks t) P
match_keys_rule p ids ks = elim (Bool-cases (length ks == length ids)) [
  | inl e ↦ rw e (pure_rule ks (λ t h. h))
  | inr e ↦ rw e (raise_rule resource_not_belong (λ t h. h.0))
]

pub created :
    (p : ℕ) (m : ModelInput) (ks : List Key) (t : Tables)
    → IsRelated t
    → AreKeysOf p ks t
    → IsRelated (record t {
      models =
          t.models
          ++ record { id = t.next_model; platform_id = p; name = m.name; alias = m.alias } ∷ [];
      links = add_keys t.next_model ks t.links;
      next_model = suc t.next_model;
    })
created p m ks t h own =
    let row : Model = record {
      id = t.next_model;
      platform_id = p;
      name = m.name;
      alias = m.alias;
    } in
    let models = t.models ++ row ∷ [] in
    record {
      keys_keyed = h.keys_keyed;
      models_keyed = keyed-append model_id_of t.next_model t.models row refl h.models_keyed;
      pairs =
          add_keys-pairs t.keys models t.next_model ks t.links
            (all_map ks
              (λ k at. (
                p,
                at,
                platform_at-new model_id_of model_platform_of t.next_model t.models row refl
                    h.models_keyed,
              ))
              own)
            (all_map t.links
              (λ l (q, at, m). (
                q,
                at,
                platform_at-append model_id_of model_platform_of l.model_id q t.models (row ∷ []) m,
              ))
              h.pairs);
    }

pub create_model_rule :
    (p : ℕ) (m : ModelInput) (ks : List Key)
    → Ensures (λ t. IsRelated t × AreKeysOf p ks t) (create_model p m ks) (λ r. IsRelated) IsRelated
unfolding create_model
create_model_rule p m ks = call_rule _ (λ t h. h.0) (λ t (h, own). created p m ks t h own)

pub add_model-IsRelated :
    (p : ℕ) (m : ModelInput) → Ensures IsRelated (add_model p m) (λ r. IsRelated) IsRelated
unfolding add_model
add_model-IsRelated p m =
    bind_rule (validate_platform_exists_rule p)
      (λ u. bind_rule (validated m.key_ids) (create_model_rule p m))
  where
    validated :
        (ids : List ℕ)
        → Ensures {0} IsRelated
            (validate_and_get_api_keys p ids)
            (λ ks t. IsRelated t × AreKeysOf p ks t)
            IsRelated
    validated [] = raise_rule invalid_argument (λ t h. h)
    validated (id ∷ ids) =
        bind_rule (list_keys_rule p (id ∷ ids) (λ t h. h)) (match_keys_rule p (id ∷ ids))

-- The model that was read is there.
abbrev pub IsRow : Model → Tables → Type 0
IsRow m t = model_platform m.id t.models ≡ some m.platform_id

first_row-IsRow :
    (id : ℕ) (ms : List Model) (m : Model)
    → first_row (model_has_id id) ms ≡ some m
    → model_platform m.id ms ≡ some m.platform_id
unfolding first_row platform_at
first_row-IsRow id [] m h = absurd cc
first_row-IsRow id (x ∷ ms) m h = elim (Bool-cases (model_has_id id x)) [
  | inl c ↦ let same : m ≡ x = ground (arith, c, h) in rw same (ground arith)
  | inr c ↦
      let found : first_row (model_has_id id) ms ≡ some m = ground (arith, c, h) in
      let here = first_row_id ms found in ground (arith, first_row-IsRow id ms m found, here, c)
]
  where
    first_row_id : (ms : List Model) → first_row (model_has_id id) ms ≡ some m → m.id ≡ id
    first_row_id [] h = absurd cc
    first_row_id (x ∷ ms) h = elim (Bool-cases (model_has_id id x)) [
      | inl c ↦ let same : m ≡ x = ground (arith, c, h) in rw same (ground (arith, c))
      | inr c ↦ first_row_id ms (ground (arith, c, h))
    ]

pub get_model_rule :
    (id : ℕ) → Ensures IsRelated (get_model id) (λ m t. IsRelated t × IsRow m t) IsRelated
unfolding get_model
get_model_rule id = call_rule _ (λ t h. h) (λ t h. found t h _ refl)
  where
    found :
        (t : Tables)
        → IsRelated t
        → (o : Option Model) → first_row (model_has_id id) t.models ≡ o
        → Ends (λ m t. IsRelated t × IsRow m t) IsRelated (or_not_found o) t
    found t h none e = h
    found t h (some m) e = (h, first_row-IsRow id t.models m e)
