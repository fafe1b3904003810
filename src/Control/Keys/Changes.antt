-- ===== src/Control/Keys/Changes.antt =====
-- The relation between keys and models through the addition and the update of a key
-- (key_add_app_service.go and key_update_app_service.go of internal/app/provider).
use pinai.Base.{ℕ, suc, ◌≡◌, refl, ◌∙◌, Bool, true, false, [], ◌∷◌, ◌++◌, if◌then◌else◌}
use pinai.Control.{Key, Tables, raise, within_tx, resource_not_found, key_create, key_update}
use pinai.Control.Rows.{all_map, change_rows, keyed-append, keyed-change}
use pinai.Control.Rules.{
  Ensures, audited_rule, bind_rule, call_rule, raise_rule, some_row_rule, succeed_rule, weaken,
  within_tx_rule,
}
use pinai.Control.Endpoints.Uniqueness.{platform_exists_rule}
use pinai.Control.Links.Pairs.{
  IsRelated, key_id_of, key_platform_of, platform_at-append, platform_at-change,
}
use pinai.Control.Keys.{
  Associations, SavesNone, add_key, create_api_key, key_has_id, update_api_key, update_key,
  update_key_row,
}
use pinai.Control.Keys.Orphans.{get_api_key_rule}

-- A new key.
appended :
    (k : Key) (t : Tables)
    → IsRelated t
    → IsRelated
        (record t { keys = t.keys ++ record k { id = t.next_key } ∷ []; next_key = suc t.next_key })
appended k t h = record {
  keys_keyed =
      keyed-append key_id_of t.next_key t.keys (record k { id = t.next_key }) refl h.keys_keyed;
  models_keyed = h.models_keyed;
  pairs =
      all_map t.links
        (λ l (p, at, m). (
          p,
          platform_at-append key_id_of key_platform_of l.key_id p t.keys
              (record k { id = t.next_key } ∷ []) at,
          m,
        ))
        h.pairs;
}

pub add_key-IsRelated :
    (gorm : Associations) (p : ℕ) (k : Key)
    → SavesNone gorm
    → Ensures IsRelated (add_key gorm p k []) (λ r. IsRelated) IsRelated
unfolding add_key create_api_key
add_key-IsRelated gorm p k none_saved =
    bind_rule (audited_rule key_create 0 _ (platform_exists_rule p)) (λ exists.
      bind_rule (audited_rule key_create 0 _ (created exists))
        (λ row. succeed_rule key_create row.id row (λ t h. h)))
  where
    created :
        (b : Bool)
        → Ensures {0} IsRelated
            (if b
              then within_tx (create_api_key gorm (record k { id = 0; platform_id = p }) [])
              else raise resource_not_found)
            (λ r. IsRelated)
            IsRelated
    created true =
        within_tx_rule _ (λ t h. h)
          (call_rule _ (λ t h. tt)
            (λ t h.
              rw (none_saved.save_none t.next_key _)
                (appended (record k { id = 0; platform_id = p }) t h)))
    created false = raise_rule resource_not_found (λ t h. h)

-- A request that names no platform leaves the key on its own.
stays : (u k : Key) → u.platform_id ≡ 0 → (update_key_row u k).platform_id ≡ k.platform_id
stays u k h = rw h refl

updated :
    (id : ℕ) (u : Key) (t : Tables)
    → u.platform_id ≡ 0
    → IsRelated t
    → IsRelated (record t { keys = change_rows (key_has_id id) (update_key_row u) t.keys })
updated id u t own h = record {
  keys_keyed =
      keyed-change key_id_of t.next_key (key_has_id id) (update_key_row u) t.keys (λ k. refl)
        h.keys_keyed;
  models_keyed = h.models_keyed;
  pairs =
      all_map t.links
        (λ l (p, at, m). (
          p,
          platform_at-change key_id_of key_platform_of l.key_id (key_has_id id) (update_key_row u)
                t.keys (λ k. refl) (λ k. stays u k own)
              ∙ at,
          m,
        ))
        h.pairs;
}

update_api_key_rule :
    (gorm : Associations) (id : ℕ) (u : Key)
    → SavesNone gorm
    → u.platform_id ≡ 0
    → Ensures IsRelated (update_api_key gorm id u []) (λ n. IsRelated) (λ t. Unit)
unfolding update_api_key
update_api_key_rule gorm id u none_saved own =
    call_rule _ (λ t h. tt) (λ t h. rw (none_saved.update_none id _) (updated id u t own h))

pub update_key-IsRelated :
    (gorm : Associations) (id : ℕ) (u : Key)
    → SavesNone gorm
    → u.platform_id ≡ 0
    → Ensures IsRelated (update_key gorm id u []) (λ r. IsRelated) IsRelated
unfolding update_key
update_key-IsRelated gorm id u none_saved own =
    bind_rule (audited_rule key_update id _ (get_api_key_rule {P = IsRelated} id)) (λ old.
      bind_rule
        (audited_rule key_update id _ (
          within_tx_rule {Q = λ x. IsRelated} _ (λ t h. h.0)
            (weaken (λ t h. h.0) (λ x t h. h) (λ t h. h)
              (bind_rule (update_api_key_rule gorm id u none_saved own) some_row_rule))))
        (λ x.
          bind_rule
            (audited_rule key_update id _
              (weaken (λ t h. h) (λ k t h. h.0) (λ t h. h) (get_api_key_rule {P = IsRelated} id)))
            (λ k. succeed_rule key_update id k (λ t h. h))))
