-- ===== src/Control/Tests/Grouping.antt =====
-- A batch update of two endpoints that share a group, and the theorem about it.
use pinai.Base.{
  ℕ, ◌≡◌, ◌⊎◌, refl, sym, ap, ◌∙◌, inl, inr, false, List, [], ◌∷◌, none, some, arith, map, ◌==◌,
  Bool-cases,
}
use pinai.Base.Text.{codes, text_eq_eq}
use pinai.Control.{returns}
use pinai.Control.Endpoints.Signature.{EndpointUpdateItem, item_fields, item_payload}
use pinai.Control.Endpoints.Batch.{batch_update_endpoints, find_item}
use pinai.Control.Endpoints.Applied.{AreSeparate}
use pinai.Control.Endpoints.Equivalence.{batch_update_endpoints-map, update_each}
use pinai.Control.Tests.{endpoint, store, tables, tables-IsSound}

abbrev path_item : ℕ → EndpointUpdateItem
path_item id = record {
  id = id;
  endpoint_type = none;
  endpoint_variant = none;
  path = some (codes "/x");
  custom_headers = none;
  is_default = none;
}

abbrev items : List EndpointUpdateItem
items = path_item 2 ∷ path_item 3 ∷ []

one_of_two :
    (i : EndpointUpdateItem) → find_item i.id items ≡ some i → (i ≡ path_item 2) ⊎ (i ≡ path_item 3)
unfolding find_item
one_of_two i e = elim (Bool-cases (2 == i.id)) [
  | inl c ↦ inl (ground (arith, c, e))
  | inr c ↦ elim (Bool-cases (3 == i.id)) [
    | inl d ↦ inr (ground (arith, c, d, e))
    | inr d ↦ absurd (ground (arith, c, d, e))
  ]
]

payload_of :
    (i : EndpointUpdateItem)
    → find_item i.id items ≡ some i
    → item_payload i ≡ item_payload (path_item 2)
unfolding item_payload
payload_of i e = elim (one_of_two i e) [
  | inl same ↦ ap (λ x. item_payload x) same
  | inr same ↦ ap (λ x. item_payload x) same
]

fields_of :
    (i : EndpointUpdateItem)
    → find_item i.id items ≡ some i
    → item_fields i ≡ item_fields (path_item 2)
unfolding item_fields
fields_of i e = elim (one_of_two i e) [
  | inl same ↦ ap (λ x. item_fields x) same
  | inr same ↦ ap (λ x. item_fields x) same
]

items-AreSeparate : AreSeparate items
items-AreSeparate = record {
  payloads = λ i j e f same. payload_of i e ∙ sym (payload_of j f);
  fields = λ i j e f same. fields_of i e ∙ sym (fields_of j f);
}

updated :
    (batch_update_endpoints 1 items (store [])).0
    ≡ returns (
        record (endpoint 2 false) { path = codes "/x" }
        ∷ record (endpoint 3 false) { path = codes "/x" }
        ∷ [])
unfolding batch_update_endpoints
updated = refl

batch_update_endpoints-map_example :
    (batch_update_endpoints 1 items (store [])).1.tables.endpoints
    ≡ map (update_each 1 items) tables.endpoints
batch_update_endpoints-map_example =
    batch_update_endpoints-map 1 items (store []) _ tables-IsSound items-AreSeparate updated
