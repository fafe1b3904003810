-- ===== src/Health/Query/Lists.antt =====
-- The paged lists of service_query.go: `GetPlatformHealthList`, `GetAPIKeyHealthList` and
-- `GetModelHealthList`. The database's answers to the `In` queries and `sort.Slice` are arguments.
pub mod Batch
pub mod Paging
use pinai.Base.{
  ℕ, zero, suc, ◌+◌, ◌-◌, ◌*◌, ◌^◌, ◌≤◌, ◌<◌, ◌≡◌, refl, ap, sym, ◌∙◌, inl, inr, Bool, true, false,
  ◌||◌, List, [], ◌∷◌, ◌++◌, Option, none, some, map, take, drop, length, ◌==◌, if◌then◌else◌,
  arith, Bool-cases, Option-cases,
}
use pinai.Base.Int.{ℤ}
use pinai.Base.Text.{Text, nat_eq, nat_beq_iff}
use pinai.Base.Assoc.{Assoc, lookup, insert, lookup-insert, IsDistinct}
use pinai.Health.{Health, resource_platform, resource_api_key, resource_model}
use pinai.Health.Storage.{by_resource_type}
use pinai.Health.Counts.Summary.{member}
use pinai.Health.Query.Pages.{page_of, page_of-take-drop}

-- The fields of a health record that every item shows.
pub record ItemHealth : Type 0 where
  pub status : ℕ
  pub retry_count : ℤ
  pub next_available_at : Option ℕ
  pub backoff_duration : ℤ
  pub last_error : Text
  pub last_error_code : ℤ
  pub last_error_message : Text
  pub last_structured_error_code : Text
  pub last_http_status : Option ℤ
  pub last_error_from : Text
  pub last_cause_message : Text
  pub last_check_at : ℕ
  pub last_success_at : Option ℕ
  pub success_count : ℤ
  pub error_count : ℤ

abbrev pub item_health : Health → ItemHealth
item_health h = record {
  status = h.status;
  retry_count = h.retry_count;
  next_available_at = h.next_available_at;
  backoff_duration = h.backoff_duration;
  last_error = h.last_error;
  last_error_code = h.last_error_code;
  last_error_message = h.last_error_message;
  last_structured_error_code = h.last_structured_error_code;
  last_http_status = h.last_http_status;
  last_error_from = h.last_error_from;
  last_cause_message = h.last_cause_message;
  last_check_at = h.last_check_at;
  last_success_at = h.last_success_at;
  success_count = h.success_count;
  error_count = h.error_count;
}

pub data Reply {ℓ} (Item : Type ℓ) : Type ℓ where
  reply : List Item → (total page page_size : ℕ) → Reply Item
  query_failed panicked : Reply Item

unfoldable pub ids_of : List Health → List ℕ
ids_of [] = []
ids_of (h ∷ hs) = h.resource_id ∷ ids_of hs

-- The map from ids to rows, built in the order of the answer; a row comes with its id.
unfoldable pub index_rows : {Row : Type 0} → List (ℕ × Row) → Assoc ℕ Row → Assoc ℕ Row
unfolding insert
index_rows [] m = m
index_rows ((id, row) ∷ rows) m = index_rows rows (insert id row m)

module _ {Row Item : Type 0} where
  -- The loop that puts the items together: a record whose row was not found is left out.
  unfoldable pub items_of : (Row → Health → Item) → (ℕ → Option Row) → List Health → List Item
  items_of item table [] = []
  items_of item table (h ∷ hs) =
      let rest = items_of item table hs in
      elim (table h.resource_id) [ none ↦ rest | some row ↦ item row h ∷ rest ]

module _ {Row Item : Type 0} (item : Row → Health → Item) (sort : List Health → List Health)
    (fetch : List ℕ → Option (List (ℕ × Row))) where
  pub list_page : ℕ → ℕ → ℕ → List Health → Reply Item
  unfolding ids_of index_rows items_of lookup
  list_page page page_size total paged = elim (fetch (ids_of paged)) [
    | none ↦ query_failed
    | some rows ↦
        reply (items_of item (λ id. lookup id (index_rows rows [])) paged) total page page_size
  ]

  pub list_sorted : ℕ → ℕ → List Health → Reply Item
  unfolding list_page page_of
  list_sorted page page_size sorted = elim (page_of page page_size sorted) [
    | none ↦ panicked
    | some paged ↦ list_page page page_size (length sorted) paged
  ]

  unfoldable pub health_list : ℕ → Assoc Text Health → ℕ → ℕ → Reply Item
  unfolding list_sorted by_resource_type
  health_list t cache page page_size =
      let found = by_resource_type t cache in
      elim found [
        | [] ↦ reply [] 0 page page_size
        | h ∷ hs ↦ list_sorted page page_size (sort (h ∷ hs))
      ]

-- What the rows say of the platforms, keys and models.
pub record PlatformItem : Type 0 where
  pub platform_id : ℕ
  pub platform_name : Text
  pub health : ItemHealth

pub record ApiKeyItem : Type 0 where
  pub key_id : ℕ
  pub key_value : Text
  pub health : ItemHealth

pub record ModelItem : Type 0 where
  pub model_id : ℕ
  pub model_name : Text
  pub model_alias : Text
  pub health : ItemHealth

pub record PlatformRow : Type 0 where
  pub id : ℕ
  pub name : Text

pub record ApiKeyRow : Type 0 where
  pub id : ℕ
  pub value : Text

pub record ModelRow : Type 0 where
  pub id : ℕ
  pub name : Text
  pub alias : Text

abbrev pub platform_item : PlatformRow → Health → PlatformItem
platform_item p h = record { platform_id = p.id; platform_name = p.name; health = item_health h }

abbrev pub api_key_item : ApiKeyRow → Health → ApiKeyItem
api_key_item k h = record { key_id = k.id; key_value = k.value; health = item_health h }

abbrev pub model_item : ModelRow → Health → ModelItem
model_item m h = record {
  model_id = m.id;
  model_name = m.name;
  model_alias = m.alias;
  health = item_health h;
}

module _ (sort : List Health → List Health) where
  unfoldable pub get_platform_health_list :
      (List ℕ → Option (List (ℕ × PlatformRow))) → Assoc Text Health → ℕ → ℕ → Reply PlatformItem
  unfolding health_list
  get_platform_health_list fetch cache page page_size =
      health_list platform_item sort fetch resource_platform cache page page_size

  unfoldable pub get_api_key_health_list :
      (List ℕ → Option (List (ℕ × ApiKeyRow))) → Assoc Text Health → ℕ → ℕ → Reply ApiKeyItem
  unfolding health_list
  get_api_key_health_list fetch cache page page_size =
      health_list api_key_item sort fetch resource_api_key cache page page_size

  unfoldable pub get_model_health_list :
      (List ℕ → Option (List (ℕ × ModelRow))) → Assoc Text Health → ℕ → ℕ → Reply ModelItem
  unfolding health_list
  get_model_health_list fetch cache page page_size =
      health_list model_item sort fetch resource_model cache page page_size
