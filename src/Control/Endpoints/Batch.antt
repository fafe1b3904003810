-- ===== src/Control/Endpoints/Batch.antt =====
-- The batch addition and the batch update of endpoints (endpoint.go of internal/app/provider), which
-- groups the endpoints that receive the same update.
use pinai.Base.{
  ℕ, suc, ◌+◌, Bool, false, ◌&&◌, ◌||◌, List, [], ◌∷◌, ◌++◌, Option, none, some, ◌==◌,
  if◌then◌else◌, length,
}
use pinai.Base.Text.{Text, text_eq_eq}
use pinai.Base.Assoc.{Assoc, lookup, insert}
use pinai.Task.{contains}
use pinai.Control.{
  Endpoint, Platform, Answer, returns, fails, Run, pure, raise, ◌>>=◌, query, write, or_not_found,
  within_tx, resource_not_found, no_items, missing_id, duplicate_id,
}
use pinai.Control.Rows.{first_row, rows_where}
use pinai.Control.Endpoints.{Field, check_default_unique, is_of, is_some, set_fields, update_where}
use pinai.Control.Endpoints.Signature.{
  EndpointUpdateItem, Value, item_fields, item_payload, item_updates, update_signature,
}

-- `getPlatformByID`; the read with its preloaded endpoints counts as one call.
unfoldable pub get_platform_by_id : ℕ → Run Platform
unfolding first_row
get_platform_by_id id =
    query (λ t. or_not_found (first_row (λ (p : Platform). p.id == id) t.platforms))

unfoldable pub validate_platform_exists : ℕ → Run (Unit {0})
unfolding get_platform_by_id
validate_platform_exists id = get_platform_by_id id >>= λ p. pure tt

abbrev pub number_rows : ℕ → List Endpoint → List Endpoint
number_rows n [] = []
number_rows n (e ∷ es) = record e { id = n } ∷ number_rows (suc n) es

-- `CreateInBatches`, which stands under a savepoint: all rows are made, or none.
unfoldable pub create_in_batches : List Endpoint → Run (List Endpoint)
create_in_batches es = write (λ t.
    let rows = number_rows t.next_endpoint es in
    (
      rows,
      record t { endpoints = t.endpoints ++ rows; next_endpoint = t.next_endpoint + length es },
    ))

abbrev pub assign : ℕ → List Endpoint → List Endpoint
assign platform_id [] = []
assign platform_id (e ∷ es) = record e { id = 0; platform_id = platform_id } ∷ assign platform_id es

abbrev pub any_default : List Endpoint → Bool
any_default [] = false
any_default (e ∷ es) = e.is_default || any_default es

abbrev pub check_if : Bool → ℕ → Run (Unit {0})
check_if b platform_id = if b then check_default_unique platform_id else pure tt

-- The body of the transaction of the batch addition.
unfoldable pub create_all : ℕ → List Endpoint → Run (List Endpoint)
unfolding create_in_batches check_default_unique
create_all platform_id es = create_in_batches (assign platform_id es) >>= λ rows.
    check_if (any_default es) platform_id >>= λ u. pure rows

-- `BatchAddEndpointsToPlatform`.
unfoldable pub batch_add_endpoints : ℕ → List Endpoint → Run (List Endpoint)
unfolding validate_platform_exists create_all
batch_add_endpoints platform_id [] = raise no_items
batch_add_endpoints platform_id (e ∷ es) =
    validate_platform_exists platform_id >>= λ u. within_tx (create_all platform_id (e ∷ es))

-- `endpointUpdateGroup`, with the ids of `groupIDs`.
pub record Group : Type 0 where
  pub payload : Endpoint
  pub select_fields : List Field
  pub ids : List ℕ

abbrev pub Groups : Type 0
Groups = Assoc Text Group

abbrev pub join_group : Option Group → EndpointUpdateItem → ℕ → Group
join_group none i id = record {
  payload = item_payload i;
  select_fields = item_fields i;
  ids = id ∷ [];
}
join_group (some g) i id = record g { ids = g.ids ++ id ∷ [] }

abbrev pub group_item : EndpointUpdateItem → ℕ → Assoc Text Value → Groups → Groups
group_item i id [] groups = groups
group_item i id (u ∷ us) groups =
    let signature = update_signature (u ∷ us) in
    insert signature (join_group (lookup signature groups) i id) groups

unfoldable pub find_item : ℕ → List EndpointUpdateItem → Option EndpointUpdateItem
find_item id [] = none
find_item id (i ∷ is) = if i.id == id then some i else find_item id is

abbrev pub add_item : Option EndpointUpdateItem → ℕ → Groups → Groups
add_item none id groups = groups
add_item (some i) id groups = group_item i id (item_updates i) groups

-- The loop over the endpoints that were found.
unfoldable pub collect_groups : List EndpointUpdateItem → List Endpoint → Groups → Groups
unfolding find_item update_signature item_payload item_fields item_updates lookup insert
collect_groups items [] groups = groups
collect_groups items (e ∷ es) groups =
    collect_groups items es (add_item (find_item e.id items) e.id groups)

abbrev pub gives_default : Option EndpointUpdateItem → Bool
gives_default none = false
gives_default (some i) = is_some i.is_default

unfoldable pub contains_default : List EndpointUpdateItem → List Endpoint → Bool
unfolding find_item
contains_default items [] = false
contains_default items (e ∷ es) = gives_default (find_item e.id items) || contains_default items es

unfoldable pub update_groups : Groups → Run (Unit {0})
unfolding update_where
update_groups [] = pure tt
update_groups ((signature, g) ∷ groups) =
    update_where (λ e. contains e.id g.ids) (set_fields g.payload g.select_fields) >>= λ n.
    update_groups groups

-- The ids of the items, each of which is given and stands once.
unfoldable pub item_ids : List ℕ → List EndpointUpdateItem → Answer (List ℕ)
item_ids seen [] = returns seen
item_ids seen (i ∷ is) =
    let rest = item_ids (seen ++ i.id ∷ []) is in
    if i.id == 0 then fails missing_id else if contains i.id seen then fails duplicate_id else rest

abbrev pub reply {ℓ} : {A : Type ℓ} → Answer A → Run A
reply r s = (r, s)

abbrev pub is_listed : List ℕ → ℕ → Endpoint → Bool
is_listed ids platform_id e = contains e.id ids && is_of platform_id e

unfoldable pub find_listed : List ℕ → ℕ → Run (List Endpoint)
unfolding rows_where
find_listed ids platform_id =
    query (λ t. returns (rows_where (is_listed ids platform_id) t.endpoints))

unfoldable pub find_by_ids : List ℕ → Run (List Endpoint)
unfolding rows_where
find_by_ids ids = query (λ t. returns (rows_where (λ e. contains e.id ids) t.endpoints))

-- The body of the transaction of the batch update.
unfoldable pub update_all :
    ℕ → List EndpointUpdateItem → List ℕ → List Endpoint → Run (List Endpoint)
unfolding collect_groups contains_default update_groups find_by_ids check_default_unique
update_all platform_id items ids existing =
    update_groups (collect_groups items existing []) >>= λ u.
    check_if (contains_default items existing) platform_id >>= λ u. find_by_ids ids

unfoldable pub update_listed :
    ℕ → List EndpointUpdateItem → List ℕ → List Endpoint → Run (List Endpoint)
unfolding update_all
update_listed platform_id items ids existing =
    if length existing == length ids
    then within_tx (update_all platform_id items ids existing)
    else raise resource_not_found

-- `BatchUpdateEndpoints`; the groups are taken in the order in which they were made.
unfoldable pub batch_update_endpoints : ℕ → List EndpointUpdateItem → Run (List Endpoint)
unfolding validate_platform_exists item_ids find_listed update_listed
batch_update_endpoints platform_id [] = raise no_items
batch_update_endpoints platform_id (i ∷ is) = validate_platform_exists platform_id >>= λ u.
    reply (item_ids [] (i ∷ is)) >>= λ ids.
    find_listed ids platform_id >>= λ existing. update_listed platform_id (i ∷ is) ids existing
