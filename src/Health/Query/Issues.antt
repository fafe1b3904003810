-- ===== src/Health/Query/Issues.antt =====
-- `GetIssues` of service_query.go. The three queries and `sort.Slice` are arguments; `none` is an
-- error of the database.
pub mod Pointwise
use pinai.Base.{
  ℕ, Bool, true, false, not, List, [], ◌∷◌, ◌++◌, Option, none, some, ◌==◌, if◌then◌else◌,
}
use pinai.Base.Text.{Text, nat_eq, is_empty}
use pinai.Base.Assoc.{Assoc, lookup, insert}
use pinai.Health.{Health, status_unavailable, resource_platform, resource_api_key, resource_model}
use pinai.Health.Storage.{by_status}
use pinai.Health.Counts.Summary.{member}
use pinai.Health.Query.Lists.{ItemHealth, item_health, index_rows}

-- A key or a model: its text (the value or the name) and its platform.
pub record Owned : Type 0 where
  pub text : Text
  pub platform_id : ℕ

pub record IssueItem : Type 0 where
  pub resource_type : ℕ
  pub resource_id : ℕ
  pub resource_name : Text
  pub platform_name : Option Text
  pub health : ItemHealth

pub data IssueError : Type 0 where
  keys_failed models_failed platforms_failed : IssueError

pub data Issues : Type 0 where
  issues : List IssueItem → Issues
  failed : IssueError → Issues

-- The ids of one type, in the order of the records: one branch of the loop that groups them.
unfoldable pub ids_of_type : ℕ → List Health → List ℕ
ids_of_type t [] = []
ids_of_type t (h ∷ hs) =
    let rest = ids_of_type t hs in if h.resource_type == t then h.resource_id ∷ rest else rest

-- A query that is not sent when there is nothing to ask for.
unfoldable pub fetch_map :
    {Row : Type 0} → (List ℕ → Option (List (ℕ × Row))) → List ℕ → Option (Assoc ℕ Row)
unfolding index_rows
fetch_map fetch [] = some []
fetch_map fetch (id ∷ ids) = elim (fetch (id ∷ ids)) [
  | none ↦ none
  | some rows ↦ some (index_rows rows [])
]

-- `allPlatformIDs`, a set: an id is added once.
abbrev add_id : ℕ → List ℕ → List ℕ
add_id id ids = if member id ids then ids else id ∷ ids

unfoldable pub add_ids : List ℕ → List ℕ → List ℕ
add_ids [] set = set
add_ids (id ∷ ids) set = add_id id (add_ids ids set)

unfoldable pub platforms_of : Assoc ℕ Owned → List ℕ
platforms_of [] = []
platforms_of ((id, o) ∷ m) = o.platform_id ∷ platforms_of m

-- A missing key of a Go map of strings reads as the empty string.
abbrev pub text_or_empty : Option Text → Text
text_or_empty none = []
text_or_empty (some t) = t

abbrev pub owned_text : Option Owned → Text
owned_text none = []
owned_text (some o) = o.text

abbrev pub non_empty : Text → Option Text
non_empty [] = none
non_empty (c ∷ s) = some (c ∷ s)

abbrev pub platform_of : (ℕ → Option Text) → Option Owned → Option Text
platform_of platforms none = none
platform_of platforms (some o) = non_empty (text_or_empty (platforms o.platform_id))

abbrev pub issue_item : Health → Text → Option Text → IssueItem
issue_item h name platform_name = record {
  resource_type = h.resource_type;
  resource_id = h.resource_id;
  resource_name = name;
  platform_name = platform_name;
  health = item_health h;
}

-- The two `switch` results for a record: its name and the name of its platform.
unfoldable pub resource_name :
    (keys models : ℕ → Option Owned) (platforms : ℕ → Option Text) → Health → Text
resource_name keys models platforms h =
    if h.resource_type == resource_platform
    then text_or_empty (platforms h.resource_id)
    else if h.resource_type == resource_api_key
    then owned_text (keys h.resource_id)
    else if h.resource_type == resource_model
    then owned_text (models h.resource_id)
    else []

unfoldable pub platform_name :
    (keys models : ℕ → Option Owned) (platforms : ℕ → Option Text) → Health → Option Text
platform_name keys models platforms h =
    if h.resource_type == resource_platform
    then none
    else if h.resource_type == resource_api_key
    then platform_of platforms (keys h.resource_id)
    else if h.resource_type == resource_model
    then platform_of platforms (models h.resource_id)
    else none

-- The loop that puts the items together; a record without a name is left out.
unfoldable pub issue_items :
    (keys models : ℕ → Option Owned) (platforms : ℕ → Option Text) → List Health → List IssueItem
unfolding resource_name platform_name
issue_items keys models platforms [] = []
issue_items keys models platforms (h ∷ hs) =
    let rest = issue_items keys models platforms hs in
    let name = resource_name keys models platforms h in
    if is_empty name then rest else issue_item h name (platform_name keys models platforms h) ∷ rest

module _ (sort : List Health → List Health)
    (fetch_keys fetch_models : List ℕ → Option (List (ℕ × Owned)))
    (fetch_platforms : List ℕ → Option (List (ℕ × Text))) where
  abbrev pub needed_platforms : List Health → Assoc ℕ Owned → Assoc ℕ Owned → List ℕ
  needed_platforms hs keys models =
      add_ids (platforms_of models)
        (add_ids (platforms_of keys) (add_ids (ids_of_type resource_platform hs) []))

  -- The queries and the items, for the sorted records.
  unfoldable pub issues_of : List Health → Issues
  issues_of hs = elim (fetch_map fetch_keys (ids_of_type resource_api_key hs)) [
    | none ↦ failed keys_failed
    | some keys ↦ elim (fetch_map fetch_models (ids_of_type resource_model hs)) [
      | none ↦ failed models_failed
      | some models ↦ elim (fetch_map fetch_platforms (needed_platforms hs keys models)) [
        | none ↦ failed platforms_failed
        | some platforms ↦ issues (
            issue_items (λ id. lookup id keys) (λ id. lookup id models) (λ id. lookup id platforms)
              hs)
      ]
    ]
  ]

  unfoldable pub get_issues : Assoc Text Health → Issues
  unfolding by_status
  get_issues cache =
      let found = by_status status_unavailable cache in
      elim found [ [] ↦ issues [] | h ∷ hs ↦ issues_of (sort (h ∷ hs)) ]
