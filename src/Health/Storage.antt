-- ===== src/Health/Storage.antt =====
-- internal/app/health/storage.go: a cache in memory over the table of health records. The cache is
-- a `sync.Map`, here an association list with one entry for a key; `Range` walks it in an order
-- that no result below depends on. One call at a time.
pub mod Key
pub mod Coherence
use pinai.Base.{
  ℕ, ◌++◌, Bool, true, false, List, [], ◌∷◌, Option, none, some, ◌&&◌, ◌==◌, if◌then◌else◌, ◌≡◌,
}
use pinai.Base.Text.{Text, format_uint, text_eq_eq}
use pinai.Base.Assoc.{Assoc, lookup, insert, remove}
use pinai.Health.{Health}

-- The table as gorm serves it. A call that fails leaves it alone. `save` also returns the record as
-- gorm leaves it: it sets the time fields of the struct that it is handed.
pub record Table : Type 1 where
  pub Db : Type 0
  pub find : Db → Option (List Health)
  pub save : Health → Db → Health × Option Db
  pub delete : ℕ → ℕ → Db → Option Db

pub data Error : Type 0 where
  load_failed save_failed delete_failed : Error

-- `makeKey`: "%d:%d".
unfoldable pub make_key : ℕ → ℕ → Text
unfolding format_uint
make_key resource_type resource_id = format_uint resource_type ++ (b':' ∷ format_uint resource_id)

abbrev pub key_of : Health → Text
key_of h = make_key h.resource_type h.resource_id

pub record Storage (T : Table) : Type 0 where
  pub cache : Assoc Text Health
  pub db : T.Db

abbrev is_of_type : ℕ → Health → Bool
is_of_type t h = h.resource_type == t

-- The loop of `loadFromDatabase`.
unfoldable pub load_all : List Health → Assoc Text Health → Assoc Text Health
load_all [] cache = cache
load_all (h ∷ hs) cache = load_all hs (insert (key_of h) h cache)

module _ {T : Table} where
  -- `NewStorage`, with the load.
  unfoldable pub new_storage : T.Db → Option (Storage T)
  unfolding load_all
  new_storage db = elim (T.find db) [
    | none ↦ none
    | some hs ↦ some (record { cache = load_all hs []; db = db })
  ]

  unfoldable pub get : ℕ → ℕ → Storage T → Option Health
  unfolding lookup
  get resource_type resource_id s = lookup (make_key resource_type resource_id) s.cache

  -- The cache holds the pointer that is handed to the database, so what gorm writes into the record
  -- shows in the cache, also when the call fails.
  unfoldable pub set_status : Health → Storage T → Storage T × Option Error
  unfolding insert
  set_status h s =
      let (saved, result) = T.save h s.db in
      let cache = insert (key_of h) saved s.cache in
      elim result [
        | none ↦ (record s { cache = cache }, some save_failed)
        | some db ↦ (record { cache = cache; db = db }, none)
      ]

  unfoldable pub delete : ℕ → ℕ → Storage T → Storage T × Option Error
  unfolding remove
  delete resource_type resource_id s =
      let cache = remove (make_key resource_type resource_id) s.cache in
      elim (T.delete resource_type resource_id s.db) [
        | none ↦ (record s { cache = cache }, some delete_failed)
        | some db ↦ (record { cache = cache; db = db }, none)
      ]

-- `GetByResourceType` and `GetByStatus`: the loop of `Range`.
unfoldable pub by_resource_type : ℕ → Assoc Text Health → List Health
by_resource_type t [] = []
by_resource_type t ((k, h) ∷ m) =
    let rest = by_resource_type t m in if h.resource_type == t then h ∷ rest else rest

unfoldable pub by_status : ℕ → Assoc Text Health → List Health
by_status st [] = []
by_status st ((k, h) ∷ m) = let rest = by_status st m in if h.status == st then h ∷ rest else rest

-- The first record of a list with the given type and id.
abbrev pub find_first : ℕ → ℕ → List Health → Option Health
find_first t id [] = none
find_first t id (h ∷ hs) =
    if (h.resource_type == t) && (h.resource_id == id) then some h else find_first t id hs

-- No type and id stand twice.
abbrev pub IsUnique : List Health → Type 0
IsUnique [] = Unit
IsUnique (h ∷ hs) = (find_first h.resource_type h.resource_id hs ≡ none) × IsUnique hs

-- A record but for the two times of its row, which gorm and the table set.
abbrev pub without_times : Health → Health
without_times h = record h { created_at = 0; updated_at = 0 }

abbrev pub timeless : Option Health → Option Health
timeless none = none
timeless (some h) = some (without_times h)

-- What the code relies on of the table: it is a map from primary keys to records.
pub record IsTable (T : Table) : Type 0 where
  pub row : ℕ → ℕ → T.Db → Option Health
  -- `Find` returns every row, once.
  pub find_row :
      (db : T.Db) (hs : List Health)
      → T.find db ≡ some hs
      → (t id : ℕ) → find_first t id hs ≡ row t id db
  pub find_unique : (db : T.Db) (hs : List Health) → T.find db ≡ some hs → IsUnique hs
  -- `Save` writes nothing into the record but its two time fields.
  pub save_times :
      (h : Health) (db : T.Db)
      → (T.save h db).0 ≡ record h {
        created_at = (T.save h db).0.created_at;
        updated_at = (T.save h db).0.updated_at;
      }
  -- `Save` inserts the row or updates the one that is there. The two times of the row are left
  -- open: an update keeps the time of the creation and sets its own time of the update.
  pub row-save :
      (h : Health) (db db' : T.Db)
      → (T.save h db).1 ≡ some db'
      → (t id : ℕ)
      → timeless (row t id db') ≡ (
          if (h.resource_type == t) && (h.resource_id == id)
          then some (without_times (T.save h db).0)
          else timeless (row t id db))
  pub row-delete :
      (t0 id0 : ℕ) (db db' : T.Db)
      → T.delete t0 id0 db ≡ some db'
      → (t id : ℕ) → row t id db' ≡ (if (t0 == t) && (id0 == id) then none else row t id db)
