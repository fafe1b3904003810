-- ===== src/Control/Keys/Restoring.antt =====
-- The restoration of the relations of a key whose deletion is undone (key_delete_app_service.go of
-- internal/app/provider).
use pinai.Base.{
  ℕ, ◌≡◌, refl, sym, ap, ◌∙◌, Bool, true, false, List, [], ◌∷◌, some, arith, ◌==◌, if◌then◌else◌,
}
use pinai.Control.{
  AuditEvent, Key, Model, Tables, Store, audited, database, fails, key_delete, later, log,
  or_restore, pure, raise, resource_not_found, returns, within_tx, ◌>>=◌,
}
use pinai.Control.Steps.{audited_fails, audited_returns, bind_fails, bind_returns}
use pinai.Control.Rows.{delete_rows, first_row, count_rows}
use pinai.Control.Links.{
  append_api_key_models, add_models, linked, list_models_by_api_key, models_of, of_key,
}
use pinai.Control.Links.Pairs.{IsRelated}
use pinai.Control.Keys.{
  clear_backed_up, delete_backed_up, delete_cleared_key, end_deletion, delete_found, delete_key,
  delete_or_restore, delete_api_key_by_id, get_api_key, key_has_id,
}
use pinai.Control.Keys.Relinking.{linked-restored}

-- The call of the deletion's transaction that the database refuses.
pub data Refused : Type 0 where
  at_begin at_delete at_commit : Refused

-- The three calls before the transaction are served.
abbrev pub refuse : Refused → List Bool
refuse at_begin = false ∷ false ∷ false ∷ true ∷ []
refuse at_delete = false ∷ false ∷ false ∷ false ∷ true ∷ []
refuse at_commit = false ∷ false ∷ false ∷ false ∷ false ∷ true ∷ []

first_row-count :
    (id : ℕ) (ks : List Key) (k : Key)
    → first_row (key_has_id id) ks ≡ some k
    → (count_rows (key_has_id id) ks == 0) ≡ false
unfolding first_row count_rows
first_row-count id [] k h = absurd cc
first_row-count id (x ∷ ks) k h = ground (arith, h, first_row-count id ks k)

abbrev pub start : Refused → Tables → List AuditEvent → Store
start r t events = record { tables = t; faults = refuse r; events = events }

-- The tables of before, with the relations cleared and restored.
restored : ℕ → Tables → Tables
restored id t = record t {
  links = add_models id (models_of id t) (delete_rows (of_key id) t.links);
}

-- The store before the transaction, with the relations cleared, and the one after the restoration.
abbrev cleared : Refused → ℕ → Tables → List AuditEvent → Store
cleared r id t events = record {
  tables = record t { links = delete_rows (of_key id) t.links };
  faults = later (later (later (refuse r)));
  events = events;
}

abbrev undone : ℕ → Tables → List Model → List AuditEvent → Store
undone id t ms events = record {
  tables = record t { links = add_models id ms (delete_rows (of_key id) t.links) };
  faults = [];
  events = events;
}

read_key :
    (r : Refused) (id : ℕ) (t : Tables) (events : List AuditEvent) (k : Key)
    → first_row (key_has_id id) t.keys ≡ some k
    → get_api_key id (start r t events)
      ≡ (returns k, record (start r t events) { faults = later (refuse r) })
unfolding get_api_key
read_key at_begin id t events k found = rw found refl
read_key at_delete id t events k found = rw found refl
read_key at_commit id t events k found = rw found refl

transaction_undone :
    (r : Refused) (id : ℕ) (t : Tables) (events : List AuditEvent) (m : Model) (ms : List Model)
    → (count_rows (key_has_id id) t.keys == 0) ≡ false
    → delete_or_restore id (m ∷ ms) (cleared r id t events)
      ≡ (fails database, undone id t (m ∷ ms) events)
unfolding delete_or_restore delete_api_key_by_id append_api_key_models
transaction_undone at_begin id t events m ms there = refl
transaction_undone at_delete id t events m ms there = refl
transaction_undone at_commit id t events m ms there =
    ap
      (λ (b : Bool).
        or_restore
          (within_tx
            (delete_api_key_by_id id >>= λ n. if b then raise resource_not_found else pure tt))
          (append_api_key_models id (m ∷ ms)) (cleared at_commit id t events))
      there

clear_served :
    (r : Refused) (id : ℕ) (t : Tables) (events : List AuditEvent) (m : Model) (ms : List Model)
    → clear_backed_up id
        (m ∷ ms)
        (record { tables = t; faults = later (later (refuse r)); events = events })
      ≡ (returns tt, cleared r id t events)
unfolding clear_backed_up
clear_served at_begin id t events m ms = refl
clear_served at_delete id t events m ms = refl
clear_served at_commit id t events m ms = refl

list_served :
    (r : Refused) (id : ℕ) (t : Tables) (events : List AuditEvent)
    → list_models_by_api_key id (record { tables = t; faults = later (refuse r); events = events })
      ≡ (
        returns (models_of id t),
        record { tables = t; faults = later (later (refuse r)); events = events },
      )
unfolding list_models_by_api_key
list_served at_begin id t events = refl
list_served at_delete id t events = refl
list_served at_commit id t events = refl

undone_deletion :
    (r : Refused) (id : ℕ) (t : Tables) (events : List AuditEvent) (k : Key) (m : Model)
    (ms : List Model)
    → first_row (key_has_id id) t.keys ≡ some k
    → models_of id t ≡ m ∷ ms
    → delete_key id (start r t events)
      ≡ (fails database, log key_delete id false (undone id t (m ∷ ms) events))
unfolding delete_key delete_found
undone_deletion r id t events k m ms found backup =
    let s0 = start r t events in
    let s1 : Store = record { tables = t; faults = later (refuse r); events = events } in
    let s2 : Store = record { tables = t; faults = later (later (refuse r)); events = events } in
    let s3 = cleared r id t events in
    let listed : list_models_by_api_key id s1 ≡ (returns (m ∷ ms), s2) =
      list_served r id t events ∙ ap (λ b. (returns b, s2)) backup in
    bind_returns (audited key_delete id (get_api_key id)) (delete_found id) s0
      (audited_returns key_delete id (get_api_key id) s0 (read_key r id t events k found))
    ∙ bind_returns (audited key_delete id (list_models_by_api_key id)) (delete_backed_up id k) s1
        (audited_returns key_delete id (list_models_by_api_key id) s1 listed)
    ∙ bind_returns (audited key_delete id (clear_backed_up id (m ∷ ms)))
        (delete_cleared_key id k (m ∷ ms)) s2
        (audited_returns key_delete id (clear_backed_up id (m ∷ ms)) s2
          (clear_served r id t events m ms))
    ∙ bind_fails (audited key_delete id (delete_or_restore id (m ∷ ms))) (end_deletion id k) s3 (
        audited_fails key_delete id (delete_or_restore id (m ∷ ms)) s3
          (transaction_undone r id t events m ms (first_row-count id t.keys k found)))

-- When the database refuses the transaction in which a related key is deleted, at its begin, its
-- deletion or its commit, and serves the other calls, the deletion fails, and leaves the keys, the
-- models and the relations as they were.
pub delete_key_restores :
    (r : Refused) (id : ℕ) (t : Tables) (events : List AuditEvent) (k : Key) (m : Model)
    (ms : List Model)
    → IsRelated t
    → first_row (key_has_id id) t.keys ≡ some k
    → models_of id t ≡ m ∷ ms
    → ((delete_key id (start r t events)).0 ≡ fails database)
      × ((delete_key id (start r t events)).1.tables.keys ≡ t.keys)
      × ((delete_key id (start r t events)).1.tables.models ≡ t.models)
      × ((i j : ℕ)
          → linked i j (delete_key id (start r t events)).1.tables.links ≡ linked i j t.links)
delete_key_restores r id t events k m ms h found backup =
    let run = undone_deletion r id t events k m ms found backup in
    (
      ap (λ x. x.0) run,
      ap (λ x. x.1.tables.keys) run,
      ap (λ x. x.1.tables.models) run,
      λ i j.
          ap (λ x. linked i j x.1.tables.links) run
          ∙ ap (λ b. linked i j (add_models id b (delete_rows (of_key id) t.links))) (sym backup)
          ∙ linked-restored i j id t h,
    )
