-- ===== src/Control/Endpoints/Requests.antt =====
-- The operations on endpoints of internal/app/provider as the requests of one service: add, update
-- and delete (endpoint_add_app_service.go, endpoint_update_app_service.go,
-- endpoint_delete_app_service.go), batch add and batch update (endpoint.go).
use pinai.Base.{
  ℕ, ◌≡◌, refl, sym, true, Bool, List, [], ◌∷◌, some, if◌then◌else◌, length, ◌==◌, false,
}
use pinai.Control.{
  Endpoint, Tables, Store, returns, fails, ControlError, Run, pure, raise, ◌>>=◌, audited,
  endpoint_create, endpoint_update, endpoint_delete, no_items, resource_not_found, within_tx,
}
use pinai.Control.Rows.{first_row}
use pinai.Control.Rules.{
  Ends, Ensures, at_end, audited_rule, bind_rule, on_failure, on_return, pure_rule, raise_rule,
  succeed_rule, trivial_rule, weaken, within_tx_rule,
}
use pinai.Control.Endpoints.{
  add_endpoint, create_checked, delete_and_move, delete_endpoint, has_id, update_checked,
  update_endpoint,
}
use pinai.Control.Endpoints.Signature.{EndpointUpdateItem}
use pinai.Control.Endpoints.Batch.{
  batch_add_endpoints, batch_update_endpoints, create_all, item_ids, update_all, update_listed,
}
use pinai.Control.Endpoints.Defaults.{IsSound, get_endpoint_rule}
use pinai.Control.Endpoints.Uniqueness.{add_endpoint_rule, platform_exists_rule}
use pinai.Control.Endpoints.Moving.{HasDefault}
use pinai.Control.Endpoints.Single.{
  KeepsDefault, delete_and_move_rule, delete_endpoint_rule, update_endpoint_rule,
}
use pinai.Control.Endpoints.Together.{batch_add_endpoints_rule, validate_platform_exists_rule}
use pinai.Control.Endpoints.Grouped.{batch_update_endpoints_rule, find_listed_rule, reply_rule}

pub data EndpointRequest : Type 0 where
  add : ℕ → Endpoint → EndpointRequest
  update : ℕ → Endpoint → EndpointRequest
  delete : ℕ → EndpointRequest
  batch_add : ℕ → List Endpoint → EndpointRequest
  batch_update : ℕ → List EndpointUpdateItem → EndpointRequest

unfoldable pub handle : EndpointRequest → Run (Unit {0})
unfolding add_endpoint update_endpoint delete_endpoint batch_add_endpoints batch_update_endpoints
handle (add p e) = add_endpoint p e >>= λ r. pure tt
handle (update id e) = update_endpoint id e >>= λ r. pure tt
handle (delete id) = delete_endpoint id
handle (batch_add p es) = batch_add_endpoints p es >>= λ r. pure tt
handle (batch_update p is) = batch_update_endpoints p is >>= λ r. pure tt

unfoldable pub handle_all : List EndpointRequest → Store → Store
unfolding handle
handle_all [] s = s
handle_all (r ∷ rs) s = handle_all rs (handle r s).1

handle_rule : (r : EndpointRequest) → Ensures IsSound (handle r) (λ u. IsSound) IsSound
unfolding handle
handle_rule (add p e) = bind_rule (add_endpoint_rule p e) (λ r. pure_rule tt (λ t h. h))
handle_rule (update id e) = bind_rule (update_endpoint_rule id e) (λ r. pure_rule tt (λ t h. h))
handle_rule (delete id) = delete_endpoint_rule id
handle_rule (batch_add p es) =
    bind_rule (batch_add_endpoints_rule p es) (λ r. pure_rule tt (λ t h. h))
handle_rule (batch_update p is) =
    bind_rule (batch_update_endpoints_rule p is) (λ r. pure_rule tt (λ t h. h))

-- Whatever requests are handled, and whatever calls the database refuses, the endpoints keep ids of
-- their own and no platform comes to have two default endpoints.
pub handle_all-IsSound :
    (rs : List EndpointRequest) (s : Store) → IsSound s.tables → IsSound (handle_all rs s).tables
unfolding handle_all
handle_all-IsSound [] s h = h
handle_all-IsSound (r ∷ rs) s h = handle_all-IsSound rs (handle r s).1 (at_end (handle_rule r) s h)

-- The tables are those of the start.
abbrev Same : Tables → Tables → Type 0
Same before t = t ≡ before

-- A step that fails leaves the tables of the start.
abbrev IsAtomic {ℓ} : {A : Type ℓ} → Tables → Run A → Type ℓ
IsAtomic before m = Ensures (Same before) m (λ a t. Unit) (Same before)

within_tx-IsAtomic : {A : Type 0} (before : Tables) (m : Run A) → IsAtomic before (within_tx m)
within_tx-IsAtomic before m = within_tx_rule m (λ t h. h) (trivial_rule m)

add_endpoint-IsAtomic :
    (before : Tables) (p : ℕ) (e : Endpoint) → IsAtomic before (add_endpoint p e)
unfolding add_endpoint
add_endpoint-IsAtomic before p e =
    bind_rule (audited_rule endpoint_create 0 _ (platform_exists_rule p)) (λ exists.
      bind_rule (audited_rule endpoint_create 0 _ (created exists))
        (λ row. succeed_rule endpoint_create row.id row (λ t h. h)))
  where
    created :
        (b : Bool)
        → Ensures {0}
            (Same before)
            (if b
              then within_tx (create_checked p (record e { id = 0; platform_id = p }))
              else raise resource_not_found)
            (λ r t. Unit)
            (Same before)
    created true =
        within_tx-IsAtomic before (create_checked p (record e { id = 0; platform_id = p }))
    created false = raise_rule resource_not_found (λ t h. h)

update_endpoint-IsAtomic :
    (before : Tables) (id : ℕ) (e : Endpoint) → IsAtomic before (update_endpoint id e)
unfolding update_endpoint
update_endpoint-IsAtomic before id e =
    bind_rule (audited_rule endpoint_update id _ (get_endpoint_rule id)) (λ existing.
      bind_rule
        (audited_rule endpoint_update id _ (
          weaken (λ t h. h.0) (λ r t h. h) (λ t h. h)
            (within_tx-IsAtomic before (update_checked id e existing.platform_id))))
        (λ r. succeed_rule endpoint_update id r (λ t h. h)))

delete_endpoint-IsAtomic : (before : Tables) (id : ℕ) → IsAtomic before (delete_endpoint id)
unfolding delete_endpoint
delete_endpoint-IsAtomic before id =
    bind_rule (audited_rule endpoint_delete id _ (get_endpoint_rule id)) (λ existing.
      bind_rule
        (audited_rule endpoint_delete id _ (
          weaken (λ t h. h.0) (λ r t h. h) (λ t h. h)
            (within_tx-IsAtomic before (delete_and_move id existing))))
        (λ r. succeed_rule endpoint_delete id r (λ t h. h)))

batch_add_endpoints-IsAtomic :
    (before : Tables) (p : ℕ) (es : List Endpoint) → IsAtomic before (batch_add_endpoints p es)
unfolding batch_add_endpoints
batch_add_endpoints-IsAtomic before p [] = raise_rule no_items (λ t h. h)
batch_add_endpoints-IsAtomic before p (e ∷ es) =
    bind_rule (validate_platform_exists_rule p)
      (λ u. within_tx-IsAtomic before (create_all p (e ∷ es)))

batch_update_endpoints-IsAtomic :
    (before : Tables) (p : ℕ) (is : List EndpointUpdateItem)
    → IsAtomic before (batch_update_endpoints p is)
unfolding batch_update_endpoints update_listed
batch_update_endpoints-IsAtomic before p [] = raise_rule no_items (λ t h. h)
batch_update_endpoints-IsAtomic before p (i ∷ is) =
    bind_rule (validate_platform_exists_rule p) (λ u.
      bind_rule (reply_rule (item_ids [] (i ∷ is))) (λ ids.
        bind_rule
          (weaken (λ t h. h) (λ ex t h. h.0) (λ t h. h) (find_listed_rule {P = Same before} ids p))
          (λ existing. matched ids existing (length existing == length ids))))
  where
    matched :
        (ids : List ℕ) (existing : List Endpoint) (b : Bool)
        → Ensures {0}
            (Same before)
            (if b then within_tx (update_all p (i ∷ is) ids existing) else raise resource_not_found)
            (λ r t. Unit)
            (Same before)
    matched ids existing true = within_tx-IsAtomic before (update_all p (i ∷ is) ids existing)
    matched ids existing false = raise_rule resource_not_found (λ t h. h)

handle-IsAtomic : (before : Tables) (r : EndpointRequest) → IsAtomic before (handle r)
unfolding handle
handle-IsAtomic before (add p e) =
    bind_rule (add_endpoint-IsAtomic before p e) (λ r. pure_rule tt (λ t h. h))
handle-IsAtomic before (update id e) =
    bind_rule (update_endpoint-IsAtomic before id e) (λ r. pure_rule tt (λ t h. h))
handle-IsAtomic before (delete id) = delete_endpoint-IsAtomic before id
handle-IsAtomic before (batch_add p es) =
    bind_rule (batch_add_endpoints-IsAtomic before p es) (λ r. pure_rule tt (λ t h. h))
handle-IsAtomic before (batch_update p is) =
    bind_rule (batch_update_endpoints-IsAtomic before p is) (λ r. pure_rule tt (λ t h. h))

-- A request that fails, for whatever reason and at whatever call, leaves the tables as they were.
pub handle-unchanged :
    (r : EndpointRequest) (s : Store) (e : ControlError)
    → (handle r s).0 ≡ fails e
    → (handle r s).1.tables ≡ s.tables
handle-unchanged r s e failed = on_failure (handle-IsAtomic s.tables r) s refl e failed

deleted_rule :
    (id : ℕ) (e : Endpoint)
    → Ensures
        (λ t. IsSound t × (first_row (has_id id) t.endpoints ≡ some e))
        (delete_endpoint id)
        (λ u. KeepsDefault e)
        (λ t. Unit)
unfolding delete_endpoint
deleted_rule id e =
    bind_rule
      (audited_rule endpoint_delete id _
        (weaken (λ t h. h) (λ x t h. h) (λ t h. tt) (get_endpoint_rule id)))
      (λ x. bind_rule (moved x) (λ u. succeed_rule endpoint_delete id u (λ t h. h)))
  where
    Found : Endpoint → Tables → Type 0
    Found x t =
        (IsSound t × (first_row (has_id id) t.endpoints ≡ some e))
        × (first_row (has_id id) t.endpoints ≡ some x)

    moved :
        (x : Endpoint)
        → Ensures {0}
            (Found x)
            (audited endpoint_delete id (within_tx (delete_and_move id x)))
            (λ u. KeepsDefault e)
            (λ t. Unit)
    moved x =
        audited_rule endpoint_delete id _
          (within_tx_rule (delete_and_move id x) (λ t h. tt) (record { run = moving }))
      where
        moving :
            (s : Store)
            → Found x s.tables
            → Ends
                (λ u. KeepsDefault e)
                (λ t. Unit)
                (delete_and_move id x s).0
                (delete_and_move id x s).1.tables
        moving s ((h, found), read) =
            let same : x ≡ e = cc in
            (weaken {F' = λ t. Unit} {Q' = λ u. KeepsDefault e} (λ t h. h)
                (λ u t h. rw (sym same) h.1) (λ t h. tt) (delete_and_move_rule id x)).run
              s h

-- When the default endpoint of a platform is deleted, the platform then has just one default
-- endpoint, or no endpoint is left.
pub delete_endpoint-HasDefault :
    (id : ℕ) (e : Endpoint) (s : Store)
    → IsSound s.tables
    → first_row (has_id id) s.tables.endpoints ≡ some e
    → e.is_default ≡ true
    → (delete_endpoint id s).0 ≡ returns tt
    → HasDefault e.platform_id (delete_endpoint id s).1.tables
delete_endpoint-HasDefault id e s h found default done =
    rw default at (on_return (deleted_rule id e) s (h, found) tt done)
