-- ===== src/Control/Endpoints/Equivalence.antt =====
-- The batch update of endpoints against the update of each endpoint by its own item (endpoint.go of
-- internal/app/provider).
use pinai.Base.{
  ℕ, ◌≡◌, ◌≢◌, refl, sym, ap, ◌∙◌, inl, inr, Bool, true, false, ◌&&◌, ◌||◌, List, [], ◌∷◌, ◌++◌,
  Option, none, some, arith, map, ◌==◌, if◌then◌else◌, Bool-cases, length, ltb,
}
use pinai.Base.Text.{text_eq_eq}
use pinai.Task.{contains}
use pinai.Task.Ownership.{contains-append}
use pinai.Control.{
  Endpoint, Tables, Store, Answer, returns, fails, pure, raise, within_tx, default_conflict,
  no_items, resource_not_found,
}
use pinai.Control.Rows.{AllRows, AreKeyed, all-rows_where, change_rows, rows_where}
use pinai.Control.Rules.{
  Ensures, assume_rule, bind_rule, call_rule, on_return, pure_rule, raise_rule, weaken,
  within_tx_rule,
}
use pinai.Control.Endpoints.{
  check_default_unique, count_default_endpoints_by_platform, is_of, is_some, set_fields,
  update_where,
}
use pinai.Control.Endpoints.Defaults.{IsSound, endpoint_id}
use pinai.Control.Endpoints.Groups.{ids_of}
use pinai.Control.Endpoints.Together.{validate_platform_exists_rule}
use pinai.Control.Endpoints.Grouped.{find_by_ids_rule, find_listed_rule}
use pinai.Control.Endpoints.Signature.{EndpointUpdateItem}
use pinai.Control.Endpoints.Batch.{
  Group, Groups, batch_update_endpoints, check_if, collect_groups, contains_default, find_item,
  is_listed, item_ids, reply, update_all, update_groups, update_listed,
}
use pinai.Control.Endpoints.Applied.{AreSeparate, apply_group, apply_groups, apply_item}
use pinai.Control.Endpoints.Joining.{collect_groups-apply}

-- The endpoints of the platform with the update of their own item, the others as they are.
abbrev pub update_each : ℕ → List EndpointUpdateItem → Endpoint → Endpoint
update_each p items e = if is_of p e then apply_item (find_item e.id items) e else e

map-change_rows :
    (groups : Groups) (g : Group) (es : List Endpoint)
    → map
        (apply_groups groups)
        (change_rows (λ e. contains e.id g.ids) (set_fields g.payload g.select_fields) es)
      ≡ map (λ e. apply_groups groups (apply_group g e)) es
unfolding change_rows
map-change_rows groups g [] = refl
map-change_rows groups g (e ∷ es) =
    ap (λ xs. apply_groups groups (apply_group g e) ∷ xs) (map-change_rows groups g es)

map_id : (es : List Endpoint) → map (λ (e : Endpoint). e) es ≡ es
map_id [] = refl
map_id (e ∷ es) = ap (λ xs. e ∷ xs) (map_id es)

-- What is left to do gives the endpoints that are wanted.
update_groups_rule :
    (groups : Groups) (wanted : List Endpoint)
    → Ensures {0}
        (λ t. map (apply_groups groups) t.endpoints ≡ wanted)
        (update_groups groups)
        (λ u t. t.endpoints ≡ wanted)
        (λ t. Unit)
unfolding update_groups update_where apply_groups
update_groups_rule [] wanted = pure_rule tt (λ t h. sym (map_id t.endpoints) ∙ h)
update_groups_rule ((signature, g) ∷ groups) wanted =
    bind_rule
      (call_rule {Q = λ n t. map (apply_groups groups) t.endpoints ≡ wanted} _ (λ t h. tt)
        (λ t h. map-change_rows groups g t.endpoints ∙ h))
      (λ n. update_groups_rule groups wanted)

-- A row is among the rows that were read just when it satisfies the condition.
listed_iff :
    (n : ℕ) (q : Endpoint → Bool) (es : List Endpoint)
    → AreKeyed endpoint_id n es
    → AllRows (λ e. contains e.id (ids_of (rows_where q es)) ≡ q e) es
unfolding rows_where
listed_iff n q [] h = tt
listed_iff n q (r ∷ es) (below, once, h) = go (listed_iff n q es h) (q r) refl
  where
    absent :
        (rs : List Endpoint) → AllRows (λ x. x.id ≢ r.id) rs → contains r.id (ids_of rs) ≡ false
    absent [] k = refl
    absent (x ∷ rs) (k, ks) = ground (arith, k, absent rs ks)

    more :
        (js : List ℕ) (rs : List Endpoint)
        → AllRows (λ x. x.id ≢ r.id) rs
        → AllRows (λ e. contains e.id js ≡ q e) rs
        → AllRows (λ e. contains e.id (r.id ∷ js) ≡ q e) rs
    more js [] k l = tt
    more js (x ∷ rs) (k, ks) (l, ls) = (ground (arith, l, k), more js rs ks ls)

    go :
        AllRows (λ e. contains e.id (ids_of (rows_where q es)) ≡ q e) es
        → (b : Bool) → q r ≡ b
        → AllRows
            (λ e. contains e.id (ids_of (if b then r ∷ rows_where q es else rows_where q es)) ≡ q e)
            (r ∷ es)
    go rest true c = (ground (arith, c), more (ids_of (rows_where q es)) es once rest)
    go rest false c =
        (absent (rows_where q es) (all-rows_where (λ x. x.id ≢ r.id) q es once) ∙ sym c, rest)

item_ids-contains :
    (j : ℕ) (seen : List ℕ) (items : List EndpointUpdateItem) (ids : List ℕ)
    → item_ids seen items ≡ returns ids
    → contains j ids ≡ (contains j seen || is_some (find_item j items))
unfolding item_ids find_item
item_ids-contains j seen [] ids e = let same : ids ≡ seen = cc in rw same (ground arith)
item_ids-contains j seen (i ∷ is) ids e = elim (Bool-cases (i.id == 0)) [
  | inl c ↦ absurd (ground (arith, c, e))
  | inr c ↦ elim (Bool-cases (contains i.id seen)) [
    | inl d ↦ absurd (ground (arith, c, d, e))
    | inr d ↦
        let rest : item_ids (seen ++ i.id ∷ []) is ≡ returns ids = ground (arith, c, d, e) in
        ground
          (arith, item_ids-contains j (seen ++ i.id ∷ []) is ids rest, contains-append j i.id seen)
  ]
]

keyed-rows_where :
    (n : ℕ) (q : Endpoint → Bool) (es : List Endpoint)
    → AreKeyed endpoint_id n es
    → AreKeyed endpoint_id n (rows_where q es)
unfolding rows_where
keyed-rows_where n q [] h = tt
keyed-rows_where n q (r ∷ es) (below, once, h) = elim (Bool-cases (q r)) [
  | inl c ↦ rw c (below, all-rows_where (λ x. x.id ≢ r.id) q es once, keyed-rows_where n q es h)
  | inr c ↦ rw c (keyed-rows_where n q es h)
]

chosen :
    (o : Option EndpointUpdateItem) (b : Bool) (e : Endpoint)
    → (if is_some o && b then apply_item o e else e) ≡ (if b then apply_item o e else e)
chosen none true e = refl
chosen none false e = refl
chosen (some i) true e = refl
chosen (some i) false e = refl

-- The groups do to the endpoints of the table what each item asks for.
groups_wanted :
    (p : ℕ) (items : List EndpointUpdateItem) (ids : List ℕ) (t : Tables)
    → IsSound t
    → AreSeparate items
    → item_ids [] items ≡ returns ids
    → map
        (apply_groups (collect_groups items (rows_where (is_listed ids p) t.endpoints) []))
        t.endpoints
      ≡ map (update_each p items) t.endpoints
unfolding apply_groups
groups_wanted p items ids t h sep given =
    each t.endpoints (listed_iff t.next_endpoint (is_listed ids p) t.endpoints h.keyed)
  where
    existing : List Endpoint
    existing = rows_where (is_listed ids p) t.endpoints

    no_group : (es : List Endpoint) → AllRows (λ x. Unit) es
    no_group [] = tt
    no_group (e ∷ es) = (tt, no_group es)

    one :
        (e : Endpoint)
        → contains e.id (ids_of existing) ≡ is_listed ids p e
        → apply_groups (collect_groups items existing []) e ≡ update_each p items e
    one e listed =
        let some_item : is_listed ids p e ≡ (is_some (find_item e.id items) && is_of p e) =
          ap (λ (b : Bool). b && is_of p e) (item_ids-contains e.id [] items ids given) in
        collect_groups-apply t.next_endpoint items existing [] e sep
          (keyed-rows_where t.next_endpoint (is_listed ids p) t.endpoints h.keyed) tt
          (no_group existing)
        ∙ ap (λ (b : Bool). if b then apply_item (find_item e.id items) e else e)
            (listed ∙ some_item)
        ∙ chosen (find_item e.id items) (is_of p e) e

    each :
        (es : List Endpoint)
        → AllRows (λ e. contains e.id (ids_of existing) ≡ is_listed ids p e) es
        → map (apply_groups (collect_groups items existing [])) es ≡ map (update_each p items) es
    each [] k = refl
    each (e ∷ es) (k, ks) =
        ap (λ x. x ∷ map (apply_groups (collect_groups items existing [])) es) (one e k)
        ∙ ap (λ xs. update_each p items e ∷ xs) (each es ks)

check_if_keeps :
    {P : Tables → Type 0} (b : Bool) (p : ℕ) → Ensures P (check_if b p) (λ u. P) (λ t. Unit)
unfolding check_default_unique count_default_endpoints_by_platform
check_if_keeps {P = P} true p =
    bind_rule (call_rule {Q = λ n. P} _ (λ t h. tt) (λ t h. h)) (λ n. decided n)
  where
    decided :
        (n : ℕ)
        → Ensures {0} P (if ltb 1 n then raise default_conflict else pure tt) (λ u. P) (λ t. Unit)
    decided n = elim (Bool-cases (ltb 1 n)) [
      | inl e ↦ rw e (raise_rule default_conflict (λ t h. tt))
      | inr e ↦ rw e (pure_rule tt (λ t h. h))
    ]
check_if_keeps false p = pure_rule tt (λ t h. h)

update_listed_rule :
    (p : ℕ) (items : List EndpointUpdateItem) (ids : List ℕ) (existing : List Endpoint)
    (before : Tables)
    → IsSound before
    → AreSeparate items
    → item_ids [] items ≡ returns ids
    → Ensures
        (λ t. (t ≡ before) × (existing ≡ rows_where (is_listed ids p) t.endpoints))
        (update_listed p items ids existing)
        (λ rows t. t.endpoints ≡ map (update_each p items) before.endpoints)
        (λ t. Unit)
unfolding update_listed update_all
update_listed_rule p items ids existing before h sep given = matched (length existing == length ids)
  where
    Start : Tables → Type 0
    Start t = (t ≡ before) × (existing ≡ rows_where (is_listed ids p) t.endpoints)

    wanted : List Endpoint
    wanted = map (update_each p items) before.endpoints

    start :
        (t : Tables)
        → Start t
        → map (apply_groups (collect_groups items existing [])) t.endpoints ≡ wanted
    start t (same, read) =
        ap (λ x. map (apply_groups (collect_groups items x [])) t.endpoints) read
        ∙ ap
            (λ (x : Tables).
              map
                (apply_groups (collect_groups items (rows_where (is_listed ids p) x.endpoints) []))
                x.endpoints)
            same
        ∙ groups_wanted p items ids before h sep given

    matched :
        (b : Bool)
        → Ensures {0} Start
            (if b then within_tx (update_all p items ids existing) else raise resource_not_found)
            (λ rows t. t.endpoints ≡ wanted)
            (λ t. Unit)
    matched true =
        within_tx_rule (update_all p items ids existing) (λ t h. tt)
          (bind_rule
            (weaken start (λ u t h. h) (λ t h. h)
              (update_groups_rule (collect_groups items existing []) wanted))
            (λ u.
              bind_rule (check_if_keeps (contains_default items existing) p)
                (λ u. find_by_ids_rule ids)))
    matched false = raise_rule resource_not_found (λ t h. tt)

reply_known :
    {P : Tables → Type 0} (r : Answer (List ℕ))
    → Ensures {0} P (reply r) (λ ids t. P t × (r ≡ returns ids)) (λ t. Unit)
reply_known (returns ids) = record { run = λ s h. (h, refl) }
reply_known (fails e) = record { run = λ s h. tt }

batch_update_rule :
    (p : ℕ) (items : List EndpointUpdateItem) (before : Tables)
    → IsSound before
    → AreSeparate items
    → Ensures
        (λ t. t ≡ before)
        (batch_update_endpoints p items)
        (λ rows t. t.endpoints ≡ map (update_each p items) before.endpoints)
        (λ t. Unit)
unfolding batch_update_endpoints
batch_update_rule p [] before h sep = raise_rule no_items (λ t h. tt)
batch_update_rule p (i ∷ is) before h sep =
    bind_rule
      (weaken (λ t h. h) (λ u t h. h) (λ t h. tt)
        (validate_platform_exists_rule {P = λ t. t ≡ before} p))
      (λ u. bind_rule (reply_known (item_ids [] (i ∷ is))) (λ ids.
        assume_rule {C = item_ids [] (i ∷ is) ≡ returns ids} (λ given.
          bind_rule
            (weaken (λ t h. h) (λ ex t h. h) (λ t h. tt)
              (find_listed_rule {P = λ t. t ≡ before} ids p))
            (λ existing. update_listed_rule p (i ∷ is) ids existing before h sep given))))

-- A batch update that returns has given each endpoint of the platform the update of its own item,
-- and has left every other endpoint, when items with one signature ask for one update.
pub batch_update_endpoints-map :
    (p : ℕ) (items : List EndpointUpdateItem) (s : Store) (rows : List Endpoint)
    → IsSound s.tables
    → AreSeparate items
    → (batch_update_endpoints p items s).0 ≡ returns rows
    → (batch_update_endpoints p items s).1.tables.endpoints
      ≡ map (update_each p items) s.tables.endpoints
batch_update_endpoints-map p items s rows h sep done =
    on_return (batch_update_rule p items s.tables h sep) s refl rows done
