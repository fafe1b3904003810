-- ===== src/Control/Endpoints/Grouped.antt =====
-- One default endpoint per platform, through the batch update of endpoints
-- (endpoint.go of internal/app/provider).
use pinai.Base.{
  ℕ, ◌≡◌, refl, sym, ◌∙◌, Bool, true, false, List, [], ◌∷◌, arith, ◌==◌, if◌then◌else◌, length,
}
use pinai.Task.{contains}
use pinai.Control.{
  Endpoint, Tables, Answer, returns, fails, raise, within_tx, no_items, resource_not_found,
}
use pinai.Control.Rows.{AllRows, all_map, all-change, change_rows, rows_where}
use pinai.Control.Rules.{
  Ensures, call_rule, bind_rule, pure_rule, raise_rule, weaken, within_tx_rule,
}
use pinai.Control.Endpoints.{Field, set_fields}
use pinai.Control.Endpoints.Defaults.{
  AreOf, IsSound, IsSoundBut, Sound-SoundBut, change-Sound, change-SoundBut, set_fields-id,
  set_fields-is_default, set_fields-platform_id,
}
use pinai.Control.Endpoints.Together.{Pending, check_if_rule, validate_platform_exists_rule}
use pinai.Control.Endpoints.Uniqueness.{update_where_rule}
use pinai.Control.Endpoints.Signature.{EndpointUpdateItem}
use pinai.Control.Endpoints.Batch.{
  Groups, batch_update_endpoints, collect_groups, contains_default, find_by_ids, find_listed,
  is_listed, item_ids, reply, update_all, update_groups, update_listed,
}
use pinai.Control.Endpoints.Groups.{AreFine, collect_groups-AreFine, ids_of, listed-AreOf}

-- The rows of the groups are the platform's.
abbrev AreOwned : ℕ → Groups → List Endpoint → Type 0
AreOwned p groups es = AllRows (λ x. AreOf p (λ e. contains e.id x.1.ids) es) groups

owned_change :
    (p : ℕ) (q : Endpoint → Bool) (payload : Endpoint) (fs : List Field) (groups : Groups)
    (es : List Endpoint)
    → AreOwned p groups es
    → AreOwned p groups (change_rows q (set_fields payload fs) es)
owned_change p q payload fs [] es h = tt
owned_change p q payload fs ((signature, g) ∷ groups) es (own, h) = (
  all-change (λ e. contains e.id g.ids ≡ true → e.platform_id ≡ p) q (set_fields payload fs) es
      (λ e d. rw (set_fields-id payload fs e, set_fields-platform_id payload fs e) d) own,
  owned_change p q payload fs groups es h,
)

update_groups_rule :
    (p : ℕ) (groups : Groups)
    → Ensures {0}
        (λ t. IsSoundBut p t × AreOwned p groups t.endpoints)
        (update_groups groups)
        (λ u. IsSoundBut p)
        (λ t. Unit)
unfolding update_groups
update_groups_rule p [] = pure_rule tt (λ t h. h.0)
update_groups_rule p ((signature, g) ∷ groups) =
    bind_rule
      (update_where_rule {Q = λ t. IsSoundBut p t × AreOwned p groups t.endpoints} _ _
        (λ t (h, (own, owned)). (
          change-SoundBut p (λ e. contains e.id g.ids) (set_fields g.payload g.select_fields) t
              (set_fields-id g.payload g.select_fields)
              (set_fields-platform_id g.payload g.select_fields) own h,
          owned_change p (λ e. contains e.id g.ids) g.payload g.select_fields groups t.endpoints
              owned,
        )))
      (λ n. update_groups_rule p groups)

update_plain_groups_rule :
    (existing : List ℕ) (groups : Groups)
    → AreFine existing false groups
    → Ensures {0} IsSound (update_groups groups) (λ u. IsSound) (λ t. Unit)
unfolding update_groups
update_plain_groups_rule existing [] fine = pure_rule tt (λ t h. h)
update_plain_groups_rule existing ((signature, g) ∷ groups) (fine, all) =
    bind_rule
      (update_where_rule {Q = IsSound} _ _ (λ t h.
        change-Sound (λ e. contains e.id g.ids) (set_fields g.payload g.select_fields) t
          (set_fields-id g.payload g.select_fields)
          (λ p x.
            rw
              (
                set_fields-platform_id g.payload g.select_fields x,
                set_fields-is_default g.payload g.select_fields x (fine.plain refl),
              )
              refl)
          h))
      (λ n. update_plain_groups_rule existing groups all)

-- The updates of the groups, with the check that follows where a default is given.
groups_rule :
    (p : ℕ) (items : List EndpointUpdateItem) (existing : List Endpoint) (ids : List ℕ)
    → Ensures
        (λ t. IsSound t × (existing ≡ rows_where (is_listed ids p) t.endpoints))
        (update_groups (collect_groups items existing []))
        (λ u. Pending p (contains_default items existing))
        (λ t. Unit)
groups_rule p items existing ids = go (contains_default items existing) refl
  where
    fine :
        (b : Bool)
        → contains_default items existing ≡ b
        → AreFine (ids_of existing) b (collect_groups items existing [])
    fine b c =
        collect_groups-AreFine (ids_of existing) b items existing [] (listed existing)
          (λ no. c ∙ no) tt
      where
        more :
            (i : ℕ) (js : List ℕ) (es : List Endpoint)
            → AllRows (λ e. contains e.id js ≡ true) es
            → AllRows (λ e. contains e.id (i ∷ js) ≡ true) es
        more i js [] h = tt
        more i js (e ∷ es) (h, k) = (ground (arith, h), more i js es k)

        listed : (es : List Endpoint) → AllRows (λ e. contains e.id (ids_of es) ≡ true) es
        listed [] = tt
        listed (e ∷ es) = (ground arith, more e.id (ids_of es) es (listed es))

    go :
        (b : Bool)
        → contains_default items existing ≡ b
        → Ensures {0}
            (λ t. IsSound t × (existing ≡ rows_where (is_listed ids p) t.endpoints))
            (update_groups (collect_groups items existing []))
            (λ u t. if b then IsSoundBut p t else IsSound t)
            (λ t. Unit)
    go true c =
        weaken (λ t (h, same). (Sound-SoundBut p t h, owned t h same)) (λ u t h. h) (λ t h. h)
          (update_groups_rule p (collect_groups items existing []))
      where
        owned :
            (t : Tables)
            → IsSound t
            → existing ≡ rows_where (is_listed ids p) t.endpoints
            → AreOwned p (collect_groups items existing []) t.endpoints
        owned t h same =
            let all =
              listed-AreOf t.next_endpoint p (is_listed ids p) t.endpoints
                (λ e c. ground (arith, c)) h.keyed in
            all_map (collect_groups items existing [])
              (λ x f. all_map t.endpoints (λ e own c. own (rw (sym same) (f.within e.id c))) all)
              (fine true c)
    go false c =
        weaken (λ t h. h.0) (λ u t h. h) (λ t h. h)
          (update_plain_groups_rule (ids_of existing) (collect_groups items existing [])
            (fine false c))

pub find_by_ids_rule :
    {P : Tables → Type 0} (ids : List ℕ) → Ensures P (find_by_ids ids) (λ r. P) (λ t. Unit)
unfolding find_by_ids
find_by_ids_rule ids = call_rule _ (λ t h. tt) (λ t h. h)

pub find_listed_rule :
    {P : Tables → Type 0} (ids : List ℕ) (p : ℕ)
    → Ensures P
        (find_listed ids p)
        (λ ex t. P t × (ex ≡ rows_where (is_listed ids p) t.endpoints))
        P
unfolding find_listed
find_listed_rule ids p = call_rule _ (λ t h. h) (λ t h. (h, refl))

pub reply_rule : {A : Type 0} {P : Tables → Type 0} (r : Answer A) → Ensures P (reply r) (λ a. P) P
reply_rule (returns a) = record { run = λ s h. h }
reply_rule (fails e) = record { run = λ s h. h }

pub batch_update_endpoints_rule :
    (p : ℕ) (items : List EndpointUpdateItem)
    → Ensures IsSound (batch_update_endpoints p items) (λ r. IsSound) IsSound
unfolding batch_update_endpoints update_listed update_all
batch_update_endpoints_rule p [] = raise_rule no_items (λ t h. h)
batch_update_endpoints_rule p (i ∷ is) = bind_rule (validate_platform_exists_rule p) (λ u.
    bind_rule (reply_rule (item_ids [] (i ∷ is))) (λ ids.
      bind_rule (find_listed_rule ids p)
        (λ existing. matched ids existing (length existing == length ids))))
  where
    matched :
        (ids : List ℕ) (existing : List Endpoint) (b : Bool)
        → Ensures {0}
            (λ t. IsSound t × (existing ≡ rows_where (is_listed ids p) t.endpoints))
            (if b then within_tx (update_all p (i ∷ is) ids existing) else raise resource_not_found)
            (λ r. IsSound)
            IsSound
    matched ids existing true =
        within_tx_rule _ (λ t h. h.0)
          (bind_rule (groups_rule p (i ∷ is) existing ids) (λ u.
            bind_rule (check_if_rule p (contains_default (i ∷ is) existing))
              (λ u. find_by_ids_rule ids)))
    matched ids existing false = raise_rule resource_not_found (λ t h. h.0)
