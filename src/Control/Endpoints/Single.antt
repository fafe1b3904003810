-- ===== src/Control/Endpoints/Single.antt =====
-- The update and the deletion of one endpoint, and the default of its platform
-- (endpoint_update_app_service.go and endpoint_delete_app_service.go of internal/app/provider).
use pinai.Base.{
  ℕ, ◌≡◌, refl, inl, inr, Bool, true, false, some, arith, ◌==◌, if◌then◌else◌, Bool-cases,
}
use pinai.Control.{Endpoint, Tables, pure, ◌>>=◌, endpoint_update, endpoint_delete}
use pinai.Control.Rows.{keyed-delete, count-delete, delete_rows, first_row}
use pinai.Control.Rules.{
  Ensures, call_rule, bind_rule, pure_rule, weaken, within_tx_rule, audited_rule, some_row_rule,
  succeed_rule,
}
use pinai.Control.Endpoints.{
  check_default_unique, count_default_endpoints_by_platform, delete_and_move, delete_endpoint,
  delete_endpoint_by_id, get_latest_endpoint_by_platform, has_id, is_default_of, latest_of,
  move_default, selected_fields, set_latest_default, update_selected, update_checked,
  update_endpoint,
}
use pinai.Control.Endpoints.Defaults.{
  IsSound, IsSoundBut, check_rule, defaults, endpoint_id, found_of, get_endpoint_rule,
}
use pinai.Control.Endpoints.Uniqueness.{selects_no_default, update_plain_rule, update_selected_rule}
use pinai.Control.Endpoints.Moving.{HasDefault, NoDefault, set_latest_rule}

-- The endpoint that was read is the row of its id.
abbrev Found : ℕ → Endpoint → Tables → Type 0
Found id e t = IsSound t × (first_row (has_id id) t.endpoints ≡ some e)

update_checked_rule :
    (id : ℕ) (e existing : Endpoint)
    → Ensures
        (Found id existing)
        (update_checked id e existing.platform_id)
        (λ r. IsSound)
        (λ t. Unit)
unfolding update_checked
update_checked_rule id e existing = bind_rule (selected e.is_default refl) (λ u.
    bind_rule (checked e.is_default)
      (λ u. weaken (λ t h. h) (λ r t h. h.0) (λ t h. tt) (get_endpoint_rule {P = IsSound} id)))
  where
    Pending : Bool → Tables → Type 0
    Pending b t = if b then IsSoundBut existing.platform_id t else IsSound t

    selected :
        (b : Bool)
        → e.is_default ≡ b
        → Ensures {0}
            (Found id existing)
            (update_selected id e (selected_fields e))
            (λ u. Pending b)
            (λ t. Unit)
    selected true c =
        weaken (λ t (h, f). (h, found_of t.next_endpoint id t.endpoints existing h.keyed f))
          (λ u t h. h) (λ t h. h)
          (update_selected_rule id e existing.platform_id (selected_fields e))
    selected false c =
        weaken (λ t h. h.0) (λ u t h. h) (λ t h. h)
          (update_plain_rule id e (selected_fields e) (selects_no_default e c))

    checked :
        (b : Bool)
        → Ensures {0}
            (Pending b)
            (if b then check_default_unique existing.platform_id else pure tt)
            (λ u. IsSound)
            (λ t. Unit)
    checked true = check_rule existing.platform_id
    checked false = pure_rule tt (λ t h. h)

pub update_endpoint_rule :
    (id : ℕ) (e : Endpoint) → Ensures IsSound (update_endpoint id e) (λ r. IsSound) IsSound
unfolding update_endpoint
update_endpoint_rule id e =
    bind_rule (audited_rule endpoint_update id _ (get_endpoint_rule id)) (λ existing.
      bind_rule
        (audited_rule endpoint_update id _
          (within_tx_rule _ (λ t h. h.0) (update_checked_rule id e existing)))
        (λ r. succeed_rule endpoint_update id r (λ t h. h)))

-- A deletion removes no default that another platform needs.
deleted :
    (q : Endpoint → Bool) (t : Tables)
    → IsSound t
    → IsSound (record t { endpoints = delete_rows q t.endpoints })
deleted q t h = record {
  keyed = keyed-delete endpoint_id t.next_endpoint q t.endpoints h.keyed;
  one = λ p. omega (arith, h.one p, count-delete (is_default_of p) q t.endpoints);
}

delete_endpoint_by_id_rule :
    (id : ℕ) → Ensures IsSound (delete_endpoint_by_id id) (λ n. IsSound) (λ t. Unit)
unfolding delete_endpoint_by_id
delete_endpoint_by_id_rule id = call_rule _ (λ t h. tt) (λ t h. deleted (has_id id) t h)

move_default_rule :
    (p : ℕ) → Ensures IsSound (move_default p) (λ u t. IsSound t × HasDefault p t) (λ t. Unit)
unfolding move_default count_default_endpoints_by_platform get_latest_endpoint_by_platform
move_default_rule p =
    bind_rule
      (call_rule {Q = λ n t. IsSound t × (n ≡ defaults p t.endpoints)} _ (λ t h. tt)
        (λ t h. (h, refl)))
      moved
  where
    moved :
        (n : ℕ)
        → Ensures {0}
            (λ t. IsSound t × (n ≡ defaults p t.endpoints))
            (if n == 0 then (get_latest_endpoint_by_platform p >>= set_latest_default) else pure tt)
            (λ u t. IsSound t × HasDefault p t)
            (λ t. Unit)
    moved n = elim (Bool-cases (n == 0)) [
      | inl e ↦ rw e (
          bind_rule
            (call_rule {Q = λ o t. NoDefault p t × (latest_of p t.endpoints ≡ o)} _ (λ t h. tt)
              (λ t (h, same). ((h, ground (arith, e, same)), refl)))
            (set_latest_rule p))
      | inr e ↦ rw e (pure_rule tt (λ t (h, same). (h, inr (ground (arith, e, same, h.one p)))))
    ]

-- Where the deleted endpoint was the default, its platform has another, or no endpoint.
abbrev pub KeepsDefault : Endpoint → Tables → Type 0
KeepsDefault e t = if e.is_default then HasDefault e.platform_id t else Unit

pub delete_and_move_rule :
    (id : ℕ) (e : Endpoint)
    → Ensures IsSound (delete_and_move id e) (λ u t. IsSound t × KeepsDefault e t) (λ t. Unit)
unfolding delete_and_move
delete_and_move_rule id e =
    bind_rule (bind_rule (delete_endpoint_by_id_rule id) some_row_rule) (λ u. moved e.is_default)
  where
    moved :
        (b : Bool)
        → Ensures {0} IsSound
            (if b then move_default e.platform_id else pure tt)
            (λ u t. IsSound t × (if b then HasDefault e.platform_id t else Unit))
            (λ t. Unit)
    moved true = move_default_rule e.platform_id
    moved false = pure_rule tt (λ t h. (h, tt))

pub delete_endpoint_rule : (id : ℕ) → Ensures IsSound (delete_endpoint id) (λ u. IsSound) IsSound
unfolding delete_endpoint
delete_endpoint_rule id = bind_rule (audited_rule endpoint_delete id _ (get_endpoint_rule id)) (λ e.
    bind_rule
      (audited_rule endpoint_delete id _ (
        within_tx_rule {Q = λ u. IsSound} _ (λ t h. h.0)
          (weaken (λ t h. h.0) (λ u t h. h.0) (λ t h. tt) (delete_and_move_rule id e))))
      (λ u. succeed_rule endpoint_delete id u (λ t h. h)))
