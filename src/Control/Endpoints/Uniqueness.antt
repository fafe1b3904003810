-- ===== src/Control/Endpoints/Uniqueness.antt =====
-- One default endpoint per platform, through the addition, the update and the deletion of an
-- endpoint (endpoint_add_app_service.go, endpoint_update_app_service.go and
-- endpoint_delete_app_service.go of internal/app/provider).
use pinai.Base.{
  ℕ, suc, ◌≡◌, refl, Bool, true, false, not, List, [], ◌∷◌, ◌++◌, arith, if◌then◌else◌,
}
use pinai.Base.Text.{is_empty}
use pinai.Control.{
  Endpoint, Tables, pure, raise, ◌>>=◌, within_tx, resource_not_found, endpoint_create,
}
use pinai.Control.Rows.{AllRows, keyed-append, change_rows, count_rows, count-append}
use pinai.Control.Rules.{
  Ensures, call_rule, bind_rule, pure_rule, raise_rule, within_tx_rule, audited_rule, some_row_rule,
  succeed_rule,
}
use pinai.Control.Endpoints.{
  Field, add_endpoint, check_default_unique, create_checked, create_endpoint, platform_exists,
  has_id, is_default_of, is_some, selected_fields, set_fields, update_endpoint_fields,
  update_selected, update_where,
}
use pinai.Control.Endpoints.Defaults.{
  AreOf, IsSound, IsSoundBut, Sound-SoundBut, change-Sound, change-SoundBut, check_rule,
  endpoint_id, is_default_field, set_fields-id, set_fields-is_default, set_fields-platform_id,
  select_plain,
}

pub platform_exists_rule :
    {P : Tables → Type 0} (id : ℕ) → Ensures P (platform_exists id) (λ b. P) P
unfolding platform_exists
platform_exists_rule id = call_rule _ (λ t h. h) (λ t h. h)

-- A new endpoint of a platform.
appended :
    (p : ℕ) (e : Endpoint) (t : Tables)
    → e.platform_id ≡ p
    → IsSound t
    → IsSoundBut p (record t {
      endpoints = t.endpoints ++ record e { id = t.next_endpoint } ∷ [];
      next_endpoint = suc t.next_endpoint;
    })
unfolding count_rows
appended p e t own h = record {
  keyed =
      keyed-append endpoint_id t.next_endpoint t.endpoints (record e { id = t.next_endpoint }) refl
        h.keyed;
  one = λ p' ne. ground (
    arith,
    count-append (is_default_of p') t.endpoints (record e { id = t.next_endpoint } ∷ []),
    h.one p',
    own,
    ne,
  );
}

plain_appended :
    (e : Endpoint) (t : Tables)
    → e.is_default ≡ false
    → IsSound t
    → IsSound (record t {
      endpoints = t.endpoints ++ record e { id = t.next_endpoint } ∷ [];
      next_endpoint = suc t.next_endpoint;
    })
unfolding count_rows
plain_appended e t plain h = record {
  keyed =
      keyed-append endpoint_id t.next_endpoint t.endpoints (record e { id = t.next_endpoint }) refl
        h.keyed;
  one = λ p'. ground (
    arith,
    count-append (is_default_of p') t.endpoints (record e { id = t.next_endpoint } ∷ []),
    h.one p',
    plain,
  );
}

pub create_checked_rule :
    (p : ℕ) (e : Endpoint)
    → e.platform_id ≡ p
    → Ensures IsSound (create_checked p e) (λ r. IsSound) (λ t. Unit)
unfolding create_checked create_endpoint
create_checked_rule p e own =
    bind_rule
      (call_rule {Q = λ r t. Pending e.is_default t} _ (λ t h. tt)
        (λ t h. made t h e.is_default refl))
      (λ row. rest e.is_default row)
  where
    Pending : Bool → Tables → Type 0
    Pending b t = if b then IsSoundBut p t else IsSound t

    made :
        (t : Tables)
        → IsSound t
        → (b : Bool) → e.is_default ≡ b
        → Pending b (record t {
          endpoints = t.endpoints ++ record e { id = t.next_endpoint } ∷ [];
          next_endpoint = suc t.next_endpoint;
        })
    made t h true c = appended p e t own h
    made t h false c = plain_appended e t c h

    rest :
        (b : Bool) (row : Endpoint)
        → Ensures {0}
            (Pending b)
            (if b then (check_default_unique p >>= λ u. pure row) else pure row)
            (λ r. IsSound)
            (λ t. Unit)
    rest true row = bind_rule (check_rule p) (λ u. pure_rule row (λ t h. h))
    rest false row = pure_rule row (λ t h. h)

pub add_endpoint_rule :
    (p : ℕ) (e : Endpoint) → Ensures IsSound (add_endpoint p e) (λ r. IsSound) IsSound
unfolding add_endpoint
add_endpoint_rule p e =
    bind_rule (audited_rule endpoint_create 0 _ (platform_exists_rule p)) (λ exists.
      bind_rule (audited_rule endpoint_create 0 _ (created exists))
        (λ row. succeed_rule endpoint_create row.id row (λ t h. h)))
  where
    created :
        (b : Bool)
        → Ensures {0} IsSound
            (if b
              then within_tx (create_checked p (record e { id = 0; platform_id = p }))
              else raise resource_not_found)
            (λ r. IsSound)
            IsSound
    created true =
        within_tx_rule _ (λ t h. h)
          (create_checked_rule p (record e { id = 0; platform_id = p }) refl)
    created false = raise_rule resource_not_found (λ t h. h)

pub update_where_rule :
    {P : Tables → Type 0} {Q : Tables → Type 0} (q : Endpoint → Bool) (f : Endpoint → Endpoint)
    → ((t : Tables) → P t → Q (record t { endpoints = change_rows q f t.endpoints }))
    → Ensures P (update_where q f) (λ n. Q) (λ t. Unit)
unfolding update_where
update_where_rule q f h = call_rule _ (λ t p. tt) h

-- An update that does not select the default.
pub selects_no_default :
    (e : Endpoint)
    → e.is_default ≡ false
    → AllRows (λ f. is_default_field f ≡ false) (selected_fields e)
unfolding selected_fields
selects_no_default e plain = rw plain (
    select_plain (not (is_empty e.endpoint_type)) Field.type_field _ refl (
      select_plain (not (is_empty e.endpoint_variant)) Field.variant_field _ refl (
        select_plain (not (is_empty e.path)) Field.path_field _ refl
          (select_plain (is_some e.custom_headers) Field.headers_field _ refl tt))))

pub update_selected_rule :
    (id : ℕ) (e : Endpoint) (p : ℕ) (fs : List Field)
    → Ensures
        (λ t. IsSound t × AreOf p (has_id id) t.endpoints)
        (update_selected id e fs)
        (λ u. IsSoundBut p)
        (λ t. Unit)
unfolding update_selected update_endpoint_fields
update_selected_rule id e p [] = pure_rule tt (λ t h. Sound-SoundBut p t h.0)
update_selected_rule id e p (f ∷ fs) =
    bind_rule
      (update_where_rule {Q = IsSoundBut p} _ _ (λ t (h, own).
        change-SoundBut p (has_id id) (set_fields e (f ∷ fs)) t (set_fields-id e (f ∷ fs))
          (set_fields-platform_id e (f ∷ fs)) own (Sound-SoundBut p t h)))
      some_row_rule

pub update_plain_rule :
    (id : ℕ) (e : Endpoint) (fs : List Field)
    → AllRows (λ f. is_default_field f ≡ false) fs
    → Ensures IsSound (update_selected id e fs) (λ u. IsSound) (λ t. Unit)
unfolding update_selected update_endpoint_fields
update_plain_rule id e [] plain = pure_rule tt (λ t h. h)
update_plain_rule id e (f ∷ fs) plain =
    bind_rule
      (update_where_rule {Q = IsSound} _ _ (λ t h.
        change-Sound (has_id id) (set_fields e (f ∷ fs)) t (set_fields-id e (f ∷ fs))
          (λ p x.
            rw (set_fields-platform_id e (f ∷ fs) x, set_fields-is_default e (f ∷ fs) x plain) refl)
          h))
      some_row_rule
