-- ===== src/Control/Endpoints/Defaults.antt =====
-- The default endpoint of a platform under endpoint_add_app_service.go,
-- endpoint_update_app_service.go and endpoint_delete_app_service.go of internal/app/provider.
use pinai.Base.{
  ℕ, ◌≤◌, ◌≡◌, ◌≢◌, refl, ap, ◌∙◌, inl, inr, Bool, true, false, List, [], ◌∷◌, Option, none, some,
  ltb, arith, if◌then◌else◌, Bool-cases,
}
use pinai.Control.{Endpoint, Tables, pure, raise, or_not_found, default_conflict}
use pinai.Control.Rows.{
  AllRows, AreKeyed, all_map, keyed-change, change_rows, count_rows, count-change, first_row,
}
use pinai.Control.Rules.{Ends, Ensures, call_rule, bind_rule, pure_rule, raise_rule}
use pinai.Control.Endpoints.{
  Field, check_default_unique, count_default_endpoints_by_platform, get_endpoint, has_id,
  is_default_of, select, set_field, set_fields,
}

-- The number of the default endpoints of a platform.
abbrev pub defaults : ℕ → List Endpoint → ℕ
defaults p es = count_rows (is_default_of p) es

abbrev pub endpoint_id : Endpoint → ℕ
endpoint_id e = e.id

-- The endpoints have ids of their own, and no platform has two defaults.
pub record IsSound (t : Tables) : Type 0 where
  pub keyed : AreKeyed endpoint_id t.next_endpoint t.endpoints
  pub one : (p : ℕ) → defaults p t.endpoints ≤ 1

-- The same, but for the defaults of one platform.
pub record IsSoundBut (p : ℕ) (t : Tables) : Type 0 where
  pub keyed : AreKeyed endpoint_id t.next_endpoint t.endpoints
  pub one : (p' : ℕ) → p' ≢ p → defaults p' t.endpoints ≤ 1

-- The rows that satisfy a condition are the platform's.
abbrev pub AreOf : ℕ → (Endpoint → Bool) → List Endpoint → Type 0
AreOf p q es = AllRows (λ e. q e ≡ true → e.platform_id ≡ p) es

pub Sound-SoundBut : (p : ℕ) (t : Tables) → IsSound t → IsSoundBut p t
Sound-SoundBut p t h = record { keyed = h.keyed; one = λ p' ne. h.one p' }

pub found_of :
    (n id : ℕ) (es : List Endpoint) (e : Endpoint)
    → AreKeyed endpoint_id n es
    → first_row (has_id id) es ≡ some e
    → AreOf e.platform_id (has_id id) es
unfolding first_row
found_of n id [] e h eq = tt
found_of n id (x ∷ es) e (below, once, h) eq = elim (Bool-cases (has_id id x)) [
  | inl c ↦ (
    (λ c'. let same : x ≡ e = ground (arith, c, eq) in ap (λ y. y.platform_id) same),
    all_map es (λ y apart c'. absurd (apart (ground (arith, c, c')))) once,
  )
  | inr c ↦ ((λ c'. absurd (ground (arith, c, c'))), found_of n id es e h (ground (arith, c, eq)))
]

-- A change of rows of one platform, which leaves their ids and platforms.
pub change-SoundBut :
    (p : ℕ) (q : Endpoint → Bool) (f : Endpoint → Endpoint) (t : Tables)
    → ((e : Endpoint) → (f e).id ≡ e.id)
    → ((e : Endpoint) → (f e).platform_id ≡ e.platform_id)
    → AreOf p q t.endpoints
    → IsSoundBut p t
    → IsSoundBut p (record t { endpoints = change_rows q f t.endpoints })
change-SoundBut p q f t ids platforms own h = record {
  keyed = keyed-change endpoint_id t.next_endpoint q f t.endpoints ids h.keyed;
  one = λ p' ne.
      rw
        (count-change (is_default_of p') q f t.endpoints
          (all_map t.endpoints (λ e of c. ground (arith, of c, platforms e, ne)) own))
        (h.one p' ne);
}

-- A change that leaves the defaults, too.
pub change-Sound :
    (q : Endpoint → Bool) (f : Endpoint → Endpoint) (t : Tables)
    → ((e : Endpoint) → (f e).id ≡ e.id)
    → ((p : ℕ) (e : Endpoint) → is_default_of p (f e) ≡ is_default_of p e)
    → IsSound t
    → IsSound (record t { endpoints = change_rows q f t.endpoints })
change-Sound q f t ids same h = record {
  keyed = keyed-change endpoint_id t.next_endpoint q f t.endpoints ids h.keyed;
  one = λ p.
      rw (count-change (is_default_of p) q f t.endpoints (all t.endpoints (λ e c. same p e)))
        (h.one p);
}
  where
    all : {D : Endpoint → Type 0} → (es : List Endpoint) → ((e : Endpoint) → D e) → AllRows D es
    all [] d = tt
    all (e ∷ es) d = (d e, all es d)

pub set_fields-id :
    (payload : Endpoint) (fs : List Field) (e : Endpoint) → (set_fields payload fs e).id ≡ e.id
set_fields-id payload [] e = refl
set_fields-id payload (f ∷ fs) e = set_fields-id payload fs (set_field payload f e) ∙ one f
  where
    one : (f : Field) → (set_field payload f e).id ≡ e.id
    one Field.type_field = refl
    one Field.variant_field = refl
    one Field.path_field = refl
    one Field.headers_field = refl
    one Field.default_field = refl

pub set_fields-platform_id :
    (payload : Endpoint) (fs : List Field) (e : Endpoint)
    → (set_fields payload fs e).platform_id ≡ e.platform_id
set_fields-platform_id payload [] e = refl
set_fields-platform_id payload (f ∷ fs) e =
    set_fields-platform_id payload fs (set_field payload f e) ∙ one f
  where
    one : (f : Field) → (set_field payload f e).platform_id ≡ e.platform_id
    one Field.type_field = refl
    one Field.variant_field = refl
    one Field.path_field = refl
    one Field.headers_field = refl
    one Field.default_field = refl

abbrev pub is_default_field : Field → Bool
is_default_field Field.default_field = true
is_default_field f = false

pub select_plain :
    (b : Bool) (f : Field) (fs : List Field)
    → is_default_field f ≡ false
    → AllRows (λ f. is_default_field f ≡ false) fs
    → AllRows (λ f. is_default_field f ≡ false) (select b f fs)
select_plain true f fs h k = (h, k)
select_plain false f fs h k = k

-- The columns other than `is_default` leave it.
pub set_fields-is_default :
    (payload : Endpoint) (fs : List Field) (e : Endpoint)
    → AllRows (λ f. is_default_field f ≡ false) fs
    → (set_fields payload fs e).is_default ≡ e.is_default
set_fields-is_default payload [] e h = refl
set_fields-is_default payload (f ∷ fs) e (h, k) =
    set_fields-is_default payload fs (set_field payload f e) k ∙ one f h
  where
    one :
        (f : Field) → is_default_field f ≡ false → (set_field payload f e).is_default ≡ e.is_default
    one Field.type_field h = refl
    one Field.variant_field h = refl
    one Field.path_field h = refl
    one Field.headers_field h = refl
    one Field.default_field h = absurd cc

pub get_endpoint_rule :
    {P : Tables → Type 0} (id : ℕ)
    → Ensures P (get_endpoint id) (λ e t. P t × (first_row (has_id id) t.endpoints ≡ some e)) P
unfolding get_endpoint
get_endpoint_rule {P = P} id = call_rule _ (λ t p. p) (λ t p. found t p _ refl)
  where
    found :
        (t : Tables)
        → P t
        → (o : Option Endpoint) → first_row (has_id id) t.endpoints ≡ o
        → Ends (λ e t. P t × (first_row (has_id id) t.endpoints ≡ some e)) P (or_not_found o) t
    found t p none e = p
    found t p (some x) e = (p, e)

pub check_rule :
    (p : ℕ) → Ensures (IsSoundBut p) (check_default_unique p) (λ u. IsSound) (λ t. Unit)
unfolding check_default_unique count_default_endpoints_by_platform
check_rule p =
    bind_rule
      (call_rule {Q = λ n t. IsSoundBut p t × (n ≡ defaults p t.endpoints)} _ (λ t h. tt)
        (λ t h. (h, refl)))
      decided
  where
    decided :
        (n : ℕ)
        → Ensures {0}
            (λ t. IsSoundBut p t × (n ≡ defaults p t.endpoints))
            (if ltb 1 n then raise default_conflict else pure tt)
            (λ u. IsSound)
            (λ t. Unit)
    decided n = elim (Bool-cases (ltb 1 n)) [
      | inl e ↦ rw e (raise_rule default_conflict (λ t h. tt))
      | inr e ↦ rw e (
          pure_rule tt (λ t (h, same). record {
            keyed = h.keyed;
            one = λ p'. ground (arith, h.one p', same, e);
          }))
    ]
