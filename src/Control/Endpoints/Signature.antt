-- ===== src/Control/Endpoints/Signature.antt =====
-- The signature of an update of an endpoint, by which the batch update groups the endpoints
-- (buildEndpointUpdateSignature in endpoint.go and EndpointUpdateItem in types.go of
-- internal/app/provider).
use pinai.Base.{
  ℕ, ◌≡◌, ◌≢◌, Bool, true, false, ◌&&◌, ◌||◌, List, [], ◌∷◌, ◌++◌, Option, none, some, ltb,
  append_assoc, ◌==◌, if◌then◌else◌,
}
use pinai.Base.Text.{Text, codes}
use pinai.Base.Assoc.{Assoc}
use pinai.Control.{Endpoint, Headers}
use pinai.Control.Endpoints.{Field, is_some, select}

pub record EndpointUpdateItem : Type 0 where
  pub id : ℕ
  pub endpoint_type : Option Text
  pub endpoint_variant : Option Text
  pub path : Option Text
  pub custom_headers : Option Headers
  pub is_default : Option Bool

-- The values of the map `updates`.
pub data Value : Type 0 where
  text_value : Text → Value
  headers_value : Headers → Value
  flag_value : Bool → Value

abbrev pub text_ltb : Text → Text → Bool
text_ltb s [] = false
text_ltb [] (d ∷ t) = true
text_ltb (c ∷ s) (d ∷ t) = ltb c d || ((c == d) && text_ltb s t)

-- The entries of a map in the order of their keys.
abbrev pub place {ℓ} : {V : Type ℓ} → Text → V → Assoc Text V → Assoc Text V
place k v [] = (k, v) ∷ []
place k v ((j, w) ∷ m) =
    let rest = place k v m in if text_ltb k j then (k, v) ∷ (j, w) ∷ m else (j, w) ∷ rest

abbrev pub sort_entries {ℓ} : {V : Type ℓ} → Assoc Text V → Assoc Text V
sort_entries [] = []
sort_entries ((k, v) ∷ m) = place k v (sort_entries m)

abbrev pub join_entries : Assoc Text Text → Text
join_entries [] = []
join_entries ((k, v) ∷ m) = k ++ codes "=" ++ v ++ codes ";" ++ join_entries m

-- `buildEndpointUpdateValueSignature`.
unfoldable pub value_signature : Value → Text
value_signature (text_value t) = t
value_signature (headers_value h) = join_entries (sort_entries h)
value_signature (flag_value true) = codes "true"
value_signature (flag_value false) = codes "false"

abbrev pub sign_values : Assoc Text Value → Assoc Text Text
sign_values [] = []
sign_values ((k, v) ∷ m) = (k, value_signature v) ∷ sign_values m

-- `buildEndpointUpdateSignature`.
unfoldable pub update_signature : Assoc Text Value → Text
unfolding value_signature
update_signature updates = join_entries (sign_values (sort_entries updates))

abbrev pub entry {ℓ} : {A : Type ℓ} → Text → (A → Value) → Option A → Assoc Text Value
entry k f none = []
entry k f (some a) = (k, f a) ∷ []

unfoldable pub item_updates : EndpointUpdateItem → Assoc Text Value
item_updates i =
    entry (codes "endpoint_type") text_value i.endpoint_type
    ++ entry (codes "endpoint_variant") text_value i.endpoint_variant
    ++ entry (codes "path") text_value i.path
    ++ entry (codes "custom_headers") headers_value i.custom_headers
    ++ entry (codes "is_default") flag_value i.is_default

abbrev pub or_zero {ℓ} : {A : Type ℓ} → A → Option A → A
or_zero zero none = zero
or_zero zero (some a) = a

unfoldable pub item_payload : EndpointUpdateItem → Endpoint
item_payload i = record {
  id = 0;
  platform_id = 0;
  endpoint_type = or_zero [] i.endpoint_type;
  endpoint_variant = or_zero [] i.endpoint_variant;
  path = or_zero [] i.path;
  custom_headers = i.custom_headers;
  is_default = or_zero false i.is_default;
}

unfoldable pub item_fields : EndpointUpdateItem → List Field
item_fields i = select (is_some i.endpoint_type) Field.type_field (
    select (is_some i.endpoint_variant) Field.variant_field (
      select (is_some i.path) Field.path_field (
        select (is_some i.custom_headers) Field.headers_field
          (select (is_some i.is_default) Field.default_field []))))

abbrev pub one_header : Text → Text → Text → Text → Headers
one_header a v b w = (a, v ++ codes ";" ++ b ++ codes "=" ++ w) ∷ []

abbrev pub two_headers : Text → Text → Text → Text → Headers
two_headers a v b w = (a, v) ∷ (b, w) ∷ []

-- Two different maps of headers have one signature: one header whose value holds a semicolon, a
-- greater name, an equals sign and a second value, and the two headers that this spells.
pub value_signature_collides :
    (a v b w : Text)
    → text_ltb a b ≡ true
    → (value_signature (headers_value (one_header a v b w))
        ≡ value_signature (headers_value (two_headers a v b w)))
      × (one_header a v b w ≢ two_headers a v b w)
unfolding value_signature
value_signature_collides a v b w before = (rw before (simp append_assoc), λ e. cc)
