-- ===== src/Control/Endpoints/Applied.antt =====
-- What the groups of a batch update do to one endpoint (endpoint.go of internal/app/provider).
use pinai.Base.{
  ℕ, ◌≡◌, ◌≢◌, refl, sym, ap, ◌∙◌, inl, inr, Bool, true, false, List, [], ◌∷◌, ◌++◌, Option, none,
  some, arith, if◌then◌else◌, Bool-cases,
}
use pinai.Base.Text.{Text, text_eq_eq, text_eq_iff, text_eq}
use pinai.Base.Assoc.{lookup, insert}
use pinai.Task.{contains}
use pinai.Task.Ownership.{contains-append}
use pinai.Control.{Endpoint}
use pinai.Control.Rows.{AllRows}
use pinai.Control.Endpoints.{Field, set_fields}
use pinai.Control.Endpoints.Defaults.{set_fields-id}
use pinai.Control.Endpoints.Signature.{
  EndpointUpdateItem, item_fields, item_payload, item_updates, update_signature,
}
use pinai.Control.Endpoints.Batch.{Group, Groups, find_item, join_group}

-- One group, applied to one endpoint.
abbrev pub apply_group : Group → Endpoint → Endpoint
apply_group g e = if contains e.id g.ids then set_fields g.payload g.select_fields e else e

unfoldable pub apply_groups : Groups → Endpoint → Endpoint
apply_groups [] e = e
apply_groups ((signature, g) ∷ groups) e = apply_groups groups (apply_group g e)

-- The update that an item asks for.
abbrev pub apply_item : Option EndpointUpdateItem → Endpoint → Endpoint
apply_item none e = e
apply_item (some i) e = set_fields (item_payload i) (item_fields i) e

apply_group-id : (g : Group) (e : Endpoint) → (apply_group g e).id ≡ e.id
apply_group-id g e = elim (Bool-cases (contains e.id g.ids)) [
  | inl c ↦ rw c (set_fields-id g.payload g.select_fields e)
  | inr c ↦ rw c refl
]

-- No group has the id.
abbrev pub AreWithout : ℕ → Groups → Type 0
AreWithout id groups = AllRows (λ x. contains id x.1.ids ≡ false) groups

pub apply_groups-without :
    (groups : Groups) (e : Endpoint) → AreWithout e.id groups → apply_groups groups e ≡ e
unfolding apply_groups
apply_groups-without [] e h = refl
apply_groups-without ((s, g) ∷ groups) e (h, hs) = rw h (apply_groups-without groups e hs)

-- Each group has the update of an item with its signature.
abbrev pub IsOf : List EndpointUpdateItem → Text → Group → Type 0
IsOf items signature g =
    (i : EndpointUpdateItem) × (find_item i.id items ≡ some i)
    × (update_signature (item_updates i) ≡ signature)
    × (g.payload ≡ item_payload i)
    × (g.select_fields ≡ item_fields i)

abbrev pub AreOfItems : List EndpointUpdateItem → Groups → Type 0
AreOfItems items groups = AllRows (λ x. IsOf items x.0 x.1) groups

-- Items with one signature ask for one update.
pub record AreSeparate (items : List EndpointUpdateItem) : Type 0 where
  pub payloads :
      (i j : EndpointUpdateItem)
      → find_item i.id items ≡ some i
      → find_item j.id items ≡ some j
      → update_signature (item_updates i) ≡ update_signature (item_updates j)
      → item_payload i ≡ item_payload j
  pub fields :
      (i j : EndpointUpdateItem)
      → find_item i.id items ≡ some i
      → find_item j.id items ≡ some j
      → update_signature (item_updates i) ≡ update_signature (item_updates j)
      → item_fields i ≡ item_fields j

-- The groups after an item has joined the group of a signature, if there is one.
abbrev pub joined : EndpointUpdateItem → ℕ → Text → Option Group → Groups → Groups
joined i id signature o groups = insert signature (join_group o i id) groups

lookup_head :
    (signature s : Text) (g : Group) (groups : Groups) (o : Option Group)
    → text_eq s signature ≡ true
    → lookup signature ((s, g) ∷ groups) ≡ o
    → o ≡ some g
unfolding lookup
lookup_head signature s g groups o c h =
    sym h ∙ ap (λ (b : Bool). if b then some g else lookup signature groups) c

lookup_tail :
    (signature s : Text) (g : Group) (groups : Groups) (o : Option Group)
    → text_eq s signature ≡ false
    → lookup signature ((s, g) ∷ groups) ≡ o
    → lookup signature groups ≡ o
unfolding lookup
lookup_tail signature s g groups o c h =
    sym (ap (λ (b : Bool). if b then some g else lookup signature groups) c) ∙ h

-- What the head of the groups does, once it is known.
abbrev with_head : EndpointUpdateItem → ℕ → Groups → Endpoint → Option Group → Endpoint
with_head i id groups e o = apply_groups groups (apply_group (join_group o i id) e)

abbrev given : Group → Groups → Endpoint → Bool → Endpoint
given g groups e b = apply_groups groups (if b then set_fields g.payload g.select_fields e else e)

-- Another endpoint does not notice.
pub joined_other :
    (i : EndpointUpdateItem) (id : ℕ) (signature : Text) (o : Option Group) (groups : Groups)
    (e : Endpoint)
    → e.id ≢ id
    → lookup signature groups ≡ o
    → apply_groups (joined i id signature o groups) e ≡ apply_groups groups e
unfolding apply_groups insert lookup
joined_other i id signature o [] e ne h =
    let miss : contains e.id (id ∷ []) ≡ false = ground (arith, ne) in
    ap (λ x. with_head i id [] e x) (sym h) ∙ rw miss refl
joined_other i id signature o ((s, g) ∷ groups) e ne h = elim (Bool-cases (text_eq s signature)) [
  | inl c ↦
      let same : contains e.id (g.ids ++ id ∷ []) ≡ contains e.id g.ids =
        ground (arith, contains-append e.id id g.ids, ne) in
      rw c (
        ap (λ x. with_head i id groups e x) (lookup_head signature s g groups o c h)
        ∙ ap (given g groups e) same)
  | inr c ↦ rw c (
      joined_other i id signature o groups (apply_group g e)
        (λ h. ne (sym (apply_group-id g e) ∙ h)) (lookup_tail signature s g groups o c h))
]

-- The endpoint itself receives the update of the item.
pub joined_own :
    (items : List EndpointUpdateItem) (i : EndpointUpdateItem) (o : Option Group) (groups : Groups)
    (e : Endpoint)
    → AreSeparate items
    → find_item i.id items ≡ some i
    → AreOfItems items groups
    → AreWithout e.id groups
    → lookup (update_signature (item_updates i)) groups ≡ o
    → apply_groups (joined i e.id (update_signature (item_updates i)) o groups) e
      ≡ set_fields (item_payload i) (item_fields i) e
unfolding apply_groups insert lookup
joined_own items i o [] e sep found of free h =
    let hit : contains e.id (e.id ∷ []) ≡ true = ground arith in
    ap (λ x. with_head i e.id [] e x) (sym h) ∙ rw hit refl
joined_own items i o ((s, g) ∷ groups) e sep found ((j, known, signed, payload, fields), of)
      (free, frees) h =
    elim (Bool-cases (text_eq s (update_signature (item_updates i)))) [
      | inl c ↦
          let signature = update_signature (item_updates i) in
          let same : s ≡ signature = (text_eq_iff s signature).0 c in
          let hit : contains e.id (g.ids ++ e.id ∷ []) ≡ true =
            ground (arith, contains-append e.id e.id g.ids) in
          let p = payload ∙ sep.payloads j i known found (signed ∙ same) in
          let f = fields ∙ sep.fields j i known found (signed ∙ same) in
          rw c (
            ap (λ x. with_head i e.id groups e x) (lookup_head signature s g groups o c h)
            ∙ ap (given g groups e) hit
            ∙ ap (λ (x : Endpoint). apply_groups groups (set_fields x g.select_fields e)) p
            ∙ ap (λ (x : List Field). apply_groups groups (set_fields (item_payload i) x e)) f
            ∙ apply_groups-without groups (set_fields (item_payload i) (item_fields i) e)
                (rw (set_fields-id (item_payload i) (item_fields i) e) frees))
      | inr c ↦ rw c (
          ap
            (λ (b : Bool).
              apply_groups (joined i e.id (update_signature (item_updates i)) o groups)
                (if b then set_fields g.payload g.select_fields e else e))
            free
          ∙ joined_own items i o groups e sep found of frees
              (lookup_tail (update_signature (item_updates i)) s g groups o c h))
    ]
