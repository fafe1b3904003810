-- ===== src/Control/Endpoints/Joining.antt =====
-- How the loop of a batch update builds the groups, and what all of them do to one endpoint
-- (endpoint.go of internal/app/provider).
use pinai.Base.{
  ℕ, ◌≡◌, ◌≢◌, refl, sym, ap, ◌∙◌, inl, inr, Bool, true, false, List, [], ◌∷◌, Option, none, some,
  arith, ◌==◌, if◌then◌else◌, Bool-cases,
}
use pinai.Base.Text.{Text, text_eq_eq, text_eq_iff, text_eq}
use pinai.Base.Assoc.{Assoc, lookup, insert}
use pinai.Task.{contains}
use pinai.Task.Ownership.{contains-append}
use pinai.Control.{Endpoint}
use pinai.Control.Rows.{AllRows, AreKeyed}
use pinai.Control.Endpoints.{set_fields}
use pinai.Control.Endpoints.Defaults.{endpoint_id}
use pinai.Control.Endpoints.Groups.{all-insert, ids_of, lookup-all}
use pinai.Control.Endpoints.Signature.{
  EndpointUpdateItem, Value, item_fields, item_payload, item_updates, update_signature,
}
use pinai.Control.Endpoints.Batch.{
  Group, Groups, add_item, collect_groups, find_item, group_item, join_group,
}
use pinai.Control.Endpoints.Applied.{
  AreOfItems, AreSeparate, AreWithout, apply_groups, apply_groups-without, apply_item, joined_other,
  joined_own,
}

-- An item without updates selects no column.
no_fields : (i : EndpointUpdateItem) → item_updates i ≡ [] → item_fields i ≡ []
unfolding item_updates item_fields
no_fields i e = ground (arith, e)

find_item-id :
    (id : ℕ) (items : List EndpointUpdateItem) (i : EndpointUpdateItem)
    → find_item id items ≡ some i
    → i.id ≡ id
unfolding find_item
find_item-id id [] i e = absurd cc
find_item-id id (x ∷ xs) i e = elim (Bool-cases (x.id == id)) [
  | inl c ↦ let same : i ≡ x = ground (arith, c, e) in rw same (ground (arith, c))
  | inr c ↦ find_item-id id xs i (ground (arith, c, e))
]

add_item_other :
    (o : Option EndpointUpdateItem) (id : ℕ) (groups : Groups) (e : Endpoint)
    → e.id ≢ id
    → apply_groups (add_item o id groups) e ≡ apply_groups groups e
add_item_other none id groups e ne = refl
add_item_other (some i) id groups e ne = go (item_updates i)
  where
    go :
        (us : Assoc Text Value) → apply_groups (group_item i id us groups) e ≡ apply_groups groups e
    go [] = refl
    go (u ∷ us) = joined_other i id (update_signature (u ∷ us)) _ groups e ne refl

add_item_own :
    (items : List EndpointUpdateItem) (o : Option EndpointUpdateItem) (groups : Groups)
    (e : Endpoint)
    → AreSeparate items
    → find_item e.id items ≡ o
    → AreOfItems items groups
    → AreWithout e.id groups
    → apply_groups (add_item o e.id groups) e ≡ apply_item o e
add_item_own items none groups e sep found of free = apply_groups-without groups e free
add_item_own items (some i) groups e sep found of free = go (item_updates i) refl
  where
    known : find_item i.id items ≡ some i
    known = ap (λ j. find_item j items) (find_item-id e.id items i found) ∙ found

    go :
        (us : Assoc Text Value)
        → item_updates i ≡ us
        → apply_groups (group_item i e.id us groups) e
          ≡ set_fields (item_payload i) (item_fields i) e
    go [] c = rw (no_fields i c) (apply_groups-without groups e free)
    go (u ∷ us) c = rw (sym c) (joined_own items i _ groups e sep known of free refl)

without_join :
    (j id : ℕ) (i : EndpointUpdateItem) (signature : Text) (groups : Groups)
    → j ≢ id
    → AreWithout j groups
    → AreWithout j (insert signature (join_group (lookup signature groups) i id) groups)
without_join j id i signature groups ne free =
    all-insert (λ g. contains j g.ids ≡ false) signature _ groups
      (go (lookup signature groups) refl) free
  where
    go :
        (o : Option Group)
        → lookup signature groups ≡ o
        → contains j (join_group o i id).ids ≡ false
    go none e = ground (arith, ne)
    go (some g) e =
        let old = lookup-all (λ g. contains j g.ids ≡ false) signature groups g free e in
        ground (arith, contains-append j id g.ids, old, ne)

add_item-AreWithout :
    (j : ℕ) (o : Option EndpointUpdateItem) (id : ℕ) (groups : Groups)
    → j ≢ id
    → AreWithout j groups
    → AreWithout j (add_item o id groups)
add_item-AreWithout j none id groups ne free = free
add_item-AreWithout j (some i) id groups ne free = go (item_updates i)
  where
    go : (us : Assoc Text Value) → AreWithout j (group_item i id us groups)
    go [] = free
    go (u ∷ us) = without_join j id i (update_signature (u ∷ us)) groups ne free

-- The groups stay those of items.
joined_of :
    (items : List EndpointUpdateItem) (i : EndpointUpdateItem) (id : ℕ) (signature : Text)
    (o : Option Group) (groups : Groups)
    → find_item i.id items ≡ some i
    → update_signature (item_updates i) ≡ signature
    → lookup signature groups ≡ o
    → AreOfItems items groups
    → AreOfItems items (insert signature (join_group o i id) groups)
unfolding insert lookup
joined_of items i id signature none [] known signed h of = ((i, known, signed, refl, refl), tt)
joined_of items i id signature (some g) [] known signed h of = absurd cc
joined_of items i id signature o ((s, g) ∷ groups) known signed h (own, of) =
    elim (Bool-cases (text_eq s signature)) [
      | inl c ↦
          let same : s ≡ signature = (text_eq_iff s signature).0 c in
          let head : o ≡ some g =
            sym h ∙ ap (λ (b : Bool). if b then some g else lookup signature groups) c in
          rw (c, head) (rw (sym same) own, of)
      | inr c ↦
          let rest : lookup signature groups ≡ o =
            sym (ap (λ (b : Bool). if b then some g else lookup signature groups) c) ∙ h in
          rw c (own, joined_of items i id signature o groups known signed rest of)
    ]

add_item-AreOfItems :
    (items : List EndpointUpdateItem) (o : Option EndpointUpdateItem) (id : ℕ) (groups : Groups)
    → find_item id items ≡ o
    → AreOfItems items groups
    → AreOfItems items (add_item o id groups)
add_item-AreOfItems items none id groups found of = of
add_item-AreOfItems items (some i) id groups found of = go (item_updates i) refl
  where
    known : find_item i.id items ≡ some i
    known = ap (λ j. find_item j items) (find_item-id id items i found) ∙ found

    go :
        (us : Assoc Text Value) → item_updates i ≡ us → AreOfItems items (group_item i id us groups)
    go [] c = of
    go (u ∷ us) c =
        joined_of items i id (update_signature (u ∷ us)) _ groups known (ap update_signature c) refl
          of

absent : (j : ℕ) (es : List Endpoint) → AllRows (λ x. x.id ≢ j) es → contains j (ids_of es) ≡ false
absent j [] h = refl
absent j (x ∷ es) (h, hs) = ground (arith, h, absent j es hs)

-- After the loop, an endpoint that was found has the update of its item, and another none.
pub collect_groups-apply :
    (n : ℕ) (items : List EndpointUpdateItem) (es : List Endpoint) (groups : Groups) (e : Endpoint)
    → AreSeparate items
    → AreKeyed endpoint_id n es
    → AreOfItems items groups
    → AllRows (λ x. AreWithout x.id groups) es
    → apply_groups (collect_groups items es groups) e ≡ (
        if contains e.id (ids_of es)
        then apply_item (find_item e.id items) e
        else apply_groups groups e)
unfolding collect_groups
collect_groups-apply n items [] groups e sep keyed of free = refl
collect_groups-apply n items (x ∷ es) groups e sep (below, once, keyed) of (free, frees) =
    let o = find_item x.id items in
    let next = add_item o x.id groups in
    let rest =
      collect_groups-apply n items es next e sep keyed
        (add_item-AreOfItems items o x.id groups refl of) (later es once frees) in
    elim (Bool-cases (e.id == x.id)) [
      | inl c ↦
          let same : x.id ≡ e.id = ground (arith, c) in
          let gone : contains e.id (ids_of es) ≡ false = rw (sym same) (absent x.id es once) in
          let own : apply_groups next e ≡ apply_item (find_item e.id items) e =
            rw same (
              add_item_own items (find_item e.id items) groups e sep refl of
                (rw (sym same) free)) in
          let here : contains e.id (ids_of (x ∷ es)) ≡ true = ground (arith, c) in
          rest
          ∙ ap
              (λ (b : Bool). if b then apply_item (find_item e.id items) e else apply_groups next e)
              gone
          ∙ own
          ∙ sym (
              ap
                (λ (b : Bool).
                  if b then apply_item (find_item e.id items) e else apply_groups groups e)
                here)
      | inr c ↦
          let there : contains e.id (ids_of (x ∷ es)) ≡ contains e.id (ids_of es) =
            ground (arith, c) in
          let other = add_item_other o x.id groups e (λ h. ground (arith, c, h)) in
          rest
          ∙ ap (λ y. if contains e.id (ids_of es) then apply_item (find_item e.id items) e else y)
              other
          ∙ sym (
              ap
                (λ (b : Bool).
                  if b then apply_item (find_item e.id items) e else apply_groups groups e)
                there)
    ]
  where
    later :
        (xs : List Endpoint)
        → AllRows (λ y. y.id ≢ x.id) xs
        → AllRows (λ y. AreWithout y.id groups) xs
        → AllRows (λ y. AreWithout y.id (add_item (find_item x.id items) x.id groups)) xs
    later [] h k = tt
    later (y ∷ xs) (h, hs) (k, ks) =
        (add_item-AreWithout y.id (find_item x.id items) x.id groups h k, later xs hs ks)
