-- ===== src/Control/Endpoints/Groups.antt =====
-- The groups of a batch update of endpoints (endpoint.go of internal/app/provider): which rows they
-- change, and whether they change a default.
use pinai.Base.{
  ℕ, ◌≡◌, ◌≢◌, refl, inl, inr, Bool, true, false, List, [], ◌∷◌, Option, none, some, arith,
  if◌then◌else◌, Bool-cases,
}
use pinai.Base.Text.{Text, Eq, text_eq_eq}
use pinai.Base.Assoc.{Assoc, lookup, insert}
use pinai.Task.{contains}
use pinai.Task.Ownership.{contains-append}
use pinai.Control.{Endpoint}
use pinai.Control.Rows.{AllRows, AreKeyed, all-rows_where, rows_where}
use pinai.Control.Endpoints.{Field, is_some}
use pinai.Control.Endpoints.Defaults.{AreOf, endpoint_id, is_default_field, select_plain}
use pinai.Control.Endpoints.Signature.{
  EndpointUpdateItem, Value, item_fields, item_updates, update_signature,
}
use pinai.Control.Endpoints.Batch.{
  Group, Groups, add_item, collect_groups, contains_default, find_item, gives_default, group_item,
  join_group,
}

abbrev pub ids_of : List Endpoint → List ℕ
ids_of [] = []
ids_of (e ∷ es) = e.id ∷ ids_of es

-- A listed row is the platform's, and no other row has its id.
pub listed-AreOf :
    (n p : ℕ) (q : Endpoint → Bool) (es : List Endpoint)
    → ((e : Endpoint) → q e ≡ true → e.platform_id ≡ p)
    → AreKeyed endpoint_id n es
    → AreOf p (λ e. contains e.id (ids_of (rows_where q es))) es
unfolding rows_where
listed-AreOf n p q [] own h = tt
listed-AreOf n p q (r ∷ es) own (below, once, h) = go (listed-AreOf n p q es own h) (q r) refl
  where
    absent :
        (rs : List Endpoint) → AllRows (λ x. x.id ≢ r.id) rs → contains r.id (ids_of rs) ≡ false
    absent [] k = refl
    absent (x ∷ rs) (k, ks) = ground (arith, k, absent rs ks)

    both :
        (js : List ℕ) (rs : List Endpoint)
        → AllRows (λ x. x.id ≢ r.id) rs
        → AllRows (λ e. contains e.id js ≡ true → e.platform_id ≡ p) rs
        → AllRows (λ e. contains e.id (r.id ∷ js) ≡ true → e.platform_id ≡ p) rs
    both js [] k l = tt
    both js (x ∷ rs) (k, ks) (l, ls) = ((λ e. l (ground (arith, e, k))), both js rs ks ls)

    go :
        AllRows (λ e. contains e.id (ids_of (rows_where q es)) ≡ true → e.platform_id ≡ p) es
        → (b : Bool) → q r ≡ b
        → AllRows
            (λ e.
              contains e.id (ids_of (if b then r ∷ rows_where q es else rows_where q es)) ≡ true
              → e.platform_id ≡ p)
            (r ∷ es)
    go rest true c = ((λ e. own r c), both (ids_of (rows_where q es)) es once rest)
    go rest false c = (
      (λ e. absurd (
          ground
            (arith, absent (rows_where q es) (all-rows_where (λ x. x.id ≢ r.id) q es once), e))),
      rest,
    )

pub all-insert :
    {K V : Type 0} ⦃e : Eq K⦄ (D : V → Type 0) (k : K) (v : V) (m : Assoc K V)
    → D v
    → AllRows (λ x. D x.1) m
    → AllRows (λ x. D x.1) (insert k v m)
unfolding insert
all-insert D k v [] d h = (d, tt)
all-insert ⦃e⦄ D k v ((j, w) ∷ m) d (h, hs) = elim (Bool-cases (e.beq j k)) [
  | inl c ↦ rw c (d, hs)
  | inr c ↦ rw c (h, all-insert D k v m d hs)
]

pub lookup-all :
    {K V : Type 0} ⦃e : Eq K⦄ (D : V → Type 0) (k : K) (m : Assoc K V) (v : V)
    → AllRows (λ x. D x.1) m
    → lookup k m ≡ some v
    → D v
unfolding lookup
lookup-all D k [] v h eq = absurd cc
lookup-all ⦃e⦄ D k ((j, w) ∷ m) v (h, hs) eq = elim (Bool-cases (e.beq j k)) [
  | inl c ↦ let same : v ≡ w = ground (arith, c, eq) in rw same h
  | inr c ↦ lookup-all D k m v hs (ground (arith, c, eq))
]

-- The ids of a group are among those of the endpoints found, and its columns leave the default
-- where no item gives it.
pub record IsFine (existing : List ℕ) (with_default : Bool) (g : Group) : Type 0 where
  pub within : (id : ℕ) → contains id g.ids ≡ true → contains id existing ≡ true
  pub plain : with_default ≡ false → AllRows (λ f. is_default_field f ≡ false) g.select_fields

item_fields_plain :
    (i : EndpointUpdateItem)
    → is_some i.is_default ≡ false
    → AllRows (λ f. is_default_field f ≡ false) (item_fields i)
unfolding item_fields
item_fields_plain i c = rw c (
    select_plain (is_some i.endpoint_type) Field.type_field _ refl (
      select_plain (is_some i.endpoint_variant) Field.variant_field _ refl (
        select_plain (is_some i.path) Field.path_field _ refl
          (select_plain (is_some i.custom_headers) Field.headers_field _ refl tt))))

-- Every group is fine.
abbrev pub AreFine : List ℕ → Bool → Groups → Type 0
AreFine existing with_default groups = AllRows (λ x. IsFine existing with_default x.1) groups

joined :
    (existing : List ℕ) (b : Bool) (i : EndpointUpdateItem) (id : ℕ) (signature : Text)
    (groups : Groups)
    → contains id existing ≡ true
    → (b ≡ false → is_some i.is_default ≡ false)
    → AreFine existing b groups
    → (o : Option Group) → lookup signature groups ≡ o
    → IsFine existing b (join_group o i id)
joined existing b i id signature groups found plain h none eq = record {
  within = λ j c. let same : j ≡ id = ground (arith, c) in rw same found;
  plain = λ c. item_fields_plain i (plain c);
}
joined existing b i id signature groups found plain h (some g) eq =
    let old = lookup-all (IsFine existing b) signature groups g h eq in
    record {
      within = λ j c. ground (arith, contains-append j id g.ids, c, old.within j, found);
      plain = old.plain;
    }

added :
    (existing : List ℕ) (b : Bool) (o : Option EndpointUpdateItem) (id : ℕ) (groups : Groups)
    → contains id existing ≡ true
    → (b ≡ false → gives_default o ≡ false)
    → AreFine existing b groups
    → AreFine existing b (add_item o id groups)
added existing b none id groups found plain h = h
added existing b (some i) id groups found plain h = go (item_updates i)
  where
    go : (us : Assoc Text Value) → AreFine existing b (group_item i id us groups)
    go [] = h
    go (u ∷ us) =
        all-insert (IsFine existing b) _ _ groups
          (joined existing b i id (update_signature (u ∷ us)) groups found plain h _ refl) h

pub collect_groups-AreFine :
    (existing : List ℕ) (b : Bool) (items : List EndpointUpdateItem) (es : List Endpoint)
    (groups : Groups)
    → AllRows (λ e. contains e.id existing ≡ true) es
    → (b ≡ false → contains_default items es ≡ false)
    → AreFine existing b groups
    → AreFine existing b (collect_groups items es groups)
unfolding collect_groups contains_default
collect_groups-AreFine existing b items [] groups found plain h = h
collect_groups-AreFine existing b items (e ∷ es) groups (f, fs) plain h =
    collect_groups-AreFine existing b items es (add_item (find_item e.id items) e.id groups) fs
      (λ c. ground (arith, plain c))
      (added existing b (find_item e.id items) e.id groups f (λ c. ground (arith, plain c)) h)
