-- ===== src/Control/Keys/Orphans.antt =====
-- The models that are left without a key, and the deletion of a key as a whole
-- (removeOrphanedModels of utils.go and key_delete_app_service.go of internal/app/provider).
use pinai.Base.{
  ℕ, ◌≡◌, ◌≢◌, refl, sym, ap, ◌∙◌, inl, inr, Bool, true, false, ◌&&◌, List, [], ◌∷◌, Option, none,
  some, arith, ◌==◌, if◌then◌else◌, Bool-cases,
}
use pinai.Task.{contains}
use pinai.Control.{Key, Link, Model, Tables, or_not_found}
use pinai.Control.Rows.{AllRows, delete_rows, first_row, keyed-delete, rows_where}
use pinai.Control.Rules.{Ends, Ensures, call_rule}
use pinai.Control.Links.{keys_of, linked}
use pinai.Control.Links.Pairs.{
  ArePairs, IsRelated, key_platform, model_id_of, model_platform_of, platform_at,
  platform_at-delete,
}
use pinai.Control.Keys.{get_api_key, is_among, is_orphan, key_has_id, model_ids}

pub get_api_key_rule :
    {P : Tables → Type 0} (id : ℕ)
    → Ensures P (get_api_key id) (λ k t. P t × (first_row (key_has_id id) t.keys ≡ some k)) P
unfolding get_api_key
get_api_key_rule {P = P} id = call_rule _ (λ t p. p) (λ t p. found t p _ refl)
  where
    found :
        (t : Tables)
        → P t
        → (o : Option Key) → first_row (key_has_id id) t.keys ≡ o
        → Ends (λ k t. P t × (first_row (key_has_id id) t.keys ≡ some k)) P (or_not_found o) t
    found t p none e = p
    found t p (some x) e = (p, e)

-- Every model of the platform has a key.
abbrev pub HaveKeys : ℕ → Tables → Type 0
HaveKeys p t = AllRows (λ m. m.platform_id ≡ p → keys_of m.id t ≢ []) t.models

-- A model with a relation has a key.
related_key :
    (i j p : ℕ) (ls : List Link) (ks : List Key)
    → linked j i ls ≡ true
    → key_platform j ks ≡ some p
    → rows_where (λ k. linked k.id i ls) ks ≢ []
unfolding platform_at rows_where
related_key i j p ls [] hit h e = absurd cc
related_key i j p ls (k ∷ ks) hit h e = elim (Bool-cases (k.id == j)) [
  | inl c ↦
      let same : k.id ≡ j = ground (arith, c) in
      let yes : linked k.id i ls ≡ true = rw same hit in ground (arith, yes, e)
  | inr c ↦ elim (Bool-cases (linked k.id i ls)) [
    | inl d ↦ ground (arith, d, e)
    | inr d ↦ related_key i j p ls ks hit (ground (arith, c, h)) (ground (arith, d, e))
  ]
]

keyless :
    (b : Bool) (ks : List Key)
    → (b && (elim ks as (λ x. Bool) [ [] ↦ true | k ∷ ks ↦ false ])) ≡ true
    → ks ≡ []
keyless b [] h = refl
keyless true (k ∷ ks) h = absurd cc
keyless false (k ∷ ks) h = absurd cc

orphan :
    (b : Bool) (ks : List Key)
    → b ≡ true
    → ks ≡ []
    → (b && (elim ks as (λ x. Bool) [ [] ↦ true | k ∷ ks ↦ false ])) ≡ true
orphan b [] e none_left = rw e refl
orphan b (k ∷ ks) e none_left = absurd cc

-- A listed id is that of an orphan, which has no key.
orphan_listed :
    (p i : ℕ) (t : Tables) (ms : List Model)
    → contains i (model_ids (rows_where (is_orphan p t) ms)) ≡ true
    → keys_of i t ≡ []
unfolding rows_where
orphan_listed p i t [] h = absurd cc
orphan_listed p i t (m ∷ ms) h = elim (Bool-cases (is_orphan p t m)) [
  | inl c ↦ elim (Bool-cases (i == m.id)) [
    | inl d ↦
        let same : i ≡ m.id = ground (arith, d) in
        rw same (keyless (m.platform_id == p) (keys_of m.id t) c)
    | inr d ↦ orphan_listed p i t ms (ground (arith, h, c, d))
  ]
  | inr c ↦ orphan_listed p i t ms (ground (arith, h, c))
]

-- The ids that are listed cover the orphans.
abbrev pub Covers : ℕ → Tables → List ℕ → List Model → Type 0
Covers p t ids ms = AllRows (λ m. is_orphan p t m ≡ true → contains m.id ids ≡ true) ms

pub orphans_listed :
    (p : ℕ) (t : Tables) (ms : List Model)
    → Covers p t (model_ids (rows_where (is_orphan p t) ms)) ms
unfolding rows_where
orphans_listed p t [] = tt
orphans_listed p t (m ∷ ms) = go (is_orphan p t m) refl (orphans_listed p t ms)
  where
    more :
        (i : ℕ) (ids : List ℕ) (xs : List Model)
        → AllRows (λ m. is_orphan p t m ≡ true → contains m.id ids ≡ true) xs
        → AllRows (λ m. is_orphan p t m ≡ true → contains m.id (i ∷ ids) ≡ true) xs
    more i ids [] h = tt
    more i ids (x ∷ xs) (h, hs) = ((λ e. ground (arith, h e)), more i ids xs hs)

    go :
        (b : Bool)
        → is_orphan p t m ≡ b
        → AllRows
            (λ m.
              is_orphan p t m ≡ true
              → contains m.id (model_ids (rows_where (is_orphan p t) ms)) ≡ true)
            ms
        → AllRows
            (λ x.
              is_orphan p t x ≡ true
              → contains x.id (
                  model_ids (
                    if b then m ∷ rows_where (is_orphan p t) ms else rows_where (is_orphan p t) ms))
                ≡ true)
            (m ∷ ms)
    go true c rest = ((λ e. ground arith), more m.id _ ms rest)
    go false c rest = ((λ e. absurd cc), rest)

-- A model that no listed id names has a key, if it is the platform's.
pub kept :
    (p : ℕ) (t : Tables) (ids : List ℕ) (m : Model)
    → (is_orphan p t m ≡ true → contains m.id ids ≡ true)
    → contains m.id ids ≡ false
    → m.platform_id ≡ p
    → keys_of m.id t ≢ []
kept p t ids m covers c own none_left =
    let hit =
      covers (orphan (m.platform_id == p) (keys_of m.id t) (ground (arith, own)) none_left) in
    cc

pub survivors :
    (p : ℕ) (t : Tables) (ids : List ℕ) (ms : List Model)
    → Covers p t ids ms
    → AllRows (λ m. m.platform_id ≡ p → keys_of m.id t ≢ []) (delete_rows (is_among ids) ms)
unfolding delete_rows
survivors p t ids [] h = tt
survivors p t ids (m ∷ ms) (h, hs) = elim (Bool-cases (is_among ids m)) [
  | inl e ↦ rw e (survivors p t ids ms hs)
  | inr e ↦ rw e (kept p t ids m h e, survivors p t ids ms hs)
]

linked_self : (l : Link) (ls : List Link) → linked l.key_id l.model_id (l ∷ ls) ≡ true
unfolding linked
linked_self l ls = ground arith

linked_later :
    (l : Link) (ls : List Link) (k m : ℕ) → linked k m ls ≡ true → linked k m (l ∷ ls) ≡ true
unfolding linked
linked_later l ls k m h = ground (arith, h)

-- What the deletion of the listed models leaves.
pub removed :
    (p : ℕ) (t : Tables) (ids : List ℕ)
    → ids ≡ model_ids (rows_where (is_orphan p t) t.models)
    → IsRelated t
    → IsRelated (record t { models = delete_rows (is_among ids) t.models })
unfolding keys_of
removed p t ids e h = record {
  keys_keyed = h.keys_keyed;
  models_keyed = keyed-delete model_id_of t.next_model (is_among ids) t.models h.models_keyed;
  pairs = go t.links (λ k m c. c) h.pairs;
}
  where
    apart :
        (k m q : ℕ)
        → linked k m t.links ≡ true
        → key_platform k t.keys ≡ some q
        → contains m ids ≡ false
    apart k m q c at = elim (Bool-cases (contains m ids)) [
      | inl d ↦ absurd (
          related_key m k q t.links t.keys c at
            (orphan_listed p m t t.models (ap (contains m) (sym e) ∙ d)))
      | inr d ↦ d
    ]

    go :
        (ls : List Link)
        → ((k m : ℕ) → linked k m ls ≡ true → linked k m t.links ≡ true)
        → ArePairs t.keys t.models ls
        → ArePairs t.keys (delete_rows (is_among ids) t.models) ls
    go [] sub h = tt
    go (l ∷ ls) sub ((q, k, m), hs) =
        let free = apart l.key_id l.model_id q (sub l.key_id l.model_id (linked_self l ls)) k in
        (
          (
            q,
            k,
            platform_at-delete model_id_of model_platform_of l.model_id (is_among ids) t.models
                  (λ r same. ap (λ i. contains i ids) same ∙ free)
                ∙ m,
          ),
          go ls (λ k' m' c. sub k' m' (linked_later l ls k' m' c)) hs,
        )
