-- ===== src/Control/Links/Pairs.antt =====
-- The relation between keys and models joins rows of one platform: how the writes of the
-- repositories of internal/app/provider (key_control_repository.go, model_control_repository.go)
-- change it.
use pinai.Base.{
  ℕ, ◌≡◌, ◌≢◌, refl, sym, inl, inr, Bool, true, false, ◌&&◌, List, [], ◌∷◌, ◌++◌, Option, none,
  some, arith, ◌==◌, if◌then◌else◌, Bool-cases,
}
use pinai.Control.{Key, Link, Model, Tables}
use pinai.Control.Rows.{AllRows, AreKeyed, all-append, change_rows, delete_rows, rows_where}
use pinai.Control.Links.{add_keys, add_link, add_models, linked}

-- The platform of the row with an id.
module _ {A : Type 0} (id_of : A → ℕ) (platform_of : A → ℕ) where
  unfoldable pub platform_at : ℕ → List A → Option ℕ
  platform_at j [] = none
  platform_at j (r ∷ rs) = if id_of r == j then some (platform_of r) else platform_at j rs

  pub platform_at-append :
      (j p : ℕ) (rs ss : List A) → platform_at j rs ≡ some p → platform_at j (rs ++ ss) ≡ some p
  unfolding platform_at
  platform_at-append j p [] ss h = absurd cc
  platform_at-append j p (r ∷ rs) ss h = ground (arith, h, platform_at-append j p rs ss)

  -- A new row stands behind rows with smaller ids.
  pub platform_at-new :
      (n : ℕ) (rs : List A) (r : A)
      → id_of r ≡ n
      → AreKeyed id_of n rs
      → platform_at n (rs ++ r ∷ []) ≡ some (platform_of r)
  unfolding platform_at
  platform_at-new n [] r e h = ground (arith, e)
  platform_at-new n (x ∷ rs) r e (below, once, h) =
      ground (arith, below, platform_at-new n rs r e h)

  pub platform_at-change :
      (j : ℕ) (q : A → Bool) (f : A → A) (rs : List A)
      → ((r : A) → id_of (f r) ≡ id_of r)
      → ((r : A) → platform_of (f r) ≡ platform_of r)
      → platform_at j (change_rows q f rs) ≡ platform_at j rs
  unfolding platform_at change_rows
  platform_at-change j q f [] same own = refl
  platform_at-change j q f (r ∷ rs) same own = elim (Bool-cases (q r)) [
    | inl e ↦ rw (e, same r, own r, platform_at-change j q f rs same own) refl
    | inr e ↦ rw (e, platform_at-change j q f rs same own) refl
  ]

  -- A row whose id is not among the deleted ones is still there.
  pub platform_at-delete :
      (j : ℕ) (q : A → Bool) (rs : List A)
      → ((r : A) → id_of r ≡ j → q r ≡ false)
      → platform_at j (delete_rows q rs) ≡ platform_at j rs
  unfolding platform_at delete_rows
  platform_at-delete j q [] keep = refl
  platform_at-delete j q (r ∷ rs) keep = elim (Bool-cases (q r)) [
    | inl e ↦ rw e (ground (arith, e, keep r, platform_at-delete j q rs keep))
    | inr e ↦ rw e (ground (arith, platform_at-delete j q rs keep))
  ]

  -- A read that takes the rows of an id that is there finds one.
  pub platform_at-rows_where :
      (q : A → Bool) (j p : ℕ) (rs : List A)
      → ((r : A) → id_of r ≡ j → q r ≡ true)
      → platform_at j rs ≡ some p
      → rows_where q rs ≢ []
  unfolding platform_at rows_where
  platform_at-rows_where q j p [] hit h e = absurd cc
  platform_at-rows_where q j p (r ∷ rs) hit h e = elim (Bool-cases (id_of r == j)) [
    | inl c ↦ let yes = hit r (ground (arith, c)) in ground (arith, yes, e)
    | inr c ↦ elim (Bool-cases (q r)) [
      | inl d ↦ ground (arith, d, e)
      | inr d ↦ platform_at-rows_where q j p rs hit (ground (arith, c, h)) (ground (arith, d, e))
    ]
  ]

  -- Every row is the row of its id.
  pub keyed-platform_at :
      (n : ℕ) (rs : List A)
      → AreKeyed id_of n rs
      → AllRows (λ r. platform_at (id_of r) rs ≡ some (platform_of r)) rs
  unfolding platform_at
  keyed-platform_at n [] h = tt
  keyed-platform_at n (r ∷ rs) (below, once, h) =
      (ground arith, later rs once (keyed-platform_at n rs h))
    where
      later :
          (ss : List A)
          → AllRows (λ x. id_of x ≢ id_of r) ss
          → AllRows (λ x. platform_at (id_of x) rs ≡ some (platform_of x)) ss
          → AllRows (λ x. platform_at (id_of x) (r ∷ rs) ≡ some (platform_of x)) ss
      later [] k l = tt
      later (x ∷ ss) (k, ks) (l, ls) = (ground (arith, k, l), later ss ks ls)

abbrev pub key_id_of : Key → ℕ
key_id_of k = k.id

abbrev pub key_platform_of : Key → ℕ
key_platform_of k = k.platform_id

abbrev pub model_id_of : Model → ℕ
model_id_of m = m.id

abbrev pub model_platform_of : Model → ℕ
model_platform_of m = m.platform_id

abbrev pub key_platform : ℕ → List Key → Option ℕ
key_platform id ks = platform_at key_id_of key_platform_of id ks

abbrev pub model_platform : ℕ → List Model → Option ℕ
model_platform id ms = platform_at model_id_of model_platform_of id ms

-- A key and a model that are there, of one platform.
abbrev pub IsPair : List Key → List Model → ℕ → ℕ → Type 0
IsPair ks ms k m = (p : ℕ) × (key_platform k ks ≡ some p) × (model_platform m ms ≡ some p)

abbrev pub ArePairs : List Key → List Model → List Link → Type 0
ArePairs ks ms ls = AllRows (λ l. IsPair ks ms l.key_id l.model_id) ls

-- The keys and models have ids of their own, and each relation joins a key and a model that are
-- there, of one platform.
pub record IsRelated (t : Tables) : Type 0 where
  pub keys_keyed : AreKeyed key_id_of t.next_key t.keys
  pub models_keyed : AreKeyed model_id_of t.next_model t.models
  pub pairs : ArePairs t.keys t.models t.links

pub linked-IsPair :
    (ks : List Key) (ms : List Model) (k m : ℕ) (ls : List Link)
    → ArePairs ks ms ls
    → linked k m ls ≡ true
    → IsPair ks ms k m
unfolding linked
linked-IsPair ks ms k m [] h e = absurd cc
linked-IsPair ks ms k m (l ∷ ls) (h, hs) e = elim (Bool-cases (l.key_id == k && l.model_id == m)) [
  | inl c ↦
      let same : l.key_id ≡ k = ground (arith, c) in
      let same' : l.model_id ≡ m = ground (arith, c) in rw (sym same, sym same') h
  | inr c ↦ linked-IsPair ks ms k m ls hs (ground (arith, c, e))
]

pub add_link-pairs :
    (ks : List Key) (ms : List Model) (k m : ℕ) (ls : List Link)
    → IsPair ks ms k m
    → ArePairs ks ms ls
    → ArePairs ks ms (add_link k m ls)
unfolding add_link
add_link-pairs ks ms k m ls new h = elim (Bool-cases (linked k m ls)) [
  | inl e ↦ rw e h
  | inr e ↦ rw e (all-append (λ l. IsPair ks ms l.key_id l.model_id) ls _ h (new, tt))
]

pub add_models-pairs :
    (ks : List Key) (ms : List Model) (k : ℕ) (new : List Model) (ls : List Link)
    → AllRows (λ m. IsPair ks ms k m.id) new
    → ArePairs ks ms ls
    → ArePairs ks ms (add_models k new ls)
unfolding add_models
add_models-pairs ks ms k [] ls new h = h
add_models-pairs ks ms k (m ∷ rest) ls (n, new) h =
    add_models-pairs ks ms k rest (add_link k m.id ls) new (add_link-pairs ks ms k m.id ls n h)

pub add_keys-pairs :
    (ks : List Key) (ms : List Model) (m : ℕ) (new : List Key) (ls : List Link)
    → AllRows (λ k. IsPair ks ms k.id m) new
    → ArePairs ks ms ls
    → ArePairs ks ms (add_keys m new ls)
unfolding add_keys
add_keys-pairs ks ms m [] ls new h = h
add_keys-pairs ks ms m (k ∷ rest) ls (n, new) h =
    add_keys-pairs ks ms m rest (add_link k.id m ls) new (add_link-pairs ks ms k.id m ls n h)
