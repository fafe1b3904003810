-- ===== src/Control/Rows.antt =====
-- The rows of a table under the conditions of a query: reading, counting, changing and deleting
-- them, as the queries of the repositories of internal/app/provider do.
use pinai.Base.{
  ℕ, suc, ◌+◌, ◌≤◌, ◌<◌, ◌≡◌, ◌≢◌, refl, sym, ◌∙◌, inl, inr, Bool, true, List, [], ◌∷◌, ◌++◌,
  Option, none, some, arith, if◌then◌else◌, Bool-cases,
}

module _ {A : Type 0} where
  unfoldable pub first_row : (A → Bool) → List A → Option A
  first_row q [] = none
  first_row q (r ∷ rs) = if q r then some r else first_row q rs

  unfoldable pub rows_where : (A → Bool) → List A → List A
  rows_where q [] = []
  rows_where q (r ∷ rs) = let rest = rows_where q rs in if q r then r ∷ rest else rest

  unfoldable pub delete_rows : (A → Bool) → List A → List A
  delete_rows q [] = []
  delete_rows q (r ∷ rs) = let rest = delete_rows q rs in if q r then rest else r ∷ rest

  unfoldable pub change_rows : (A → Bool) → (A → A) → List A → List A
  change_rows q f [] = []
  change_rows q f (r ∷ rs) = (if q r then f r else r) ∷ change_rows q f rs

  unfoldable pub count_rows : (A → Bool) → List A → ℕ
  count_rows q [] = 0
  count_rows q (r ∷ rs) = let rest = count_rows q rs in if q r then suc rest else rest

  -- Every row satisfies a predicate.
  abbrev pub AllRows : (A → Type 0) → List A → Type 0
  AllRows D [] = Unit
  AllRows D (r ∷ rs) = D r × AllRows D rs

  pub count-append :
      (q : A → Bool) (rs ss : List A) → count_rows q (rs ++ ss) ≡ count_rows q rs + count_rows q ss
  unfolding count_rows
  count-append q [] ss = omega arith
  count-append q (r ∷ rs) ss = ground (arith, count-append q rs ss)

  pub count-delete :
      (q p : A → Bool) (rs : List A) → count_rows q (delete_rows p rs) ≤ count_rows q rs
  unfolding count_rows delete_rows
  count-delete q p [] = omega arith
  count-delete q p (r ∷ rs) = ground (arith, count-delete q p rs)

  -- A change that leaves the condition of each row leaves their number.
  pub count-change :
      (q p : A → Bool) (f : A → A) (rs : List A)
      → AllRows (λ r. p r ≡ true → q (f r) ≡ q r) rs
      → count_rows q (change_rows p f rs) ≡ count_rows q rs
  unfolding count_rows change_rows
  count-change q p f [] h = refl
  count-change q p f (r ∷ rs) (h, k) = elim (Bool-cases (p r)) [
    | inl e ↦ rw (e, h e, count-change q p f rs k) refl
    | inr e ↦ rw (e, count-change q p f rs k) refl
  ]

  pub all_map :
      {D E : A → Type 0} (rs : List A) → ((r : A) → D r → E r) → AllRows D rs → AllRows E rs
  all_map [] f h = tt
  all_map (r ∷ rs) f (h, k) = (f r h, all_map rs f k)

  pub all-append :
      (D : A → Type 0) (rs ss : List A) → AllRows D rs → AllRows D ss → AllRows D (rs ++ ss)
  all-append D [] ss h k = k
  all-append D (r ∷ rs) ss (h, h') k = (h, all-append D rs ss h' k)

  pub all-delete :
      (D : A → Type 0) (q : A → Bool) (rs : List A) → AllRows D rs → AllRows D (delete_rows q rs)
  unfolding delete_rows
  all-delete D q [] h = tt
  all-delete D q (r ∷ rs) (h, k) = elim (Bool-cases (q r)) [
    | inl e ↦ rw e (all-delete D q rs k)
    | inr e ↦ rw e (h, all-delete D q rs k)
  ]

  pub all-change :
      (D : A → Type 0) (q : A → Bool) (f : A → A) (rs : List A)
      → ((r : A) → D r → D (f r))
      → AllRows D rs
      → AllRows D (change_rows q f rs)
  unfolding change_rows
  all-change D q f [] g h = tt
  all-change D q f (r ∷ rs) g (h, k) = elim (Bool-cases (q r)) [
    | inl e ↦ rw e (g r h, all-change D q f rs g k)
    | inr e ↦ rw e (h, all-change D q f rs g k)
  ]

  pub all-rows_where :
      (D : A → Type 0) (q : A → Bool) (rs : List A) → AllRows D rs → AllRows D (rows_where q rs)
  unfolding rows_where
  all-rows_where D q [] h = tt
  all-rows_where D q (r ∷ rs) (h, k) = elim (Bool-cases (q r)) [
    | inl e ↦ rw e (h, all-rows_where D q rs k)
    | inr e ↦ rw e (all-rows_where D q rs k)
  ]

  -- What a read returns satisfies its condition.
  pub rows_where-AllRows :
      (q : A → Bool) (rs : List A) → AllRows (λ r. q r ≡ true) (rows_where q rs)
  unfolding rows_where
  rows_where-AllRows q [] = tt
  rows_where-AllRows q (r ∷ rs) = elim (Bool-cases (q r)) [
    | inl e ↦ rw e (e, rows_where-AllRows q rs)
    | inr e ↦ rw e (rows_where-AllRows q rs)
  ]

  pub first_row-all :
      (D : A → Type 0) (q : A → Bool) (rs : List A) (r : A)
      → AllRows D rs
      → first_row q rs ≡ some r
      → D r × (q r ≡ true)
  unfolding first_row
  first_row-all D q [] r h e = absurd cc
  first_row-all D q (x ∷ rs) r (h, k) e = elim (Bool-cases (q x)) [
    | inl c ↦ found (ground (arith, c, e))
    | inr c ↦ first_row-all D q rs r k (ground (arith, c, e))
  ]
    where
      found : (x ≡ r) × (q x ≡ true) → D r × (q r ≡ true)
      found (same, c) = rw (sym same) (h, c)

-- Tables whose rows have an id of their own, below the id that comes next.
module _ {A : Type 0} (id_of : A → ℕ) where
  abbrev pub AreKeyed : ℕ → List A → Type 0
  AreKeyed n [] = Unit
  AreKeyed n (r ∷ rs) = (id_of r < n) × AllRows (λ x. id_of x ≢ id_of r) rs × AreKeyed n rs

  pub keyed-append :
      (n : ℕ) (rs : List A) (r : A) → id_of r ≡ n → AreKeyed n rs → AreKeyed (suc n) (rs ++ r ∷ [])
  keyed-append n [] r e h = (omega (arith, e), tt, tt)
  keyed-append n (x ∷ rs) r e (below, once, h) = (
    omega (arith, below),
    all-append (λ y. id_of y ≢ id_of x) rs (r ∷ []) once
        ((λ same. omega (arith, same, e, below)), tt),
    keyed-append n rs r e h,
  )

  pub keyed-delete :
      (n : ℕ) (q : A → Bool) (rs : List A) → AreKeyed n rs → AreKeyed n (delete_rows q rs)
  unfolding delete_rows
  keyed-delete n q [] h = tt
  keyed-delete n q (r ∷ rs) (below, once, h) = elim (Bool-cases (q r)) [
    | inl e ↦ rw e (keyed-delete n q rs h)
    | inr e ↦ rw e (below, all-delete (λ x. id_of x ≢ id_of r) q rs once, keyed-delete n q rs h)
  ]

  pub keyed-change :
      (n : ℕ) (q : A → Bool) (f : A → A) (rs : List A)
      → ((r : A) → id_of (f r) ≡ id_of r)
      → AreKeyed n rs
      → AreKeyed n (change_rows q f rs)
  unfolding change_rows
  keyed-change n q f [] same h = tt
  keyed-change n q f (r ∷ rs) same (below, once, h) =
      let rest = keyed-change n q f rs same h in
      let apart = all-change (λ x. id_of x ≢ id_of r) q f rs (λ x d e. d (sym (same x) ∙ e)) once in
      elim (Bool-cases (q r)) [
        | inl e ↦ rw (e, same r) (below, apart, rest)
        | inr e ↦ rw e (below, apart, rest)
      ]
