-- ===== src/Base/Assoc.antt =====
-- Maps as association lists, over keys with a Boolean test.
use pinai.Base.{
  ◌≡◌, refl, inl, inr, true, List, [], ◌∷◌, Option, none, some, arith, if◌then◌else◌, Bool-cases,
}
use pinai.Base.Text.{Eq}

abbrev pub Assoc {ℓ κ} : Type ℓ → Type κ → Type (ℓ ⊔ κ)
Assoc K V = List (K × V)

pub beq_refl {ℓ} : {K : Type ℓ} ⦃e : Eq K⦄ (k : K) → e.beq k k ≡ true
beq_refl ⦃e⦄ k = (e.beq_iff k k).1 refl

module _ {ℓ κ} {K : Type ℓ} {V : Type κ} ⦃e : Eq K⦄ where
  unfoldable pub lookup : K → Assoc K V → Option V
  lookup k [] = none
  lookup k ((j, v) ∷ m) = if e.beq j k then some v else lookup k m

  -- Store: the entry keeps its place, a new one goes to the end.
  unfoldable pub insert : K → V → Assoc K V → Assoc K V
  insert k v [] = (k, v) ∷ []
  insert k v ((j, w) ∷ m) = if e.beq j k then (k, v) ∷ m else (j, w) ∷ insert k v m

  -- Delete every entry of the key.
  unfoldable pub remove : K → Assoc K V → Assoc K V
  remove k [] = []
  remove k ((j, v) ∷ m) = let rest = remove k m in if e.beq j k then rest else (j, v) ∷ rest

  pub lookup-insert :
      (k j : K) (v : V) (m : Assoc K V)
      → lookup j (insert k v m) ≡ (if e.beq k j then some v else lookup j m)
  unfolding lookup insert
  lookup-insert k j v [] = refl
  lookup-insert k j v ((i, w) ∷ m) =
      ground (arith, e.beq_iff k j, e.beq_iff i k, e.beq_iff i j, lookup-insert k j v m)

  pub lookup-remove :
      (k j : K) (m : Assoc K V) → lookup j (remove k m) ≡ (if e.beq k j then none else lookup j m)
  unfolding lookup remove
  lookup-remove k j [] = ground arith
  lookup-remove k j ((i, w) ∷ m) =
      ground (arith, e.beq_iff k j, e.beq_iff i k, e.beq_iff i j, lookup-remove k j m)

  pub lookup-insert_self : (k : K) (v : V) (m : Assoc K V) → lookup k (insert k v m) ≡ some v
  lookup-insert_self k v m = simp (lookup-insert, beq_refl)

  pub lookup-remove_self : (k : K) (m : Assoc K V) → lookup k (remove k m) ≡ none
  lookup-remove_self k m = simp (lookup-remove, beq_refl)

  -- No key stands twice.
  abbrev pub IsDistinct : Assoc K V → Type κ
  IsDistinct [] = Unit
  IsDistinct ((k, v) ∷ m) = (lookup k m ≡ none) × IsDistinct m

  pub insert-IsDistinct : (k : K) (v : V) (m : Assoc K V) → IsDistinct m → IsDistinct (insert k v m)
  unfolding insert lookup
  insert-IsDistinct k v [] h = (refl, tt)
  insert-IsDistinct k v ((j, w) ∷ m) (h, d) = elim (Bool-cases (e.beq j k)) [
    | inl same ↦ rw same (ground (arith, e.beq_iff j k), d)
    | inr other ↦ rw other (
      ground (arith, lookup-insert k j v m, e.beq_iff j k, e.beq_iff k j),
      insert-IsDistinct k v m d,
    )
  ]

  pub remove-IsDistinct : (k : K) (m : Assoc K V) → IsDistinct m → IsDistinct (remove k m)
  unfolding remove lookup
  remove-IsDistinct k [] h = tt
  remove-IsDistinct k ((j, w) ∷ m) (h, d) = elim (Bool-cases (e.beq j k)) [
    | inl same ↦ rw same (remove-IsDistinct k m d)
    | inr other ↦ rw other (ground (arith, lookup-remove k j m), remove-IsDistinct k m d)
  ]
