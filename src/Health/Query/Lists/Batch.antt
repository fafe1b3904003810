-- ===== src/Health/Query/Lists/Batch.antt =====
-- One query for the rows of a page (internal/app/health/service_query.go) against a look-up for each
-- record.
use pinai.Base.{
  ℕ, ◌≡◌, refl, inl, inr, true, List, [], ◌∷◌, Option, none, some, arith, Option-cases,
}
use pinai.Base.Text.{nat_eq}
use pinai.Base.Assoc.{Assoc, lookup, insert, lookup-insert, IsDistinct}
use pinai.Health.Counts.Summary.{member}
use pinai.Health.Query.Lists.{index_rows}

module _ {Row : Type 0} where
  -- What the code relies on of an answer to `WHERE id IN (…)`: of the ids asked for it has the rows
  -- of the table, each once.
  pub record Answers (table : ℕ → Option Row) (fetch : List ℕ → Option (List (ℕ × Row)))
      : Type 0 where
    pub rows_of_table :
        (ids : List ℕ) (rows : List (ℕ × Row))
        → fetch ids ≡ some rows
        → (id : ℕ) → member id ids ≡ true
        → lookup id rows ≡ table id
    pub rows_distinct :
        (ids : List ℕ) (rows : List (ℕ × Row)) → fetch ids ≡ some rows → IsDistinct rows

  found_or : Option Row → Option Row → Option Row
  found_or none b = b
  found_or (some a) b = some a

  lookup-index_rows :
      (id : ℕ) (rows : List (ℕ × Row)) (m : Assoc ℕ Row)
      → IsDistinct rows
      → lookup id (index_rows rows m) ≡ found_or (lookup id rows) (lookup id m)
  unfolding index_rows lookup found_or
  lookup-index_rows id [] m d = refl
  lookup-index_rows id ((j, row) ∷ rows) m (fresh, d) =
      ground (arith, lookup-index_rows id rows (insert j row m) d, lookup-insert j id row m)

  -- The index of an answer reads as the table, at the ids that were asked for.
  pub lookup-index_answer :
      (table : ℕ → Option Row) (fetch : List ℕ → Option (List (ℕ × Row)))
      → Answers table fetch
      → (ids : List ℕ) (rows : List (ℕ × Row)) → fetch ids ≡ some rows
      → (id : ℕ) → member id ids ≡ true
      → lookup id (index_rows rows []) ≡ table id
  unfolding found_or lookup
  lookup-index_answer table fetch a ids rows e id mem =
      let all = lookup-index_rows id rows [] (a.rows_distinct ids rows e) in
      let row = a.rows_of_table ids rows e id mem in
      elim (Option-cases (table id)) [
        | inl gone ↦ ground (arith, all, row)
        | inr (r, there) ↦ ground (arith, all, row)
      ]
