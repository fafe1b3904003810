-- ===== src/Health/Query/Lists/Paging.antt =====
-- What a page of one of the lists shows.
use mathlib.Core.List.{Perm}
use pinai.Base.{
  ℕ, ◌-◌, ◌*◌, ◌^◌, ◌≤◌, ◌<◌, ◌≡◌, refl, ap, ◌⊎◌, inl, inr, true, List, [], ◌∷◌, Option, none, take,
  drop, length, arith, Option-cases,
}
use pinai.Base.Text.{Text, nat_eq}
use pinai.Base.Assoc.{Assoc, lookup}
use pinai.Health.{Health}
use pinai.Health.Storage.{by_resource_type}
use pinai.Health.Counts.Summary.{member}
use pinai.Health.Query.Pages.{page_of-take-drop}
use pinai.Health.Query.Lists.{
  Reply, reply, query_failed, ids_of, index_rows, items_of, list_page, list_sorted, health_list,
}
use pinai.Health.Query.Lists.Batch.{Answers, lookup-index_answer}

-- The records stand in the order of the checks, the last one first.
abbrev pub AreDescending : List Health → Type 0
AreDescending [] = Unit
AreDescending (h ∷ []) = Unit
AreDescending (h ∷ g ∷ hs) = (g.last_check_at ≤ h.last_check_at) × AreDescending (g ∷ hs)

-- What the code relies on of `sort.Slice` by the time of the check, whose order among equal times
-- is not determined.
pub record IsSort (sort : List Health → List Health) : Type 0 where
  pub sort_perm : (hs : List Health) → Perm (sort hs) hs
  pub length-sort : (hs : List Health) → length (sort hs) ≡ length hs
  pub sort-AreDescending : (hs : List Health) → AreDescending (sort hs)

module _ {Row Item : Type 0} (item : Row → Health → Item) where
  -- Only the rows of the ids that stand in the records matter.
  items_of-agree :
      (f g : ℕ → Option Row) (all : List ℕ) (hs : List Health)
      → ((id : ℕ) → member id all ≡ true → f id ≡ g id)
      → ((id : ℕ) → member id (ids_of hs) ≡ true → member id all ≡ true)
      → items_of item f hs ≡ items_of item g hs
  unfolding items_of ids_of
  items_of-agree f g all [] same sub = refl
  items_of-agree f g all (h ∷ hs) same sub =
      let ih = items_of-agree f g all hs same (λ id m. sub id (ground arith)) in
      let here = same h.resource_id (sub h.resource_id (ground arith)) in
      ground (arith, here, ih, Option-cases (g h.resource_id))

module _ {Row Item : Type 0} (item : Row → Health → Item) (sort : List Health → List Health)
    (fetch : List ℕ → Option (List (ℕ × Row))) (table : ℕ → Option Row) (sorts : IsSort sort)
    (answers : Answers table fetch) where
  list_page-items :
      (page size total : ℕ) (paged : List Health)
      → ((fetch (ids_of paged) ≡ none)
          × (list_page item sort fetch page size total paged ≡ query_failed))
        ⊎ (list_page item sort fetch page size total paged
            ≡ reply (items_of item table paged) total page size)
  unfolding list_page
  list_page-items page size total paged = elim (Option-cases (fetch (ids_of paged))) [
    | inl failed ↦ inl (failed, rw (failed, list_page))
    | inr (rows, e) ↦ inr (
        rw (e, list_page)
          (ap (λ items. reply items total page size)
            (items_of-agree item (λ id. lookup id (index_rows rows [])) table (ids_of paged) paged
              (lookup-index_answer table fetch answers (ids_of paged) rows e) (λ id m. m))))
  ]

  -- What one of the lists answers for a page: an error, if the query for the rows of the page
  -- failed, or else the page.
  abbrev pub IsPageOf : List Health → ℕ → ℕ → Reply Item → Type 0
  IsPageOf found page size r =
      let paged = take size (drop ((page - 1) * size) (sort found)) in
      ((fetch (ids_of paged) ≡ none) × (r ≡ query_failed))
      ⊎ (r ≡ reply (items_of item table paged) (length found) page size)

  health_list-IsPageOf_some :
      (h : Health) (hs : List Health) (page size : ℕ)
      → 0 < page
      → page * size < 2 ^ 63
      → length (h ∷ hs) < 2 ^ 63
      → IsPageOf (h ∷ hs) page size (list_sorted item sort fetch page size (sort (h ∷ hs)))
  unfolding list_sorted
  health_list-IsPageOf_some h hs page size p r s =
      let len = sorts.length-sort (h ∷ hs) in
      let cut = page_of-take-drop page size (sort (h ∷ hs)) p r (omega arith) in
      rw (cut, list_sorted, len)
        (list_page-items page size (length (h ∷ hs))
          (take size (drop ((page - 1) * size) (sort (h ∷ hs)))))

  -- A page from 1 on, whose end fits an `int`, never panics. Unless the query for its rows failed,
  -- it shows, in the order of the sorted records and each with the row of its resource, those
  -- records of the type that fall on the page and whose resource has a row; the total is the number
  -- of records of the type.
  pub health_list-IsPageOf :
      (t : ℕ) (cache : Assoc Text Health) (page size : ℕ)
      → 0 < page
      → page * size < 2 ^ 63
      → length (by_resource_type t cache) < 2 ^ 63
      → (by_resource_type t cache ≡ [])
          × (health_list item sort fetch t cache page size ≡ reply [] 0 page size)
        ⊎ IsPageOf
            (by_resource_type t cache)
            page
            size
            (health_list item sort fetch t cache page size)
  unfolding health_list
  health_list-IsPageOf t cache page size p r s = go (by_resource_type t cache) refl
    where
      go :
          (found : List Health)
          → by_resource_type t cache ≡ found
          → (by_resource_type t cache ≡ [])
              × (health_list item sort fetch t cache page size ≡ reply [] 0 page size)
            ⊎ IsPageOf
                (by_resource_type t cache)
                page
                size
                (health_list item sort fetch t cache page size)
      go [] e = inl (e, rw (e, health_list))
      go (h ∷ hs) e =
          inr (rw (e, health_list) (health_list-IsPageOf_some h hs page size p r (rw e at s)))
