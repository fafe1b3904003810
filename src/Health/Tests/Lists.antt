-- ===== src/Health/Tests/Lists.antt =====
-- The paged lists and the issues, with an insertion sort and a query for one row.
use mathlib.Core.List.{Perm}
use mathlib.Core.List.Perm
use pinai.Base.{
  ℕ, suc, ◌≡◌, ◌⊎◌, refl, ap, ◌∙◌, inl, inr, List, [], ◌∷◌, Option, none, some, ◌==◌, if◌then◌else◌,
  arith, Bool-cases, length, leb,
}
use pinai.Base.Text.{Text, text_eq_eq, nat_eq, codes}
use pinai.Base.Assoc.{Assoc, lookup}
use pinai.Health.{Health, resource_platform, status_unavailable}
use pinai.Health.Storage.{key_of, by_status, by_resource_type}
use pinai.Health.Service.{disabled_record}
use pinai.Health.Counts.Summary.{member}
use pinai.Health.Query.Lists.{health_list, reply, PlatformRow, platform_item}
use pinai.Health.Query.Lists.Batch.{Answers}
use pinai.Health.Query.Lists.Paging.{IsSort, AreDescending, IsPageOf, health_list-IsPageOf}
use pinai.Health.Query.Issues.{Owned, issues, issue_items, get_issues}
use pinai.Health.Query.Issues.Pointwise.{NeverFails, get_issues-pointwise}

abbrev insert_check : Health → List Health → List Health
insert_check h [] = h ∷ []
insert_check h (g ∷ gs) =
    let rest = insert_check h gs in
    if leb g.last_check_at h.last_check_at then h ∷ g ∷ gs else g ∷ rest

abbrev sort_checks : List Health → List Health
sort_checks [] = []
sort_checks (h ∷ hs) = insert_check h (sort_checks hs)

insert_check_perm : (h : Health) (hs : List Health) → Perm (insert_check h hs) (h ∷ hs)
insert_check_perm h [] = Perm.refl (h ∷ [])
insert_check_perm h (g ∷ gs) =
    let ih = insert_check_perm h gs in
    elim (Bool-cases (leb g.last_check_at h.last_check_at)) [
      | inl le ↦ rw le (Perm.refl (h ∷ g ∷ gs))
      | inr gt ↦ rw gt (Perm.trans (Perm.cons g ih) (Perm.swap h g gs))
    ]

sort_checks_perm : (hs : List Health) → Perm (sort_checks hs) hs
sort_checks_perm [] = Perm.nil
sort_checks_perm (h ∷ hs) =
    Perm.trans (insert_check_perm h (sort_checks hs)) (Perm.cons h (sort_checks_perm hs))

length-insert_check : (h : Health) (hs : List Health) → length (insert_check h hs) ≡ suc (length hs)
length-insert_check h [] = refl
length-insert_check h (g ∷ gs) = ground (arith, length-insert_check h gs)

length-sort_checks : (hs : List Health) → length (sort_checks hs) ≡ length hs
length-sort_checks [] = refl
length-sort_checks (h ∷ hs) =
    length-insert_check h (sort_checks hs) ∙ ap (λ n. suc n) (length-sort_checks hs)

insert_check-AreDescending :
    (h : Health) (hs : List Health) → AreDescending hs → AreDescending (insert_check h hs)
insert_check-AreDescending h [] d = tt
insert_check-AreDescending h (g ∷ []) d = ground arith
insert_check-AreDescending h (g ∷ f ∷ fs) (o, d) =
    let ih = insert_check-AreDescending h (f ∷ fs) d in
    elim (Bool-cases (leb g.last_check_at h.last_check_at)) [
      | inl le ↦ rw le (ground (arith, le), (o, d))
      | inr gt ↦ elim (Bool-cases (leb f.last_check_at h.last_check_at)) [
        | inl le ↦ rw (gt, le) (ground (arith, gt), (ground (arith, le), d))
        | inr gt' ↦ rw (gt, gt') (o, rw gt' at ih)
      ]
    ]

sort_checks-AreDescending : (hs : List Health) → AreDescending (sort_checks hs)
sort_checks-AreDescending [] = tt
sort_checks-AreDescending (h ∷ hs) =
    insert_check-AreDescending h (sort_checks hs) (sort_checks-AreDescending hs)

sort_checks-IsSort : IsSort sort_checks
sort_checks-IsSort = record {
  sort_perm = sort_checks_perm;
  length-sort = length-sort_checks;
  sort-AreDescending = sort_checks-AreDescending;
}

-- A table with the one row `1`, and the query for it.
module _ {Row : Type 0} (row : Row) where
  abbrev one_row : ℕ → Option Row
  one_row id = if id == 1 then some row else none

  abbrev fetch_row : List ℕ → Option (List (ℕ × Row))
  fetch_row ids = some (if member 1 ids then (1, row) ∷ [] else [])

  one_row-Answers : Answers one_row fetch_row
  unfolding lookup
  one_row-Answers = record {
    rows_of_table = λ ids rows e id m. ground (arith, e, m);
    rows_distinct = λ ids rows e. ground (arith, e);
  }

  fetch_row-NeverFails : NeverFails fetch_row
  fetch_row-NeverFails ids e = cc

abbrev known_platform : PlatformRow
known_platform = record { id = 1; name = codes "main" }

abbrev first_record : Health
first_record = disabled_record 100 resource_platform 1

abbrev lost_record : Health
lost_record = disabled_record 200 resource_platform 2

abbrev two_records : Assoc Text Health
two_records = (key_of first_record, first_record) ∷ (key_of lost_record, lost_record) ∷ []

health_list-IsPageOf_example :
    (by_resource_type resource_platform two_records ≡ [])
      × (health_list platform_item sort_checks
            (fetch_row known_platform)
            resource_platform
            two_records
            1
            10
          ≡ reply [] 0 1 10)
    ⊎ IsPageOf platform_item sort_checks
        (fetch_row known_platform)
        (one_row known_platform)
        sort_checks-IsSort
        (one_row-Answers known_platform)
        (by_resource_type resource_platform two_records)
        1
        10
        (health_list platform_item sort_checks
          (fetch_row known_platform)
          resource_platform
          two_records
          1
          10)
health_list-IsPageOf_example =
    health_list-IsPageOf platform_item sort_checks (fetch_row known_platform)
      (one_row known_platform) sort_checks-IsSort (one_row-Answers known_platform) resource_platform
      two_records 1 10 (omega arith) (omega arith) (unfold by_resource_type in omega arith)

abbrev known_owner : Owned
known_owner = record { text = codes "key"; platform_id = 1 }

get_issues-pointwise_example :
    get_issues sort_checks
      (fetch_row known_owner)
      (fetch_row known_owner)
      (fetch_row (codes "main"))
      two_records
    ≡ issues (
        issue_items
          (one_row known_owner)
          (one_row known_owner)
          (one_row (codes "main"))
          (sort_checks (by_status status_unavailable two_records)))
get_issues-pointwise_example =
    get_issues-pointwise sort_checks (fetch_row known_owner) (fetch_row known_owner)
      (fetch_row (codes "main")) (one_row known_owner) (one_row known_owner)
      (one_row (codes "main")) (one_row-Answers known_owner) (one_row-Answers known_owner)
      (one_row-Answers (codes "main")) (fetch_row-NeverFails known_owner)
      (fetch_row-NeverFails known_owner) (fetch_row-NeverFails (codes "main")) two_records refl
