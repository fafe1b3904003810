-- ===== src/Health/Tests/Queries.antt =====
-- The counts, the pages and the issues at concrete caches and answers.
use pinai.Base.{
  ℕ, ◌+◌, ◌^◌, ◌-◌, ◌<◌, ◌≤◌, ◌≡◌, refl, true, List, [], ◌∷◌, Option, none, some, if◌then◌else◌,
  arith, leb,
}
use pinai.Base.Int.{pos, ◌-ℤ◌}
use pinai.Base.Text.{Text, text_eq_eq, nat_eq, codes, format_uint}
use pinai.Base.Assoc.{Assoc, lookup, IsDistinct}
use pinai.Health.{Health, resource_platform, resource_api_key, resource_model, status_available}
use pinai.Health.Storage.{make_key, key_of}
use pinai.Health.Service.{disabled_record}
use pinai.Health.Counts.{get_health_summary, summarize, count_by_resource_type, ok}
use pinai.Health.Counts.Summary.{
  get_health_summary_exact, summarize_after_deletion, exact_summary, count_other, is_counted,
  read_status,
}
use pinai.Health.Query.Pages.{
  pagination, page_of, pages_upto, pagination_bounds, page_of-take-drop, page_of_overflow,
  pages_upto-cover, max_page_size,
}

abbrev platform_record : Health
platform_record = disabled_record 100 resource_platform 1

abbrev key_record : Health
key_record = record (disabled_record 200 resource_api_key 4) { status = status_available }

abbrev cache : Assoc Text Health
cache = (key_of platform_record, platform_record) ∷ (key_of key_record, key_record) ∷ []

cache-IsDistinct : IsDistinct cache
unfolding lookup make_key format_uint
cache-IsDistinct = (refl, (refl, tt))

key_counted : is_counted (read_status (lookup (make_key resource_api_key 4) cache)) ≡ true
unfolding lookup make_key format_uint
key_counted = refl

get_health_summary_exact_example :
    get_health_summary (some 2) (some 1) (some 0) cache
    ≡ ok (record {
      platform = exact_summary resource_platform (1 ∷ 2 ∷ []) cache;
      api_key = exact_summary resource_api_key (4 ∷ []) cache;
      model = exact_summary resource_model [] cache;
    })
get_health_summary_exact_example =
    get_health_summary_exact (1 ∷ 2 ∷ []) (4 ∷ []) [] cache (refl, (refl, tt)) (refl, tt) tt
      cache-IsDistinct (refl, (refl, tt)) ((λ e. refl), ((λ e. ground arith), tt))
      ((λ e. ground arith), ((λ e. refl), tt)) ((λ e. ground arith), ((λ e. ground arith), tt))

summarize_after_deletion_example :
    (summarize 0 (count_by_resource_type resource_api_key cache)).unknown
    ≡ pos (count_other resource_api_key [] cache) -ℤ pos 1
summarize_after_deletion_example =
    summarize_after_deletion resource_api_key 4 [] cache (refl, tt) cache-IsDistinct
      (refl, (refl, tt)) ((λ e. ground arith), ((λ e. refl), tt)) key_counted

-- A conversion that reads one digit.
abbrev one_digit : Text → Option ℕ
one_digit [] = none
one_digit (c ∷ s) = if leb c 57 then some (c - 48) else none

one_digit_bound : (t : Text) (n : ℕ) → one_digit t ≡ some n → n < 2 ^ 64
one_digit_bound [] n e = cc
one_digit_bound (c ∷ s) n e = ground (arith, e)

pagination_bounds_example : (◌<◌ 0 3) × (3 < 2 ^ 63) × (◌<◌ 0 10) × (10 ≤ max_page_size)
pagination_bounds_example =
    pagination_bounds one_digit (codes "3") [] 3 10 one_digit_bound (unfold pagination in refl)

abbrev letters : List ℕ
letters = 7 ∷ 8 ∷ 9 ∷ []

page_of-take-drop_example : page_of 2 2 letters ≡ some (9 ∷ [])
page_of-take-drop_example = page_of-take-drop 2 2 letters (omega arith) (omega arith) (omega arith)

page_of_overflow_example : page_of (2 ^ 62 + 1) 2 letters ≡ none
page_of_overflow_example = page_of_overflow (2 ^ 62 + 1) 2 letters refl (omega arith)

pages_upto-cover_example : pages_upto 2 2 letters ≡ some letters
pages_upto-cover_example = pages_upto-cover 2 2 letters (omega arith) (omega arith)
