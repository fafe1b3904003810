-- ===== src/Health/Counts.antt =====
-- The counts of storage.go (`CountByPlatform`, `CountByResourceType`) and the summary of
-- service_query.go (`GetHealthSummary`), which takes what is not counted for unknown.
pub mod Summary
use pinai.Base.{ℕ, ◌+◌, ◌≡◌, List, [], ◌∷◌, Option, none, some, ◌==◌, if◌then◌else◌}
use pinai.Base.Int.{ℤ, pos, ◌-ℤ◌}
use pinai.Base.Text.{Text, nat_eq}
use pinai.Base.Assoc.{Assoc, lookup, insert}
use pinai.Health.{
  Health, status_available, status_warning, status_unavailable, resource_platform, resource_api_key,
  resource_model,
}
use pinai.Health.Storage.{Table, Storage}

pub record StatusCount : Type 0 where
  pub available : ℕ
  pub warning : ℕ
  pub unavailable : ℕ

abbrev pub zero_count : StatusCount
zero_count = record { available = 0; warning = 0; unavailable = 0 }

-- The `switch` on the status.
unfoldable pub add_status : ℕ → StatusCount → StatusCount
add_status status c =
    if status == status_available
    then record c { available = c.available + 1 }
    else if status == status_warning
    then record c { warning = c.warning + 1 }
    else if status == status_unavailable
    then record c { unavailable = c.unavailable + 1 }
    else c

-- The callback of `Range`, over the entries that are left.
unfoldable pub count_type_from : ℕ → StatusCount → Assoc Text Health → StatusCount
unfolding add_status
count_type_from t c [] = c
count_type_from t c ((k, h) ∷ m) =
    count_type_from t (if h.resource_type == t then add_status h.status c else c) m

unfoldable pub count_by_resource_type : ℕ → Assoc Text Health → StatusCount
unfolding count_type_from
count_by_resource_type t m = count_type_from t zero_count m

-- A missing key of a Go map reads as the zero value.
abbrev pub count_or_zero : Option StatusCount → StatusCount
count_or_zero none = zero_count
count_or_zero (some c) = c

unfoldable pub add_platform_status : Assoc ℕ ℕ → Health → Assoc ℕ StatusCount → Assoc ℕ StatusCount
unfolding add_status lookup insert
add_platform_status resource_to_platform h result =
    elim (lookup h.resource_id resource_to_platform) [
      | none ↦ result
      | some platform ↦
          insert platform (add_status h.status (count_or_zero (lookup platform result))) result
    ]

unfoldable pub count_platform_from :
    ℕ → Assoc ℕ ℕ → Assoc ℕ StatusCount → Assoc Text Health → Assoc ℕ StatusCount
unfolding add_platform_status
count_platform_from t resource_to_platform result [] = result
count_platform_from t resource_to_platform result ((k, h) ∷ m) =
    count_platform_from t resource_to_platform
      (if h.resource_type == t then add_platform_status resource_to_platform h result else result) m

unfoldable pub count_by_platform : ℕ → Assoc ℕ ℕ → Assoc Text Health → Assoc ℕ StatusCount
unfolding count_platform_from
count_by_platform t resource_to_platform m = count_platform_from t resource_to_platform [] m

pub record ResourceHealthSummary : Type 0 where
  pub total : ℕ
  pub available : ℕ
  pub warning : ℕ
  pub unavailable : ℕ
  pub unknown : ℤ

pub record HealthSummaryResponse : Type 0 where
  pub platform : ResourceHealthSummary
  pub api_key : ResourceHealthSummary
  pub model : ResourceHealthSummary

-- The literal for one resource type; the subtraction is signed.
unfoldable pub summarize : ℕ → StatusCount → ResourceHealthSummary
unfolding ◌-ℤ◌
summarize total c = record {
  total = total;
  available = c.available;
  warning = c.warning;
  unavailable = c.unavailable;
  unknown = pos total -ℤ pos c.available -ℤ pos c.warning -ℤ pos c.unavailable;
}

pub data QueryError : Type 0 where
  platform_total api_key_total model_total : QueryError

-- A query result, or the error that the method returns.
pub data Answer {ℓ} (A : Type ℓ) : Type ℓ where
  ok : A → Answer A
  err : QueryError → Answer A

infixl 5 ◌>>=◌
abbrev pub ◌>>=◌ {ℓ κ} : {A : Type ℓ} {B : Type κ} → Answer A → (A → Answer B) → Answer B
ok a >>= f = f a
err e >>= f = err e

abbrev pub or_fail {ℓ} : {A : Type ℓ} → QueryError → Option A → Answer A
or_fail e none = err e
or_fail e (some a) = ok a

-- The three totals are what the database answers, `none` for an error.
unfoldable pub get_health_summary :
    Option ℕ → Option ℕ → Option ℕ → Assoc Text Health → Answer HealthSummaryResponse
unfolding count_by_resource_type summarize
get_health_summary platforms keys models cache = do
  platforms_counted ← or_fail platform_total platforms
  keys_counted ← or_fail api_key_total keys
  models_counted ← or_fail model_total models
  ok (record {
    platform = summarize platforms_counted (count_by_resource_type resource_platform cache);
    api_key = summarize keys_counted (count_by_resource_type resource_api_key cache);
    model = summarize models_counted (count_by_resource_type resource_model cache);
  })
