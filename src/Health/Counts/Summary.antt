-- ===== src/Health/Counts/Summary.antt =====
-- The summary of `GetHealthSummary` against the resources themselves.
use pinai.Base.{
  ℕ, ◌+◌, ◌≡◌, refl, sym, ◌≢◌, inl, inr, Bool, true, false, ◌&&◌, ◌||◌, List, [], ◌∷◌, Option, none,
  some, ◌==◌, if◌then◌else◌, length, arith, Bool-cases,
}
use pinai.Base.Int.{pos, ◌-ℤ◌}
use pinai.Base.Text.{Text, text_eq_eq}
use pinai.Base.Assoc.{Assoc, lookup, IsDistinct}
use pinai.Health.{
  Health, status_unknown, status_available, status_warning, status_unavailable, resource_platform,
  resource_api_key, resource_model,
}
use pinai.Health.Storage.{make_key, key_of}
use pinai.Health.Storage.Key.{text_eq-make_key}
use pinai.Health.Counts.{
  StatusCount, add_status, count_type_from, count_by_resource_type, ResourceHealthSummary,
  summarize, ok, get_health_summary,
}

-- The status that a resource reads as: unknown if it has no record.
abbrev pub read_status : Option Health → ℕ
read_status none = status_unknown
read_status (some h) = h.status

-- How many of the resources read as the status.
unfoldable pub count_read : ℕ → ℕ → List ℕ → Assoc Text Health → ℕ
count_read t status [] m = 0
count_read t status (id ∷ ids) m =
    (if read_status (lookup (make_key t id) m) == status then 1 else 0) + count_read t status ids m

abbrev pub is_counted : ℕ → Bool
is_counted status =
    (status == status_available) || (status == status_warning) || (status == status_unavailable)

-- How many read as none of the three statuses that are counted.
unfoldable pub count_other : ℕ → List ℕ → Assoc Text Health → ℕ
count_other t [] m = 0
count_other t (id ∷ ids) m =
    (if is_counted (read_status (lookup (make_key t id) m)) then 0 else 1) + count_other t ids m

abbrev pub member : ℕ → List ℕ → Bool
member x [] = false
member x (y ∷ ys) = (x == y) || member x ys

-- The ids of a table, none twice.
abbrev pub AreIds : List ℕ → Type 0
AreIds [] = Unit
AreIds (id ∷ ids) = (member id ids ≡ false) × AreIds ids

-- Every record stands under its own key.
abbrev pub IsKeyed : Assoc Text Health → Type 0
IsKeyed [] = Unit
IsKeyed ((k, h) ∷ m) = (k ≡ key_of h) × IsKeyed m

-- Every record of the type belongs to one of the resources.
abbrev pub BelongTo : ℕ → List ℕ → Assoc Text Health → Type 0
BelongTo t ids [] = Unit
BelongTo t ids ((k, h) ∷ m) =
    (h.resource_type ≡ t → member h.resource_id ids ≡ true) × BelongTo t ids m

count_entries : ℕ → ℕ → Assoc Text Health → ℕ
count_entries t status [] = 0
count_entries t status ((k, h) ∷ m) =
    (if (h.resource_type == t) && (h.status == status) then 1 else 0) + count_entries t status m

count_type_from-count_entries :
    (t : ℕ) (c : StatusCount) (m : Assoc Text Health)
    → count_type_from t c m ≡ record {
      available = c.available + count_entries t status_available m;
      warning = c.warning + count_entries t status_warning m;
      unavailable = c.unavailable + count_entries t status_unavailable m;
    }
unfolding count_type_from count_entries
count_type_from-count_entries t c [] = ground arith
count_type_from-count_entries t c ((k, h) ∷ m) = ground (
  arith,
  count_type_from-count_entries t (if h.resource_type == t then add_status h.status c else c) m,
)

count_read-nil : (t status : ℕ) (ids : List ℕ) → status ≢ 0 → count_read t status ids [] ≡ 0
unfolding count_read lookup
count_read-nil t status [] h = refl
count_read-nil t status (id ∷ ids) h = ground (arith, count_read-nil t status ids h)

-- One more record is read by the one resource that it belongs to.
count_read-cons :
    (t status : ℕ) (ids : List ℕ) (h : Health) (m : Assoc Text Health)
    → status ≢ 0
    → AreIds ids
    → lookup (key_of h) m ≡ none
    → count_read t status ids ((key_of h, h) ∷ m)
      ≡ (if (h.resource_type == t) && member h.resource_id ids && (h.status == status)
          then 1
          else 0)
        + count_read t status ids m
unfolding count_read lookup
count_read-cons t status [] h m ne u fresh = ground arith
count_read-cons t status (id ∷ ids) h m ne (new, u) fresh =
    let same = text_eq-make_key h.resource_type h.resource_id t id in
    let ih = count_read-cons t status ids h m ne u fresh in
    elim (Bool-cases (h.resource_type == t)) [
      | inl p ↦ elim (Bool-cases (h.resource_id == id)) [
        | inl q ↦ ground (arith, same, ih)
        | inr q ↦ ground (arith, same, ih)
      ]
      | inr p ↦ ground (arith, same, ih)
    ]

count_entries-count_read :
    (t status : ℕ) (ids : List ℕ) (m : Assoc Text Health)
    → status ≢ 0
    → AreIds ids
    → IsDistinct m
    → IsKeyed m
    → BelongTo t ids m
    → count_entries t status m ≡ count_read t status ids m
unfolding count_entries
count_entries-count_read t status ids [] ne u d k b = sym (count_read-nil t status ids ne)
count_entries-count_read t status ids ((key, h) ∷ m) ne u (fresh, d) (keyed, k) (belongs, b) =
    let e = count_read-cons t status ids h m ne u (rw (← keyed) fresh) in
    let ih = count_entries-count_read t status ids m ne u d k b in
    rw keyed (elim (Bool-cases (h.resource_type == t)) [
      | inl p ↦ ground (arith, e, ih, belongs)
      | inr p ↦ ground (arith, e, ih)
    ])

-- Each resource reads as exactly one of the four.
count_read-total :
    (t : ℕ) (ids : List ℕ) (m : Assoc Text Health)
    → count_read t status_available ids m
        + count_read t status_warning ids m
        + count_read t status_unavailable ids m
        + count_other t ids m
      ≡ length ids
unfolding count_read count_other
count_read-total t [] m = refl
count_read-total t (id ∷ ids) m = ground (arith, count_read-total t ids m)

-- The summary of one resource type, counted over its resources.
abbrev pub exact_summary : ℕ → List ℕ → Assoc Text Health → ResourceHealthSummary
exact_summary t ids m = record {
  total = length ids;
  available = count_read t status_available ids m;
  warning = count_read t status_warning ids m;
  unavailable = count_read t status_unavailable ids m;
  unknown = pos (count_other t ids m);
}

summarize-exact_summary :
    (t : ℕ) (ids : List ℕ) (m : Assoc Text Health)
    → AreIds ids
    → IsDistinct m
    → IsKeyed m
    → BelongTo t ids m
    → summarize (length ids) (count_by_resource_type t m) ≡ exact_summary t ids m
unfolding summarize count_by_resource_type
summarize-exact_summary t ids m u d k b =
    rw (count_type_from-count_entries t (record { available = 0; warning = 0; unavailable = 0 }) m)
      (ground (
        arith,
        count_entries-count_read t status_available ids m (omega arith) u d k b,
        count_entries-count_read t status_warning ids m (omega arith) u d k b,
        count_entries-count_read t status_unavailable ids m (omega arith) u d k b,
        count_read-total t ids m,
      ))

-- If every cached record belongs to a resource that exists, then the summary counts resources: of
-- each type those that read as available, as warning and as unavailable, and as unknown all the
-- others; none of the numbers is negative. The cache has one entry for a key, under the record's
-- own key, and the ids of each table are distinct.
pub get_health_summary_exact :
    (platforms keys models : List ℕ) (m : Assoc Text Health)
    → AreIds platforms
    → AreIds keys
    → AreIds models
    → IsDistinct m
    → IsKeyed m
    → BelongTo resource_platform platforms m
    → BelongTo resource_api_key keys m
    → BelongTo resource_model models m
    → get_health_summary (some (length platforms)) (some (length keys)) (some (length models)) m
      ≡ ok (record {
        platform = exact_summary resource_platform platforms m;
        api_key = exact_summary resource_api_key keys m;
        model = exact_summary resource_model models m;
      })
unfolding get_health_summary
get_health_summary_exact platforms keys models m up uk um d k bp bk bm = cc (
  summarize-exact_summary resource_platform platforms m up d k bp,
  summarize-exact_summary resource_api_key keys m uk d k bk,
  summarize-exact_summary resource_model models m um d k bm,
)

-- A resource that was deleted while its record stays in the cache is taken off the unknown ones:
-- where the record is counted, `Unknown` is one less than the resources that are unknown, and so is
-- negative when there are none.
pub summarize_after_deletion :
    (t id : ℕ) (ids : List ℕ) (m : Assoc Text Health)
    → AreIds (id ∷ ids)
    → IsDistinct m
    → IsKeyed m
    → BelongTo t (id ∷ ids) m
    → is_counted (read_status (lookup (make_key t id) m)) ≡ true
    → (summarize (length ids) (count_by_resource_type t m)).unknown
      ≡ pos (count_other t ids m) -ℤ pos 1
unfolding summarize count_by_resource_type ◌-ℤ◌ count_other
summarize_after_deletion t id ids m u d k b counted =
    rw (count_type_from-count_entries t (record { available = 0; warning = 0; unavailable = 0 }) m)
      (ground (
        arith,
        count_entries-count_read t status_available (id ∷ ids) m (omega arith) u d k b,
        count_entries-count_read t status_warning (id ∷ ids) m (omega arith) u d k b,
        count_entries-count_read t status_unavailable (id ∷ ids) m (omega arith) u d k b,
        count_read-total t (id ∷ ids) m,
      ))
