-- ===== src/Health/Query/Issues/Pointwise.antt =====
-- The three batched queries of `GetIssues` (internal/app/health/service_query.go) against a look-up
-- for each record.
use pinai.Base.{
  ℕ, ◌≡◌, refl, ap, inl, inr, true, List, [], ◌∷◌, Option, none, some, ◌==◌, ◌≢◌, arith, Bool-cases,
  Option-cases,
}
use pinai.Base.Text.{Text, nat_eq}
use pinai.Base.Assoc.{Assoc, lookup}
use pinai.Health.{Health, status_unavailable, resource_platform, resource_api_key, resource_model}
use pinai.Health.Storage.{by_status}
use pinai.Health.Counts.Summary.{member}
use pinai.Health.Query.Lists.{index_rows}
use pinai.Health.Query.Lists.Batch.{Answers, lookup-index_answer}
use pinai.Health.Query.Issues.{
  Owned, issues, ids_of_type, fetch_map, add_ids, platforms_of, platform_of, resource_name,
  platform_name, issue_items, needed_platforms, issues_of, get_issues,
}

-- A map that was fetched for some ids reads there as the table.
fetch_map-answer :
    {Row : Type 0} (table : ℕ → Option Row) (fetch : List ℕ → Option (List (ℕ × Row)))
    → Answers table fetch
    → (ids : List ℕ) (m : Assoc ℕ Row) → fetch_map fetch ids ≡ some m
    → (id : ℕ) → member id ids ≡ true
    → lookup id m ≡ table id
unfolding fetch_map
fetch_map-answer table fetch a [] m e id mem = cc
fetch_map-answer table fetch a (i ∷ ids) m e id mem = elim (Option-cases (fetch (i ∷ ids))) [
  | inl missing ↦ ground arith
  | inr (rows, found) ↦
      ground (arith, lookup-index_answer table fetch a (i ∷ ids) rows found id mem)
]

member-add_ids_new :
    (id : ℕ) (ids set : List ℕ) → member id ids ≡ true → member id (add_ids ids set) ≡ true
unfolding add_ids
member-add_ids_new id [] set m = cc
member-add_ids_new id (i ∷ ids) set m = ground (arith, member-add_ids_new id ids set)

member-add_ids_old :
    (id : ℕ) (ids set : List ℕ) → member id set ≡ true → member id (add_ids ids set) ≡ true
unfolding add_ids
member-add_ids_old id [] set m = m
member-add_ids_old id (i ∷ ids) set m = ground (arith, member-add_ids_old id ids set m)

member-platforms_of :
    (id : ℕ) (m : Assoc ℕ Owned) (o : Owned)
    → lookup id m ≡ some o
    → member o.platform_id (platforms_of m) ≡ true
unfolding platforms_of lookup
member-platforms_of id [] o e = cc
member-platforms_of id ((j, p) ∷ m) o e = ground (arith, member-platforms_of id m o)

-- What the items of some records ask for.
abbrev Serves :
    (keys models keys' models' : ℕ → Option Owned) (platforms platforms' : ℕ → Option Text)
    → Health
    → Type 0
Serves keys models keys' models' platforms platforms' h =
    (h.resource_type ≡ resource_platform → platforms h.resource_id ≡ platforms' h.resource_id)
    × (h.resource_type ≡ resource_api_key
        → (keys h.resource_id ≡ keys' h.resource_id)
          × (platform_of platforms (keys h.resource_id)
              ≡ platform_of platforms' (keys h.resource_id)))
    × (h.resource_type ≡ resource_model
        → (models h.resource_id ≡ models' h.resource_id)
          × (platform_of platforms (models h.resource_id)
              ≡ platform_of platforms' (models h.resource_id)))

abbrev AllServe :
    (keys models keys' models' : ℕ → Option Owned) (platforms platforms' : ℕ → Option Text)
    → List Health
    → Type 0
AllServe keys models keys' models' platforms platforms' [] = Unit
AllServe keys models keys' models' platforms platforms' (h ∷ hs) =
    Serves keys models keys' models' platforms platforms' h
    × AllServe keys models keys' models' platforms platforms' hs

resource_name-agree :
    (keys models keys' models' : ℕ → Option Owned) (platforms platforms' : ℕ → Option Text)
    (h : Health)
    → Serves keys models keys' models' platforms platforms' h
    → (resource_name keys models platforms h ≡ resource_name keys' models' platforms' h)
      × (platform_name keys models platforms h ≡ platform_name keys' models' platforms' h)
unfolding resource_name platform_name
resource_name-agree keys models keys' models' platforms platforms' h (p, k, m) =
    elim (Bool-cases (h.resource_type == resource_platform)) [
      | inl a ↦ (ground (arith, p), ground (arith, p))
      | inr a ↦ elim (Bool-cases (h.resource_type == resource_api_key)) [
        | inl b ↦ (ground (arith, k), ground (arith, k))
        | inr b ↦ (ground (arith, m), ground (arith, m))
      ]
    ]

issue_items-agree :
    (keys models keys' models' : ℕ → Option Owned) (platforms platforms' : ℕ → Option Text)
    (hs : List Health)
    → AllServe keys models keys' models' platforms platforms' hs
    → issue_items keys models platforms hs ≡ issue_items keys' models' platforms' hs
unfolding issue_items
issue_items-agree keys models keys' models' platforms platforms' [] s = refl
issue_items-agree keys models keys' models' platforms platforms' (h ∷ hs) (s, ss) =
    let (n, p) = resource_name-agree keys models keys' models' platforms platforms' h s in
    rw (n, p, issue_items-agree keys models keys' models' platforms platforms' hs ss)

platform_of-agree :
    (platforms platforms' : ℕ → Option Text) (o : Option Owned)
    → ((p : Owned) → o ≡ some p → platforms p.platform_id ≡ platforms' p.platform_id)
    → platform_of platforms o ≡ platform_of platforms' o
platform_of-agree platforms platforms' none h = refl
platform_of-agree platforms platforms' (some p) h = rw (h p refl)

module _ (keys models keys' models' : ℕ → Option Owned) (platforms platforms' : ℕ → Option Text)
    (owner_of_key : (id : ℕ) (o : Owned)
      → keys id ≡ some o
      → platforms o.platform_id ≡ platforms' o.platform_id)
    (owner_of_model : (id : ℕ) (o : Owned)
      → models id ≡ some o
      → platforms o.platform_id ≡ platforms' o.platform_id) where
  AllServe-of_answers :
      (hs : List Health)
      → ((id : ℕ)
          → member id (ids_of_type resource_platform hs) ≡ true
          → platforms id ≡ platforms' id)
      → ((id : ℕ) → member id (ids_of_type resource_api_key hs) ≡ true → keys id ≡ keys' id)
      → ((id : ℕ) → member id (ids_of_type resource_model hs) ≡ true → models id ≡ models' id)
      → AllServe keys models keys' models' platforms platforms' hs
  unfolding ids_of_type
  AllServe-of_answers [] p k m = tt
  AllServe-of_answers (h ∷ hs) p k m = (
    (
      (λ e. p h.resource_id (ground arith)),
      (λ e. (
        k h.resource_id (ground arith),
        platform_of-agree platforms platforms' (keys h.resource_id) (owner_of_key h.resource_id),
      )),
      (λ e. (
        m h.resource_id (ground arith),
        platform_of-agree platforms platforms' (models h.resource_id)
            (owner_of_model h.resource_id),
      )),
    ),
    AllServe-of_answers hs (λ id i. p id (ground arith)) (λ id i. k id (ground arith))
        (λ id i. m id (ground arith)),
  )

-- No query of this kind fails.
abbrev pub NeverFails : {Row : Type 0} → (List ℕ → Option (List (ℕ × Row))) → Type 0
NeverFails fetch = (ids : List ℕ) → fetch ids ≢ none

fetch_map_total :
    {Row : Type 0} (fetch : List ℕ → Option (List (ℕ × Row)))
    → NeverFails fetch
    → (ids : List ℕ) → (m : Assoc ℕ Row) × (fetch_map fetch ids ≡ some m)
unfolding fetch_map
fetch_map_total fetch total [] = ([], refl)
fetch_map_total fetch total (id ∷ ids) = elim (Option-cases (fetch (id ∷ ids))) [
  | inl none_found ↦ absurd (total (id ∷ ids) none_found)
  | inr (rows, e) ↦ (index_rows rows [], rw (e, fetch_map))
]

module _ (sort : List Health → List Health)
    (fetch_keys fetch_models : List ℕ → Option (List (ℕ × Owned)))
    (fetch_platforms : List ℕ → Option (List (ℕ × Text))) (keys models : ℕ → Option Owned)
    (platforms : ℕ → Option Text) (answer_keys : Answers keys fetch_keys)
    (answer_models : Answers models fetch_models)
    (answer_platforms : Answers platforms fetch_platforms) (total_keys : NeverFails fetch_keys)
    (total_models : NeverFails fetch_models) (total_platforms : NeverFails fetch_platforms) where
  issues_of-pointwise :
      (hs : List Health)
      → issues_of sort fetch_keys fetch_models fetch_platforms hs
        ≡ issues (issue_items keys models platforms hs)
  issues_of-pointwise hs =
      let (km, ek) = fetch_map_total fetch_keys total_keys (ids_of_type resource_api_key hs) in
      let (mm, em) = fetch_map_total fetch_models total_models (ids_of_type resource_model hs) in
      let needed = needed_platforms sort fetch_keys fetch_models fetch_platforms hs km mm in
      let (pm, ep) = fetch_map_total fetch_platforms total_platforms needed in
      let served = fetch_map-answer platforms fetch_platforms answer_platforms needed pm ep in
      unfold issues_of in
      rw (ek, em, ep, issues_of)
        (ap issues (
          issue_items-agree (λ id. lookup id km) (λ id. lookup id mm) keys models
            (λ id. lookup id pm) platforms hs
            (AllServe-of_answers (λ id. lookup id km) (λ id. lookup id mm) keys models
              (λ id. lookup id pm) platforms
              (λ id o e. served o.platform_id (
                member-add_ids_old o.platform_id (platforms_of mm) _ (
                  member-add_ids_new o.platform_id (platforms_of km) _
                    (member-platforms_of id km o e))))
              (λ id o e. served o.platform_id (
                member-add_ids_new o.platform_id (platforms_of mm) _
                  (member-platforms_of id mm o e)))
              hs
              (λ id i. served id (
                member-add_ids_old id (platforms_of mm) _ (
                  member-add_ids_old id (platforms_of km) _
                    (member-add_ids_new id (ids_of_type resource_platform hs) [] i))))
              (fetch_map-answer keys fetch_keys answer_keys (ids_of_type resource_api_key hs) km ek)
              (fetch_map-answer models fetch_models answer_models (ids_of_type resource_model hs) mm
                em))))

  -- When no query fails, the issues are the unavailable records in their sorted order, each with
  -- the name, and for keys and models the platform's name, that the tables have for it, less those
  -- without a name: the batched queries leave nothing out and mix nothing up.
  pub get_issues-pointwise :
      (cache : Assoc Text Health)
      → sort [] ≡ []
      → get_issues sort fetch_keys fetch_models fetch_platforms cache
        ≡ issues (issue_items keys models platforms (sort (by_status status_unavailable cache)))
  unfolding get_issues
  get_issues-pointwise cache nil = go (by_status status_unavailable cache) refl
    where
      go :
          (found : List Health)
          → by_status status_unavailable cache ≡ found
          → get_issues sort fetch_keys fetch_models fetch_platforms cache
            ≡ issues (issue_items keys models platforms (sort (by_status status_unavailable cache)))
      go [] e = rw (e, get_issues, nil) (unfold issue_items in refl)
      go (h ∷ hs) e = rw (e, get_issues) (issues_of-pointwise (sort (h ∷ hs)))
