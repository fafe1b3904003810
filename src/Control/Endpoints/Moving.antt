-- ===== src/Control/Endpoints/Moving.antt =====
-- The default that moves to the latest endpoint when the default one is deleted
-- (endpoint_delete_app_service.go of internal/app/provider).
use pinai.Base.{
  ℕ, ◌≡◌, ◌≢◌, ◌⊎◌, refl, ◌∙◌, inl, inr, true, List, [], ◌∷◌, Option, none, some, arith, ◌==◌,
  if◌then◌else◌, Bool-cases,
}
use pinai.Control.{Endpoint, Tables}
use pinai.Control.Rows.{
  AllRows, AreKeyed, all_map, change_rows, count_rows, count-change, first_row,
}
use pinai.Control.Rules.{Ensures, bind_rule, pure_rule, some_row_rule}
use pinai.Control.Endpoints.{
  has_id, is_default_of, is_of, latest_of, set_default, set_endpoint_default, set_latest_default,
}
use pinai.Control.Endpoints.Defaults.{
  IsSound, Sound-SoundBut, change-SoundBut, defaults, endpoint_id, found_of,
}
use pinai.Control.Endpoints.Uniqueness.{update_where_rule}

-- The platform has no endpoint, or just one default.
abbrev pub HasDefault : ℕ → Tables → Type 0
HasDefault p t = (count_rows (is_of p) t.endpoints ≡ 0) ⊎ (defaults p t.endpoints ≡ 1)

latest_of-all :
    (D : Endpoint → Type 0) (p : ℕ) (es : List Endpoint) (l : Endpoint)
    → AllRows D es
    → latest_of p es ≡ some l
    → D l × (is_of p l ≡ true)
unfolding latest_of
latest_of-all D p [] l h eq = absurd cc
latest_of-all D p (e ∷ es) l (h, k) eq = go (latest_of-all D p es l k) (latest_of p es) refl eq
  where
    go :
        (latest_of p es ≡ some l → D l × (is_of p l ≡ true))
        → (o : Option Endpoint) → latest_of p es ≡ o
        → (elim o as (λ _. Option Endpoint) [
          | some l ↦ some l
          | none ↦ if is_of p e then some e else none
        ])
          ≡ some l
        → D l × (is_of p l ≡ true)
    go later (some x) c eq = later (c ∙ eq)
    go later none c eq = elim (Bool-cases (is_of p e)) [
      | inl own ↦ (
        let same : l ≡ e = ground (arith, own, eq) in rw same h,
        let same : l ≡ e = ground (arith, own, eq) in rw same own,
      )
      | inr other ↦ absurd (ground (arith, other, eq))
    ]

latest_of-none : (p : ℕ) (es : List Endpoint) → latest_of p es ≡ none → count_rows (is_of p) es ≡ 0
unfolding latest_of count_rows
latest_of-none p [] eq = refl
latest_of-none p (e ∷ es) eq = go (latest_of-none p es) (latest_of p es) refl eq
  where
    go :
        (latest_of p es ≡ none → count_rows (is_of p) es ≡ 0)
        → (o : Option Endpoint) → latest_of p es ≡ o
        → (elim o as (λ _. Option Endpoint) [
          | some l ↦ some l
          | none ↦ if is_of p e then some e else none
        ])
          ≡ none
        → count_rows (is_of p) (e ∷ es) ≡ 0
    go later (some x) c eq = absurd cc
    go later none c eq = ground (arith, eq, later c)

-- The latest endpoint is the row of its id.
latest_of-first :
    (n p : ℕ) (es : List Endpoint) (l : Endpoint)
    → AreKeyed endpoint_id n es
    → latest_of p es ≡ some l
    → first_row (has_id l.id) es ≡ some l
unfolding latest_of first_row
latest_of-first n p [] l h eq = absurd cc
latest_of-first n p (e ∷ es) l (below, once, h) eq =
    go (latest_of-first n p es l h) (latest_of p es) refl eq
  where
    go :
        (latest_of p es ≡ some l → first_row (has_id l.id) es ≡ some l)
        → (o : Option Endpoint) → latest_of p es ≡ o
        → (elim o as (λ _. Option Endpoint) [
          | some l ↦ some l
          | none ↦ if is_of p e then some e else none
        ])
          ≡ some l
        → first_row (has_id l.id) (e ∷ es) ≡ some l
    go later (some x) c eq =
        let apart = (latest_of-all (λ y. y.id ≢ e.id) p es l once (c ∙ eq)).0 in
        ground (arith, apart, later (c ∙ eq))
    go later none c eq = elim (Bool-cases (is_of p e)) [
      | inl own ↦ let same : l ≡ e = ground (arith, own, eq) in rw same (ground arith)
      | inr other ↦ absurd (ground (arith, other, eq))
    ]

-- A platform without a default has one when a row of its own becomes it.
default_set :
    (n p id : ℕ) (es : List Endpoint) (l : Endpoint)
    → AreKeyed endpoint_id n es
    → first_row (has_id id) es ≡ some l
    → is_of p l ≡ true
    → defaults p es ≡ 0
    → defaults p (change_rows (has_id id) set_default es) ≡ 1
unfolding first_row count_rows change_rows
default_set n p id [] l h eq own zero = absurd cc
default_set n p id (e ∷ es) l (below, once, h) eq own none_yet = elim (Bool-cases (has_id id e)) [
  | inl c ↦
      let same : e ≡ l = ground (arith, c, eq) in
      let kept =
        count-change (is_default_of p) (has_id id) set_default es
          (all_map es (λ y apart c'. absurd (apart (ground (arith, c, c')))) once) in
      let of_p : is_of p e ≡ true = rw same own in
      rw (c, of_p, kept) (ground (arith, none_yet, of_p))
  | inr c ↦
      let rest : defaults p es ≡ 0 = ground (arith, none_yet) in
      rw c (ground (arith, none_yet, default_set n p id es l h (ground (arith, c, eq)) own rest))
]

abbrev pub NoDefault : ℕ → Tables → Type 0
NoDefault p t = IsSound t × (defaults p t.endpoints ≡ 0)

pub set_latest_rule :
    (p : ℕ) (o : Option Endpoint)
    → Ensures {0}
        (λ t. NoDefault p t × (latest_of p t.endpoints ≡ o))
        (set_latest_default o)
        (λ u t. IsSound t × HasDefault p t)
        (λ t. Unit)
unfolding set_latest_default set_endpoint_default
set_latest_rule p none =
    pure_rule tt (λ t ((h, zero), c). (h, inl (latest_of-none p t.endpoints c)))
set_latest_rule p (some l) =
    bind_rule (update_where_rule {Q = λ t. IsSound t × HasDefault p t} _ _ moved) some_row_rule
  where
    moved :
        (t : Tables)
        → (NoDefault p t × (latest_of p t.endpoints ≡ some l))
        → IsSound (record t { endpoints = change_rows (has_id l.id) set_default t.endpoints })
          × HasDefault p
              (record t { endpoints = change_rows (has_id l.id) set_default t.endpoints })
    moved t ((h, zero), c) =
        let first = latest_of-first t.next_endpoint p t.endpoints l h.keyed c in
        let own = (latest_of-all (λ e. Unit) p t.endpoints l (all t.endpoints) c).1 in
        let one = default_set t.next_endpoint p l.id t.endpoints l h.keyed first own zero in
        let same : l.platform_id ≡ p = ground (arith, own) in
        let but =
          change-SoundBut l.platform_id (has_id l.id) set_default t (λ e. refl) (λ e. refl)
            (found_of t.next_endpoint l.id t.endpoints l h.keyed first)
            (Sound-SoundBut l.platform_id t h) in
        (
          record {
            keyed = but.keyed;
            one = λ p'. elim (Bool-cases (p' == p)) [
              | inl e ↦ let same' : p' ≡ p = ground (arith, e) in rw same' (omega (arith, one))
              | inr e ↦ but.one p' (ground (arith, e, same))
            ];
          },
          inr one,
        )
      where
        all : (es : List Endpoint) → AllRows (λ e. Unit) es
        all [] = tt
        all (e ∷ es) = (tt, all es)
