-- ===== src/Control/Rules.antt =====
-- Rules for the steps of the control services (internal/app/provider): what holds of the tables
-- when a step returns, and what holds of them when it fails.
use pinai.Base.{ℕ, ◌≡◌, sym, inl, inr, false, ◌==◌, Bool-cases}
use pinai.Control.{
  Tables, Store, Answer, returns, fails, ControlError, Run, pure, raise, ◌>>=◌, call, is_refused,
  later, end_tx, within_tx, log, audited, succeed, Action, or_restore, some_row, resource_not_found,
}

-- The tables satisfy `Q` where the step returns, and `F` where it fails.
abbrev pub Ends {ℓ} :
    {A : Type ℓ} → (A → Tables → Type 0) → (Tables → Type 0) → Answer A → Tables → Type 0
Ends Q F (returns a) t = Q a t
Ends Q F (fails e) t = F t

pub record Ensures {ℓ} {A : Type ℓ} (P : Tables → Type 0) (m : Run A) (Q : A → Tables → Type 0)
    (F : Tables → Type 0) : Type ℓ where
  pub run : (s : Store) → P s.tables → Ends Q F (m s).0 (m s).1.tables

module _ {ℓ} {A : Type ℓ} where
  pub pure_rule :
      {P F : Tables → Type 0} {Q : A → Tables → Type 0} (a : A)
      → ((t : Tables) → P t → Q a t)
      → Ensures P (pure a) Q F
  pure_rule a h = record { run = λ s p. h s.tables p }

  pub raise_rule :
      {P F : Tables → Type 0} {Q : A → Tables → Type 0} (e : ControlError)
      → ((t : Tables) → P t → F t)
      → Ensures P (raise e) Q F
  raise_rule e h = record { run = λ s p. h s.tables p }

  pub succeed_rule :
      {P F : Tables → Type 0} {Q : A → Tables → Type 0} (action : Action) (id : ℕ) (a : A)
      → ((t : Tables) → P t → Q a t)
      → Ensures P (succeed action id a) Q F
  succeed_rule action id a h = record { run = λ s p. h s.tables p }

  pub call_rule :
      {P F : Tables → Type 0} {Q : A → Tables → Type 0} (f : Tables → Answer A × Tables)
      → ((t : Tables) → P t → F t)
      → ((t : Tables) → P t → Ends Q F (f t).0 (f t).1)
      → Ensures P (call f) Q F
  call_rule f refused served = record {
    run = λ s p. elim (Bool-cases (is_refused s.faults)) [
      | inl e ↦ rw e (refused s.tables p)
      | inr e ↦ rw e (served s.tables p)
    ];
  }

  -- A failure of a transaction leaves the tables of its begin.
  pub within_tx_rule :
      {P F : Tables → Type 0} {Q : A → Tables → Type 0} (m : Run A)
      → ((t : Tables) → P t → F t)
      → Ensures P m Q (λ t. Unit)
      → Ensures P (within_tx m) Q F
  within_tx_rule {F = F} {Q = Q} m undone h = record {
    run = λ s p. elim (Bool-cases (is_refused s.faults)) [
      | inl e ↦ rw e (undone s.tables p)
      | inr e ↦ rw e (
          ended s.tables (undone s.tables p) (m (record s { faults = later s.faults }))
            (h.run (record s { faults = later s.faults }) p))
    ];
  }
    where
      ended :
          (before : Tables)
          → F before
          → (r : Answer A × Store) → Ends Q (λ t. Unit) r.0 r.1.tables
          → Ends Q F (end_tx before r.0 r.1).0 (end_tx before r.0 r.1).1.tables
      ended before f (fails e, s) h = f
      ended before f (returns a, s) h = elim (Bool-cases (is_refused s.faults)) [
        | inl e ↦ rw e f
        | inr e ↦ rw e h
      ]

  pub audited_rule :
      {P F : Tables → Type 0} {Q : A → Tables → Type 0} (action : Action) (id : ℕ) (m : Run A)
      → Ensures P m Q F
      → Ensures P (audited action id m) Q F
  audited_rule {F = F} {Q = Q} action id m h = record { run = λ s p. logged (m s) (h.run s p) }
    where
      logged :
          (r : Answer A × Store)
          → Ends Q F r.0 r.1.tables
          → Ends Q F
              (elim r.0 as (λ _. Answer A × Store) [
                | returns a ↦ (returns a, r.1)
                | fails e ↦ (fails e, log action id false r.1)
              ]).0
              (elim r.0 as (λ _. Answer A × Store) [
                | returns a ↦ (returns a, r.1)
                | fails e ↦ (fails e, log action id false r.1)
              ]).1.tables
      logged (returns a, s) h = h
      logged (fails e, s) h = h

  -- What holds before a step may be replaced by more, what holds after it by less.
  pub weaken :
      {P P' F F' : Tables → Type 0} {Q Q' : A → Tables → Type 0} {m : Run A}
      → ((t : Tables) → P' t → P t)
      → ((a : A) (t : Tables) → Q a t → Q' a t)
      → ((t : Tables) → F t → F' t)
      → Ensures P m Q F
      → Ensures P' m Q' F'
  weaken {F = F} {F' = F'} {Q = Q} {Q' = Q'} {m = m} p q f h = record {
    run = λ s x. ends (m s).0 (m s).1.tables (h.run s (p s.tables x));
  }
    where
      ends : (r : Answer A) (t : Tables) → Ends Q F r t → Ends Q' F' r t
      ends (returns a) t = q a t
      ends (fails e) t = f t

module _ {ℓ κ} {A : Type ℓ} {B : Type κ} where
  pub bind_rule :
      {P F : Tables → Type 0} {Q : A → Tables → Type 0} {R : B → Tables → Type 0} {m : Run A}
      {f : A → Run B}
      → Ensures P m Q F
      → ((a : A) → Ensures (Q a) (f a) R F)
      → Ensures P (m >>= f) R F
  bind_rule {F = F} {Q = Q} {R = R} {m = m} {f = f} h k = record {
    run = λ s p. next (m s) (h.run s p);
  }
    where
      next :
          (r : Answer A × Store)
          → Ends Q F r.0 r.1.tables
          → Ends R F
              (elim r.0 as (λ _. Answer B × Store) [
                | returns a ↦ f a r.1
                | fails e ↦ raise e r.1
              ]).0
              (elim r.0 as (λ _. Answer B × Store) [
                | returns a ↦ f a r.1
                | fails e ↦ raise e r.1
              ]).1.tables
      next (returns a, s) h = (k a).run s h
      next (fails e, s) h = h

-- Nothing is claimed of the tables.
pub trivial_rule {ℓ} :
    {A : Type ℓ} {P : Tables → Type 0} (m : Run A) → Ensures P m (λ a t. Unit) (λ t. Unit)
trivial_rule {A = A} m = record { run = λ s p. either (m s).0 (m s).1.tables }
  where
    either : (r : Answer A) (t : Tables) → Ends (λ a t. Unit) (λ t. Unit) r t
    either (returns a) t = tt
    either (fails e) t = tt

-- What holds after a failure.
pub on_failure {ℓ} :
    {A : Type ℓ} {P F : Tables → Type 0} {Q : A → Tables → Type 0} {m : Run A}
    → Ensures P m Q F
    → (s : Store) → P s.tables
    → (e : ControlError) → (m s).0 ≡ fails e
    → F (m s).1.tables
on_failure {A = A} {F = F} {Q = Q} {m = m} h s p e eq = ends (m s).0 eq (h.run s p)
  where
    ends : (r : Answer A) → r ≡ fails e → Ends Q F r (m s).1.tables → F (m s).1.tables
    ends (returns a) eq h = absurd cc
    ends (fails e') eq h = h

-- What holds after a return.
pub on_return {ℓ} :
    {A : Type ℓ} {P F : Tables → Type 0} {Q : A → Tables → Type 0} {m : Run A}
    → Ensures P m Q F
    → (s : Store) → P s.tables
    → (a : A) → (m s).0 ≡ returns a
    → Q a (m s).1.tables
on_return {A = A} {F = F} {Q = Q} {m = m} h s p a eq = ends (m s).0 eq (h.run s p)
  where
    ends : (r : Answer A) → r ≡ returns a → Ends Q F r (m s).1.tables → Q a (m s).1.tables
    ends (returns b) eq h = let same : b ≡ a = cc in rw (sym same) h
    ends (fails e) eq h = absurd cc

-- What holds after both.
pub at_end {ℓ} :
    {A : Type ℓ} {P F : Tables → Type 0} {m : Run A}
    → Ensures P m (λ a. F) F
    → (s : Store) → P s.tables
    → F (m s).1.tables
at_end {A = A} {F = F} {m = m} h s p = ends (m s).0 (h.run s p)
  where
    ends : (r : Answer A) → Ends (λ a. F) F r (m s).1.tables → F (m s).1.tables
    ends (returns a) h = h
    ends (fails e) h = h

-- A failure is followed by a step that establishes `G`.
pub or_restore_rule {ℓ} :
    {A : Type ℓ} {P F G : Tables → Type 0} {Q : A → Tables → Type 0} (m : Run A)
    (restore : Run (Unit {0}))
    → Ensures P m Q F
    → Ensures F restore (λ u. G) G
    → Ensures P (or_restore m restore) Q G
or_restore_rule {A = A} {F = F} {G = G} {Q = Q} m restore h k = record {
  run = λ s p. next (m s) (h.run s p);
}
  where
    next :
        (r : Answer A × Store)
        → Ends Q F r.0 r.1.tables
        → Ends Q G
            (elim r.0 as (λ _. Answer A × Store) [
              | returns a ↦ (returns a, r.1)
              | fails e ↦ (fails e, (restore r.1).1)
            ]).0
            (elim r.0 as (λ _. Answer A × Store) [
              | returns a ↦ (returns a, r.1)
              | fails e ↦ (fails e, (restore r.1).1)
            ]).1.tables
    next (returns a, s) h = h
    next (fails e, s) h = at_end k s h

pub some_row_rule : {P : Tables → Type 0} (n : ℕ) → Ensures P (some_row n) (λ u. P) (λ t. Unit)
some_row_rule {P = P} n = elim (Bool-cases (n == 0)) [
  | inl e ↦ rw e (raise_rule resource_not_found (λ t h. tt))
  | inr e ↦ rw e (pure_rule tt (λ t h. h))
]

-- What holds of no table may be assumed.
pub assume_rule {ℓ} :
    {A : Type ℓ} {C : Type 0} {P F : Tables → Type 0} {Q : A → Tables → Type 0} {m : Run A}
    → (C → Ensures P m Q F)
    → Ensures (λ t. P t × C) m Q F
assume_rule h = record { run = λ s (p, c). (h c).run s p }
