-- ===== src/Control/Steps.antt =====
-- Single steps of the control services (internal/app/provider): what a composed step does once it is
-- known what its first part does.
use pinai.Base.{ℕ, ◌≡◌, ap, false}
use pinai.Control.{
  Action, ControlError, Answer, Run, Store, audited, fails, log, raise, returns, ◌>>=◌,
}

module _ {ℓ κ} {A : Type ℓ} {B : Type κ} where
  abbrev go_on : (A → Run B) → Answer A × Store → Answer B × Store
  go_on f r = elim r.0 as (λ x. Answer B × Store) [ returns a ↦ f a r.1 | fails e ↦ raise e r.1 ]

  pub bind_returns :
      (m : Run A) (f : A → Run B) (s : Store) {s' : Store} {a : A}
      → m s ≡ (returns a, s')
      → (m >>= f) s ≡ f a s'
  bind_returns m f s e = ap (go_on f) e

  pub bind_fails :
      (m : Run A) (f : A → Run B) (s : Store) {s' : Store} {e : ControlError}
      → m s ≡ (fails e, s')
      → (m >>= f) s ≡ (fails e, s')
  bind_fails m f s e = ap (go_on f) e

module _ {ℓ} {A : Type ℓ} where
  abbrev note : Action → ℕ → Answer A × Store → Answer A × Store
  note action id r = elim r.0 as (λ x. Answer A × Store) [
    | returns a ↦ (returns a, r.1)
    | fails e ↦ (fails e, log action id false r.1)
  ]

  pub audited_returns :
      (action : Action) (id : ℕ) (m : Run A) (s : Store) {s' : Store} {a : A}
      → m s ≡ (returns a, s')
      → audited action id m s ≡ (returns a, s')
  audited_returns action id m s e = ap (note action id) e

  pub audited_fails :
      (action : Action) (id : ℕ) (m : Run A) (s : Store) {s' : Store} {e : ControlError}
      → m s ≡ (fails e, s')
      → audited action id m s ≡ (fails e, log action id false s')
  audited_fails action id m s e = ap (note action id) e
