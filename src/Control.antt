-- ===== src/Control.antt =====
-- The control services of internal/app/provider: the tables that they share, the calls of the
-- database, transactions and audit events (control_contracts.go, errors.go, types.go), and, in the
-- children, the services of platforms, endpoints, keys and models with their repositories.
pub mod Rows
pub mod Rules
pub mod Steps
pub mod Endpoints
pub mod Links
pub mod Keys
pub mod Models
pub mod Platforms
pub mod Relations
mod Tests
use pinai.Base.{
  ℕ, ◌+◌, Bool, true, false, List, [], ◌∷◌, ◌++◌, Option, none, some, ◌==◌, if◌then◌else◌,
}
use pinai.Base.Text.{Text}
use pinai.Base.Assoc.{Assoc}

-- `map[string]string`.
abbrev pub Headers : Type 0
Headers = Assoc Text Text

-- `custom_headers` is `none` where the map is nil.
pub record Endpoint : Type 0 where
  pub id : ℕ
  pub platform_id : ℕ
  pub endpoint_type : Text
  pub endpoint_variant : Text
  pub path : Text
  pub custom_headers : Option Headers
  pub is_default : Bool

pub record Platform : Type 0 where
  pub id : ℕ
  pub name : Text
  pub base_url : Text

pub record Key : Type 0 where
  pub id : ℕ
  pub platform_id : ℕ
  pub value : Text

pub record Model : Type 0 where
  pub id : ℕ
  pub platform_id : ℕ
  pub name : Text
  pub alias : Text

-- A row of `api_key_models`.
pub record Link : Type 0 where
  pub key_id : ℕ
  pub model_id : ℕ

-- The rows, each table in the order of its ids, and the id that it gives next.
pub record Tables : Type 0 where
  pub platforms : List Platform
  pub endpoints : List Endpoint
  pub keys : List Key
  pub models : List Model
  pub links : List Link
  pub next_platform : ℕ
  pub next_endpoint : ℕ
  pub next_key : ℕ
  pub next_model : ℕ

-- What the errors wrap: the errors of errors.go, a refusal of the database, and the errors that
-- wrap nothing.
pub data ControlError : Type 0 where
  resource_not_found resource_not_belong invalid_argument default_conflict : ControlError
  database no_items missing_id duplicate_id already_deleted : ControlError

pub data Answer {ℓ} (A : Type ℓ) : Type ℓ where
  returns : A → Answer A
  fails : ControlError → Answer A

pub data Action : Type 0 where
  endpoint_create endpoint_update endpoint_delete key_create key_update key_delete : Action
  model_batch_create model_batch_update model_batch_delete model_update model_delete : Action
  platform_create platform_update platform_delete : Action

-- `ControlAuditEvent`; the detail is left out.
pub record AuditEvent : Type 0 where
  pub action : Action
  pub resource_id : ℕ
  pub success : Bool

-- `faults` says of each coming call whether the database refuses it; a call that is refused
-- changes nothing. Where the list ends, calls are served.
pub record Store : Type 0 where
  pub tables : Tables
  pub faults : List Bool
  pub events : List AuditEvent

abbrev pub Run {ℓ} : Type ℓ → Type ℓ
Run A = Store → Answer A × Store

module _ {ℓ} {A : Type ℓ} where
  abbrev pub pure : A → Run A
  pure a s = (returns a, s)

  abbrev pub raise : ControlError → Run A
  raise e s = (fails e, s)

infixl 5 ◌>>=◌
abbrev pub ◌>>=◌ {ℓ κ} : {A : Type ℓ} {B : Type κ} → Run A → (A → Run B) → Run B
◌>>=◌ m f s = let (r, s') = m s in elim r [ returns a ↦ f a s' | fails e ↦ raise e s' ]

abbrev pub is_refused : List Bool → Bool
is_refused [] = false
is_refused (b ∷ bs) = b

abbrev pub later : List Bool → List Bool
later [] = []
later (b ∷ bs) = bs

-- One call of the database: what it does when it is served.
abbrev pub call {ℓ} : {A : Type ℓ} → (Tables → Answer A × Tables) → Run A
call f s =
    let (r, t) = f s.tables in
    if is_refused s.faults
    then (fails database, record s { faults = later s.faults })
    else (r, record s { tables = t; faults = later s.faults })

module _ {ℓ} {A : Type ℓ} where
  abbrev pub query : (Tables → Answer A) → Run A
  query f = call (λ t. (f t, t))

  abbrev pub or_not_found : Option A → Answer A
  or_not_found none = fails resource_not_found
  or_not_found (some a) = returns a

  -- A write, with the number of the rows that it touched or the row that it made.
  abbrev pub write : (Tables → A × Tables) → Run A
  write f = call (λ t. let (a, t') = f t in (returns a, t'))

  -- The end of a transaction: a failure of its body, or of the commit, undoes what it wrote.
  abbrev pub end_tx : Tables → Answer A → Run A
  end_tx before (fails e) s = (fails e, record s { tables = before })
  end_tx before (returns a) s =
      if is_refused s.faults
      then (fails database, record s { tables = before; faults = later s.faults })
      else (returns a, record s { faults = later s.faults })

  -- `WithinTx` of `queryControlTx`: begin, the body, and commit or roll back.
  abbrev pub within_tx : Run A → Run A
  within_tx m s =
      let (r, s') = m (record s { faults = later s.faults }) in
      if is_refused s.faults
      then (fails database, record s { faults = later s.faults })
      else end_tx s.tables r s'

abbrev pub log : Action → ℕ → Bool → Store → Store
log action id success s = record s {
  events = s.events ++ record { action = action; resource_id = id; success = success } ∷ [];
}

-- A step whose failure is logged before it is passed on.
abbrev pub audited {ℓ} : {A : Type ℓ} → Action → ℕ → Run A → Run A
audited action id m s =
    let (r, s') = m s in
    elim r [ returns a ↦ (returns a, s') | fails e ↦ (fails e, log action id false s') ]

-- The end of an operation that succeeded.
abbrev pub succeed {ℓ} : {A : Type ℓ} → Action → ℕ → A → Run A
succeed action id a s = (returns a, log action id true s)

-- An update or a deletion of no row is an error.
abbrev pub some_row : ℕ → Run (Unit {0})
some_row n = if n == 0 then raise resource_not_found else pure tt

-- A step whose failure is followed by another, whose own failure is only logged.
abbrev pub or_restore {ℓ} : {A : Type ℓ} → Run A → Run (Unit {0}) → Run A
or_restore m restore s =
    let (r, s') = m s in
    elim r [ returns a ↦ (returns a, s') | fails e ↦ (fails e, (restore s').1) ]
