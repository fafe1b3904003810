-- ===== src/Gateway.antt =====
-- internal/app/gateway/error_mapper.go: an error of the upstream becomes one with a status, a
-- message and a kind. What `errors.As`, `errors.Is` and `reflect` read of the dynamic error is an
-- argument; the order in which the code uses it is modelled.
pub mod Heuristics
pub mod Mapping
pub mod Plain
mod Tests
use pinai.Base.{
  ℕ, Bool, true, false, ◌&&◌, ◌||◌, not, List, [], ◌∷◌, ◌++◌, Option, none, some, leb, ◌==◌,
  if◌then◌else◌,
}
use pinai.Base.Int.{ℤ, pos, negsuc}
use pinai.Base.Text.{Text, codes, is_empty, trim_space, trim_left, trim_right}

-- `Raw` is any value; nil is `none`.
pub record DataPlaneError (R : Type 0) : Type 0 where
  pub status_code : ℤ
  pub message : Text
  pub provider : Text
  pub error_type : Text
  pub error_code : Text
  pub param : Text
  pub raw : Option R
  pub retryable : Bool
  pub should_proxy : Bool

-- What one error of the chain answers to the interfaces that it implements.
pub record Methods (R : Type 0) : Type 0 where
  pub status_code : Option ℤ
  pub get_status_code : Option ℤ
  pub http_status_code : Option ℤ
  pub provider : Option Text
  pub error_type : Option Text
  pub error_code : Option Text
  pub param : Option Text
  pub retryable : Option Bool
  pub should_proxy : Option Bool
  pub raw : Option (Option R)

-- What the `reflectFirst` functions find in its field `Error`, and in its own fields.
pub record Nested : Type 0 where
  pub status : Option ℤ
  pub message : Option Text
  pub error_type : Option Text
  pub error_code : Option Text
  pub param : Option Text

pub record Fields (R : Type 0) : Type 0 where
  pub own : Nested
  pub provider : Option Text
  pub retryable : Option Bool
  pub should_proxy : Option Bool
  pub raw : Option R
  pub nested : Option Nested

pub record Layer (R : Type 0) : Type 0 where
  pub methods : Methods R
  pub fields : Fields R

-- An error: the chain of `errors.Unwrap` that begins with it, its text, the text in lower case, and
-- whether it is one of the two errors of a context.
pub record Failure (R : Type 0) : Type 0 where
  pub self : R
  pub chain : List (Layer R)
  pub text : Text
  pub lower : Text
  pub is_deadline : Bool
  pub is_canceled : Bool

abbrev pub valid_http_status : ℤ → Bool
valid_http_status (pos n) = leb 100 n && leb n 599
valid_http_status (negsuc n) = false

-- `setIfEmptyString`, where there is a value.
unfoldable pub set_if_empty : Option Text → Text → Text
set_if_empty none target = target
set_if_empty (some value) target =
    let trimmed = trim_space value in
    if is_empty target && not (is_empty trimmed) then trimmed else target

abbrev pub set_status : Option ℤ → ℤ → ℤ
set_status none status = status
set_status (some s) status = if valid_http_status s then s else status

abbrev pub or_keep {ℓ} : {A : Type ℓ} → Option A → A → A
or_keep none x = x
or_keep (some y) x = y

abbrev pub or_keep_raw : {R : Type 0} → Option R → Option R → Option R
or_keep_raw none x = x
or_keep_raw (some y) x = some y

module _ {R : Type 0} where
  -- `errors.As`: the first error of the chain that implements the interface. Errors that join several
  -- or have an `As` of their own are left out.
  abbrev pub as_first {ℓ} : {A : Type ℓ} → (Methods R → Option A) → List (Layer R) → Option A
  as_first f [] = none
  as_first f (l ∷ ls) =
      let rest = as_first f ls in elim (f l.methods) [ none ↦ rest | some a ↦ some a ]

  abbrev pub flatten : Option (Option R) → Option R
  flatten none = none
  flatten (some r) = r

  unfoldable pub extract_by_interfaces : List (Layer R) → DataPlaneError R → DataPlaneError R
  unfolding set_if_empty
  extract_by_interfaces chain out = record {
    status_code = set_status (as_first (λ m. m.http_status_code) chain) (
        set_status (as_first (λ m. m.get_status_code) chain)
          (set_status (as_first (λ m. m.status_code) chain) out.status_code));
    message = out.message;
    provider = set_if_empty (as_first (λ m. m.provider) chain) out.provider;
    error_type = set_if_empty (as_first (λ m. m.error_type) chain) out.error_type;
    error_code = set_if_empty (as_first (λ m. m.error_code) chain) out.error_code;
    param = set_if_empty (as_first (λ m. m.param) chain) out.param;
    raw = or_keep_raw (flatten (as_first (λ m. m.raw) chain)) out.raw;
    retryable = or_keep (as_first (λ m. m.retryable) chain) out.retryable;
    should_proxy = or_keep (as_first (λ m. m.should_proxy) chain) out.should_proxy;
  }

  -- `extractNestedValue`, and the part of `extractByReflection` that reads the same names.
  unfoldable pub extract_nested_value : Nested → DataPlaneError R → DataPlaneError R
  unfolding set_if_empty
  extract_nested_value v out = record out {
    status_code = set_status v.status out.status_code;
    message = or_keep v.message out.message;
    error_type = set_if_empty v.error_type out.error_type;
    error_code = set_if_empty v.error_code out.error_code;
    param = set_if_empty v.param out.param;
  }

  abbrev pub extract_nested : Option Nested → DataPlaneError R → DataPlaneError R
  extract_nested none out = out
  extract_nested (some v) out = extract_nested_value v out

  unfoldable pub extract_by_reflection : Fields R → DataPlaneError R → DataPlaneError R
  unfolding extract_nested_value set_if_empty
  extract_by_reflection f out =
      let own = extract_nested_value f.own out in
      extract_nested f.nested (record own {
        provider = set_if_empty f.provider own.provider;
        retryable = or_keep f.retryable own.retryable;
        should_proxy = or_keep f.should_proxy own.should_proxy;
        raw = or_keep_raw f.raw own.raw;
      })

  unfoldable pub extract_structured : List (Layer R) → DataPlaneError R → DataPlaneError R
  unfolding extract_by_interfaces extract_by_reflection
  extract_structured [] out = out
  extract_structured (l ∷ ls) out =
      extract_structured ls (extract_by_reflection l.fields (extract_by_interfaces (l ∷ ls) out))
