-- ===== src/Auth.antt =====
-- internal/handler/data/auth (provider.go, registry.go, openai.go, anthropic.go, gemini.go) and
-- internal/router/middleware_auth.go: which provider's interface a request uses, and whether its
-- credential is let through.
pub mod Credentials
mod Tests
use pinai.Base.{
  ℕ, ◌+◌, ◌-◌, Bool, true, false, ◌&&◌, ◌||◌, not, List, [], ◌∷◌, ◌++◌, Option, none, some, length,
  drop, leb, ◌==◌, if◌then◌else◌,
}
use pinai.Base.Text.{trim_space, trim_left, trim_right, Text, codes, text_eq, is_empty}

pub data Provider : Type 0 where
  openai anthropic gemini : Provider

-- What the code reads of a request; a header or a query parameter that is missing reads as empty.
pub record Request : Type 0 where
  pub path : Text
  pub authorization : Text
  pub x_api_key : Text
  pub anthropic_version : Text
  pub x_goog_api_key : Text
  pub query_provider : Text
  pub query_key : Text

-- `strings.Split` at single spaces: the first part, and the others.
unfoldable pub split_space : Text → Text × List Text
split_space [] = ([], [])
split_space (c ∷ s) = let (p, ps) = split_space s in if c == 32 then ([], p ∷ ps) else (c ∷ p, ps)

abbrev pub has_suffix : Text → Text → Bool
has_suffix s suffix = text_eq (drop (length s - length suffix) s) suffix

-- `none` for the empty string.
unfoldable pub provider_from_path : Text → Option Provider
provider_from_path path =
    if has_suffix path (codes "/v1beta/models")
      || has_suffix path (codes "/generateContent")
      || has_suffix path (codes "/streamGenerateContent")
    then some gemini
    else if has_suffix path (codes "/messages") || has_suffix path (codes "/messages/stream")
    then some anthropic
    else if has_suffix path (codes "/chat/completions")
        || has_suffix path (codes "/chat/completions/stream")
        || has_suffix path (codes "/responses")
        || has_suffix path (codes "/responses/stream")
    then some openai
    else none

-- `strings.ToLower` of the query parameter is an argument, since its tables are not at hand.
unfoldable pub provider_from_query : (Text → Text) → Request → Option Provider
provider_from_query to_lower r =
    let provider = to_lower (trim_space r.query_provider) in
    if text_eq provider (codes "openai")
    then some openai
    else if text_eq provider (codes "anthropic")
    then some anthropic
    else if text_eq provider (codes "gemini")
    then some gemini
    else none

abbrev pub is_gemini_request : Request → Bool
is_gemini_request r = not (is_empty r.x_goog_api_key) || not (is_empty r.query_key)

abbrev pub is_anthropic_request : Request → Bool
is_anthropic_request r = not (is_empty r.x_api_key) && not (is_empty r.anthropic_version)

-- The headers, when neither the path nor the query decides.
abbrev pub provider_from_headers : Request → Provider
provider_from_headers r =
    if is_gemini_request r then gemini else if is_anthropic_request r then anthropic else openai

abbrev pub first_of : Option Provider → Option Provider → Provider → Provider
first_of (some p) q r = p
first_of none (some q) r = q
first_of none none r = r

unfoldable pub resolve_provider : (Text → Text) → Request → Provider
resolve_provider to_lower r =
    first_of (provider_from_path r.path) (provider_from_query to_lower r) (provider_from_headers r)

-- Each refusal answers 401 and aborts the request.
pub data Refusal : Type 0 where
  missing malformed wrong : Refusal

pub data Verdict : Type 0 where
  accepted : Verdict
  denied : Refusal → Verdict

-- `subtle.ConstantTimeCompare` of the token and what was presented.
abbrev pub compare_token : Text → Text → Verdict
compare_token token presented = if text_eq presented token then accepted else denied wrong

abbrev pub check_parts : Text → Text → List Text → Verdict
check_parts token scheme [] = denied malformed
check_parts token scheme (presented ∷ []) =
    if text_eq scheme (codes "Bearer") then compare_token token presented else denied malformed
check_parts token scheme (p ∷ q ∷ ps) = denied malformed

unfoldable pub validate_openai : Text → Request → Verdict
validate_openai token r =
    if is_empty r.authorization
    then denied missing
    else let (scheme, parts) = split_space r.authorization in check_parts token scheme parts

unfoldable pub validate_anthropic : Text → Request → Verdict
validate_anthropic token r =
    if is_empty r.x_api_key then denied missing else compare_token token r.x_api_key

abbrev pub gemini_key : Request → Text
gemini_key r =
    let header = trim_space r.x_goog_api_key in
    if is_empty header then trim_space r.query_key else header

unfoldable pub validate_gemini : Text → Request → Verdict
validate_gemini token r =
    if is_empty (gemini_key r) then denied missing else compare_token token (gemini_key r)

-- The strategy of a provider in `NewRegistry`; every provider has one.
unfoldable pub validate : Provider → Text → Request → Verdict
validate openai token r = validate_openai token r
validate anthropic token r = validate_anthropic token r
validate gemini token r = validate_gemini token r

-- `NewProviderMiddleware`: the provider that it stores in the context, and whether the request goes
-- on. Without a token nothing is checked.
unfoldable pub provider_middleware : (Text → Text) → Text → Request → Provider × Verdict
provider_middleware to_lower token r =
    let provider = resolve_provider to_lower r in
    (provider, if is_empty token then accepted else validate provider token r)

-- `createOpenAIAuthMiddleware` of the router makes the same checks.
unfoldable pub openai_auth_middleware : Text → Request → Verdict
openai_auth_middleware token r = validate_openai token r
