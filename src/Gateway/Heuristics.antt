-- ===== src/Gateway/Heuristics.antt =====
-- The rest of error_mapper.go: the guesses from the text of the error, the completion, and the whole
-- mapping.
use pinai.Base.{
  ℕ, Bool, true, false, ◌&&◌, ◌||◌, List, [], ◌∷◌, ◌++◌, Option, none, some, leb, ◌==◌,
  if◌then◌else◌,
}
use pinai.Base.Int.{ℤ, pos, negsuc}
use pinai.Base.Text.{Text, codes, is_empty}
use pinai.Gateway.{DataPlaneError, Failure, valid_http_status, set_if_empty, extract_structured}

abbrev pub has_prefix : Text → Text → Bool
has_prefix s [] = true
has_prefix [] (c ∷ p) = false
has_prefix (d ∷ s) (c ∷ p) = (d == c) && has_prefix s p

-- `strings.Contains`.
unfoldable pub contains_text : Text → Text → Bool
contains_text [] p = is_empty p
contains_text (c ∷ s) p = has_prefix (c ∷ s) p || contains_text s p

abbrev pub contains_any : Text → List Text → Bool
contains_any s [] = false
contains_any s (p ∷ ps) = contains_text s p || contains_any s ps

-- The cases of the `switch`, in their order.
pub data Cue : Type 0 where
  timed_out canceled rate_limited unauthorized not_found bad_request nothing : Cue

unfoldable pub cue_of : (lower : Text) (is_deadline is_canceled : Bool) → Cue
unfolding contains_text
cue_of lower is_deadline is_canceled =
    if is_deadline || contains_any lower (codes "timeout" ∷ codes "deadline" ∷ [])
    then timed_out
    else if is_canceled
    then canceled
    else if contains_any lower
        (codes "429" ∷ codes "rate limit" ∷ codes "too many requests" ∷ codes "quota" ∷ [])
    then rate_limited
    else if contains_any lower (
        codes "401"
        ∷ codes "403"
        ∷ codes "unauthorized"
        ∷ codes "forbidden"
        ∷ codes "authentication"
        ∷ [])
    then unauthorized
    else if contains_any lower (codes "404" ∷ codes "not found" ∷ [])
    then not_found
    else if contains_any lower (
        codes "400"
        ∷ codes "bad request"
        ∷ codes "invalid request"
        ∷ codes "invalid parameter"
        ∷ [])
    then bad_request
    else nothing

unfoldable pub set_status_and_message :
    {R : Type 0} → ℕ → Text → DataPlaneError R → DataPlaneError R
set_status_and_message status message out = record out {
  status_code = if valid_http_status out.status_code then out.status_code else pos status;
  message = if is_empty out.message then message else out.message;
}

-- A case that names a status, a message, a type and a code.
unfoldable pub name_error :
    {R : Type 0} → ℕ → Text → Text → Text → DataPlaneError R → DataPlaneError R
unfolding set_status_and_message set_if_empty
name_error status message error_type error_code out =
    let named = set_status_and_message status message out in
    record named {
      error_type = set_if_empty (some error_type) named.error_type;
      error_code = set_if_empty (some error_code) named.error_code;
    }

abbrev pub is_server_error : ℤ → Bool
is_server_error (pos n) = leb 500 n
is_server_error (negsuc n) = false

unfoldable pub apply_cue : {R : Type 0} → Cue → Text → DataPlaneError R → DataPlaneError R
unfolding name_error
apply_cue timed_out fallback out =
    record (name_error 504 (codes "上游请求超时") (codes "timeout_error") (codes "upstream_timeout")
      out) { retryable = true }
apply_cue canceled fallback out =
    name_error 408 (codes "请求已取消") (codes "request_canceled") (codes "request_canceled") out
apply_cue rate_limited fallback out =
    record (name_error 429 (codes "请求过于频繁，请稍后重试") (codes "rate_limit_error") (codes "rate_limit")
      out) { retryable = true }
apply_cue unauthorized fallback out =
    name_error 401 (codes "鉴权失败") (codes "authentication_error") (codes "auth_failed") out
apply_cue not_found fallback out =
    name_error 404 (codes "请求资源不存在") (codes "not_found_error") (codes "not_found") out
apply_cue bad_request fallback out =
    name_error 400 (codes "请求参数错误") (codes "invalid_request_error") (codes "invalid_request") out
apply_cue nothing fallback out = record out {
  message = if is_empty out.message then fallback else out.message;
  error_type =
      if is_empty out.error_type && is_server_error out.status_code
      then codes "internal_error"
      else out.error_type;
}

abbrev pub is_zero : ℤ → Bool
is_zero (pos n) = n == 0
is_zero (negsuc n) = false

abbrev pub is_retryable_by_status : ℤ → Bool
is_retryable_by_status (pos n) = (n == 429) || (n == 408) || (n == 504) || leb 500 n
is_retryable_by_status (negsuc n) = false

-- The end of `applyHeuristicDataPlaneError`.
unfoldable pub fill_in : {R : Type 0} → Text → DataPlaneError R → DataPlaneError R
fill_in fallback out =
    let status = if is_zero out.status_code then pos 500 else out.status_code in
    record out {
      status_code = status;
      message = if is_empty out.message then fallback else out.message;
      retryable = if out.retryable then true else is_retryable_by_status status;
      should_proxy = if out.should_proxy then true else valid_http_status status;
    }

abbrev pub is_missing : {R : Type 0} → Option R → Bool
is_missing none = true
is_missing (some r) = false

abbrev pub fallback_message : {R : Type 0} → Text → Failure R → Text
fallback_message action e = action ++ codes "：" ++ e.text

abbrev pub initial_error : {R : Type 0} → Text → Failure R → DataPlaneError R
initial_error action e = record {
  status_code = pos 500;
  message = fallback_message action e;
  provider = [];
  error_type = [];
  error_code = [];
  param = [];
  raw = some e.self;
  retryable = false;
  should_proxy = true;
}

-- `MapDataPlaneError` of an error that is not nil, and of nil.
unfoldable pub map_failure : {R : Type 0} → Text → Failure R → DataPlaneError R
unfolding extract_structured apply_cue fill_in cue_of
map_failure action e =
    let extracted = extract_structured e.chain (initial_error action e) in
    let cue = cue_of e.lower e.is_deadline e.is_canceled in
    let mapped =
      fill_in (fallback_message action e) (apply_cue cue (fallback_message action e) extracted) in
    record mapped { raw = if is_missing mapped.raw then some e.self else mapped.raw }

unfoldable pub map_data_plane_error : {R : Type 0} → Option (Failure R) → Text → DataPlaneError R
unfolding map_failure
map_data_plane_error none action = record {
  status_code = pos 500;
  message = action;
  provider = [];
  error_type = [];
  error_code = [];
  param = [];
  raw = none;
  retryable = false;
  should_proxy = true;
}
map_data_plane_error (some e) action = map_failure action e
