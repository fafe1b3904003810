-- ===== src/Gateway/Mapping.antt =====
-- The status, the proxying and the retrying of a mapped error of error_mapper.go.
use pinai.Base.{
  ◌≡◌, refl, inl, inr, true, false, List, [], ◌∷◌, Option, none, some, arith, Bool-cases,
}
use pinai.Base.Int.{ℤ, pos, negsuc}
use pinai.Base.Text.{Text, is_empty}
use pinai.Gateway.{
  DataPlaneError, Nested, Fields, Layer, Failure, valid_http_status, set_status,
  extract_by_interfaces, extract_nested_value, extract_nested, extract_by_reflection,
  extract_structured, as_first,
}
use pinai.Gateway.Heuristics.{
  Cue, timed_out, canceled, rate_limited, unauthorized, not_found, bad_request, nothing,
  set_status_and_message, name_error, apply_cue, fill_in, map_failure, map_data_plane_error,
  is_retryable_by_status, fallback_message, initial_error, cue_of, is_zero,
}

abbrev pub HasStatus : {R : Type 0} → DataPlaneError R → Type 0
HasStatus out = valid_http_status out.status_code ≡ true

abbrev pub HasMessage : {R : Type 0} → DataPlaneError R → Type 0
HasMessage out = is_empty out.message ≡ false

set_status-valid :
    (o : Option ℤ) (status : ℤ)
    → valid_http_status status ≡ true
    → valid_http_status (set_status o status) ≡ true
set_status-valid none status v = v
set_status-valid (some s) status v = elim (Bool-cases (valid_http_status s)) [
  | inl ok ↦ rw ok ok
  | inr bad ↦ rw bad v
]

status_not_zero : (status : ℤ) → valid_http_status status ≡ true → is_zero status ≡ false
status_not_zero (pos n) h = ground (arith, h)
status_not_zero (negsuc n) h = refl

module _ {R : Type 0} where
  extract_nested_value-HasStatus :
      (v : Nested) (out : DataPlaneError R) → HasStatus out → HasStatus (extract_nested_value v out)
  unfolding extract_nested_value
  extract_nested_value-HasStatus v out h = set_status-valid v.status out.status_code h

  extract_nested-HasStatus :
      (v : Option Nested) (out : DataPlaneError R)
      → HasStatus out
      → HasStatus (extract_nested v out)
  extract_nested-HasStatus none out h = h
  extract_nested-HasStatus (some v) out h = extract_nested_value-HasStatus v out h

  extract_by_interfaces-HasStatus :
      (ls : List (Layer R)) (out : DataPlaneError R)
      → HasStatus out
      → HasStatus (extract_by_interfaces ls out)
  unfolding extract_by_interfaces
  extract_by_interfaces-HasStatus ls out h =
      set_status-valid (as_first (λ m. m.http_status_code) ls) _ (
        set_status-valid (as_first (λ m. m.get_status_code) ls) _
          (set_status-valid (as_first (λ m. m.status_code) ls) out.status_code h))

  extract_by_reflection-HasStatus :
      (f : Fields R) (out : DataPlaneError R)
      → HasStatus out
      → HasStatus (extract_by_reflection f out)
  unfolding extract_by_reflection
  extract_by_reflection-HasStatus f out h =
      extract_nested-HasStatus f.nested _ (extract_nested_value-HasStatus f.own out h)

  extract_structured-HasStatus :
      (ls : List (Layer R)) (out : DataPlaneError R)
      → HasStatus out
      → HasStatus (extract_structured ls out)
  unfolding extract_structured
  extract_structured-HasStatus [] out h = h
  extract_structured-HasStatus (l ∷ ls) out h =
      extract_structured-HasStatus ls _ (
        extract_by_reflection-HasStatus l.fields _ (extract_by_interfaces-HasStatus (l ∷ ls) out h))

  -- A status that is there is never replaced by the guess from the text.
  pub apply_cue-status :
      (cue : Cue) (fallback : Text) (out : DataPlaneError R)
      → HasStatus out
      → (apply_cue cue fallback out).status_code ≡ out.status_code
  unfolding apply_cue name_error set_status_and_message
  apply_cue-status timed_out fallback out h = rw h refl
  apply_cue-status canceled fallback out h = rw h refl
  apply_cue-status rate_limited fallback out h = rw h refl
  apply_cue-status unauthorized fallback out h = rw h refl
  apply_cue-status not_found fallback out h = rw h refl
  apply_cue-status bad_request fallback out h = rw h refl
  apply_cue-status nothing fallback out h = refl

  pub apply_cue-message :
      (cue : Cue) (fallback : Text) (out : DataPlaneError R)
      → HasMessage out
      → (apply_cue cue fallback out).message ≡ out.message
  unfolding apply_cue name_error set_status_and_message
  apply_cue-message timed_out fallback out h = rw h refl
  apply_cue-message canceled fallback out h = rw h refl
  apply_cue-message rate_limited fallback out h = rw h refl
  apply_cue-message unauthorized fallback out h = rw h refl
  apply_cue-message not_found fallback out h = rw h refl
  apply_cue-message bad_request fallback out h = rw h refl
  apply_cue-message nothing fallback out h = rw h refl

  fill_in-lem :
      (fallback : Text) (out : DataPlaneError R)
      → HasStatus out
      → ((fill_in fallback out).status_code ≡ out.status_code)
        × ((fill_in fallback out).should_proxy ≡ true)
        × (is_retryable_by_status out.status_code ≡ true → (fill_in fallback out).retryable ≡ true)
  unfolding fill_in
  fill_in-lem fallback out h =
      rw (status_not_zero out.status_code h) (refl, ground (arith, h), λ e. ground (arith, e))

  -- The status of every mapped error is an HTTP status, it is proxied as an HTTP error even where
  -- the upstream's error asked for the contrary, and it is retryable whenever its status is,
  -- whatever the upstream's error said.
  pub map_data_plane_error-HasStatus :
      (e : Failure R) (action : Text)
      → HasStatus (map_data_plane_error (some e) action)
        × ((map_data_plane_error (some e) action).should_proxy ≡ true)
        × (is_retryable_by_status (map_data_plane_error (some e) action).status_code ≡ true
            → (map_data_plane_error (some e) action).retryable ≡ true)
  unfolding map_data_plane_error map_failure
  map_data_plane_error-HasStatus e action =
      let out = extract_structured e.chain (initial_error action e) in
      let cue = cue_of e.lower e.is_deadline e.is_canceled in
      let given = extract_structured-HasStatus e.chain (initial_error action e) refl in
      let kept = apply_cue-status cue (fallback_message action e) out given in
      let guessed : HasStatus (apply_cue cue (fallback_message action e) out) = rw kept given in
      let (status, proxied, again) =
        fill_in-lem (fallback_message action e) (apply_cue cue (fallback_message action e) out)
          guessed in
      (rw status guessed, proxied, λ k. again (rw status at k))
