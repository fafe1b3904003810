-- ===== src/Gateway/Plain.antt =====
-- An error that brings no status and no message of its own, under error_mapper.go.
use pinai.Base.{◌≡◌, refl, ◌∙◌, false, List, [], ◌∷◌, ◌++◌, Option, none, some}
use pinai.Base.Int.{pos}
use pinai.Base.Text.{Text, codes, is_empty}
use pinai.Gateway.{
  DataPlaneError, Nested, Layer, Failure, or_keep, extract_by_interfaces, extract_nested_value,
  extract_nested, extract_by_reflection, extract_structured, as_first, set_if_empty, or_keep_raw,
}
use pinai.Gateway.Heuristics.{
  map_failure, map_data_plane_error, fallback_message, initial_error, cue_of,
}
use pinai.Gateway.Mapping.{apply_cue-status, apply_cue-message}

is_empty-fallback : (action text : Text) → is_empty (action ++ codes "：" ++ text) ≡ false
is_empty-fallback [] text = refl
is_empty-fallback (c ∷ action) text = refl

-- A layer that offers no status and no message.
abbrev pub IsSilent : Nested → Type 0
IsSilent v = (v.status ≡ none) × (v.message ≡ none)

abbrev pub IsSilentField : Option Nested → Type 0
IsSilentField none = Unit
IsSilentField (some v) = IsSilent v

pub record IsPlain {R : Type 0} (l : Layer R) : Type 0 where
  pub no_status : l.methods.status_code ≡ none
  pub no_get_status : l.methods.get_status_code ≡ none
  pub no_http_status : l.methods.http_status_code ≡ none
  pub silent : IsSilent l.fields.own
  pub silent_nested : IsSilentField l.fields.nested

abbrev pub ArePlain : {R : Type 0} → List (Layer R) → Type 0
ArePlain [] = Unit
ArePlain (l ∷ ls) = IsPlain l × ArePlain ls

-- The status and the message of two errors are the same.
abbrev Same : {R : Type 0} → DataPlaneError R → DataPlaneError R → Type 0
Same a b = (a.status_code ≡ b.status_code) × (a.message ≡ b.message)

module _ {R : Type 0} where
  plain_status :
      (ls : List (Layer R))
      → ArePlain ls
      → (as_first (λ m. m.status_code) ls ≡ none)
        × (as_first (λ m. m.get_status_code) ls ≡ none)
        × (as_first (λ m. m.http_status_code) ls ≡ none)
  plain_status [] h = (refl, refl, refl)
  plain_status (l ∷ ls) (p, h) =
      let (a, b, c) = plain_status ls h in
      (rw (p.no_status) a, rw (p.no_get_status) b, rw (p.no_http_status) c)

  extract_by_interfaces-Same :
      (ls : List (Layer R)) (out : DataPlaneError R)
      → ArePlain ls
      → Same (extract_by_interfaces ls out) out
  unfolding extract_by_interfaces
  extract_by_interfaces-Same ls out h =
      let (a, b, c) = plain_status ls h in (rw (a, b, c) refl, refl)

  extract_nested_value-Same :
      (v : Nested) (out : DataPlaneError R) → IsSilent v → Same (extract_nested_value v out) out
  unfolding extract_nested_value
  extract_nested_value-Same v out (s, m) = (rw s refl, rw m refl)

  extract_nested-Same :
      (v : Option Nested) (out : DataPlaneError R)
      → IsSilentField v
      → Same (extract_nested v out) out
  extract_nested-Same none out h = (refl, refl)
  extract_nested-Same (some v) out h = extract_nested_value-Same v out h

  extract_by_reflection-Same :
      (l : Layer R) (out : DataPlaneError R)
      → IsPlain l
      → Same (extract_by_reflection l.fields out) out
  unfolding extract_by_reflection
  extract_by_reflection-Same l out p =
      let own = extract_nested_value l.fields.own out in
      let filled : DataPlaneError R = record own {
        provider = set_if_empty l.fields.provider own.provider;
        retryable = or_keep l.fields.retryable own.retryable;
        should_proxy = or_keep l.fields.should_proxy own.should_proxy;
        raw = or_keep_raw l.fields.raw own.raw;
      } in
      let a = extract_nested_value-Same l.fields.own out p.silent in
      let b = extract_nested-Same l.fields.nested filled p.silent_nested in (b.0 ∙ a.0, b.1 ∙ a.1)

  extract_structured-Same :
      (ls : List (Layer R)) (out : DataPlaneError R)
      → ArePlain ls
      → Same (extract_structured ls out) out
  unfolding extract_structured
  extract_structured-Same [] out h = (refl, refl)
  extract_structured-Same (l ∷ ls) out (p, h) =
      let a = extract_by_interfaces-Same (l ∷ ls) out (p, h) in
      let b = extract_by_reflection-Same l (extract_by_interfaces (l ∷ ls) out) p in
      let c =
        extract_structured-Same ls
          (extract_by_reflection l.fields (extract_by_interfaces (l ∷ ls) out)) h in
      (c.0 ∙ b.0 ∙ a.0, c.1 ∙ b.1 ∙ a.1)

  -- An error whose chain offers no status and no message is mapped to status 500 and the fallback
  -- message, also if it is a timeout, a cancellation or names one of the known cases in its text.
  pub map_plain_error :
      (e : Failure R) (action : Text)
      → ArePlain e.chain
      → ((map_data_plane_error (some e) action).status_code ≡ pos 500)
        × ((map_data_plane_error (some e) action).message ≡ fallback_message action e)
  unfolding map_data_plane_error map_failure
  map_plain_error e action h =
      let out = extract_structured e.chain (initial_error action e) in
      let cue = cue_of e.lower e.is_deadline e.is_canceled in
      let (status, message) = extract_structured-Same e.chain (initial_error action e) h in
      let told = is_empty-fallback action (e.text) in
      let kept = apply_cue-status cue (fallback_message action e) out (rw status refl) ∙ status in
      let said =
        apply_cue-message cue (fallback_message action e) out (rw message told) ∙ message in
      rw (kept, said, told) (refl, refl)
