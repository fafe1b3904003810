-- ===== src/Gateway/Tests.antt =====
-- A plain timeout, and an error that brings a status of its own.
use pinai.Base.{ℕ, ◌≡◌, refl, true, false, [], ◌∷◌, none, some}
use pinai.Base.Int.{pos}
use pinai.Base.Text.{codes}
use pinai.Gateway.{
  Failure, Layer, Nested, extract_structured, extract_by_interfaces, extract_by_reflection,
  extract_nested_value, set_if_empty,
}
use pinai.Gateway.Heuristics.{
  map_data_plane_error, map_failure, cue_of, contains_text, apply_cue, fill_in,
  is_retryable_by_status, fallback_message,
}
use pinai.Gateway.Mapping.{HasStatus, map_data_plane_error-HasStatus}
use pinai.Gateway.Plain.{map_plain_error}

abbrev silent : Nested
silent = record {
  status = none;
  message = none;
  error_type = none;
  error_code = none;
  param = none;
}

abbrev plain : Layer ℕ
plain = record {
  methods = record {
    status_code = none;
    get_status_code = none;
    http_status_code = none;
    provider = none;
    error_type = none;
    error_code = none;
    param = none;
    retryable = none;
    should_proxy = none;
    raw = none;
  };
  fields = record {
    own = silent;
    provider = none;
    retryable = none;
    should_proxy = none;
    raw = none;
    nested = none;
  };
}

abbrev deadline : Failure ℕ
deadline = record {
  self = 7;
  chain = plain ∷ [];
  text = codes "context deadline exceeded";
  lower = codes "context deadline exceeded";
  is_deadline = true;
  is_canceled = false;
}

map_plain_error_example :
    ((map_data_plane_error (some deadline) (codes "call")).status_code ≡ pos 500)
    × ((map_data_plane_error (some deadline) (codes "call")).message
        ≡ fallback_message (codes "call") deadline)
map_plain_error_example = map_plain_error deadline (codes "call") (
  record {
    no_status = refl;
    no_get_status = refl;
    no_http_status = refl;
    silent = (refl, refl);
    silent_nested = tt;
  },
  tt,
)

-- An upstream error with status 429 that asks not to be proxied.
abbrev limited : Failure ℕ
limited = record deadline {
  chain =
      record plain {
        methods = record plain.methods { status_code = some (pos 429); should_proxy = some false };
      }
      ∷ [];
  text = codes "slow down";
  lower = codes "slow down";
  is_deadline = false;
}

limited_status : (map_data_plane_error (some limited) (codes "call")).status_code ≡ pos 429
unfolding map_data_plane_error map_failure extract_structured extract_by_interfaces
    extract_by_reflection extract_nested_value set_if_empty cue_of contains_text apply_cue fill_in
limited_status = refl

map_data_plane_error-HasStatus_example :
    HasStatus (map_data_plane_error (some limited) (codes "call"))
    × ((map_data_plane_error (some limited) (codes "call")).should_proxy ≡ true)
    × (is_retryable_by_status (map_data_plane_error (some limited) (codes "call")).status_code
          ≡ true
        → (map_data_plane_error (some limited) (codes "call")).retryable ≡ true)
map_data_plane_error-HasStatus_example = map_data_plane_error-HasStatus limited (codes "call")
