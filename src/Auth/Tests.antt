-- ===== src/Auth/Tests.antt =====
-- Requests with and without the token.
use pinai.Base.{◌≡◌, ◌↔◌, ◌++◌, refl, []}
use pinai.Base.Text.{trim_right, trim_left, Text, codes}
use pinai.Auth.{
  gemini, Request, accepted, denied, malformed, provider_middleware, resolve_provider,
  provider_from_path, provider_from_query, split_space, validate, validate_gemini, validate_openai,
  openai_auth_middleware,
}
use pinai.Auth.Credentials.{
  Presents, provider_middleware_sound, provider_middleware_complete,
  openai_auth_middleware-accepted,
}

abbrev token : Text
token = codes "sk-1"

abbrev lower : Text → Text
lower s = s

-- A key in the query, on a path of the Gemini interface.
abbrev by_query : Request
by_query = record {
  path = codes "/v1beta/models";
  authorization = [];
  x_api_key = [];
  anthropic_version = [];
  x_goog_api_key = codes " ";
  query_provider = [];
  query_key = codes " sk-1";
}

by_query_provider : (provider_middleware lower token by_query).0 ≡ gemini
unfolding provider_middleware resolve_provider provider_from_path provider_from_query
by_query_provider = refl

by_query-accepted : (provider_middleware lower token by_query).1 ≡ accepted
unfolding provider_middleware resolve_provider provider_from_path provider_from_query trim_left
    trim_right validate validate_gemini
by_query-accepted = refl

provider_middleware_sound_example :
    Presents (provider_middleware lower token by_query).0 token by_query
provider_middleware_sound_example =
    provider_middleware_sound lower token by_query refl by_query-accepted

-- A bearer token, with nothing else to tell the provider.
abbrev by_header : Request
by_header = record by_query {
  path = codes "/v1/models";
  authorization = codes "Bearer sk-1";
  x_goog_api_key = [];
  query_key = [];
}

by_header-Presents : Presents (provider_middleware lower token by_header).0 token by_header
unfolding provider_middleware resolve_provider provider_from_path provider_from_query trim_left
    trim_right
by_header-Presents = refl

provider_middleware_complete_example : (provider_middleware lower token by_header).1 ≡ accepted
provider_middleware_complete_example =
    provider_middleware_complete lower token by_header refl refl by_header-Presents

openai_auth_middleware-accepted_example :
    (openai_auth_middleware token by_header ≡ accepted)
    ↔ (by_header.authorization ≡ codes "Bearer " ++ token)
openai_auth_middleware-accepted_example = openai_auth_middleware-accepted token by_header refl

-- Two blanks make three parts.
two_blanks :
    validate_openai token (record by_header { authorization = codes "Bearer  sk-1" })
    ≡ denied malformed
unfolding validate_openai split_space
two_blanks = refl
