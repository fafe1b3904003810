-- ===== src/Auth/Credentials.antt =====
-- Which credentials the middlewares of internal/handler/data/auth and internal/router let through.
use pinai.Base.{
  ℕ, ◌≡◌, refl, ap, sym, ◌∙◌, ◌⊎◌, ◌↔◌, inl, inr, Bool, true, false, List, [], ◌∷◌, ◌++◌, ◌==◌,
  if◌then◌else◌, arith, Bool-cases,
}
use pinai.Base.Text.{trim_space, Text, codes, text_eq, text_eq_iff, eq_of_text_eq, is_empty}
use pinai.Auth.{
  Provider, openai, anthropic, gemini, Request, Verdict, accepted, denied, missing, split_space,
  check_parts, compare_token, validate_openai, validate_anthropic, validate_gemini, validate,
  resolve_provider, provider_middleware, openai_auth_middleware,
}

-- What a request has to carry for its provider.
abbrev pub Presents : Provider → Text → Request → Type 0
Presents openai token r = r.authorization ≡ codes "Bearer " ++ token
Presents anthropic token r = r.x_api_key ≡ token
Presents gemini token r =
    (trim_space r.x_goog_api_key ≡ token)
    ⊎ ((trim_space r.x_goog_api_key ≡ []) × (trim_space r.query_key ≡ token))

abbrev pub has_blank : Text → Bool
has_blank [] = false
has_blank (c ∷ s) = if c == 32 then true else has_blank s

-- The parts put together again.
abbrev join : Text → List Text → Text
join p [] = p
join p (q ∷ qs) = p ++ 32 ∷ join q qs

join-cons : (c : ℕ) (p : Text) (ps : List Text) → join (c ∷ p) ps ≡ c ∷ join p ps
join-cons c p [] = refl
join-cons c p (q ∷ qs) = refl

join-split_space : (s : Text) → join (split_space s).0 (split_space s).1 ≡ s
unfolding split_space
join-split_space [] = refl
join-split_space (c ∷ s) = elim (Bool-cases (c == 32)) [
  | inl blank ↦
      rw blank (let e : c ≡ 32 = ground (arith, blank) in rw e (ap (◌∷◌ 32) (join-split_space s)))
  | inr other ↦
      rw other (join-cons c (split_space s).0 (split_space s).1 ∙ ap (◌∷◌ c) (join-split_space s))
]

split_space-blankless : (s : Text) → has_blank s ≡ false → split_space s ≡ (s, [])
unfolding split_space
split_space-blankless [] h = refl
split_space-blankless (c ∷ s) h = elim (Bool-cases (c == 32)) [
  | inl blank ↦ ground (arith, h, blank)
  | inr other ↦
      let ih = split_space-blankless s (ground (arith, h, other)) in
      rw other (ap (λ q. (c ∷ q.0, q.1)) ih)
]

compare_token-accepted : (token p : Text) → (compare_token token p ≡ accepted) ↔ (p ≡ token)
compare_token-accepted token p = ground (arith, text_eq_iff p token)

check_parts-accepted :
    (token scheme : Text) (ps : List Text)
    → check_parts token scheme ps ≡ accepted
    → join scheme ps ≡ codes "Bearer " ++ token
check_parts-accepted token scheme [] e = cc
check_parts-accepted token scheme (p ∷ []) e = elim (Bool-cases (text_eq scheme (codes "Bearer"))) [
  | inl bearer ↦
      rw
        (
          eq_of_text_eq scheme (codes "Bearer") bearer,
          (compare_token-accepted token p).0 (rw bearer at e),
        )
        refl
  | inr other ↦ ground (arith, e, other)
]
check_parts-accepted token scheme (p ∷ q ∷ ps) e = cc

validate_openai_sound :
    (token : Text) (r : Request)
    → validate_openai token r ≡ accepted
    → r.authorization ≡ codes "Bearer " ++ token
unfolding validate_openai
validate_openai_sound token r e = elim (Bool-cases (is_empty r.authorization)) [
  | inl none_given ↦ ground (arith, e)
  | inr given ↦
      sym (join-split_space r.authorization)
      ∙ check_parts-accepted token (split_space r.authorization).0 (split_space r.authorization).1
          (rw given at e)
]

-- A token without a blank is let through behind the word and one blank.
validate_openai_complete :
    (token : Text) (r : Request)
    → has_blank token ≡ false
    → r.authorization ≡ codes "Bearer " ++ token
    → validate_openai token r ≡ accepted
unfolding validate_openai split_space
validate_openai_complete token r plain e = rw e (
    ap (λ q. check_parts token (codes "Bearer") (q.0 ∷ q.1)) (split_space-blankless token plain)
    ∙ (compare_token-accepted token token).1 refl)

validate_anthropic-accepted :
    (token : Text) (r : Request)
    → is_empty token ≡ false
    → (validate_anthropic token r ≡ accepted) ↔ (r.x_api_key ≡ token)
unfolding validate_anthropic
validate_anthropic-accepted token r some_token =
    ground (arith, some_token, text_eq_iff r.x_api_key token)

-- The header decides, and the query parameter only when the header is blank.
checked_key : (token header key : Text) → Verdict
checked_key token header key =
    let presented = if is_empty header then key else header in
    if is_empty presented then denied missing else compare_token token presented

checked_key-accepted :
    (token header key : Text)
    → is_empty token ≡ false
    → (checked_key token header key ≡ accepted)
      ↔ ((header ≡ token) ⊎ ((header ≡ []) × (key ≡ token)))
unfolding checked_key
checked_key-accepted token [] [] some_token = ground (arith, some_token)
checked_key-accepted token [] (c ∷ key) some_token =
    ground (arith, some_token, text_eq_iff (c ∷ key) token)
checked_key-accepted token (c ∷ header) key some_token =
    ground (arith, some_token, text_eq_iff (c ∷ header) token)

validate_gemini-accepted :
    (token : Text) (r : Request)
    → is_empty token ≡ false
    → (validate_gemini token r ≡ accepted) ↔ Presents gemini token r
unfolding validate_gemini checked_key
validate_gemini-accepted token r some_token =
    checked_key-accepted token (trim_space r.x_goog_api_key) (trim_space r.query_key) some_token

validate_sound :
    (p : Provider) (token : Text) (r : Request)
    → is_empty token ≡ false
    → validate p token r ≡ accepted
    → Presents p token r
unfolding validate
validate_sound openai token r some_token e = validate_openai_sound token r e
validate_sound anthropic token r some_token e = (validate_anthropic-accepted token r some_token).0 e
validate_sound gemini token r some_token e = (validate_gemini-accepted token r some_token).0 e

validate_complete :
    (p : Provider) (token : Text) (r : Request)
    → is_empty token ≡ false
    → has_blank token ≡ false
    → Presents p token r
    → validate p token r ≡ accepted
unfolding validate
validate_complete openai token r some_token plain e = validate_openai_complete token r plain e
validate_complete anthropic token r some_token plain e =
    (validate_anthropic-accepted token r some_token).1 e
validate_complete gemini token r some_token plain e =
    (validate_gemini-accepted token r some_token).1 e

-- With a token that is not empty, the middleware lets no request through that does not carry the
-- token where the provider that it was resolved to expects it, whatever the path, the query and
-- the other headers are.
pub provider_middleware_sound :
    (to_lower : Text → Text) (token : Text) (r : Request)
    → is_empty token ≡ false
    → (provider_middleware to_lower token r).1 ≡ accepted
    → Presents (provider_middleware to_lower token r).0 token r
unfolding provider_middleware
provider_middleware_sound to_lower token r some_token e =
    validate_sound (resolve_provider to_lower r) token r some_token (rw some_token at e)

-- With a token that is not empty and has no blank, every request that carries it where the provider
-- that it was resolved to expects it is let through.
pub provider_middleware_complete :
    (to_lower : Text → Text) (token : Text) (r : Request)
    → is_empty token ≡ false
    → has_blank token ≡ false
    → Presents (provider_middleware to_lower token r).0 token r
    → (provider_middleware to_lower token r).1 ≡ accepted
unfolding provider_middleware
provider_middleware_complete to_lower token r some_token plain e =
    rw some_token (validate_complete (resolve_provider to_lower r) token r some_token plain e)

-- With a token without a blank, the middleware of the router lets exactly the requests through
-- whose header is `Bearer`, one blank and the token.
pub openai_auth_middleware-accepted :
    (token : Text) (r : Request)
    → has_blank token ≡ false
    → (openai_auth_middleware token r ≡ accepted) ↔ (r.authorization ≡ codes "Bearer " ++ token)
unfolding openai_auth_middleware
openai_auth_middleware-accepted token r plain =
    (validate_openai_sound token r, validate_openai_complete token r plain)
