-- ===== src/Control/Endpoints/Together.antt =====
-- One default endpoint per platform, through the batch addition and the batch update of endpoints
-- (endpoint.go of internal/app/provider).
use pinai.Base.{
  ℕ, suc, ◌+◌, ◌≡◌, ◌≢◌, refl, sym, Bool, true, false, List, [], ◌∷◌, ◌++◌, Option, none, some,
  append_assoc, append_nil, arith, if◌then◌else◌, length,
}
use pinai.Control.{Endpoint, Platform, Tables, or_not_found, no_items}
use pinai.Control.Rows.{AreKeyed, keyed-append, count_rows, count-append}
use pinai.Control.Rules.{Ends, Ensures, call_rule, bind_rule, pure_rule, raise_rule, within_tx_rule}
use pinai.Control.Endpoints.{is_default_of}
use pinai.Control.Endpoints.Defaults.{IsSound, IsSoundBut, check_rule, defaults, endpoint_id}
use pinai.Control.Endpoints.Batch.{
  any_default, assign, batch_add_endpoints, check_if, create_all, create_in_batches,
  get_platform_by_id, number_rows, validate_platform_exists,
}

pub validate_platform_exists_rule :
    {P : Tables → Type 0} (id : ℕ) → Ensures P (validate_platform_exists id) (λ u. P) P
unfolding validate_platform_exists get_platform_by_id
validate_platform_exists_rule {P = P} id =
    bind_rule (call_rule {Q = λ x. P} _ (λ t h. h) (λ t h. found t h _))
      (λ p. pure_rule tt (λ t h. h))
  where
    found : (t : Tables) → P t → (o : Option Platform) → Ends (λ x. P) P (or_not_found o) t
    found t h none = h
    found t h (some p) = h

keyed-number_rows :
    (n : ℕ) (es rs : List Endpoint)
    → AreKeyed endpoint_id n es
    → AreKeyed endpoint_id (n + length rs) (es ++ number_rows n rs)
keyed-number_rows n es [] h =
    rw (append_nil es) (let e : n + length {A = Endpoint} [] ≡ n = omega arith in rw e h)
keyed-number_rows n es (r ∷ rs) h =
    let row : Endpoint = record r { id = n } in
    let e : n + length (r ∷ rs) ≡ suc n + length rs = omega arith in
    rw (e, sym (append_assoc es (row ∷ []) (number_rows (suc n) rs)))
      (keyed-number_rows (suc n) (es ++ row ∷ []) rs (keyed-append endpoint_id n es row refl h))

-- The new rows of a platform hold no default of another, and none where none is given.
defaults-assign :
    (p p' n : ℕ) (es : List Endpoint) → p' ≢ p → defaults p' (number_rows n (assign p es)) ≡ 0
unfolding count_rows
defaults-assign p p' n [] ne = refl
defaults-assign p p' n (e ∷ es) ne = ground (arith, ne, defaults-assign p p' (suc n) es ne)

defaults-assign_plain :
    (p p' n : ℕ) (es : List Endpoint)
    → any_default es ≡ false
    → defaults p' (number_rows n (assign p es)) ≡ 0
unfolding count_rows
defaults-assign_plain p p' n [] h = refl
defaults-assign_plain p p' n (e ∷ es) h = ground (arith, h, defaults-assign_plain p p' (suc n) es)

abbrev pub Pending : ℕ → Bool → Tables → Type 0
Pending p b t = if b then IsSoundBut p t else IsSound t

pub check_if_rule :
    (p : ℕ) (b : Bool) → Ensures (Pending p b) (check_if b p) (λ u. IsSound) (λ t. Unit)
check_if_rule p true = check_rule p
check_if_rule p false = pure_rule tt (λ t h. h)

create_in_batches_rule :
    (p : ℕ) (es : List Endpoint)
    → Ensures IsSound
        (create_in_batches (assign p es))
        (λ rows. Pending p (any_default es))
        (λ t. Unit)
unfolding create_in_batches
create_in_batches_rule p es = call_rule _ (λ t h. tt) (λ t h. made t h (any_default es) refl)
  where
    made :
        (t : Tables)
        → IsSound t
        → (b : Bool) → any_default es ≡ b
        → if b
          then IsSoundBut p (record t {
            endpoints = t.endpoints ++ number_rows t.next_endpoint (assign p es);
            next_endpoint = t.next_endpoint + length (assign p es);
          })
          else IsSound (record t {
            endpoints = t.endpoints ++ number_rows t.next_endpoint (assign p es);
            next_endpoint = t.next_endpoint + length (assign p es);
          })
    made t h true c = record {
      keyed = keyed-number_rows t.next_endpoint t.endpoints (assign p es) h.keyed;
      one = λ p' ne. ground (
        arith,
        count-append (is_default_of p') t.endpoints (number_rows t.next_endpoint (assign p es)),
        defaults-assign p p' t.next_endpoint es ne,
        h.one p',
      );
    }
    made t h false c = record {
      keyed = keyed-number_rows t.next_endpoint t.endpoints (assign p es) h.keyed;
      one = λ p'. ground (
        arith,
        count-append (is_default_of p') t.endpoints (number_rows t.next_endpoint (assign p es)),
        defaults-assign_plain p p' t.next_endpoint es c,
        h.one p',
      );
    }

pub batch_add_endpoints_rule :
    (p : ℕ) (es : List Endpoint) → Ensures IsSound (batch_add_endpoints p es) (λ r. IsSound) IsSound
unfolding batch_add_endpoints create_all
batch_add_endpoints_rule p [] = raise_rule no_items (λ t h. h)
batch_add_endpoints_rule p (e ∷ es) = bind_rule (validate_platform_exists_rule p) (λ u.
    within_tx_rule _ (λ t h. h)
      (bind_rule (create_in_batches_rule p (e ∷ es)) (λ rows.
        bind_rule (check_if_rule p (any_default (e ∷ es))) (λ u. pure_rule rows (λ t h. h)))))
