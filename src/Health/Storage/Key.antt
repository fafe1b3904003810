-- ===== src/Health/Storage/Key.antt =====
-- `makeKey` of internal/app/health/storage.go: reading the two numerals back from "type:id".
use pinai.Base.{ℕ, ◌≡◌, refl, ap, sym, ◌∙◌, ◌↔◌, true, false, ◌&&◌, ◌++◌, [], ◌∷◌, arith, ◌==◌}
use pinai.Base.Text.{
  Text, AreDigits, format_uint, format_uint-AreDigits, value_from, value_from-format_uint, text_eq,
  text_eq_iff,
}
use pinai.Health.Storage.{make_key}

-- What stands before the first colon, and behind it.
before_colon : Text → Text
before_colon [] = []
before_colon (c ∷ s) =
    let rest = c ∷ before_colon s in elim (c == b':') [ true ↦ [] | false ↦ rest ]

after_colon : Text → Text
after_colon [] = []
after_colon (c ∷ s) = let rest = after_colon s in elim (c == b':') [ true ↦ s | false ↦ rest ]

before_colon-append : (s t : Text) → AreDigits s → before_colon (s ++ (b':' ∷ t)) ≡ s
unfolding before_colon
before_colon-append [] t h = refl
before_colon-append (c ∷ s) t h = ground (arith, before_colon-append s t h.2)

after_colon-append : (s t : Text) → AreDigits s → after_colon (s ++ (b':' ∷ t)) ≡ t
unfolding after_colon
after_colon-append [] t h = refl
after_colon-append (c ∷ s) t h = ground (arith, after_colon-append s t h.2)

format_uint_injective : (n m : ℕ) → format_uint n ≡ format_uint m → n ≡ m
format_uint_injective n m e =
    sym (value_from-format_uint n) ∙ ap (value_from 0) e ∙ value_from-format_uint m

-- Two resources have one key exactly when their types and their ids are equal.
pub make_key_injective :
    (t id t' id' : ℕ) → (make_key t id ≡ make_key t' id') ↔ ((t ≡ t') × (id ≡ id'))
unfolding make_key
make_key_injective t id t' id' = (
  (λ e. (
    format_uint_injective t t' (
        sym (before_colon-append (format_uint t) (format_uint id) (format_uint-AreDigits t))
        ∙ ap before_colon e
        ∙ before_colon-append (format_uint t') (format_uint id') (format_uint-AreDigits t')),
    format_uint_injective id id' (
        sym (after_colon-append (format_uint t) (format_uint id) (format_uint-AreDigits t))
        ∙ ap after_colon e
        ∙ after_colon-append (format_uint t') (format_uint id') (format_uint-AreDigits t')),
  )),
  (λ (p, q). cc),
)

-- The comparison of two keys, as `sync.Map` makes it.
pub text_eq-make_key :
    (t id t' id' : ℕ) → text_eq (make_key t id) (make_key t' id') ≡ ((t == t') && (id == id'))
text_eq-make_key t id t' id' =
    ground (arith, text_eq_iff (make_key t id) (make_key t' id'), make_key_injective t id t' id')
