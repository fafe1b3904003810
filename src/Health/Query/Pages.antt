-- ===== src/Health/Query/Pages.antt =====
-- The page parameters of handlers/query/query.go (`Pagination`) and the bounds that the paged lists
-- of service_query.go cut out. An `int` is 64 bits wide and stands here as its bit pattern, so that
-- the products wrap as they do.
use pinai.Base.{
  take-drop-min, take-add, take-all, ℕ, zero, suc, ◌+◌, ◌-◌, ◌*◌, ◌%◌, ◌^◌, ◌≤◌, ◌<◌, ◌≡◌, ap, sym,
  ◌∙◌, Bool, true, false, ◌||◌, List, [], ◌++◌, Option, none, some, take, drop, length, leb, ltb,
  ◌==◌, if◌then◌else◌, arith,
}
use Prim.Native.Nat.{min}
use pinai.Base.Text.{Text, is_empty}

abbrev pub int_mod : ℕ
int_mod = 2 ^ 64

abbrev pub is_negative : ℕ → Bool
is_negative a = leb (2 ^ 63) a

-- `a > b` of two integers, by their bit patterns.
abbrev pub int_gt : ℕ → ℕ → Bool
int_gt a b = ltb ((b + 2 ^ 63) % int_mod) ((a + 2 ^ 63) % int_mod)

abbrev pub max_page_size : ℕ
max_page_size = 100

pub data PageError : Type 0 where
  bad_page bad_page_size : PageError

pub data Parsed : Type 0 where
  parsed : ℕ → ℕ → Parsed
  refused : PageError → Parsed

-- What `strconv.Atoi` makes of a parameter that is not empty: `none` for an error. The texts and
-- the conversion are arguments, and an integer that is not above zero is refused.
abbrev pub positive : Option ℕ → Option ℕ
positive none = none
positive (some n) = if is_negative n || (n == 0) then none else some n

abbrev parse_page_size : (Text → Option ℕ) → Text → ℕ → Parsed
parse_page_size atoi page_size_text page =
    if is_empty page_size_text then parsed page 10 else elim (positive (atoi page_size_text)) [
      | none ↦ refused bad_page_size
      | some n ↦ parsed page (if ltb max_page_size n then max_page_size else n)
    ]

unfoldable pub pagination : (Text → Option ℕ) → Text → Text → Parsed
pagination atoi page_text page_size_text =
    if is_empty page_text
    then parse_page_size atoi page_size_text 1
    else elim (positive (atoi page_text)) [
      | none ↦ refused bad_page
      | some n ↦ parse_page_size atoi page_size_text n
    ]

-- `start` and `end` after the checks against `total`.
unfoldable pub page_start : ℕ → ℕ → ℕ → ℕ
page_start page page_size total =
    let start : ℕ = ((page + int_mod - 1) * page_size) % int_mod in
    if int_gt start total then total else start

unfoldable pub page_end : ℕ → ℕ → ℕ → ℕ
page_end page page_size total =
    let start : ℕ = ((page + int_mod - 1) * page_size) % int_mod in
    let end : ℕ = (start + page_size) % int_mod in if int_gt end total then total else end

out_of_range : ℕ → ℕ → ℕ → Bool
out_of_range start end len = is_negative start || is_negative end || ltb end start || ltb len end

-- `xs[start:end]`; `none` for the panic on bounds that are negative or not in order.
unfoldable pub slice {ℓ} : {A : Type ℓ} → ℕ → ℕ → List A → Option (List A)
unfolding out_of_range
slice start end xs =
    if out_of_range start end (length xs) then none else some (take (end - start) (drop start xs))

unfoldable pub page_of {ℓ} : {A : Type ℓ} → ℕ → ℕ → List A → Option (List A)
unfolding page_start page_end slice
page_of page page_size xs =
    slice (page_start page page_size (length xs)) (page_end page page_size (length xs)) xs

-- The parameters that `Pagination` lets through are a page from 1 and a size from 1 to 100.
pub pagination_bounds :
    (atoi : Text → Option ℕ) (page_text size_text : Text) (page size : ℕ)
    → ((t : Text) (n : ℕ) → atoi t ≡ some n → n < int_mod)
    → pagination atoi page_text size_text ≡ parsed page size
    → (0 < page) × (page < 2 ^ 63) × (0 < size) × (size ≤ max_page_size)
unfolding pagination
pagination_bounds atoi page_text size_text page size range e = ground arith

start_pattern :
    (page size : ℕ)
    → 0 < page
    → page * size < 2 ^ 63
    → ((page + int_mod - 1) * size) % int_mod ≡ (page - 1) * size
start_pattern zero size p r = absurd (omega arith)
start_pattern (suc k) size p r =
    let e : suc k + int_mod - 1 ≡ k + int_mod = omega arith in
    let f : suc k - 1 ≡ k = omega arith in rw (e, f) (omega arith)

next_start : (page size : ℕ) → 0 < page → (page - 1) * size + size ≡ page * size
next_start zero size p = absurd (omega arith)
next_start (suc k) size p = let f : suc k - 1 ≡ k = omega arith in rw f (omega arith)

page_start-eq :
    (page size total : ℕ)
    → 0 < page
    → page * size < 2 ^ 63
    → total < 2 ^ 63
    → page_start page size total ≡ min ((page - 1) * size) total
unfolding page_start
page_start-eq page size total p r s =
    rw (start_pattern page size p r) (ground (arith, next_start page size p))

page_end-eq :
    (page size total : ℕ)
    → 0 < page
    → page * size < 2 ^ 63
    → total < 2 ^ 63
    → page_end page size total ≡ min (page * size) total
unfolding page_end
page_end-eq page size total p r s =
    rw (start_pattern page size p r, next_start page size p) (ground arith)

in_range :
    (page size total : ℕ)
    → 0 < page
    → page * size < 2 ^ 63
    → total < 2 ^ 63
    → out_of_range (min ((page - 1) * size) total) (min (page * size) total) total ≡ false
unfolding out_of_range
in_range page size total p r s = ground (arith, next_start page size p)

overflow_out_of_range :
    (page size total : ℕ)
    → is_negative (((page + int_mod - 1) * size) % int_mod) ≡ true
    → total < 2 ^ 63
    → out_of_range (page_start page size total) (page_end page size total) total ≡ true
unfolding out_of_range page_start
overflow_out_of_range page size total n s =
    let r : ((page + int_mod - 1) * size) % int_mod < int_mod = omega arith in ground arith

module _ {ℓ} {A : Type ℓ} where
  -- A page from 1 on whose end fits an `int` is cut out without a panic: it is the stretch of
  -- `size` entries behind the pages before it, as far as the list has them.
  pub page_of-take-drop :
      (page size : ℕ) (xs : List A)
      → 0 < page
      → page * size < 2 ^ 63
      → length xs < 2 ^ 63
      → page_of page size xs ≡ some (take size (drop ((page - 1) * size) xs))
  page_of-take-drop page size xs p r s =
      let cut = take-drop-min ((page - 1) * size) size xs in
      unfold page_of slice in
      rw
        (
          page_start-eq page size (length xs) p r s,
          page_end-eq page size (length xs) p r s,
          in_range page size (length xs) p r s,
        )
        (ap some (rw (next_start page size p) at cut))

  -- A page whose first index does not fit an `int` can panic: if the product wraps to a negative
  -- number, the bounds of the slice are refused.
  pub page_of_overflow :
      (page size : ℕ) (xs : List A)
      → is_negative (((page + int_mod - 1) * size) % int_mod) ≡ true
      → length xs < 2 ^ 63
      → page_of page size xs ≡ none
  page_of_overflow page size xs n s =
      unfold page_of slice in rw (overflow_out_of_range page size (length xs) n s)

-- The pages from 1 to `n`, one behind the other; `none` if one of them panics.
pub pages_upto {ℓ} : {A : Type ℓ} → ℕ → ℕ → List A → Option (List A)
pages_upto zero size xs = some []
pages_upto (suc n) size xs = elim (pages_upto n size xs) [
  | none ↦ none
  | some front ↦ elim (page_of (suc n) size xs) [ none ↦ none | some page ↦ some (front ++ page) ]
]

module _ {ℓ} {A : Type ℓ} where
  pages_upto-take :
      (n size : ℕ) (xs : List A)
      → n * size < 2 ^ 63
      → length xs < 2 ^ 63
      → pages_upto n size xs ≡ some (take (n * size) xs)
  unfolding pages_upto
  pages_upto-take zero size xs r s = let e : zero * size ≡ zero = omega arith in rw e
  pages_upto-take (suc n) size xs r s =
      let e : suc n * size ≡ n * size + size = omega arith in
      let f : suc n - 1 ≡ n = omega arith in
      let cut = page_of-take-drop (suc n) size xs (omega arith) r s in
      rw (pages_upto-take n size xs (omega arith) s, cut, f, e)
        (ap some (sym (take-add (n * size) size xs)))

  -- The pages of a list put together are the list, nothing left out and nothing twice, when there
  -- are enough of them and the end of the last one fits an `int`.
  pub pages_upto-cover :
      (n size : ℕ) (xs : List A)
      → length xs ≤ n * size
      → n * size < 2 ^ 63
      → pages_upto n size xs ≡ some xs
  pages_upto-cover n size xs enough r =
      pages_upto-take n size xs r (omega arith) ∙ ap some (take-all (n * size) xs enough)
