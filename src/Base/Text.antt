-- ===== src/Base/Text.antt =====
-- Text as the list of its code points, which are its bytes where it is ASCII; equality of texts,
-- decimal numerals as `fmt` and `strconv` print them, and `strings.TrimSpace`.
use Prim.Native.Char.{code}
use Prim.Native.String.{String}
use pinai.Base.{
  ℕ, zero, suc, ◌+◌, ◌-◌, ◌*◌, ◌/◌, ◌%◌, ◌≤◌, ◌<◌, ◌≡◌, refl, ◌↔◌, inl, inr, Bool, true, false,
  ◌&&◌, ◌||◌, leb, List, [], ◌∷◌, ◌++◌, arith, ltb, ◌==◌, if◌then◌else◌, Bool-cases,
}

abbrev pub Text : Type 0
Text = List ℕ

-- The code points of a literal.
abbrev pub codes : String → Text
codes String.[] = []
codes (String.◌∷◌ c s) = code c ∷ codes s

-- A type with a Boolean test of equality.
pub record Eq {ℓ} (A : Type ℓ) : Type ℓ where
  pub beq : A → A → Bool
  pub beq_iff : (a b : A) → (beq a b ≡ true) ↔ (a ≡ b)

abbrev pub text_eq : Text → Text → Bool
text_eq [] [] = true
text_eq [] (d ∷ t) = false
text_eq (c ∷ s) [] = false
text_eq (c ∷ s) (d ∷ t) = (c == d) && text_eq s t

pub eq_of_text_eq : (s t : Text) → text_eq s t ≡ true → s ≡ t
eq_of_text_eq [] [] h = refl
eq_of_text_eq [] (d ∷ t) h = cc
eq_of_text_eq (c ∷ s) [] h = cc
eq_of_text_eq (c ∷ s) (d ∷ t) h = ground (arith, eq_of_text_eq s t)

pub text_eq_refl : (s : Text) → text_eq s s ≡ true
text_eq_refl [] = refl
text_eq_refl (c ∷ s) = ground (arith, text_eq_refl s)

pub text_eq_iff : (s t : Text) → (text_eq s t ≡ true) ↔ (s ≡ t)
text_eq_iff s t = (eq_of_text_eq s t, λ e. rw e (text_eq_refl t))

pub nat_beq_iff : (a b : ℕ) → ((a == b) ≡ true) ↔ (a ≡ b)
nat_beq_iff a b = ground arith

abbrev pub nat_beq : ℕ → ℕ → Bool
nat_beq a b = a == b

instance abbrev pub nat_eq : Eq ℕ
nat_eq = record { beq = nat_beq; beq_iff = nat_beq_iff }

instance abbrev pub text_eq_eq : Eq Text
text_eq_eq = record { beq = text_eq; beq_iff = text_eq_iff }

abbrev pub is_empty : Text → Bool
is_empty [] = true
is_empty (c ∷ s) = false

-- The digits of a number below the fuel, the most significant one first.
pub digits : ℕ → ℕ → Text
digits zero n = []
digits (suc f) n =
    let rest = digits f (n / 10) ++ (48 + n % 10) ∷ [] in if ltb n 10 then (48 + n) ∷ [] else rest

-- `%d` of a number that is not negative, and `strconv.FormatUint(n, 10)`.
unfoldable pub format_uint : ℕ → Text
unfolding digits
format_uint n = digits (suc n) n

-- The number that a numeral stands for, and its bytes are digits.
pub value_from : ℕ → Text → ℕ
value_from acc [] = acc
value_from acc (c ∷ s) = value_from (acc * 10 + (c - 48)) s

pub value_from-append_digit :
    (acc : ℕ) (s : Text) (d : ℕ) → value_from acc (s ++ (48 + d) ∷ []) ≡ value_from acc s * 10 + d
unfolding value_from
value_from-append_digit acc [] d = omega arith
value_from-append_digit acc (c ∷ s) d = value_from-append_digit (acc * 10 + (c - 48)) s d

abbrev pub AreDigits : Text → Type 0
AreDigits [] = Unit
AreDigits (c ∷ s) = (48 ≤ c) × (c < 58) × AreDigits s

AreDigits-append_digit : (s : Text) (d : ℕ) → d < 10 → AreDigits s → AreDigits (s ++ (48 + d) ∷ [])
AreDigits-append_digit [] d h k = (omega arith, omega arith, tt)
AreDigits-append_digit (c ∷ s) d h k = (k.0, k.1, AreDigits-append_digit s d h k.2)

digits-AreDigits : (f n : ℕ) → AreDigits (digits f n)
unfolding digits
digits-AreDigits zero n = tt
digits-AreDigits (suc f) n = elim (Bool-cases (ltb n 10)) [
  | inl h ↦ rw h (ground arith, ground arith, tt)
  | inr h ↦ rw h (
      AreDigits-append_digit (digits f (n / 10)) (n % 10) (omega arith)
        (digits-AreDigits f (n / 10)))
]

value_from-digits : (f n : ℕ) → n < f → value_from 0 (digits f n) ≡ n
unfolding digits
value_from-digits zero n h = absurd (omega arith)
value_from-digits (suc f) n h = elim (Bool-cases (ltb n 10)) [
  | inl k ↦ rw k (unfold value_from in omega arith)
  | inr k ↦
      rw (k, value_from-append_digit 0 (digits f (n / 10)) (n % 10))
        (ground (arith, value_from-digits f (n / 10)))
]

pub format_uint-AreDigits : (n : ℕ) → AreDigits (format_uint n)
unfolding format_uint
format_uint-AreDigits n = digits-AreDigits (suc n) n

pub value_from-format_uint : (n : ℕ) → value_from 0 (format_uint n) ≡ n
unfolding format_uint
value_from-format_uint n = value_from-digits (suc n) n (omega arith)

-- `strings.TrimSpace`: the code points that `unicode.IsSpace` takes.
abbrev pub is_space : ℕ → Bool
is_space c =
    (leb 9 c && leb c 13)
    || (c == 32)
    || (c == 133)
    || (c == 160)
    || (c == 5760)
    || (leb 8192 c && leb c 8202)
    || (c == 8232)
    || (c == 8233)
    || (c == 8239)
    || (c == 8287)
    || (c == 12288)

unfoldable pub trim_left : Text → Text
trim_left [] = []
trim_left (c ∷ s) = let rest = trim_left s in if is_space c then rest else c ∷ s

unfoldable pub trim_right : Text → Text
trim_right [] = []
trim_right (c ∷ s) = let rest = trim_right s in if is_empty rest && is_space c then [] else c ∷ rest

abbrev pub trim_space : Text → Text
trim_space s = trim_left (trim_right s)
