-- ===== src/Collector/Window.antt =====
-- What the ring of counters stands for: the requests of the last sixty seconds.
use pinai.Base.{
  ℕ, zero, suc, ◌+◌, ◌%◌, ◌≤◌, ◌<◌, ◌≡◌, refl, ◌∙◌, inl, inr, List, [], ◌∷◌, length, length-set,
  set, get_or, arith, ltb, leb, ◌&&◌, ◌==◌, if◌then◌else◌, Bool-cases,
}
use pinai.Collector.{Collector, clear_from}

-- How many of the requests came in second `s`.
unfoldable pub count_at : ℕ → List ℕ → ℕ
count_at s [] = 0
count_at s (t ∷ ts) = (if t == s then 1 else 0) + count_at s ts

-- How many came in the sixty seconds that end with `now`.
unfoldable pub count_window : ℕ → List ℕ → ℕ
count_window now [] = 0
count_window now (t ∷ ts) = (if leb t now && ltb now (t + 60) then 1 else 0) + count_window now ts

abbrev pub AllLe : ℕ → List ℕ → Type 0
AllLe n [] = Unit
AllLe n (t ∷ ts) = (t ≤ n) × AllLe n ts

-- The collector has counted exactly the requests `ts`: each second of the window has its number
-- in the ring.
pub record Counts (c : Collector) (ts : List ℕ) : Type 0 where
  pub sixty : length c.request_counts ≡ 60
  pub past : AllLe c.current_second ts
  pub slots :
      (s : ℕ)
      → s ≤ c.current_second
      → c.current_second < s + 60
      → get_or c.request_counts (s % 60) 0 ≡ count_at s ts

pub get_or-set :
    (xs : List ℕ) (i j v : ℕ)
    → i < length xs
    → get_or (set xs i v) j 0 ≡ (if i == j then v else get_or xs j 0)
get_or-set [] i j v h = absurd (omega arith)
get_or-set (x ∷ xs) zero zero v h = refl
get_or-set (x ∷ xs) zero (suc j) v h = ground arith
get_or-set (x ∷ xs) (suc i) zero v h = ground arith
get_or-set (x ∷ xs) (suc i) (suc j) v h = ground (arith, get_or-set xs i j v (omega arith))

count_at-future : (n s : ℕ) (ts : List ℕ) → AllLe n ts → n < s → count_at s ts ≡ 0
unfolding count_at
count_at-future n s [] h k = refl
count_at-future n s (t ∷ ts) (h, hs) k = ground (arith, count_at-future n s ts hs k)

pub AllLe-mono : (n m : ℕ) (ts : List ℕ) → n ≤ m → AllLe n ts → AllLe m ts
AllLe-mono n m [] h k = tt
AllLe-mono n m (t ∷ ts) h (k, ks) = (omega arith, AllLe-mono n m ts h ks)

abbrev pub SlotsUpTo : ℕ → List ℕ → List ℕ → Type 0
SlotsUpTo current counts ts =
    (s : ℕ) → s ≤ current → current < s + 60 → get_or counts (s % 60) 0 ≡ count_at s ts

-- Clearing the slot of the next second moves the window on by one.
clear_one :
    (current : ℕ) (counts ts : List ℕ)
    → length counts ≡ 60
    → AllLe current ts
    → SlotsUpTo current counts ts
    → SlotsUpTo (current + 1) (set counts ((current + 1) % 60) 0) ts
clear_one current counts ts len past slots s le lt =
    rw (get_or-set counts ((current + 1) % 60) (s % 60) 0 (omega arith))
      (elim (Bool-cases (s == current + 1)) [
        | inl e ↦ ground (arith, count_at-future current s ts past)
        | inr e ↦ ground (arith, slots s)
      ])

pub clear_from_lem :
    (rounds current : ℕ) (counts ts : List ℕ)
    → length counts ≡ 60
    → AllLe current ts
    → SlotsUpTo current counts ts
    → (length (clear_from rounds (current + 1) counts) ≡ 60)
      × SlotsUpTo (current + rounds) (clear_from rounds (current + 1) counts) ts
unfolding clear_from
clear_from_lem zero current counts ts len past slots =
    (len, λ s le lt. slots s (omega arith) (omega arith))
clear_from_lem (suc rounds) current counts ts len past slots =
    let (len', slots') =
      clear_from_lem rounds (current + 1) (set counts ((current + 1) % 60) 0) ts
        (length-set counts ((current + 1) % 60) 0 ∙ len)
        (AllLe-mono current (current + 1) ts (omega arith) past)
        (clear_one current counts ts len past slots) in
    (len', λ s le lt. slots' s (omega arith) (omega arith))
