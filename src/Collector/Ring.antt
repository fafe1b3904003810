-- ===== src/Collector/Ring.antt =====
-- The steps of the ring of internal/app/stats/collector.go against the counts of `Collector.Window`.
use pinai.Base.{
  ℕ, zero, suc, ◌+◌, ◌-◌, ◌%◌, ◌≤◌, ◌≡◌, refl, ◌∙◌, inl, inr, List, [], ◌∷◌, length-set, set,
  get_or, replicate, arith, ltb, ◌==◌, Bool-cases,
}
use pinai.Collector.{Collector, new_collector, clear_until, record_request, cleanup_tick}
use pinai.Collector.Window.{Counts, AllLe-mono, count_at, get_or-set, clear_from_lem}

get_or-replicate : (n i z : ℕ) → get_or (replicate n z) i z ≡ z
get_or-replicate zero i z = refl
get_or-replicate (suc n) zero z = refl
get_or-replicate (suc n) (suc i) z = get_or-replicate n i z

pub new_collector-Counts : (now : ℕ) → Counts (new_collector now) []
unfolding new_collector count_at
new_collector-Counts now = record {
  sixty = refl;
  past = tt;
  slots = λ s le lt. get_or-replicate 60 (s % 60) 0;
}

clear_until-Counts :
    (c : Collector) (ts : List ℕ) (now : ℕ)
    → c.current_second ≤ now
    → Counts c ts
    → Counts
        (record c {
          request_counts = clear_until c.current_second now c.request_counts;
          current_second = now;
        })
        ts
unfolding clear_until
clear_until-Counts c ts now le k =
    let (len, slots) =
      clear_from_lem (now - c.current_second) c.current_second c.request_counts ts k.sixty k.past
        k.slots in
    record {
      sixty = len;
      past = AllLe-mono c.current_second now ts le k.past;
      slots = λ s p q. slots s (omega arith) (omega arith);
    }

-- A tick of the cleaning goroutine loses no request of the window, whatever the time.
pub cleanup_tick-Counts :
    (c : Collector) (ts : List ℕ) (now : ℕ) → Counts c ts → Counts (cleanup_tick now c) ts
unfolding cleanup_tick
cleanup_tick-Counts c ts now k = elim (Bool-cases (ltb c.current_second now)) [
  | inl h ↦ rw h (clear_until-Counts c ts now (ground arith) k)
  | inr h ↦ rw h k
]

increment-Counts :
    (c : Collector) (ts : List ℕ)
    → Counts c ts
    → Counts
        (record c {
          request_counts =
              set c.request_counts
                (c.current_second % 60)
                (get_or c.request_counts (c.current_second % 60) 0 + 1);
        })
        (c.current_second ∷ ts)
unfolding count_at
increment-Counts c ts k = record {
  sixty = length-set c.request_counts (c.current_second % 60) _ ∙ k.sixty;
  past = (omega arith, k.past);
  slots = λ s p q.
      let e = k.sixty in
      rw (get_or-set c.request_counts (c.current_second % 60) (s % 60) _ (omega arith))
        (elim (Bool-cases (c.current_second == s)) [
          | inl same ↦ ground (arith, k.slots s)
          | inr other ↦ ground (arith, k.slots s)
        ]);
}

-- A request of this second or a later one is counted.
pub record_request-Counts :
    (c : Collector) (ts : List ℕ) (now : ℕ)
    → c.current_second ≤ now
    → Counts c ts
    → Counts (record_request now c) (now ∷ ts)
unfolding record_request
record_request-Counts c ts now le k = elim (Bool-cases (now == c.current_second)) [
  | inl same ↦
      let e : now ≡ c.current_second = ground arith in rw (same, e) (increment-Counts c ts k)
  | inr other ↦ rw other (increment-Counts _ ts (clear_until-Counts c ts now le k))
]
