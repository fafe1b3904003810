-- ===== src/Collector/Counting.antt =====
-- The rate that the ring of `collector.go` yields against the list of the requests seen so far.
use pinai.Base.{
  ℕ, zero, suc, ◌+◌, ◌-◌, ◌%◌, ◌≤◌, ◌<◌, ◌≡◌, refl, ap, sym, ◌∙◌, List, [], ◌∷◌, get_or, arith, ltb,
  leb, ◌&&◌, if◌then◌else◌,
}
use pinai.Collector.{Collector, new_collector, record_request, get_rpm, rpm_from, cleanup_tick}
use pinai.Collector.Window.{Counts, count_at, count_window}
use pinai.Collector.Ring.{new_collector-Counts, cleanup_tick-Counts, record_request-Counts}

-- The seconds that `GetRPM` reads, from `t` backwards.
window_sum : ℕ → ℕ → List ℕ → ℕ
window_sum zero t counts = 0
window_sum (suc n) t counts = get_or counts (t % 60) 0 + window_sum n (t - 1) counts

rpm_from-window_sum :
    (now : ℕ) (counts : List ℕ) (n i total : ℕ)
    → rpm_from now counts n i total ≡ total + window_sum n (now - i) counts
unfolding rpm_from window_sum
rpm_from-window_sum now counts zero i total = omega arith
rpm_from-window_sum now counts (suc n) i total =
    let e : now - (i + 1) ≡ now - i - 1 = omega arith in
    rw (rpm_from-window_sum now counts n (i + 1) (total + get_or counts ((now - i) % 60) 0), e)
      (omega arith)

window_sum-last :
    (n t : ℕ) (counts : List ℕ)
    → window_sum (suc n) t counts ≡ window_sum n t counts + get_or counts ((t - n) % 60) 0
unfolding window_sum
window_sum-last zero t counts = let e : t - 0 ≡ t = omega arith in rw e (omega arith)
window_sum-last (suc n) t counts =
    let e : t - 1 - n ≡ t - suc n = omega arith in
    let ih = window_sum-last n (t - 1) counts in rw ih (rw e (omega arith))

window_sum-next :
    (t : ℕ) (counts : List ℕ) → 59 ≤ t → window_sum 60 (t + 1) counts ≡ window_sum 60 t counts
window_sum-next t counts h =
    let e : (t + 1) % 60 ≡ (t - 59) % 60 = omega arith in
    let f : t + 1 - 1 ≡ t = omega arith in
    rw (window_sum-last 59 t counts) (unfold window_sum in rw (e, f) (omega arith))

-- Sixty seconds in a row read every slot of the ring, so all such windows have one sum.
window_sum-all : (d : ℕ) (counts : List ℕ) → window_sum 60 (59 + d) counts ≡ window_sum 60 59 counts
window_sum-all zero counts = refl
window_sum-all (suc d) counts =
    let e : 59 + suc d ≡ 59 + d + 1 = omega arith in
    rw e (window_sum-next (59 + d) counts (omega arith) ∙ window_sum-all d counts)

window_sum-same :
    (s t : ℕ) (counts : List ℕ) → 59 ≤ s → 59 ≤ t → window_sum 60 s counts ≡ window_sum 60 t counts
window_sum-same s t counts h k =
    let e : s ≡ 59 + (s - 59) = omega arith in
    let f : t ≡ 59 + (t - 59) = omega arith in
    rw (e, f) (window_sum-all (s - 59) counts ∙ sym (window_sum-all (t - 59) counts))

-- The same walk over the seconds, with the requests of each.
count_back : ℕ → ℕ → List ℕ → ℕ
count_back zero t ts = 0
count_back (suc n) t ts = count_at t ts + count_back n (t - 1) ts

window_sum-count_back :
    (n t : ℕ) (counts ts : List ℕ)
    → n ≤ t + 1
    → ((s : ℕ) → s ≤ t → t < s + n → get_or counts (s % 60) 0 ≡ count_at s ts)
    → window_sum n t counts ≡ count_back n t ts
unfolding window_sum count_back
window_sum-count_back zero t counts ts h slots = refl
window_sum-count_back (suc zero) t counts ts h slots = omega (arith, slots t)
window_sum-count_back (suc (suc n)) t counts ts h slots = omega (
  arith,
  slots t,
  window_sum-count_back (suc n) (t - 1) counts ts (omega arith)
      (λ s p q. slots s (omega arith) (omega arith)),
)

count_back-cons :
    (n t x : ℕ) (ts : List ℕ)
    → n ≤ t + 1
    → count_back n t (x ∷ ts) ≡ (if leb x t && ltb t (x + n) then 1 else 0) + count_back n t ts
unfolding count_back count_at
count_back-cons zero t x ts h = ground arith
count_back-cons (suc zero) t x ts h = ground arith
count_back-cons (suc (suc n)) t x ts h = ground (arith, count_back-cons (suc n) (t - 1) x ts)

count_back-nil : (n t : ℕ) → count_back n t [] ≡ 0
unfolding count_back count_at
count_back-nil zero t = refl
count_back-nil (suc n) t = omega (arith, count_back-nil n (t - 1))

count_back-window : (t : ℕ) (ts : List ℕ) → 59 ≤ t → count_back 60 t ts ≡ count_window t ts
unfolding count_window
count_back-window t [] h = count_back-nil 60 t
count_back-window t (x ∷ ts) h =
    rw (count_back-cons 60 t x ts (omega arith)) (ap (◌+◌ _) (count_back-window t ts h))

-- The rate read at any time is the number of requests in the sixty seconds that end with the
-- collector's own second.
pub get_rpm-count_window :
    (c : Collector) (ts : List ℕ) (now : ℕ)
    → 59 ≤ now
    → 59 ≤ c.current_second
    → Counts c ts
    → get_rpm now c ≡ count_window c.current_second ts
unfolding get_rpm
get_rpm-count_window c ts now h k counts = omega (
  arith,
  rpm_from-window_sum now c.request_counts 60 0 0,
  window_sum-same (now - 0) c.current_second c.request_counts (omega arith) k,
  window_sum-count_back 60 c.current_second c.request_counts ts (omega arith) counts.slots,
  count_back-window c.current_second ts k,
)

-- What the goroutines do, in the order in which they get the lock.
pub data Event : Type 0 where
  requested ticked : ℕ → Event

unfoldable pub step : Collector → Event → Collector
unfolding record_request cleanup_tick
step c (requested now) = record_request now c
step c (ticked now) = cleanup_tick now c

unfoldable pub run : Collector → List Event → Collector
unfolding step
run c [] = c
run c (e ∷ es) = run (step c e) es

-- The requests of a run, the latest first.
unfoldable pub requests : List ℕ → List Event → List ℕ
requests ts [] = ts
requests ts (requested now ∷ es) = requests (now ∷ ts) es
requests ts (ticked now ∷ es) = requests ts es

-- The clock does not go back below `t`.
abbrev pub IsMonotone : ℕ → List Event → Type 0
IsMonotone t [] = Unit
IsMonotone t (requested now ∷ es) = (t ≤ now) × IsMonotone now es
IsMonotone t (ticked now ∷ es) = (t ≤ now) × IsMonotone now es

unfoldable pub last_time : ℕ → List Event → ℕ
last_time t [] = t
last_time t (requested now ∷ es) = last_time now es
last_time t (ticked now ∷ es) = last_time now es

record_request-second : (now : ℕ) (c : Collector) → (record_request now c).current_second ≡ now
unfolding record_request
record_request-second now c = ground arith

cleanup_tick-second :
    (now : ℕ) (c : Collector) → c.current_second ≤ now → (cleanup_tick now c).current_second ≡ now
unfolding cleanup_tick
cleanup_tick-second now c h = ground arith

run-Counts :
    (c : Collector) (ts : List ℕ) (t : ℕ) (es : List Event)
    → c.current_second ≡ t
    → IsMonotone t es
    → Counts c ts
    → Counts (run c es) (requests ts es) × ((run c es).current_second ≡ last_time t es)
unfolding run requests step last_time
run-Counts c ts t [] e m k = (k, e)
run-Counts c ts t (requested now ∷ es) e (le, m) k =
    run-Counts (record_request now c) (now ∷ ts) now es (record_request-second now c) m
      (record_request-Counts c ts now (omega arith) k)
run-Counts c ts t (ticked now ∷ es) e (le, m) k =
    run-Counts (cleanup_tick now c) ts now es (cleanup_tick-second now c (omega arith)) m
      (cleanup_tick-Counts c ts now k)

last_time-le : (t : ℕ) (es : List Event) → IsMonotone t es → t ≤ last_time t es
unfolding last_time
last_time-le t [] m = omega arith
last_time-le t (requested now ∷ es) (le, m) = omega (arith, last_time-le now es m)
last_time-le t (ticked now ∷ es) (le, m) = omega (arith, last_time-le now es m)

-- Start a collector at second `t0`, not before second 59, and let requests and cleaning ticks come
-- in any order, at times that do not go back. Then the rate read at any time from second 59 on is
-- the number of requests in the sixty seconds that end with the last of those events.
pub get_rpm-run :
    (t0 : ℕ) (es : List Event) (now : ℕ)
    → 59 ≤ t0
    → 59 ≤ now
    → IsMonotone t0 es
    → get_rpm now (run (new_collector t0) es) ≡ count_window (last_time t0 es) (requests [] es)
get_rpm-run t0 es now h h' m =
    let (k, e) =
      run-Counts (new_collector t0) [] t0 es (unfold new_collector in refl) m
        (new_collector-Counts t0) in
    let le = last_time-le t0 es m in
    get_rpm-count_window (run (new_collector t0) es) (requests [] es) now h' (omega arith) k
    ∙ ap (λ s. count_window s (requests [] es)) e
