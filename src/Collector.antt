-- ===== src/Collector.antt =====
-- internal/app/stats/collector.go: requests per second in a ring of sixty counters, read as
-- requests per minute, and the count of open connections. A time is a Unix second; `now - i` in
-- `GetRPM` is not negative from second 59 on, and counts do not reach 2^63.
pub mod Window
pub mod Ring
pub mod Counting
pub mod Connections
mod Tests
use pinai.Base.{
  ℕ, zero, suc, ◌+◌, ◌-◌, ◌%◌, Bool, List, [], ◌∷◌, set, get_or, replicate, ltb, ◌==◌,
  if◌then◌else◌,
}
use pinai.Base.Int.{ℤ, pos, negsuc, ◌+ℤ◌, ltb_ℤ}

pub record Collector : Type 0 where
  pub request_counts : List ℕ
  pub current_second : ℕ
  pub active_connections : ℤ

unfoldable pub new_collector : ℕ → Collector
new_collector now = record {
  request_counts = replicate 60 0;
  current_second = now;
  active_connections = pos 0;
}

-- `for i := …; …; i++ { counts[i%60] = 0 }` over the given number of rounds.
pub clear_from : ℕ → ℕ → List ℕ → List ℕ
clear_from zero i counts = counts
clear_from (suc rounds) i counts = clear_from rounds (i + 1) (set counts (i % 60) 0)

-- The loop from `currentSecond + 1` up to `now`: no round if the clock has gone back.
unfoldable pub clear_until : ℕ → ℕ → List ℕ → List ℕ
unfolding clear_from
clear_until current now counts = clear_from (now - current) (current + 1) counts

abbrev increment_at : List ℕ → ℕ → List ℕ
increment_at counts i = set counts i (get_or counts i 0 + 1)

-- Under the lock, as are `get_rpm` and a tick of `cleanup`.
unfoldable pub record_request : ℕ → Collector → Collector
unfolding clear_until
record_request now c =
    let cleared : Collector = if now == c.current_second then c else record c {
      request_counts = clear_until c.current_second now c.request_counts;
      current_second = now;
    } in
    record cleared { request_counts = increment_at cleared.request_counts (now % 60) }

-- The loop over `i`: the total of `rounds` seconds that end at `now - i`.
pub rpm_from : ℕ → List ℕ → ℕ → ℕ → ℕ → ℕ
rpm_from now counts zero i total = total
rpm_from now counts (suc rounds) i total =
    rpm_from now counts rounds (i + 1) (total + get_or counts ((now - i) % 60) 0)

unfoldable pub get_rpm : ℕ → Collector → ℕ
unfolding rpm_from
get_rpm now c = rpm_from now c.request_counts 60 0 0

-- One tick of the cleaning goroutine.
unfoldable pub cleanup_tick : ℕ → Collector → Collector
unfolding clear_until
cleanup_tick now c =
    if ltb c.current_second now
    then record c {
      request_counts = clear_until c.current_second now c.request_counts;
      current_second = now;
    }
    else c

-- The two atomic operations of `DecrementConnection` are two steps, between which other
-- goroutines may run: the addition, and the correction when it went below zero.
unfoldable pub increment_connection : Collector → Collector
unfolding ◌+ℤ◌
increment_connection c = record c { active_connections = c.active_connections +ℤ pos 1 }

unfoldable pub decrement_add : Collector → Collector
unfolding ◌+ℤ◌
decrement_add c = record c { active_connections = c.active_connections +ℤ negsuc 0 }

unfoldable pub decrement_correct : Collector → Collector
decrement_correct c = record c { active_connections = pos 0 }

-- The call with nothing in between.
unfoldable pub decrement_connection : Collector → Collector
unfolding decrement_add decrement_correct
decrement_connection c =
    let after = decrement_add c in
    if ltb_ℤ after.active_connections (pos 0) then decrement_correct after else after

unfoldable pub get_active_connections : Collector → ℤ
get_active_connections c = c.active_connections
