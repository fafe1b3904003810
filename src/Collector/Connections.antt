-- ===== src/Collector/Connections.antt =====
-- The open connections of `collector.go`, with the atomic operations of many goroutines
-- interleaved. A handler increments once and decrements once: so do the `releaseConnection`
-- closures and the deferred calls of the data plane handlers.
use pinai.Base.{ℕ, suc, ◌+◌, ◌<◌, ◌≤◌, ◌≡◌, refl, arith, if◌then◌else◌}
use pinai.Base.Int.{pos, ltb_ℤ, ◌-ℤ◌}
use pinai.Collector.{
  Collector, new_collector, increment_connection, decrement_add, decrement_correct,
  get_active_connections,
}

-- `pending` goroutines have seen a negative count and are about to store 0.
pub record Shared : Type 0 where
  pub collector : Collector
  pub pending : ℕ
  pub opened : ℕ
  pub closed : ℕ

unfoldable pub start : ℕ → Shared
start now = record { collector = new_collector now; pending = 0; opened = 0; closed = 0 }

unfoldable pub open_connection : Shared → Shared
open_connection s = record s { collector = increment_connection s.collector; opened = s.opened + 1 }

-- The addition of `DecrementConnection`, and its test of the result.
unfoldable pub close_connection : Shared → Shared
close_connection s =
    let after = decrement_add s.collector in
    record s {
      collector = after;
      pending = if ltb_ℤ (get_active_connections after) (pos 0) then s.pending + 1 else s.pending;
      closed = s.closed + 1;
    }

unfoldable pub correct_count : Shared → ℕ → Shared
correct_count s left = record s { collector = decrement_correct s.collector; pending = left }

pub data Step : Shared → Shared → Type 0 where
  opens : (s : Shared) → Step s (open_connection s)
  closes : (s : Shared) → s.closed < s.opened → Step s (close_connection s)
  corrects : (s : Shared) (left : ℕ) → s.pending ≡ suc left → Step s (correct_count s left)

pub data Reach (s : Shared) : Shared → Type 0 where
  here : Reach s s
  next : {t u : Shared} → Reach s t → Step t u → Reach s u

-- Nothing is pending, and the counter is the number of open connections.
pub record IsExact (s : Shared) : Type 0 where
  pub settled : s.pending ≡ 0
  pub balance : get_active_connections s.collector ≡ pos s.opened -ℤ pos s.closed
  pub bounded : s.closed ≤ s.opened

open_connection-IsExact : (s : Shared) → IsExact s → IsExact (open_connection s)
unfolding open_connection increment_connection get_active_connections ◌-ℤ◌
open_connection-IsExact s h = ground arith

close_connection-IsExact :
    (s : Shared) → s.closed < s.opened → IsExact s → IsExact (close_connection s)
unfolding close_connection decrement_add get_active_connections ◌-ℤ◌
close_connection-IsExact s lt h = ground arith

pub Step-IsExact : {s t : Shared} → Step s t → IsExact s → IsExact t
Step-IsExact (opens s) h = open_connection-IsExact s h
Step-IsExact (closes s lt) h = close_connection-IsExact s lt h
Step-IsExact (corrects s left e) h = let k = h.settled in absurd (omega arith)

start-IsExact : (now : ℕ) → IsExact (start now)
unfolding start new_collector get_active_connections ◌-ℤ◌
start-IsExact now = record { settled = refl; balance = refl; bounded = omega arith }

-- In every interleaving in which no connection is closed that was not opened, no goroutine ever
-- waits to store 0, and the active count is the number of connections opened less those closed,
-- which is not negative.
pub Reach-IsExact : (now : ℕ) {s : Shared} → Reach (start now) s → IsExact s
Reach-IsExact now here = start-IsExact now
Reach-IsExact now (next r st) = Step-IsExact st (Reach-IsExact now r)
