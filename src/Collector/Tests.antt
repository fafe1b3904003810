-- ===== src/Collector/Tests.antt =====
-- Runs of the collector, and its theorems at concrete inputs.
use pinai.Base.{◌≡◌, refl, arith, List, [], ◌∷◌}
use pinai.Base.Int.{pos}
use pinai.Collector.{new_collector, get_rpm, decrement_connection, get_active_connections}
use pinai.Collector.Window.{count_window}
use pinai.Collector.Counting.{Event, requested, ticked, run, requests, last_time, get_rpm-run}
use pinai.Collector.Connections.{
  start, open_connection, close_connection, here, next, opens, closes, IsExact, Reach-IsExact,
}

abbrev busy : List Event
busy = requested 100 ∷ requested 100 ∷ ticked 101 ∷ requested 130 ∷ requested 160 ∷ ticked 161 ∷ []

busy_rate : get_rpm 161 (run (new_collector 90) busy) ≡ 2
unfolding get_rpm run new_collector
busy_rate = refl

get_rpm-run_example :
    get_rpm 165 (run (new_collector 90) busy) ≡ count_window (last_time 90 busy) (requests [] busy)
get_rpm-run_example = get_rpm-run 90 busy 165 (omega arith) (omega arith) (omega arith)

no_negative_count : get_active_connections (decrement_connection (new_collector 90)) ≡ pos 0
unfolding get_active_connections decrement_connection new_collector
no_negative_count = refl

Reach-IsExact_example : IsExact (close_connection (open_connection (start 90)))
Reach-IsExact_example = Reach-IsExact 90 (
    next (next here (opens (start 90)))
      (closes (open_connection (start 90)) (unfold start open_connection in omega arith)))
