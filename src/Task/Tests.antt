-- ===== src/Task/Tests.antt =====
-- Runs of the batch tasks, and the theorems at concrete services.
use pinai.Base.{ℕ, ◌≡◌, refl, true, false, List, [], ◌∷◌, ◌++◌, none, some, arith}
use pinai.Base.Text.{Text, codes, nat_eq}
use pinai.Task.{
  Task, add, update, pending, running, ok, err, Db, unfinished, find_task, queue_full,
  recover_failed,
}
use pinai.Task.Runtime.{Service, recover_tasks}
use pinai.Task.Submit.{new_task, submit}
use pinai.Task.Worker.{Run, BatchTaskResult, finished, stopped, created}
use pinai.Task.Ownership.{IsOwned}
use pinai.Task.Ownership.Rounds.{Op, submits, reads, restarts, begins, ends, run, run-IsOwned}
use pinai.Task.Lifecycle.{IsReady, round, final_task}
use pinai.Task.Recovery.{ids_of, recover_tasks-queues, recover_tasks_overfull}
use pinai.Task.Submission.{submit_served, created_row}
use pinai.Task.Finality.Steps.{IsSettled}
use pinai.Task.Finality.Rounds.{round_lasts}

abbrev encode : BatchTaskResult → Text
encode r = codes "done"

-- Two pending tasks and one that was running when the process ended.
abbrev row : ℕ → Task
row id = record (new_task add 1 (codes "{}")) { id = id }

abbrev left_over : Task
left_over = record (row 2) { status = running; started_at = some 50 }

abbrev table : Db
table = record {
  rows = row 1 ∷ left_over ∷ row 3 ∷ [];
  next_id = 4;
  platforms = 1 ∷ [];
  faults = [];
}

abbrev fresh : ℕ → Service
fresh size = record {
  db = table;
  queue = [];
  queue_size = size;
  enqueued = [];
  cache = [];
  current = none;
}

fresh-IsOwned : (size : ℕ) → IsOwned (fresh size)
fresh-IsOwned size = record {
  within = omega arith;
  once = tt;
  apart = λ id c. refl;
  marks = λ id. refl;
}

-- A submission that the database refuses, a restart, and a round between two submissions.
abbrev faulty : Service
faulty = record (fresh 2) { db = record table { faults = false ∷ true ∷ [] } }

abbrev steps : List Op
steps =
    submits add 1 (codes "{}")
    ∷ restarts
    ∷ begins 60
    ∷ submits update 1 (codes "{}")
    ∷ reads 1
    ∷ ends 61 62 (stopped (codes "boom"))
    ∷ []

faulty-IsOwned : IsOwned faulty
faulty-IsOwned = record {
  within = omega arith;
  once = tt;
  apart = λ id c. refl;
  marks = λ id. refl;
}

run-IsOwned_example : IsOwned (run encode steps faulty)
run-IsOwned_example = run-IsOwned encode steps faulty faulty-IsOwned

recover_tasks-queues_example :
    ((recover_tasks (fresh 3)).0 ≡ ok tt)
    × ((recover_tasks (fresh 3)).1.queue ≡ ids_of (unfinished table.rows))
recover_tasks-queues_example =
    recover_tasks-queues (fresh 3) refl (unfold ids_of unfinished in (refl, (refl, (refl, tt))))
      (λ id c. refl) (unfold ids_of unfinished in omega arith)

recover_tasks_overfull_example : (recover_tasks (fresh 2)).0 ≡ err (recover_failed queue_full)
recover_tasks_overfull_example =
    recover_tasks_overfull (fresh 2) refl (unfold ids_of unfinished in (refl, (refl, (refl, tt))))
      (λ id c. refl) (omega arith) (unfold ids_of unfinished in omega arith)

abbrev queued : Service
queued = record (fresh 3) { queue = 1 ∷ 3 ∷ []; enqueued = 3 ∷ 1 ∷ [] }

queued-IsReady : IsReady (row 1) (3 ∷ []) queued
queued-IsReady = record {
  idle = refl;
  queued = refl;
  served = refl;
  found = unfold find_task in refl;
}

queued-IsOwned : IsOwned queued
queued-IsOwned = record {
  within = omega arith;
  once = (refl, (refl, tt));
  apart = λ id c. cc;
  marks = λ id. ground arith;
}

abbrev one_created : Run
one_created = finished (record { total_count = 1; counted = created 1 })

round_lasts_example :
    IsSettled
      (final_task encode 70 72 one_created (row 1))
      (run encode steps (round encode 70 71 72 one_created queued))
round_lasts_example =
    round_lasts encode 70 71 72 one_created (row 1) (3 ∷ []) queued steps queued-IsReady
      queued-IsOwned (omega arith)

submit_served_example :
    ((submit add 1 (codes "{}") queued).0
      ≡ ok (record { task_id = 4; task_type = add; status = pending }))
    × ((submit add 1 (codes "{}") queued).1.db.rows
        ≡ table.rows ++ created_row add 1 (codes "{}") queued ∷ [])
    × ((submit add 1 (codes "{}") queued).1.queue ≡ 1 ∷ 3 ∷ 4 ∷ [])
submit_served_example = submit_served add 1 (codes "{}") queued refl refl
