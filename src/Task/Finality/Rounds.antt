-- ===== src/Task/Finality/Rounds.antt =====
-- A finished task under the rounds of the worker (model_batch_task_service.go), and what follows a
-- round.
use pinai.Base.{ℕ, ◌<◌, ◌≡◌, refl, false, List, [], ◌∷◌, Option, none, some, ◌==◌, arith}
use pinai.Base.Text.{Text, nat_eq}
use pinai.Task.{
  Task, Result, ok, err, contains, change_task, unfinished, is_unfinished, get_task,
  mark_task_running,
}
use pinai.Task.Runtime.{restarted, Service}
use pinai.Task.Worker.{
  Run, BatchTaskResult, finished, stopped, begin_task, after_get, after_mark, end_task,
}
use pinai.Task.Ownership.Rounds.{Op, submits, reads, recovers, restarts, begins, ends, step, run}
use pinai.Task.Recovery.{ids_of}
use pinai.Task.Finality.{get_task-IsFinal, mark_task_running-IsFinal, finish_row-IsFinal}
use pinai.Task.Ownership.Rounds.{get_task-id}
use pinai.Task.Ownership.{IsOwned, HasNoRepeat}
use pinai.Task.Lifecycle.{
  round, IsReady, final_task, round_served, round-IsRound, finish_change, finish_change-id,
  final_id,
}
use pinai.Task.Finality.Steps.{
  IsSettled, IsSettled-db, submit-IsSettled, get_model_batch_task-IsSettled,
  recover_tasks-IsSettled,
}

after_mark-IsSettled :
    (t : Task) (now : ℕ) (u : Task) (r : Result (Unit {0})) (s : Service)
    → (u.id == t.id) ≡ false
    → IsSettled t s
    → IsSettled t (after_mark now u r s)
unfolding after_mark
after_mark-IsSettled t now u (err e) s ne h = record {
  table = h.table;
  apart = h.apart;
  unheld = h.unheld;
}
after_mark-IsSettled t now u (ok x) s ne h = record {
  table = h.table;
  apart = h.apart;
  unheld = ne;
}

after_get-IsSettled :
    (t : Task) (now id : ℕ) (r : Result Task) (s : Service)
    → ((u : Task) → r ≡ ok u → (u.id == t.id) ≡ false)
    → IsSettled t s
    → IsSettled t (after_get now id r s)
unfolding after_get
after_get-IsSettled t now id (err e) s ne h = record {
  table = h.table;
  apart = h.apart;
  unheld = h.unheld;
}
after_get-IsSettled t now id (ok u) s ne h =
    after_mark-IsSettled t now u (mark_task_running u.id now s.db).0 _ (ne u refl) (
      IsSettled-db t s (mark_task_running u.id now s.db).1
        (mark_task_running-IsFinal t u.id now s.db (ground (arith, ne u refl)) h.table) h)

begin_task-IsSettled :
    (t : Task) (now : ℕ) (s : Service) → IsSettled t s → IsSettled t (begin_task now s)
unfolding begin_task
begin_task-IsSettled t now s h = go s.current s.queue refl refl
  where
    go :
        (c : Option Task) (q : List ℕ)
        → s.current ≡ c
        → s.queue ≡ q
        → IsSettled t (begin_task now s)
    go (some u) q e f = rw (e, begin_task) h
    go none [] e f = rw (e, begin_task, f) h
    go none (id ∷ ids) e f =
        rw (e, begin_task, f)
          (after_get-IsSettled t now id (get_task id s.db).0 _
            (λ u k. ground (arith, get_task-id id s.db u k, h.apart))
            (record {
              table = get_task-IsFinal t id s.db h.table;
              apart = ground (arith, h.apart);
              unheld = ground (arith, h.unheld);
            }))

end_task-IsSettled :
    (t : Task) (encode : BatchTaskResult → Text) (later written : ℕ) (r : Run) (s : Service)
    → IsSettled t s
    → IsSettled t (end_task encode later written r s)
unfolding end_task
end_task-IsSettled t encode later written r s h = go s.current refl
  where
    go : (c : Option Task) → s.current ≡ c → IsSettled t (end_task encode later written r s)
    go none e = rw (e, end_task) h
    go (some u) e =
        rw (e, end_task)
          (record {
            table = finish_row-IsFinal t encode written u r s.db (ground (arith, h.unheld)) h.table;
            apart = h.apart;
            unheld = refl;
          })

module _ (encode : BatchTaskResult → Text) where
  step-IsSettled :
      (t : Task) (op : Op) (s : Service) → IsSettled t s → IsSettled t (step encode op s)
  step-IsSettled t (submits task_type platform_id payload) s h =
      submit-IsSettled t task_type platform_id payload s h
  step-IsSettled t (reads id) s h = get_model_batch_task-IsSettled t id s h
  step-IsSettled t recovers s h = recover_tasks-IsSettled t s h
  step-IsSettled t restarts s h =
      recover_tasks-IsSettled t (restarted s)
        (record { table = h.table; apart = refl; unheld = refl })
  step-IsSettled t (begins now) s h = begin_task-IsSettled t now s h
  step-IsSettled t (ends later written r) s h = end_task-IsSettled t encode later written r s h

  -- Whatever the service does, in whatever order and whichever calls the database refuses, a
  -- settled task stays settled: its row is as it was, it is not queued and the worker does not
  -- hold it.
  pub run-IsSettled :
      (t : Task) (ops : List Op) (s : Service) → IsSettled t s → IsSettled t (run encode ops s)
  unfolding run
  run-IsSettled t [] s h = h
  run-IsSettled t (op ∷ ops) s h = run-IsSettled t ops (step encode op s) (step-IsSettled t op s h)

-- After every row of an id has got a finished status, no row of it is unfinished.
closed_changed :
    (id : ℕ) (f : Task → Task) (ts : List Task)
    → ((u : Task) → (f u).id ≡ u.id)
    → ((u : Task) → is_unfinished (f u).status ≡ false)
    → contains id (ids_of (unfinished (change_task id f ts))) ≡ false
unfolding unfinished ids_of change_task
closed_changed id f [] keeps closes = refl
closed_changed id f (t ∷ ts) keeps closes =
    ground (arith, keeps t, closes t, closed_changed id f ts keeps closes)

closes_row :
    (encode : BatchTaskResult → Text) (later : ℕ) (r : Run) (u : Task)
    → is_unfinished (finish_change encode later r u).status ≡ false
closes_row encode later (finished r) u = refl
closes_row encode later (stopped e) u = refl

-- A round that the database serves settles the task that it ran.
round-IsSettled :
    (encode : BatchTaskResult → Text) (now later written : ℕ) (r : Run) (t : Task) (ids : List ℕ)
    (s : Service)
    → IsReady t ids s
    → IsOwned s
    → t.id < s.db.next_id
    → IsSettled (final_task encode now written r t) (round encode now later written r s)
round-IsSettled encode now later written r t ids s h o old =
    let done = round-IsRound encode now later written r t ids s h in
    let same = final_id encode now written r t in
    record {
      table = record {
        row = rw same done.row;
        old = rw (same, round_served encode now later written r t ids s h) old;
        closed =
            rw (same, round_served encode now later written r t ids s h)
              (closed_changed t.id (finish_change encode written r) _
                (finish_change-id encode written r) (closes_row encode written r));
      };
      apart =
          rw (same, round_served encode now later written r t ids s h)
            (let once : HasNoRepeat (t.id ∷ ids) = rw h.queued at o.once in once.0);
      unheld = rw done.idle refl;
    }

-- When the worker is idle, the tasks are owned, `t` is the head of the queue with a row whose id
-- the table has given out, and the database serves the round, then after the round and any steps
-- that follow, refused calls and restarts included, the row of `t` is as the round ended it, and
-- `t` is not queued and not held by the worker.
pub round_lasts :
    (encode : BatchTaskResult → Text) (now later written : ℕ) (r : Run) (t : Task) (ids : List ℕ)
    (s : Service) (ops : List Op)
    → IsReady t ids s
    → IsOwned s
    → t.id < s.db.next_id
    → IsSettled
        (final_task encode now written r t)
        (run encode ops (round encode now later written r s))
round_lasts encode now later written r t ids s ops h o old =
    run-IsSettled encode (final_task encode now written r t) ops
      (round encode now later written r s)
      (round-IsSettled encode now later written r t ids s h o old)
