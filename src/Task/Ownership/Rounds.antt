-- ===== src/Task/Ownership/Rounds.antt =====
-- The ownership under the rounds of the worker of model_batch_task_service.go, and under sequences of
-- the service's steps.
use pinai.Base.{
  ℕ, ◌≤◌, ◌≡◌, refl, false, ◌||◌, List, [], ◌∷◌, Option, none, some, length, ◌==◌, arith,
}
use pinai.Base.Text.{Text, nat_eq}
use pinai.Task.{
  Task, TaskType, Result, ok, err, Db, contains, find_task, get_task, mark_task_running,
  mark_running,
}
use pinai.Task.Runtime.{
  restarted, Service, Summary, summary_of, cache_summary, ensure_initialized, remove_queued_mark,
  recover_tasks,
}
use pinai.Task.Submit.{submit, get_model_batch_task}
use pinai.Task.Worker.{Run, BatchTaskResult, begin_task, after_get, after_mark, end_task}
use pinai.Task.Ownership.{
  HasNoRepeat, IsOwned, contains-without, submit-IsOwned, ensure_initialized-IsOwned,
  get_model_batch_task-IsOwned, recover_tasks-IsOwned,
}

-- An id in the worker's hand: out of the queue, and still marked.
record IsHeld (id : ℕ) (s : Service) : Type 0 where
  within : length s.queue ≤ s.queue_size
  once : HasNoRepeat s.queue
  apart : contains id s.queue ≡ false
  marks : (j : ℕ) → contains j s.enqueued ≡ (contains j s.queue || (id == j))
  idle : s.current ≡ none

IsHeld-frame : (id : ℕ) (s : Service) (db : Db) → IsHeld id s → IsHeld id (record s { db = db })
IsHeld-frame id s db h = record {
  within = h.within;
  once = h.once;
  apart = h.apart;
  marks = h.marks;
  idle = h.idle;
}

release-IsOwned : (id : ℕ) (s : Service) → IsHeld id s → IsOwned (remove_queued_mark id s)
release-IsOwned id s h = record {
  within = h.within;
  once = h.once;
  apart = λ j c. ground (arith, h.idle);
  marks = λ j. ground (arith, h.marks j, h.apart, h.idle, contains-without j id s.enqueued);
}

keep-IsOwned :
    (t : Task) (m : Summary) (s : Service)
    → IsHeld t.id s
    → IsOwned (record (cache_summary m s) { current = some t })
keep-IsOwned t m s h = record {
  within = h.within;
  once = h.once;
  apart = λ j c. ground (arith, h.apart);
  marks = λ j. ground (arith, h.marks j);
}

find_task-id : (id : ℕ) (ts : List Task) (t : Task) → find_task id ts ≡ some t → t.id ≡ id
unfolding find_task
find_task-id id [] t e = cc
find_task-id id (u ∷ ts) t e = ground (arith, find_task-id id ts t)

pub get_task-id : (id : ℕ) (db : Db) (t : Task) → (get_task id db).0 ≡ ok t → t.id ≡ id
unfolding get_task
get_task-id id db t e = ground (arith, find_task-id id db.rows t)

after_mark-IsOwned :
    (now : ℕ) (t : Task) (r : Result (Unit {0})) (s : Service)
    → IsHeld t.id s
    → IsOwned (after_mark now t r s)
unfolding after_mark
after_mark-IsOwned now t (err e) s h = release-IsOwned t.id s h
after_mark-IsOwned now t (ok u) s h =
    keep-IsOwned (mark_running now t) (summary_of (mark_running now t)) s h

after_get-IsOwned :
    (now id : ℕ) (r : Result Task) (s : Service)
    → ((t : Task) → r ≡ ok t → t.id ≡ id)
    → IsHeld id s
    → IsOwned (after_get now id r s)
unfolding after_get
after_get-IsOwned now id (err e) s same h = release-IsOwned id s h
after_get-IsOwned now id (ok t) s same h =
    after_mark-IsOwned now t (mark_task_running t.id now s.db).0 _
      (rw (same t refl) (IsHeld-frame id s (mark_task_running id now s.db).1 h))

take-IsHeld :
    (id : ℕ) (ids : List ℕ) (s : Service) (db : Db)
    → s.current ≡ none
    → s.queue ≡ id ∷ ids
    → IsOwned s
    → IsHeld id (record s { db = db; queue = ids })
take-IsHeld id ids s db idle e h = record {
  within = ground (arith, h.within);
  once = let o : HasNoRepeat (id ∷ ids) = rw e at h.once in o.1;
  apart = let o : HasNoRepeat (id ∷ ids) = rw e at h.once in o.0;
  marks = λ j. ground (arith, h.marks j);
  idle = idle;
}

begin_task-IsOwned : (now : ℕ) (s : Service) → IsOwned s → IsOwned (begin_task now s)
unfolding begin_task
begin_task-IsOwned now s h = go s.current s.queue refl refl
  where
    go : (c : Option Task) (q : List ℕ) → s.current ≡ c → s.queue ≡ q → IsOwned (begin_task now s)
    go (some t) q e f = rw (e, begin_task) h
    go none [] e f = rw (e, begin_task, f) h
    go none (id ∷ ids) e f =
        rw (e, begin_task, f)
          (after_get-IsOwned now id (get_task id s.db).0 _ (get_task-id id s.db)
            (take-IsHeld id ids s (get_task id s.db).1 e f h))

end_task-IsOwned :
    (encode : BatchTaskResult → Text) (later written : ℕ) (r : Run) (s : Service)
    → IsOwned s
    → IsOwned (end_task encode later written r s)
unfolding end_task
end_task-IsOwned encode later written r s h = go s.current refl
  where
    go : (c : Option Task) → s.current ≡ c → IsOwned (end_task encode later written r s)
    go none e = rw (e, end_task) h
    go (some t) e =
        rw (e, end_task)
          (release-IsOwned t.id _ (record {
            within = h.within;
            once = h.once;
            apart = h.apart t.id (ground arith);
            marks = λ j. ground (arith, h.marks j);
            idle = refl;
          }))

-- What the service does: the handlers submit and read, the start of the worker recovers, a new
-- process takes over and recovers, and a round of the worker begins and ends with the result of its batch operation.
pub data Op : Type 0 where
  submits : TaskType → ℕ → Text → Op
  reads : ℕ → Op
  recovers : Op
  restarts : Op
  begins : ℕ → Op
  ends : ℕ → ℕ → Run → Op

module _ (encode : BatchTaskResult → Text) where
  abbrev pub step : Op → Service → Service
  step (submits task_type platform_id payload) s = (submit task_type platform_id payload s).1
  step (reads id) s = (get_model_batch_task id s).1
  step recovers s = (recover_tasks (ensure_initialized s)).1
  step restarts s = (recover_tasks (ensure_initialized (restarted s))).1
  step (begins now) s = begin_task now s
  step (ends later written r) s = end_task encode later written r s

  unfoldable pub run : List Op → Service → Service
  run [] s = s
  run (op ∷ ops) s = run ops (step op s)

  step-IsOwned : (op : Op) (s : Service) → IsOwned s → IsOwned (step op s)
  step-IsOwned (submits task_type platform_id payload) s h =
      submit-IsOwned task_type platform_id payload s h
  step-IsOwned (reads id) s h = get_model_batch_task-IsOwned id s h
  step-IsOwned recovers s h =
      recover_tasks-IsOwned (ensure_initialized s) (ensure_initialized-IsOwned s h)
  step-IsOwned restarts s h =
      recover_tasks-IsOwned (ensure_initialized (restarted s))
        (record { within = omega arith; once = tt; apart = λ j c. refl; marks = λ j. refl })
  step-IsOwned (begins now) s h = begin_task-IsOwned now s h
  step-IsOwned (ends later written r) s h = end_task-IsOwned encode later written r s h

  -- Whatever the service does, in whatever order and whichever calls the database refuses, a
  -- service that owned its tasks does so after it: the queue is within its size and has no id
  -- twice, the worker's task is not in it, and exactly the queued ids and the worker's are marked.
  pub run-IsOwned : (ops : List Op) (s : Service) → IsOwned s → IsOwned (run ops s)
  unfolding run
  run-IsOwned [] s h = h
  run-IsOwned (op ∷ ops) s h = run-IsOwned ops (step op s) (step-IsOwned op s h)
