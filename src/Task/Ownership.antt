-- ===== src/Task/Ownership.antt =====
-- Who holds a task in model_batch_task_runtime.go: the queue or the worker, and the marks. Here the
-- functions of the handlers and of the recovery; in the child, those of the worker.
pub mod Rounds
use pinai.Base.{
  ℕ, zero, suc, ◌+◌, ◌≤◌, ◌<◌, ◌≡◌, ◌≢◌, refl, sym, ap, ◌∙◌, ◌⊎◌, inl, inr, Bool, true, false, ◌||◌,
  ◌&&◌, not, List, [], ◌∷◌, ◌++◌, Option, none, some, length, length-append, ltb, ◌==◌,
  if◌then◌else◌, arith, Bool-cases, Option-cases,
}
use pinai.Base.Text.{Text, nat_eq}
use pinai.Base.Assoc.{lookup}
use pinai.Task.{
  Task, TaskType, Status, Error, Result, ok, err, Db, contains, find_task, call, exists_platform,
  create_task, get_task, mark_task_running, finish_task, list_unfinished, mark_running,
  recover_failed,
}
use pinai.Task.Runtime.{
  Service, Summary, summary_of, cache_summary, ensure_initialized, without, remove_queued_mark,
  enqueue_task_in_memory, recover_from, recover_listed, recover_tasks, recovered_summary,
}
use pinai.Task.Submit.{
  Accepted, queue_created, accepted, create_and_queue, on_platform, submit, read_task,
  get_model_batch_task,
}
use pinai.Task.Worker.{Run, BatchTaskResult, begin_task, after_get, after_mark, end_task}

abbrev pub is_current : ℕ → Option Task → Bool
is_current id none = false
is_current id (some t) = t.id == id

-- No id stands twice.
abbrev pub HasNoRepeat : List ℕ → Type 0
HasNoRepeat [] = Unit
HasNoRepeat (id ∷ ids) = (contains id ids ≡ false) × HasNoRepeat ids

pub record IsOwned (s : Service) : Type 0 where
  pub within : length s.queue ≤ s.queue_size
  pub once : HasNoRepeat s.queue
  pub apart : (id : ℕ) → is_current id s.current ≡ true → contains id s.queue ≡ false
  pub marks : (id : ℕ) → contains id s.enqueued ≡ (contains id s.queue || is_current id s.current)

pub contains-append :
    (id j : ℕ) (ids : List ℕ) → contains id (ids ++ j ∷ []) ≡ (contains id ids || (id == j))
contains-append id j [] = ground arith
contains-append id j (i ∷ ids) = ground (arith, contains-append id j ids)

pub contains-without :
    (id j : ℕ) (ids : List ℕ) → contains id (without j ids) ≡ (contains id ids && not (id == j))
unfolding without
contains-without id j [] = refl
contains-without id j (i ∷ ids) = ground (arith, contains-without id j ids)

HasNoRepeat-append :
    (id : ℕ) (ids : List ℕ)
    → HasNoRepeat ids
    → contains id ids ≡ false
    → HasNoRepeat (ids ++ id ∷ [])
HasNoRepeat-append id [] h k = (refl, tt)
HasNoRepeat-append id (i ∷ ids) (n, h) k =
    (ground (arith, contains-append i id ids), HasNoRepeat-append id ids h (ground arith))

pub enqueue-IsOwned : (id : ℕ) (s : Service) → IsOwned s → IsOwned (enqueue_task_in_memory id s).1
unfolding enqueue_task_in_memory
enqueue-IsOwned id s h = elim (Bool-cases (contains id s.enqueued)) [
  | inl marked ↦ rw marked h
  | inr fresh ↦ elim (Bool-cases (ltb (length s.queue) s.queue_size)) [
    | inl room ↦
        rw (fresh, room)
          (record {
            within = ground (arith, h.within, length-append s.queue (id ∷ []));
            once = HasNoRepeat-append id s.queue h.once (ground (arith, h.marks id));
            apart = λ j c. ground (arith, h.apart j, h.marks id, contains-append j id s.queue);
            marks = λ j. ground (arith, h.marks j, contains-append j id s.queue);
          })
    | inr full ↦
        rw (fresh, full)
          (record {
            within = h.within;
            once = h.once;
            apart = h.apart;
            marks = λ j. ground (arith, h.marks j, h.marks id, contains-without j id s.enqueued);
          })
  ]
]

-- The database and the cache have no part in it, and a queue without a size gets one.
IsOwned-frame :
    (s : Service) (db : Db) (m : Summary)
    → IsOwned s
    → IsOwned (cache_summary m (record s { db = db }))
IsOwned-frame s db m h = record {
  within = h.within;
  once = h.once;
  apart = h.apart;
  marks = h.marks;
}

pub IsOwned-db : (s : Service) (db : Db) → IsOwned s → IsOwned (record s { db = db })
IsOwned-db s db h = record { within = h.within; once = h.once; apart = h.apart; marks = h.marks }

pub ensure_initialized-IsOwned : (s : Service) → IsOwned s → IsOwned (ensure_initialized s)
ensure_initialized-IsOwned s h = record {
  within = ground (arith, h.within);
  once = h.once;
  apart = h.apart;
  marks = h.marks;
}

accepted-IsOwned :
    (t : Task) (p : Result (Unit {0}) × Service) → IsOwned p.1 → IsOwned (accepted t p).1
accepted-IsOwned t (ok u, s) h = h
accepted-IsOwned t (err e, s) h = h

queue_created-IsOwned : (r : Result Task) (s : Service) → IsOwned s → IsOwned (queue_created r s).1
unfolding queue_created
queue_created-IsOwned (err e) s h = h
queue_created-IsOwned (ok t) s h = accepted-IsOwned t _ (
    enqueue-IsOwned t.id _
      (IsOwned-frame (ensure_initialized s) s.db (summary_of t) (ensure_initialized-IsOwned s h)))

on_platform-IsOwned :
    (r : Result Bool) (task_type : TaskType) (platform_id : ℕ) (payload : Text) (s : Service)
    → IsOwned s
    → IsOwned (on_platform r task_type platform_id payload s).1
unfolding on_platform create_and_queue
on_platform-IsOwned (err e) task_type platform_id payload s h = h
on_platform-IsOwned (ok false) task_type platform_id payload s h = h
on_platform-IsOwned (ok true) task_type platform_id payload s h =
    queue_created-IsOwned _ _ (IsOwned-db s _ h)

pub submit-IsOwned :
    (task_type : TaskType) (platform_id : ℕ) (payload : Text) (s : Service)
    → IsOwned s
    → IsOwned (submit task_type platform_id payload s).1
unfolding submit
submit-IsOwned task_type platform_id payload s h =
    on_platform-IsOwned _ task_type platform_id payload _ (IsOwned-db s _ h)

read_task-IsOwned : (r : Result Task) (s : Service) → IsOwned s → IsOwned (read_task r s).1
read_task-IsOwned (err e) s h = h
read_task-IsOwned (ok t) s h = IsOwned-frame s s.db (summary_of t) h

pub get_model_batch_task-IsOwned :
    (id : ℕ) (s : Service) → IsOwned s → IsOwned (get_model_batch_task id s).1
unfolding get_model_batch_task
get_model_batch_task-IsOwned id s h = elim (Option-cases (lookup id s.cache)) [
  | inl missing ↦
      rw (missing, get_model_batch_task)
        (read_task-IsOwned (get_task id s.db).0 _ (IsOwned-db s (get_task id s.db).1 h))
  | inr (m, found) ↦ rw (found, get_model_batch_task) h
]

recover_from-IsOwned : (ts : List Task) (s : Service) → IsOwned s → IsOwned (recover_from ts s).1
unfolding recover_from
recover_from-IsOwned [] s h = h
recover_from-IsOwned (t ∷ ts) s h =
    go (enqueue_task_in_memory t.id (cache_summary (recovered_summary t) s))
      (enqueue-IsOwned t.id _ (IsOwned-frame s s.db (recovered_summary t) h))
      (recover_from-IsOwned ts)
  where
    go :
        (p : Result (Unit {0}) × Service)
        → IsOwned p.1
        → ((s' : Service) → IsOwned s' → IsOwned (recover_from ts s').1)
        → IsOwned (
            let (r, s') = p in
            let rest = recover_from ts s' in
            (elim r as (λ _. Result (Unit {0}) × Service) [
              | ok u ↦ rest
              | err e ↦ (err (recover_failed e), s')
            ]).1)
    go (ok u, s') k ih = ih s' k
    go (err e, s') k ih = k

recover_listed-IsOwned :
    (r : Result (List Task)) (s : Service) → IsOwned s → IsOwned (recover_listed r s).1
recover_listed-IsOwned (ok ts) s h = recover_from-IsOwned ts s h
recover_listed-IsOwned (err e) s h = h

pub recover_tasks-IsOwned : (s : Service) → IsOwned s → IsOwned (recover_tasks s).1
unfolding recover_tasks
recover_tasks-IsOwned s h =
    recover_listed-IsOwned (list_unfinished s.db).0 _ (IsOwned-db s (list_unfinished s.db).1 h)
