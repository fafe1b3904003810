-- ===== src/Task/Finality/Steps.antt =====
-- A finished task under the submissions, the reading and the recovery of
-- model_batch_task_service.go and model_batch_task_runtime.go.
use pinai.Base.{
  ℕ, ◌≡◌, inl, inr, refl, Bool, true, false, List, [], ◌∷◌, length, ltb, ◌==◌, arith, Bool-cases,
  Option-cases,
}
use pinai.Base.Text.{Text, nat_eq}
use pinai.Base.Assoc.{lookup}
use pinai.Task.{
  Task, TaskType, Result, ok, err, Db, contains, create_task, get_task, list_unfinished,
  recover_failed,
}
use pinai.Task.Runtime.{
  Service, Summary, summary_of, cache_summary, ensure_initialized, enqueue_task_in_memory,
  recover_from, recover_listed, recover_tasks, recovered_summary,
}
use pinai.Task.Submit.{
  new_task, accepted, queue_created, create_and_queue, on_platform, submit, read_task,
  get_model_batch_task,
}
use pinai.Task.Ownership.{is_current}
use pinai.Task.Recovery.{ids_of}
use pinai.Task.Finality.{
  IsFinal, exists_platform-IsFinal, get_task-IsFinal, list_unfinished-IsFinal, create_task-IsFinal,
}
use pinai.Task.Ownership.{contains-append}

pub record IsSettled (t : Task) (s : Service) : Type 0 where
  pub table : IsFinal t s.db
  pub apart : contains t.id s.queue ≡ false
  pub unheld : is_current t.id s.current ≡ false

pub IsSettled-db :
    (t : Task) (s : Service) (db : Db)
    → IsFinal t db
    → IsSettled t s
    → IsSettled t (record s { db = db })
IsSettled-db t s db f h = record { table = f; apart = h.apart; unheld = h.unheld }

pub IsSettled-cache :
    (t : Task) (m : Summary) (s : Service) → IsSettled t s → IsSettled t (cache_summary m s)
IsSettled-cache t m s h = record { table = h.table; apart = h.apart; unheld = h.unheld }

enqueue-IsSettled :
    (t : Task) (id : ℕ) (s : Service)
    → (id == t.id) ≡ false
    → IsSettled t s
    → IsSettled t (enqueue_task_in_memory id s).1
unfolding enqueue_task_in_memory
enqueue-IsSettled t id s ne h = elim (Bool-cases (contains id s.enqueued)) [
  | inl marked ↦ rw marked h
  | inr fresh ↦ elim (Bool-cases (ltb (length s.queue) s.queue_size)) [
    | inl room ↦
        rw (fresh, room)
          (record {
            table = h.table;
            apart = ground (arith, h.apart, ne, contains-append t.id id s.queue);
            unheld = h.unheld;
          })
    | inr full ↦ rw (fresh, full) (record { table = h.table; apart = h.apart; unheld = h.unheld })
  ]
]

accepted-IsSettled :
    (t u : Task) (p : Result (Unit {0}) × Service) → IsSettled t p.1 → IsSettled t (accepted u p).1
accepted-IsSettled t u (ok x, s) h = h
accepted-IsSettled t u (err e, s) h = h

create_task-id :
    (t u v : Task) (db : Db) → IsFinal t db → (create_task u db).0 ≡ ok v → (v.id == t.id) ≡ false
unfolding create_task
create_task-id t u v db h e = ground (arith, h.old, e)

queue_created-IsSettled :
    (t : Task) (r : Result Task) (s : Service)
    → ((u : Task) → r ≡ ok u → (u.id == t.id) ≡ false)
    → IsSettled t s
    → IsSettled t (queue_created r s).1
unfolding queue_created
queue_created-IsSettled t (err e) s ne h = h
queue_created-IsSettled t (ok u) s ne h = accepted-IsSettled t u _ (
    enqueue-IsSettled t u.id _ (ne u refl)
      (record { table = h.table; apart = h.apart; unheld = h.unheld }))

on_platform-IsSettled :
    (t : Task) (r : Result Bool) (task_type : TaskType) (platform_id : ℕ) (payload : Text)
    (s : Service)
    → IsSettled t s
    → IsSettled t (on_platform r task_type platform_id payload s).1
unfolding on_platform create_and_queue
on_platform-IsSettled t (err e) task_type platform_id payload s h = h
on_platform-IsSettled t (ok false) task_type platform_id payload s h = h
on_platform-IsSettled t (ok true) task_type platform_id payload s h =
    let row : Task = new_task task_type platform_id payload in
    queue_created-IsSettled t (create_task row s.db).0 _
      (λ u e. create_task-id t row u s.db h.table e)
      (IsSettled-db t s (create_task row s.db).1 (create_task-IsFinal t row s.db h.table) h)

pub submit-IsSettled :
    (t : Task) (task_type : TaskType) (platform_id : ℕ) (payload : Text) (s : Service)
    → IsSettled t s
    → IsSettled t (submit task_type platform_id payload s).1
unfolding submit
submit-IsSettled t task_type platform_id payload s h =
    on_platform-IsSettled t _ task_type platform_id payload _
      (IsSettled-db t s _ (exists_platform-IsFinal t platform_id s.db h.table) h)

read_task-IsSettled :
    (t : Task) (r : Result Task) (s : Service) → IsSettled t s → IsSettled t (read_task r s).1
read_task-IsSettled t (err e) s h = h
read_task-IsSettled t (ok u) s h = IsSettled-cache t (summary_of u) s h

pub get_model_batch_task-IsSettled :
    (t : Task) (id : ℕ) (s : Service) → IsSettled t s → IsSettled t (get_model_batch_task id s).1
unfolding get_model_batch_task
get_model_batch_task-IsSettled t id s h = elim (Option-cases (lookup id s.cache)) [
  | inl missing ↦
      rw (missing, get_model_batch_task)
        (read_task-IsSettled t (get_task id s.db).0 _
          (IsSettled-db t s (get_task id s.db).1 (get_task-IsFinal t id s.db h.table) h))
  | inr (m, found) ↦ rw (found, get_model_batch_task) h
]

recover_from-IsSettled :
    (t : Task) (ts : List Task) (s : Service)
    → contains t.id (ids_of ts) ≡ false
    → IsSettled t s
    → IsSettled t (recover_from ts s).1
unfolding recover_from ids_of
recover_from-IsSettled t [] s ne h = h
recover_from-IsSettled t (u ∷ ts) s ne h =
    go (enqueue_task_in_memory u.id (cache_summary (recovered_summary u) s))
      (enqueue-IsSettled t u.id _ (ground (arith, ne))
        (IsSettled-cache t (recovered_summary u) s h))
      (λ s' k. recover_from-IsSettled t ts s' (ground (arith, ne)) k)
  where
    go :
        (p : Result (Unit {0}) × Service)
        → IsSettled t p.1
        → ((s' : Service) → IsSettled t s' → IsSettled t (recover_from ts s').1)
        → IsSettled t (
            let (r, s') = p in
            let rest = recover_from ts s' in
            (elim r as (λ _. Result (Unit {0}) × Service) [
              | ok u ↦ rest
              | err e ↦ (err (recover_failed e), s')
            ]).1)
    go (ok x, s') k ih = ih s' k
    go (err e, s') k ih = k

recover_listed-IsSettled :
    (t : Task) (r : Result (List Task)) (s : Service)
    → ((ts : List Task) → r ≡ ok ts → contains t.id (ids_of ts) ≡ false)
    → IsSettled t s
    → IsSettled t (recover_listed r s).1
recover_listed-IsSettled t (ok ts) s ne h = recover_from-IsSettled t ts s (ne ts refl) h
recover_listed-IsSettled t (err e) s ne h = h

listed-closed :
    (t : Task) (ts : List Task) (db : Db)
    → IsFinal t db
    → (list_unfinished db).0 ≡ ok ts
    → contains t.id (ids_of ts) ≡ false
unfolding list_unfinished
listed-closed t ts db h e = ground (arith, h.closed, e)

pub recover_tasks-IsSettled :
    (t : Task) (s : Service) → IsSettled t s → IsSettled t (recover_tasks (ensure_initialized s)).1
unfolding recover_tasks
recover_tasks-IsSettled t s h =
    recover_listed-IsSettled t (list_unfinished s.db).0 _
      (λ ts e. listed-closed t ts s.db h.table e)
      (record {
        table = list_unfinished-IsFinal t s.db h.table;
        apart = h.apart;
        unheld = h.unheld;
      })
