-- ===== src/Task/Finality.antt =====
-- A finished task in the table of model_batch_task_repository.go, under its calls for other tasks.
pub mod Steps
pub mod Rounds
use pinai.Base.{
  ℕ, zero, suc, ◌+◌, ◌≤◌, ◌<◌, ◌≡◌, inl, inr, refl, sym, ap, ◌∙◌, Bool, true, false, ◌||◌, ◌&&◌,
  not, List, [], ◌∷◌, ◌++◌, Option, none, some, length, ltb, ◌==◌, if◌then◌else◌, arith, Bool-cases,
  Option-cases,
}
use pinai.Base.Text.{Text, nat_eq}
use pinai.Base.Assoc.{lookup}
use pinai.Task.{
  platform_query_failed, task_query_failed, list_failed, create_failed, mark_failed, finish_failed,
  next_fault, later_faults, Task, TaskType, Status, Error, Result, ok, err, Db, call, contains,
  find_task, change_task, unfinished, is_unfinished, exists_platform, create_task, get_task,
  mark_task_running, finish_task, list_unfinished, mark_running, mark_finished, succeeded, failed,
  recover_failed, update_row, found_task,
}
use pinai.Task.Runtime.{
  Service, Summary, summary_of, cache_summary, ensure_initialized, without, remove_queued_mark,
  enqueue_task_in_memory, recover_from, recover_listed, recover_tasks, recovered_summary,
}
use pinai.Task.Submit.{
  Accepted, new_task, accepted, queue_created, create_and_queue, on_platform, submit, read_task,
  get_model_batch_task,
}
use pinai.Task.Worker.{
  Run, BatchTaskResult, finished, stopped, begin_task, after_get, after_mark, end_task,
  finished_task, finish_row,
}
use pinai.Task.Ownership.{is_current}
use pinai.Task.Ownership.Rounds.{Op, submits, reads, recovers, begins, ends, step, run}
use pinai.Task.Lifecycle.{other_rows, changed_row}
use pinai.Task.Recovery.{ids_of}

-- The rows of a table in which `t` is finished, and no row of its id is not.
pub record IsFinal (t : Task) (db : Db) : Type 0 where
  pub row : find_task t.id db.rows ≡ some t
  pub old : t.id < db.next_id
  pub closed : contains t.id (ids_of (unfinished db.rows)) ≡ false

-- The calls of the database.
find_task-append :
    (id : ℕ) (ts us : List Task) (t : Task)
    → find_task id ts ≡ some t
    → find_task id (ts ++ us) ≡ some t
unfolding find_task
find_task-append id [] us t e = cc
find_task-append id (u ∷ ts) us t e = ground (arith, find_task-append id ts us t)

closed-append :
    (id : ℕ) (ts : List Task) (u : Task)
    → contains id (ids_of (unfinished ts)) ≡ false
    → (u.id == id) ≡ false
    → contains id (ids_of (unfinished (ts ++ u ∷ []))) ≡ false
unfolding unfinished ids_of
closed-append id [] u h ne = ground (arith, h, ne)
closed-append id (t ∷ ts) u h ne = ground (arith, h, ne, closed-append id ts u)

closed-change_task :
    (id j : ℕ) (f : Task → Task) (ts : List Task)
    → ((u : Task) → (f u).id ≡ u.id)
    → (j == id) ≡ false
    → contains j (ids_of (unfinished ts)) ≡ false
    → contains j (ids_of (unfinished (change_task id f ts))) ≡ false
unfolding unfinished ids_of change_task
closed-change_task id j f [] keeps ne h = refl
closed-change_task id j f (t ∷ ts) keeps ne h =
    ground (arith, h, ne, keeps t, closed-change_task id j f ts keeps ne)

-- A call that is refused keeps what a served one keeps.
call-kept :
    {A : Type 0} (P : Db → Type 0) (e : Error) (served : Db → Result A × Db) (db : Db)
    → ((faults : List Bool) → P (record db { faults = faults }))
    → ((faults : List Bool) → P (served (record db { faults = faults })).1)
    → P (call e served db).1
call-kept P e served db refused kept = elim (Bool-cases (next_fault db.faults)) [
  | inl fault ↦ rw fault (refused (later_faults db.faults))
  | inr fine ↦ rw fine (kept (later_faults db.faults))
]

IsFinal-faults :
    (t : Task) (db : Db) (faults : List Bool)
    → IsFinal t db
    → IsFinal t (record db { faults = faults })
IsFinal-faults t db faults h = record { row = h.row; old = h.old; closed = h.closed }

pub exists_platform-IsFinal :
    (t : Task) (id : ℕ) (db : Db) → IsFinal t db → IsFinal t (exists_platform id db).1
unfolding exists_platform
exists_platform-IsFinal t id db h =
    call-kept (IsFinal t) platform_query_failed (λ d. (ok (contains id d.platforms), d)) db
      (λ fs. IsFinal-faults t db fs h) (λ fs. IsFinal-faults t db fs h)

pub get_task-IsFinal : (t : Task) (id : ℕ) (db : Db) → IsFinal t db → IsFinal t (get_task id db).1
unfolding get_task
get_task-IsFinal t id db h =
    call-kept (IsFinal t) task_query_failed (λ d. (found_task (find_task id d.rows), d)) db
      (λ fs. IsFinal-faults t db fs h) (λ fs. IsFinal-faults t db fs h)

pub list_unfinished-IsFinal : (t : Task) (db : Db) → IsFinal t db → IsFinal t (list_unfinished db).1
unfolding list_unfinished
list_unfinished-IsFinal t db h =
    call-kept (IsFinal t) list_failed (λ d. (ok (unfinished d.rows), d)) db
      (λ fs. IsFinal-faults t db fs h) (λ fs. IsFinal-faults t db fs h)

pub create_task-IsFinal : (t u : Task) (db : Db) → IsFinal t db → IsFinal t (create_task u db).1
unfolding create_task
create_task-IsFinal t u db h =
    call-kept (IsFinal t) create_failed
      (λ d.
        let row : Task = record u { id = d.next_id } in
        (ok row, record d { rows = d.rows ++ row ∷ []; next_id = d.next_id + 1 }))
      db (λ fs. IsFinal-faults t db fs h)
      (λ fs. record {
        row = find_task-append t.id db.rows _ t h.row;
        old = omega (arith, h.old);
        closed =
            closed-append t.id db.rows (record u { id = db.next_id }) h.closed
              (ground (arith, h.old));
      })

update_row-IsFinal :
    (t : Task) (id : ℕ) (f : Task → Task) (db : Db)
    → ((u : Task) → (f u).id ≡ u.id)
    → (t.id == id) ≡ false
    → IsFinal t db
    → IsFinal t (update_row id f db).1
update_row-IsFinal t id f db keeps ne h = elim (Option-cases (find_task id db.rows)) [
  | inl missing ↦ rw (missing, update_row) h
  | inr (u, found) ↦
      rw (found, update_row)
        (record {
          row = other_rows id t.id f db.rows keeps ne ∙ h.row;
          old = h.old;
          closed = closed-change_task id t.id f db.rows keeps ne h.closed;
        })
]

pub mark_task_running-IsFinal :
    (t : Task) (id now : ℕ) (db : Db)
    → (t.id == id) ≡ false
    → IsFinal t db
    → IsFinal t (mark_task_running id now db).1
unfolding mark_task_running
mark_task_running-IsFinal t id now db ne h =
    call-kept (IsFinal t) mark_failed (update_row id (mark_running now)) db
      (λ fs. IsFinal-faults t db fs h)
      (λ fs. update_row-IsFinal t id (mark_running now) _ (λ u. refl) ne (IsFinal-faults t db fs h))

pub finish_row-IsFinal :
    (t : Task) (encode : BatchTaskResult → Text) (now : ℕ) (u : Task) (r : Run) (db : Db)
    → (t.id == u.id) ≡ false
    → IsFinal t db
    → IsFinal t (finish_row encode now u r db).1
unfolding finish_task
finish_row-IsFinal t encode now u (finished r) db ne h =
    call-kept (IsFinal t) finish_failed
      (update_row u.id (mark_finished succeeded (encode r) [] now)) db
      (λ fs. IsFinal-faults t db fs h)
      (λ fs.
        update_row-IsFinal t u.id (mark_finished succeeded (encode r) [] now) _ (λ v. refl) ne
          (IsFinal-faults t db fs h))
finish_row-IsFinal t encode now u (stopped e) db ne h =
    call-kept (IsFinal t) finish_failed (update_row u.id (mark_finished failed [] e now)) db
      (λ fs. IsFinal-faults t db fs h)
      (λ fs.
        update_row-IsFinal t u.id (mark_finished failed [] e now) _ (λ v. refl) ne
          (IsFinal-faults t db fs h))
