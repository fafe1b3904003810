-- ===== src/Task/Lifecycle.antt =====
-- A round of the worker of model_batch_task_service.go that the database serves: the row, the cached
-- summary, the mark and the other rows after it.
use pinai.Base.{ℕ, ◌≡◌, refl, ap, ◌∙◌, false, List, [], ◌∷◌, none, some, ◌==◌, arith}
use pinai.Base.Text.{Text, nat_eq}
use pinai.Base.Assoc.{lookup, insert, lookup-insert_self}
use pinai.Task.{
  found_task, update_row, Task, ok, Db, contains, find_task, change_task, get_task,
  mark_task_running, finish_task, mark_running, mark_finished, succeeded, failed,
}
use pinai.Task.Runtime.{Service, Summary, summary_of, cache_summary, without, remove_queued_mark}
use pinai.Task.Submit.{get_model_batch_task}
use pinai.Task.Worker.{
  Run, BatchTaskResult, finished, stopped, begin_task, after_get, after_mark, end_task,
  finished_task,
}

-- The task as the round ends it, finished at the given time.
abbrev pub final_task : (BatchTaskResult → Text) → ℕ → ℕ → Run → Task → Task
final_task encode now later r t = finished_task encode later (mark_running now t) r

-- The row that is changed, by a change that keeps its id, and the other rows.
pub changed_row :
    (id : ℕ) (f : Task → Task) (ts : List Task) (t : Task)
    → ((u : Task) → (f u).id ≡ u.id)
    → find_task id ts ≡ some t
    → find_task id (change_task id f ts) ≡ some (f t)
unfolding find_task change_task
changed_row id f [] t keeps e = cc
changed_row id f (u ∷ ts) t keeps e = ground (arith, keeps u, changed_row id f ts t keeps)

pub other_rows :
    (id j : ℕ) (f : Task → Task) (ts : List Task)
    → ((u : Task) → (f u).id ≡ u.id)
    → (j == id) ≡ false
    → find_task j (change_task id f ts) ≡ find_task j ts
unfolding find_task change_task
other_rows id j f [] keeps e = refl
other_rows id j f (u ∷ ts) keeps e = ground (arith, keeps u, other_rows id j f ts keeps)

-- A database that serves every call.
abbrev pub serving : Db → Db
serving db = record db { faults = [] }

get_served :
    (id : ℕ) (t : Task) (db : Db)
    → db.faults ≡ []
    → find_task id db.rows ≡ some t
    → get_task id db ≡ (ok t, serving db)
unfolding get_task
get_served id t db served found = rw (served, found_task, found) refl

mark_served :
    (id now : ℕ) (t : Task) (db : Db)
    → db.faults ≡ []
    → find_task id db.rows ≡ some t
    → mark_task_running id now db
      ≡ (ok tt, record (serving db) { rows = change_task id (mark_running now) db.rows })
unfolding mark_task_running
mark_served id now t db served found = rw (served, update_row, found) (rw served refl)

begin_served :
    (now id : ℕ) (ids : List ℕ) (t : Task) (s : Service)
    → s.current ≡ none
    → s.queue ≡ id ∷ ids
    → s.db.faults ≡ []
    → find_task id s.db.rows ≡ some t
    → t.id ≡ id
    → begin_task now s ≡ record (cache_summary (summary_of (mark_running now t)) s) {
      db = record (serving s.db) { rows = change_task t.id (mark_running now) s.db.rows };
      queue = ids;
      current = some (mark_running now t);
    }
unfolding begin_task after_get after_mark
begin_served now id ids t s idle q served found same =
    rw
      (
        begin_task,
        idle,
        q,
        get_served id t s.db served found,
        mark_served t.id now t (serving s.db) refl (ap (λ j. find_task j s.db.rows) same ∙ found),
      )
      refl

-- What the end of the round does to the row.
abbrev pub finish_change : (BatchTaskResult → Text) → ℕ → Run → Task → Task
finish_change encode later (finished r) t = mark_finished succeeded (encode r) [] later t
finish_change encode later (stopped e) t = mark_finished failed [] e later t

end_served :
    (encode : BatchTaskResult → Text) (later written : ℕ) (r : Run) (t u : Task) (s : Service)
    → s.current ≡ some t
    → s.db.faults ≡ []
    → find_task t.id s.db.rows ≡ some u
    → end_task encode later written r s
      ≡ remove_queued_mark t.id
          (record (cache_summary (summary_of (finished_task encode later t r)) s) {
            db = record s.db {
              rows = change_task t.id (finish_change encode written r) s.db.rows;
              faults = [];
            };
            current = none;
          })
unfolding end_task finish_task
end_served encode later written (finished r) t u s held served found =
    rw (end_task, held, served, update_row, found) (rw served refl)
end_served encode later written (stopped r) t u s held served found =
    rw (end_task, held, served, update_row, found) (rw served refl)

-- A service that holds `t` at the head of its queue, idle, with a database that serves.
pub record IsReady (t : Task) (ids : List ℕ) (s : Service) : Type 0 where
  pub idle : s.current ≡ none
  pub queued : s.queue ≡ t.id ∷ ids
  pub served : s.db.faults ≡ []
  pub found : find_task t.id s.db.rows ≡ some t

-- One whole round.
abbrev pub round : (BatchTaskResult → Text) → ℕ → ℕ → ℕ → Run → Service → Service
round encode now later written r s = end_task encode later written r (begin_task now s)

pub round_served :
    (encode : BatchTaskResult → Text) (now later written : ℕ) (r : Run) (t : Task) (ids : List ℕ)
    (s : Service)
    → IsReady t ids s
    → round encode now later written r s
      ≡ remove_queued_mark t.id
          (record (cache_summary
            (summary_of (final_task encode now later r t))
            (cache_summary (summary_of (mark_running now t)) s)) {
              db = record (serving s.db) {
                rows =
                    change_task t.id
                      (finish_change encode written r)
                      (change_task t.id (mark_running now) s.db.rows);
              };
              queue = ids;
              current = none;
            })
round_served encode now later written r t ids s h =
    rw (begin_served now t.id ids t s h.idle h.queued h.served h.found refl) (
      end_served encode later written r (mark_running now t) (mark_running now t) _ refl refl
        (changed_row t.id (mark_running now) s.db.rows t (λ u. refl) h.found))

-- What a round leaves: the row of the finished task, with the time of its writing, the summary that
-- readers are answered, with the time at which the worker had the result, no mark of the task, and
-- every other row as it was.
pub record IsRound (encode : BatchTaskResult → Text) (now later written : ℕ) (r : Run) (t : Task)
    (s s' : Service) : Type 0 where
  pub row : find_task t.id s'.db.rows ≡ some (final_task encode now written r t)
  pub answer :
      get_model_batch_task t.id s' ≡ (ok (summary_of (final_task encode now later r t)), s')
  pub unmarked : contains t.id s'.enqueued ≡ false
  pub others : (j : ℕ) → (j == t.id) ≡ false → find_task j s'.db.rows ≡ find_task j s.db.rows
  pub idle : s'.current ≡ none

final_change :
    (encode : BatchTaskResult → Text) (now later : ℕ) (r : Run) (t : Task)
    → finish_change encode later r (mark_running now t) ≡ final_task encode now later r t
final_change encode now later (finished r) t = refl
final_change encode now later (stopped e) t = refl

pub finish_change-id :
    (encode : BatchTaskResult → Text) (later : ℕ) (r : Run) (t : Task)
    → (finish_change encode later r t).id ≡ t.id
finish_change-id encode later (finished r) t = refl
finish_change-id encode later (stopped e) t = refl

contains-without_same : (id : ℕ) (ids : List ℕ) → contains id (without id ids) ≡ false
unfolding without
contains-without_same id [] = refl
contains-without_same id (i ∷ ids) = ground (arith, contains-without_same id ids)

answer_cached :
    (id : ℕ) (m : Summary) (s : Service)
    → lookup id s.cache ≡ some m
    → get_model_batch_task id s ≡ (ok m, s)
unfolding get_model_batch_task
answer_cached id m s e = rw (get_model_batch_task, e) refl

pub final_id :
    (encode : BatchTaskResult → Text) (now later : ℕ) (r : Run) (t : Task)
    → (final_task encode now later r t).id ≡ t.id
final_id encode now later (finished r) t = refl
final_id encode now later (stopped e) t = refl

pub round-IsRound :
    (encode : BatchTaskResult → Text) (now later written : ℕ) (r : Run) (t : Task) (ids : List ℕ)
    (s : Service)
    → IsReady t ids s
    → IsRound encode now later written r t s (round encode now later written r s)
round-IsRound encode now later written r t ids s h =
    rw (round_served encode now later written r t ids s h) (record {
      row =
          changed_row t.id (finish_change encode written r)
            (change_task t.id (mark_running now) s.db.rows) (mark_running now t)
            (finish_change-id encode written r)
            (changed_row t.id (mark_running now) s.db.rows t (λ u. refl) h.found)
          ∙ ap some (final_change encode now written r t);
      answer = answer_cached t.id _ _ (
          let m = summary_of (final_task encode now later r t) in
          let c = insert t.id (summary_of (mark_running now t)) s.cache in
          ap (λ k. lookup t.id (insert k m c)) (final_id encode now later r t)
          ∙ lookup-insert_self t.id m c);
      unmarked = contains-without_same t.id s.enqueued;
      others = λ j ne.
          other_rows t.id j (finish_change encode written r)
            (change_task t.id (mark_running now) s.db.rows) (finish_change-id encode written r) ne
          ∙ other_rows t.id j (mark_running now) s.db.rows (λ u. refl) ne;
      idle = refl;
    })
