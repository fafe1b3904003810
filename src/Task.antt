-- ===== src/Task.antt =====
-- The asynchronous batch tasks of internal/app/provider: the table of tasks
-- (model_batch_task_repository.go) and, in the children, the queue in memory
-- (model_batch_task_runtime.go), the submission and the worker (model_batch_task_service.go).
pub mod Runtime
pub mod Submit
pub mod Worker
pub mod Ownership
pub mod Lifecycle
pub mod Recovery
pub mod Finality
pub mod Submission
mod Tests
use pinai.Base.{
  ℕ, suc, ◌+◌, Bool, true, false, List, [], ◌∷◌, ◌++◌, Option, none, some, ◌==◌, if◌then◌else◌,
}
use pinai.Base.Text.{Text}

-- The strings of `Type`; `other` is any other string.
pub data TaskType : Type 0 where
  add update delete : TaskType
  other : Text → TaskType

-- The strings of `Status`.
pub data Status : Type 0 where
  pending running succeeded failed : Status

-- `CreatedAt` and `UpdatedAt` are left out.
pub record Task : Type 0 where
  pub id : ℕ
  pub task_type : TaskType
  pub status : Status
  pub platform_id : ℕ
  pub payload : Text
  pub result : Text
  pub error_message : Text
  pub started_at : Option ℕ
  pub finished_at : Option ℕ

pub data Error : Type 0 where
  no_items missing_id platform_query_failed platform_not_found create_failed task_not_found : Error
  task_query_failed list_failed mark_failed finish_failed unsupported_status queue_full : Error
  canceled : Error
  recover_failed : Error → Error

pub data Result {ℓ} (A : Type ℓ) : Type ℓ where
  ok : A → Result A
  err : Error → Result A

-- The tables as gorm serves them. `faults` says of each coming call whether the database refuses
-- it; a call that is refused changes nothing. Where the list ends, calls are served.
pub record Db : Type 0 where
  pub rows : List Task
  pub next_id : ℕ
  pub platforms : List ℕ
  pub faults : List Bool

abbrev pub next_fault : List Bool → Bool
next_fault [] = false
next_fault (b ∷ bs) = b

abbrev pub later_faults : List Bool → List Bool
later_faults [] = []
later_faults (b ∷ bs) = bs

-- One call of the database: what it does when it is served, and the error when it is refused.
abbrev pub call {ℓ} : {A : Type ℓ} → Error → (Db → Result A × Db) → Db → Result A × Db
call e served db =
    let db' : Db = record db { faults = later_faults db.faults } in
    if next_fault db.faults then (err e, db') else served db'

abbrev pub contains : ℕ → List ℕ → Bool
contains id [] = false
contains id (j ∷ js) = if id == j then true else contains id js

unfoldable pub find_task : ℕ → List Task → Option Task
find_task id [] = none
find_task id (t ∷ ts) = if t.id == id then some t else find_task id ts

unfoldable pub change_task : ℕ → (Task → Task) → List Task → List Task
change_task id f [] = []
change_task id f (t ∷ ts) = (if t.id == id then f t else t) ∷ change_task id f ts

abbrev pub is_unfinished : Status → Bool
is_unfinished pending = true
is_unfinished running = true
is_unfinished succeeded = false
is_unfinished failed = false

unfoldable pub unfinished : List Task → List Task
unfinished [] = []
unfinished (t ∷ ts) = let rest = unfinished ts in if is_unfinished t.status then t ∷ rest else rest

-- `ExistsPlatform` of the model repository.
unfoldable pub exists_platform : ℕ → Db → Result Bool × Db
exists_platform id = call platform_query_failed (λ db. (ok (contains id db.platforms), db))

-- `CreateModelBatchTask`: the table gives the new row its id, and gorm writes it into the task.
unfoldable pub create_task : Task → Db → Result Task × Db
create_task t = call create_failed (λ db.
    let row : Task = record t { id = db.next_id } in
    (ok row, record db { rows = db.rows ++ row ∷ []; next_id = db.next_id + 1 }))

abbrev pub found_task : Option Task → Result Task
found_task none = err task_not_found
found_task (some t) = ok t

unfoldable pub get_task : ℕ → Db → Result Task × Db
unfolding find_task
get_task id = call task_query_failed (λ db. (found_task (find_task id db.rows), db))

-- `ListUnfinishedModelBatchTasks`; the rows stand in the order of their ids.
unfoldable pub list_unfinished : Db → Result (List Task) × Db
unfolding unfinished
list_unfinished = call list_failed (λ db. (ok (unfinished db.rows), db))

abbrev pub mark_running : ℕ → Task → Task
mark_running now t = record t {
  status = running;
  started_at = some now;
  error_message = [];
  result = [];
}

-- An update, and the error when it touched no row.
abbrev pub update_row : ℕ → (Task → Task) → Db → Result (Unit {0}) × Db
update_row id f db = elim (find_task id db.rows) [
  | none ↦ (err task_not_found, db)
  | some t ↦ (ok tt, record db { rows = change_task id f db.rows })
]

unfoldable pub mark_task_running : ℕ → ℕ → Db → Result (Unit {0}) × Db
unfolding find_task change_task
mark_task_running id now = call mark_failed (update_row id (mark_running now))

abbrev pub mark_finished : Status → Text → Text → ℕ → Task → Task
mark_finished status result error_message now t = record t {
  status = status;
  result = result;
  error_message = error_message;
  finished_at = some now;
}

unfoldable pub finish_task : ℕ → Status → Text → Text → ℕ → Db → Result (Unit {0}) × Db
unfolding find_task change_task
finish_task id status result error_message now db =
    let finished =
      call finish_failed (update_row id (mark_finished status result error_message now)) db in
    if is_unfinished status then (err unsupported_status, db) else finished
