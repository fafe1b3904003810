-- ===== src/Task/Worker.antt =====
-- The worker of model_batch_task_service.go. One round of `processOneModelBatchTask` has two parts,
-- between which the handlers may run: up to the cached summary of the running task, and from the
-- result of the batch operation on. The times that the clock gives are arguments: `now` of the first
-- part; `later` of the worker and `written` of `FinishModelBatchTask`, which reads the clock again.
use pinai.Base.{ℕ, List, [], ◌∷◌, Option, none, some, length}
use pinai.Base.Text.{Text, nat_eq, codes}
use pinai.Task.{
  Task, TaskType, add, update, delete, other, succeeded, failed, Result, ok, err, Db, get_task,
  mark_task_running, finish_task, mark_running,
}
use pinai.Task.Runtime.{Service, summary_of, cache_summary, remove_queued_mark}
use pinai.Task.Submit.{Apps, Outcome, done, refused}

pub data Counted : Type 0 where
  created updated deleted : ℕ → Counted

pub record BatchTaskResult : Type 0 where
  pub total_count : ℕ
  pub counted : Counted

pub data Run : Type 0 where
  finished : BatchTaskResult → Run
  stopped : Text → Run

abbrev counted_as : ℕ → (ℕ → Counted) → Outcome → Run
counted_as total kind (done n) = finished (record { total_count = total; counted = kind n })
counted_as total kind (refused e) = stopped e

module _ (apps : Apps) where
  open apps use {World, Model, Item}

  run_add : Option (ℕ × List Model) → World → Run × World
  run_add none w = (stopped (codes "解析批量新增任务载荷失败"), w)
  run_add (some (p, ms)) w =
      let (o, w') = apps.batch_add p ms w in (counted_as (length ms) created o, w')

  run_update : Option (ℕ × List Item) → World → Run × World
  run_update none w = (stopped (codes "解析批量更新任务载荷失败"), w)
  run_update (some (p, is)) w =
      let (o, w') = apps.batch_update p is w in (counted_as (length is) updated o, w')

  run_delete : Option (ℕ × List ℕ) → World → Run × World
  run_delete none w = (stopped (codes "解析批量删除任务载荷失败"), w)
  run_delete (some (p, ids)) w =
      let (o, w') = apps.batch_delete p ids w in (counted_as (length ids) deleted o, w')

  run_type : TaskType → Text → World → Run × World
  unfolding run_add run_update run_delete
  run_type add payload w = run_add (apps.decode_add payload) w
  run_type update payload w = run_update (apps.decode_update payload) w
  run_type delete payload w = run_delete (apps.decode_delete payload) w
  run_type (other t) payload w = (stopped (codes "不支持的模型批量任务类型"), w)

  -- `executeModelBatchTask`. The text of an error leaves out what `%w` and `%s` append.
  unfoldable pub execute_task : Task → World → Run × World
  unfolding run_type
  execute_task t w = run_type t.task_type t.payload w

-- The first part: an error that the worker logs, or the task that it goes on with. The mark of a
-- task that it does not go on with is removed.
unfoldable pub after_mark : ℕ → Task → Result (Unit {0}) → Service → Service
after_mark now t (err e) s = remove_queued_mark t.id s
after_mark now t (ok u) s =
    let running_task = mark_running now t in
    record (cache_summary (summary_of running_task) s) { current = some running_task }

unfoldable pub after_get : ℕ → ℕ → Result Task → Service → Service
after_get now id (err e) s = remove_queued_mark id s
after_get now id (ok t) s =
    let (r, db) = mark_task_running t.id now s.db in after_mark now t r (record s { db = db })

-- One task is taken from the channel at a time; the worker waits while the channel is empty.
unfoldable pub begin_task : ℕ → Service → Service
begin_task now s = elim s.current [
  | some t ↦ s
  | none ↦ elim s.queue [
    | [] ↦ s
    | id ∷ ids ↦
        let (r, db) = get_task id s.db in after_get now id r (record s { db = db; queue = ids })
  ]
]

abbrev pub finished_task : (BatchTaskResult → Text) → ℕ → Task → Run → Task
finished_task encode later t (finished r) = record t {
  status = succeeded;
  finished_at = some later;
  error_message = [];
  result = encode r;
}
finished_task encode later t (stopped e) = record t {
  status = failed;
  finished_at = some later;
  error_message = e;
}

abbrev pub finish_row : (BatchTaskResult → Text) → ℕ → Task → Run → Db → Result (Unit {0}) × Db
finish_row encode written t (finished r) db = finish_task t.id succeeded (encode r) [] written db
finish_row encode written t (stopped e) db = finish_task t.id failed [] e written db

-- The second part: the summary, with the worker's time, the row, with the repository's, which may
-- not be taken, and the mark. The encoding of the
-- result does not fail.
unfoldable pub end_task : (BatchTaskResult → Text) → ℕ → ℕ → Run → Service → Service
end_task encode later written r s = elim s.current [
  | none ↦ s
  | some t ↦
      let cached = cache_summary (summary_of (finished_task encode later t r)) s in
      let (taken, db) = finish_row encode written t r cached.db in
      remove_queued_mark t.id (record cached { db = db; current = none })
]
