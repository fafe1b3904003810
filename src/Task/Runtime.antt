-- ===== src/Task/Runtime.antt =====
-- model_batch_task_runtime.go: the queue of task ids, the marks of the queued ones and the cached
-- summaries. Each function is one step; `enqueueTaskInMemory` gives its lock free between the mark
-- and the channel, and that interleaving is not modelled.
use pinai.Base.{
  ℕ, Bool, true, false, List, [], ◌∷◌, ◌++◌, Option, none, length, ltb, ◌==◌, if◌then◌else◌,
}
use pinai.Base.Text.{Text, nat_eq}
use pinai.Base.Assoc.{Assoc, insert}
use pinai.Task.{
  Task, TaskType, Status, pending, running, queue_full, recover_failed, Result, ok, err, Db,
  contains, list_unfinished,
}

-- Formatted times stand as the times.
pub record Summary : Type 0 where
  pub id : ℕ
  pub task_type : TaskType
  pub status : Status
  pub platform_id : ℕ
  pub result : Text
  pub error_message : Text
  pub started_at : Option ℕ
  pub finished_at : Option ℕ

-- The channel `taskQueue` has room for `queue_size` ids; `enqueued` is a set; `current` is the
-- task that the worker runs, between the two parts of `processOneModelBatchTask`.
pub record Service : Type 0 where
  pub db : Db
  pub queue : List ℕ
  pub queue_size : ℕ
  pub enqueued : List ℕ
  pub cache : Assoc ℕ Summary
  pub current : Option Task

-- `loadTaskSummaryFromEntity`.
abbrev pub summary_of : Task → Summary
summary_of t = record {
  id = t.id;
  task_type = t.task_type;
  status = t.status;
  platform_id = t.platform_id;
  result = t.result;
  error_message = t.error_message;
  started_at = t.started_at;
  finished_at = t.finished_at;
}

-- `ensureTaskRuntimeInitialized`: the default size of the queue.
abbrev pub ensure_initialized : Service → Service
ensure_initialized s = record s { queue_size = if s.queue_size == 0 then 256 else s.queue_size }

abbrev pub cache_summary : Summary → Service → Service
cache_summary m s = record s { cache = insert m.id m s.cache }

unfoldable pub without : ℕ → List ℕ → List ℕ
without id [] = []
without id (j ∷ js) = let rest = without id js in if j == id then rest else j ∷ rest

abbrev pub remove_queued_mark : ℕ → Service → Service
remove_queued_mark id s = record s { enqueued = without id s.enqueued }

-- A task that is marked is not queued again; a full channel is an error, and takes the mark back.
unfoldable pub enqueue_task_in_memory : ℕ → Service → Result (Unit {0}) × Service
unfolding without
enqueue_task_in_memory id s =
    let marked : Service = record s { enqueued = id ∷ s.enqueued } in
    if contains id s.enqueued
    then (ok tt, s)
    else if ltb (length s.queue) s.queue_size
    then (ok tt, record marked { queue = s.queue ++ id ∷ [] })
    else (err queue_full, remove_queued_mark id marked)

-- What a new process has: the table, and an empty memory.
abbrev pub restarted : Service → Service
restarted s = record s { queue = []; enqueued = []; cache = []; current = none }

-- A task that was running when the process ended is shown as pending again.
abbrev is_running : Status → Bool
is_running running = true
is_running _ = false

unfoldable pub recovered_summary : Task → Summary
recovered_summary t =
    let m = summary_of t in
    if is_running m.status then record m { status = pending; started_at = none } else m

-- The loop of `recoverModelBatchTasks`; it ends with the first task that finds no room.
unfoldable pub recover_from : List Task → Service → Result (Unit {0}) × Service
recover_from [] s = (ok tt, s)
recover_from (t ∷ ts) s =
    let (r, s') = enqueue_task_in_memory t.id (cache_summary (recovered_summary t) s) in
    let rest = recover_from ts s' in elim r [ ok u ↦ rest | err e ↦ (err (recover_failed e), s') ]

abbrev pub recover_listed : Result (List Task) → Service → Result (Unit {0}) × Service
recover_listed (ok ts) s = recover_from ts s
recover_listed (err e) s = (err (recover_failed e), s)

unfoldable pub recover_tasks : Service → Result (Unit {0}) × Service
recover_tasks s = let (r, db) = list_unfinished s.db in recover_listed r (record s { db = db })
