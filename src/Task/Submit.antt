-- ===== src/Task/Submit.antt =====
-- The submission of tasks in model_batch_task_service.go, and the reading of one.
use pinai.Base.{ℕ, Bool, true, false, List, [], ◌∷◌, Option, none, some, ◌==◌, if◌then◌else◌}
use pinai.Base.Text.{Text, nat_eq}
use pinai.Base.Assoc.{lookup}
use pinai.Task.{
  Task, TaskType, Status, add, update, delete, pending, no_items, missing_id, platform_not_found,
  Result, ok, err, exists_platform, create_task, get_task,
}
use pinai.Task.Runtime.{
  Summary, Service, summary_of, ensure_initialized, cache_summary, enqueue_task_in_memory,
}

-- What the program leaves to other code: the items of the payloads, `encoding/json`, and the batch
-- operations on models, whose state is `World`. An operation returns how many models it changed,
-- or the text of its error.
pub data Outcome : Type 0 where
  done : ℕ → Outcome
  refused : Text → Outcome

pub record Apps : Type 1 where
  pub World : Type 0
  pub Model : Type 0
  pub Item : Type 0
  pub item_id : Item → ℕ
  pub encode_add : ℕ → List Model → Text
  pub encode_update : ℕ → List Item → Text
  pub encode_delete : ℕ → List ℕ → Text
  pub decode_add : Text → Option (ℕ × List Model)
  pub decode_update : Text → Option (ℕ × List Item)
  pub decode_delete : Text → Option (ℕ × List ℕ)
  pub batch_add : ℕ → List Model → World → Outcome × World
  pub batch_update : ℕ → List Item → World → Outcome × World
  pub batch_delete : ℕ → List ℕ → World → Outcome × World

pub record Accepted : Type 0 where
  pub task_id : ℕ
  pub task_type : TaskType
  pub status : Status

-- The new task, before the table gives it an id.
abbrev pub new_task : TaskType → ℕ → Text → Task
new_task task_type platform_id payload = record {
  id = 0;
  task_type = task_type;
  status = pending;
  platform_id = platform_id;
  payload = payload;
  result = [];
  error_message = [];
  started_at = none;
  finished_at = none;
}

abbrev pub accepted : Task → Result (Unit {0}) × Service → Result Accepted × Service
accepted t (ok u, s) =
    (ok (record { task_id = t.id; task_type = t.task_type; status = t.status }), s)
accepted t (err e, s) = (err e, s)

-- What follows the creation of the row: the summary is cached, and the id queued.
unfoldable pub queue_created : Result Task → Service → Result Accepted × Service
queue_created (err e) s = (err e, s)
queue_created (ok t) s =
    accepted t (enqueue_task_in_memory t.id (cache_summary (summary_of t) (ensure_initialized s)))

unfoldable pub create_and_queue : TaskType → ℕ → Text → Service → Result Accepted × Service
create_and_queue task_type platform_id payload s =
    let (r, db) = create_task (new_task task_type platform_id payload) s.db in
    queue_created r (record s { db = db })

unfoldable pub on_platform : Result Bool → TaskType → ℕ → Text → Service → Result Accepted × Service
on_platform (err e) task_type platform_id payload s = (err e, s)
on_platform (ok false) task_type platform_id payload s = (err platform_not_found, s)
on_platform (ok true) task_type platform_id payload s =
    create_and_queue task_type platform_id payload s

-- The part that the three submissions share, from the check of the platform on.
unfoldable pub submit : TaskType → ℕ → Text → Service → Result Accepted × Service
submit task_type platform_id payload s =
    let (r, db) = exists_platform platform_id s.db in
    on_platform r task_type platform_id payload (record s { db = db })

module _ (apps : Apps) where
  open apps use {Model, Item, item_id, encode_add, encode_update, encode_delete}

  unfoldable pub enqueue_batch_add : ℕ → List Model → Service → Result Accepted × Service
  enqueue_batch_add platform_id [] s = (err no_items, s)
  enqueue_batch_add platform_id (m ∷ ms) s =
      submit add platform_id (encode_add platform_id (m ∷ ms)) s

  -- The loop that looks for an item without an id.
  abbrev pub lacks_id : List Item → Bool
  lacks_id [] = false
  lacks_id (i ∷ is) = if item_id i == 0 then true else lacks_id is

  unfoldable pub enqueue_batch_update : ℕ → List Item → Service → Result Accepted × Service
  enqueue_batch_update platform_id [] s = (err no_items, s)
  enqueue_batch_update platform_id (i ∷ is) s =
      if lacks_id (i ∷ is)
      then (err missing_id, s)
      else submit update platform_id (encode_update platform_id (i ∷ is)) s

  unfoldable pub enqueue_batch_delete : ℕ → List ℕ → Service → Result Accepted × Service
  enqueue_batch_delete platform_id [] s = (err no_items, s)
  enqueue_batch_delete platform_id (id ∷ ids) s =
      submit delete platform_id (encode_delete platform_id (id ∷ ids)) s

abbrev pub read_task : Result Task → Service → Result Summary × Service
read_task (err e) s = (err e, s)
read_task (ok t) s = (ok (summary_of t), cache_summary (summary_of t) s)

-- `GetModelBatchTask`: the cached summary, or that of the row, which is then cached.
unfoldable pub get_model_batch_task : ℕ → Service → Result Summary × Service
get_model_batch_task id s = elim (lookup id s.cache) [
  | some m ↦ (ok m, s)
  | none ↦ let (r, db) = get_task id s.db in read_task r (record s { db = db })
]
