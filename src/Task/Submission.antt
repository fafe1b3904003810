-- ===== src/Task/Submission.antt =====
-- What a submission that the database serves does, with room in the queue and without.
use pinai.Base.{
  ℕ, ◌+◌, ◌≡◌, refl, ap, ◌∙◌, true, false, ◌&&◌, [], ◌∷◌, ◌++◌, length, ltb, if◌then◌else◌, arith,
  Bool-cases, inl, inr,
}
use pinai.Base.Text.{Text, nat_eq}
use pinai.Task.{
  Task, TaskType, pending, ok, err, Db, contains, exists_platform, create_task, queue_full,
  platform_not_found,
}
use pinai.Task.Runtime.{
  Service, summary_of, cache_summary, enqueue_task_in_memory, ensure_initialized,
}
use pinai.Task.Submit.{new_task, accepted, queue_created, create_and_queue, on_platform, submit}
use pinai.Task.Recovery.{enqueue_free, enqueue_full}

-- The row that a submission creates.
abbrev pub created_row : TaskType → ℕ → Text → Service → Task
created_row task_type platform_id payload s = record (new_task task_type platform_id payload) {
  id = s.db.next_id;
}

abbrev size_of : Service → ℕ
size_of s = (ensure_initialized s).queue_size

abbrev serving : Db → Db
serving db = record db { faults = [] }

exists_served :
    (id : ℕ) (db : Db)
    → db.faults ≡ []
    → exists_platform id db ≡ (ok (contains id db.platforms), serving db)
unfolding exists_platform
exists_served id db served = rw served refl

create_served :
    (t : Task) (db : Db)
    → db.faults ≡ []
    → create_task t db ≡ (
      ok (record t { id = db.next_id }),
      record (serving db) {
        rows = db.rows ++ record t { id = db.next_id } ∷ [];
        next_id = db.next_id + 1;
      },
    )
unfolding create_task
create_served t db served = rw served refl

-- The service with the new row, before its id is queued.
abbrev stored : TaskType → ℕ → Text → Service → Service
stored task_type platform_id payload s =
    let row = created_row task_type platform_id payload s in
    cache_summary (summary_of row) (
      ensure_initialized (record s {
        db = record (serving s.db) { rows = s.db.rows ++ row ∷ []; next_id = s.db.next_id + 1 };
      }))

submit_there :
    (task_type : TaskType) (platform_id : ℕ) (payload : Text) (s : Service)
    → s.db.faults ≡ []
    → contains platform_id s.db.platforms ≡ true
    → submit task_type platform_id payload s
      ≡ accepted
          (created_row task_type platform_id payload s)
          (enqueue_task_in_memory s.db.next_id (stored task_type platform_id payload s))
unfolding submit on_platform create_and_queue queue_created
submit_there task_type platform_id payload s served there =
    ap (λ p. on_platform p.0 task_type platform_id payload (record s { db = p.1 }))
      (exists_served platform_id s.db served)
    ∙ ap (λ b. on_platform (ok b) task_type platform_id payload (record s { db = serving s.db }))
        there
    ∙ ap (λ p. queue_created p.0 (record s { db = p.1 }))
        (create_served (new_task task_type platform_id payload) (serving s.db) refl)

submit_missing :
    (task_type : TaskType) (platform_id : ℕ) (payload : Text) (s : Service)
    → s.db.faults ≡ []
    → contains platform_id s.db.platforms ≡ false
    → submit task_type platform_id payload s
      ≡ (err platform_not_found, record s { db = serving s.db })
unfolding submit on_platform
submit_missing task_type platform_id payload s served missing =
    ap (λ p. on_platform p.0 task_type platform_id payload (record s { db = p.1 }))
      (exists_served platform_id s.db served)
    ∙ ap (λ b. on_platform (ok b) task_type platform_id payload (record s { db = serving s.db }))
        missing

-- What the three submissions answer, and what they leave in the table and in the queue.
pub submit_served :
    (task_type : TaskType) (platform_id : ℕ) (payload : Text) (s : Service)
    → s.db.faults ≡ []
    → contains s.db.next_id s.enqueued ≡ false
    → ((submit task_type platform_id payload s).0 ≡ (
        if contains platform_id s.db.platforms
        then if ltb (length s.queue) (size_of s)
          then ok (record { task_id = s.db.next_id; task_type = task_type; status = pending })
          else err queue_full
        else err platform_not_found))
      × ((submit task_type platform_id payload s).1.db.rows ≡ (
          if contains platform_id s.db.platforms
          then s.db.rows ++ created_row task_type platform_id payload s ∷ []
          else s.db.rows))
      × ((submit task_type platform_id payload s).1.queue ≡ (
          if contains platform_id s.db.platforms && ltb (length s.queue) (size_of s)
          then s.queue ++ s.db.next_id ∷ []
          else s.queue))
submit_served task_type platform_id payload s served fresh =
    elim (Bool-cases (contains platform_id s.db.platforms)) [
      | inl there ↦ elim (Bool-cases (ltb (length s.queue) (size_of s))) [
        | inl room ↦
            rw
              (
                submit_there task_type platform_id payload s served there,
                enqueue_free s.db.next_id (stored task_type platform_id payload s) fresh
                    (ground (arith, room)),
                there,
                room,
              )
              (refl, refl, refl)
        | inr full ↦
            rw
              (
                submit_there task_type platform_id payload s served there,
                enqueue_full s.db.next_id (stored task_type platform_id payload s) fresh full,
                there,
                full,
              )
              (refl, refl, refl)
      ]
      | inr missing ↦
          rw (submit_missing task_type platform_id payload s served missing, missing)
            (refl, refl, refl)
    ]
