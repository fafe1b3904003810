-- ===== src/Task/Recovery.antt =====
-- The recovery at the start of the process: which tasks are queued, and in what order.
use pinai.Base.{
  ℕ, suc, ◌+◌, ◌≤◌, ◌<◌, inl, inr, ◌≡◌, refl, sym, ap, ◌∙◌, true, false, List, [], ◌∷◌, ◌++◌,
  length, length-append, append_nil, ltb, arith, Bool-cases,
}
use pinai.Base.Text.{nat_eq}
use pinai.Task.{
  Task, Result, ok, err, Db, recover_failed, queue_full, contains, unfinished, list_unfinished,
}
use pinai.Task.Runtime.{
  without, Service, cache_summary, enqueue_task_in_memory, recover_from, recover_tasks,
  recovered_summary,
}
use pinai.Task.Ownership.{HasNoRepeat}

unfoldable pub ids_of : List Task → List ℕ
ids_of [] = []
ids_of (t ∷ ts) = t.id ∷ ids_of ts

-- A task that is not marked, with room in the queue.
pub enqueue_free :
    (id : ℕ) (s : Service)
    → contains id s.enqueued ≡ false
    → suc (length s.queue) ≤ s.queue_size
    → enqueue_task_in_memory id s
      ≡ (ok tt, record s { queue = s.queue ++ id ∷ []; enqueued = id ∷ s.enqueued })
unfolding enqueue_task_in_memory
enqueue_free id s free room = ground (arith, free, room)

append_one :
    {A : Type 0} → (xs : List A) (y : A) (ys : List A) → (xs ++ y ∷ []) ++ ys ≡ xs ++ y ∷ ys
append_one [] y ys = refl
append_one (x ∷ xs) y ys = rw (append_one xs y ys) refl

recover_next :
    (t : Task) (ts : List Task) (s s' : Service)
    → enqueue_task_in_memory t.id (cache_summary (recovered_summary t) s) ≡ (ok tt, s')
    → recover_from (t ∷ ts) s ≡ recover_from ts s'
unfolding recover_from
recover_next t ts s s' e =
    ap
      (λ p.
        let rest = recover_from ts p.1 in
        elim p.0 as (λ _. Result (Unit {0}) × Service) [
          | ok u ↦ rest
          | err e ↦ (err (recover_failed e), p.1)
        ])
      e

list_served :
    (db : Db)
    → db.faults ≡ []
    → list_unfinished db ≡ (ok (unfinished db.rows), record db { faults = [] })
unfolding list_unfinished
list_served db served = rw served refl

recover_from_all :
    (ts : List Task) (s : Service)
    → HasNoRepeat (ids_of ts)
    → ((id : ℕ) → contains id (ids_of ts) ≡ true → contains id s.enqueued ≡ false)
    → length s.queue + length (ids_of ts) ≤ s.queue_size
    → ((recover_from ts s).0 ≡ ok tt) × ((recover_from ts s).1.queue ≡ s.queue ++ ids_of ts)
unfolding recover_from ids_of
recover_from_all [] s h free room = (refl, sym (append_nil s.queue))
recover_from_all (t ∷ ts) s h free room =
    let s' : Service = record (cache_summary (recovered_summary t) s) {
      queue = s.queue ++ t.id ∷ [];
      enqueued = t.id ∷ s.enqueued;
    } in
    let rest =
      recover_from_all ts s' h.1 (λ id c. ground (arith, free id, h.0, c))
        (ground (arith, room, length-append s.queue (t.id ∷ []))) in
    rw
      (recover_next t ts s s' (
        enqueue_free t.id (cache_summary (recovered_summary t) s) (free t.id (ground arith))
          (ground (arith, room))))
      (rest.0, rest.1 ∙ append_one s.queue t.id (ids_of ts))

-- When the database serves the list of the unfinished tasks, which have different ids and are not
-- marked, and the queue has room for all, the recovery succeeds and queues exactly them, in their
-- order, behind what was queued.
pub recover_tasks-queues :
    (s : Service)
    → s.db.faults ≡ []
    → HasNoRepeat (ids_of (unfinished s.db.rows))
    → ((id : ℕ)
        → contains id (ids_of (unfinished s.db.rows)) ≡ true
        → contains id s.enqueued ≡ false)
    → length s.queue + length (ids_of (unfinished s.db.rows)) ≤ s.queue_size
    → ((recover_tasks s).0 ≡ ok tt)
      × ((recover_tasks s).1.queue ≡ s.queue ++ ids_of (unfinished s.db.rows))
unfolding recover_tasks
recover_tasks-queues s served distinct free room = rw (list_served s.db served) (
    recover_from_all (unfinished s.db.rows) (record s { db = record s.db { faults = [] } }) distinct
      free room)

-- A task that is not marked, with no room in the queue.
pub enqueue_full :
    (id : ℕ) (s : Service)
    → contains id s.enqueued ≡ false
    → ltb (length s.queue) s.queue_size ≡ false
    → enqueue_task_in_memory id s
      ≡ (err queue_full, record s { enqueued = without id (id ∷ s.enqueued) })
unfolding enqueue_task_in_memory
enqueue_full id s free full = rw (free, full) refl

recover_stops :
    (t : Task) (ts : List Task) (s s' : Service)
    → enqueue_task_in_memory t.id (cache_summary (recovered_summary t) s) ≡ (err queue_full, s')
    → recover_from (t ∷ ts) s ≡ (err (recover_failed queue_full), s')
unfolding recover_from
recover_stops t ts s s' e =
    ap
      (λ p.
        let rest = recover_from ts p.1 in
        elim p.0 as (λ _. Result (Unit {0}) × Service) [
          | ok u ↦ rest
          | err e ↦ (err (recover_failed e), p.1)
        ])
      e

recover_from_overfull :
    (ts : List Task) (s : Service)
    → HasNoRepeat (ids_of ts)
    → ((id : ℕ) → contains id (ids_of ts) ≡ true → contains id s.enqueued ≡ false)
    → length s.queue ≤ s.queue_size
    → s.queue_size < length s.queue + length (ids_of ts)
    → (recover_from ts s).0 ≡ err (recover_failed queue_full)
unfolding ids_of
recover_from_overfull [] s h free within over = ground (arith, within, over)
recover_from_overfull (t ∷ ts) s h free within over =
    let s' : Service = record (cache_summary (recovered_summary t) s) {
      queue = s.queue ++ t.id ∷ [];
      enqueued = t.id ∷ s.enqueued;
    } in
    let rest = recover_from_overfull ts s' h.1 (λ id c. ground (arith, free id, h.0, c)) in
    elim (Bool-cases (ltb (length s.queue) s.queue_size)) [
      | inl room ↦
          rw
            (recover_next t ts s s' (
              enqueue_free t.id (cache_summary (recovered_summary t) s) (free t.id (ground arith))
                (ground (arith, room))))
            (rest (ground (arith, room, length-append s.queue (t.id ∷ [])))
              (ground (arith, over, length-append s.queue (t.id ∷ []))))
      | inr full ↦
          rw
            (recover_stops t ts s _ (
              enqueue_full t.id (cache_summary (recovered_summary t) s) (free t.id (ground arith))
                full))
            refl
    ]

-- When the database serves the list of the unfinished tasks, which have different ids and are not
-- marked, and there are more of them than the queue has room for, the recovery fails.
pub recover_tasks_overfull :
    (s : Service)
    → s.db.faults ≡ []
    → HasNoRepeat (ids_of (unfinished s.db.rows))
    → ((id : ℕ)
        → contains id (ids_of (unfinished s.db.rows)) ≡ true
        → contains id s.enqueued ≡ false)
    → length s.queue ≤ s.queue_size
    → s.queue_size < length s.queue + length (ids_of (unfinished s.db.rows))
    → (recover_tasks s).0 ≡ err (recover_failed queue_full)
unfolding recover_tasks
recover_tasks_overfull s served distinct free within over = rw (list_served s.db served) (
    recover_from_overfull (unfinished s.db.rows) (record s { db = record s.db { faults = [] } })
      distinct free within over)
