-- ===== src/Queue/Order.antt =====
-- `priority_insert` of dog-queue/src/backend/memory/storage.rs: a queue in descending order of
-- priority, first in first out among equals.
pub mod Laws
use dogrs.Base.{
  ℕ, suc, Bool, true, false, Option, none, some, List, [], ◌∷◌, zero, if◌then◌else◌, leb,
}
use dogrs.Queue.Priority.{JobPriority, as_u8, at_least}
use dogrs.Queue.Record.{JobId}

-- The source's tuple of a priority, the time from which the job may run, and the job.
pub record QueueEntry : Type 0 where
  pub priority : JobPriority
  pub run_at : ℕ
  pub job_id : JobId

module _ {ℓ} {A : Type ℓ} where
  -- `VecDeque::partition_point`: the number of leading elements that pass the test. The library
  -- promises this result where no element that passes stands behind one that fails.
  unfoldable pub partition_point : (A → Bool) → List A → ℕ
  partition_point p [] = 0
  partition_point p (x ∷ xs) = if p x then suc (partition_point p xs) else 0

  -- `VecDeque::insert`, for a position within the queue.
  unfoldable pub insert : List A → ℕ → A → List A
  insert xs zero a = a ∷ xs
  insert [] (suc n) a = a ∷ []
  insert (x ∷ xs) (suc n) a = x ∷ insert xs n a

unfoldable pub priority_insert : List QueueEntry → QueueEntry → List QueueEntry
unfolding partition_point insert
priority_insert queue entry =
    let pos = partition_point (λ (e : QueueEntry). at_least e.priority entry.priority) queue in
    insert queue pos entry

-- `iter().position(|(_, run_at, _)| *run_at <= now)` and `remove` at that position: the first
-- entry that is due, and the queue without it.
unfoldable pub take_due : List QueueEntry → ℕ → Option (QueueEntry × List QueueEntry)
take_due [] now = none
take_due (e ∷ q) now =
    let rest = take_due q now in
    if leb e.run_at now
    then some (e, q)
    else elim rest [ none ↦ none | some (found, q') ↦ some (found, e ∷ q') ]
