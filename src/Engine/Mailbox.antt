-- ===== src/Engine/Mailbox.antt =====
-- The class `Mailbox` of src/engine/SimplxShim.hpp, and the threads that share one. A method's
-- section under the mutex is one action; the tasks run outside it.
pub mod Delivery
use eu_nex.Common.{
  ℕ, ◌+◌, Bool, true, false, ◌&&◌, List, [], ◌∷◌, ◌++◌, Option, none, some, if◌then◌else◌, length,
  is_empty,
}

pub record Mailbox {ℓ} (Task : Type ℓ) : Type ℓ where
  pub queue : List Task
  pub shutdown : Bool

-- The thread that owns the mailbox: the batch that it runs, and whether `waitAndDrain` has said
-- that there is no more to come. `run` is what it has run, and `sent` all that was enqueued.
pub record Worker {ℓ} (Task : Type ℓ) : Type ℓ where
  pub mailbox : Mailbox Task
  pub batch : List Task
  pub ended : Bool
  pub run : List Task
  pub sent : List Task

-- What one thread does while the others wait for it: any thread enqueues a task or shuts the
-- mailbox down, and its owner runs the next task, or fetches a batch when it has none.
pub data Action {ℓ} (Task : Type ℓ) : Type ℓ where
  send : Task → Action Task
  turn : Action Task
  close : Action Task

module _ {ℓ} {Task : Type ℓ} where
  abbrev pub new_mailbox : Mailbox Task
  new_mailbox = record { queue = []; shutdown = false }

  unfoldable pub enqueue : Task → Mailbox Task → Mailbox Task
  enqueue task m = record m { queue = m.queue ++ task ∷ [] }

  -- `batch.swap(queue_)`
  abbrev pub take_batch : Mailbox Task → Mailbox Task × List Task
  take_batch m = (record m { queue = [] }, m.queue)

  -- `waitAndDrain` after its wait, which ends by a notification or by the timeout: false is `none`.
  unfoldable pub wait_batch : Mailbox Task → Option (Mailbox Task × List Task)
  wait_batch m = if m.shutdown && is_empty m.queue then none else some (take_batch m)

  unfoldable pub shut_down : Mailbox Task → Mailbox Task
  shut_down m = record m { shutdown = true }

  unfoldable pub pending : Mailbox Task → ℕ
  pending m = length m.queue

  -- `drainAll` by a thread that has nothing else to run: the mailbox, and the tasks in the order in
  -- which they run.
  unfoldable pub drain_all : Mailbox Task → Mailbox Task × List Task
  drain_all m = take_batch m

  abbrev pub new_worker : Worker Task
  new_worker = record { mailbox = new_mailbox; batch = []; ended = false; run = []; sent = [] }

  abbrev pub fetched : Worker Task → Option (Mailbox Task × List Task) → Worker Task
  fetched w none = record w { ended = true }
  fetched w (some (m, batch)) = record w { mailbox = m; batch = batch }

  abbrev pub next_turn : Worker Task → List Task → Worker Task
  next_turn w [] = fetched w (wait_batch w.mailbox)
  next_turn w (task ∷ batch) = record w { batch = batch; run = w.run ++ task ∷ [] }

  unfoldable pub act : Action Task → Worker Task → Worker Task
  act (send task) w = record w { mailbox = enqueue task w.mailbox; sent = w.sent ++ task ∷ [] }
  act turn w = next_turn w w.batch
  act close w = record w { mailbox = shut_down w.mailbox }

  -- A schedule: the actions of all threads in the order in which they happen.
  unfoldable pub after : List (Action Task) → Worker Task → Worker Task
  after [] w = w
  after (a ∷ rest) w = after rest (act a w)

  unfoldable pub turns : List (Action Task) → ℕ
  turns [] = 0
  turns (turn ∷ rest) = turns rest + 1
  turns (_ ∷ rest) = turns rest
