-- ===== src/Client/Queue.antt =====
-- client/processing.c, the command queue: `queue_init`, `queue_push`, `queue_pop`. The indices are
-- C ints that never fall below 0, so they are plain numbers. A call that has to wait on a
-- condition has `waits`, and is made again from the test of the loop when the thread wakes; which
-- calls signal, and what wakes a thread, is in Client/Threads/Signals.antt.
pub mod Channel
pub mod Fifo
pub mod Calls
use inf01151_trabalho.Common.{
  ℕ, ◌+◌, ◌-◌, ◌%◌, Bool, true, false, not, ◌&&◌, Option, none, some, List, if◌then◌else◌, leb,
  ◌==◌, Outcome, done, ◌>>=◌, read, write, replicate,
}
use inf01151_trabalho.Client.Types.{Requisicao}

abbrev pub queue_size : ℕ
queue_size = 100

-- `command_queue_t`, without its mutex and its conditions.
pub record CommandQueue : Type 0 where
  pub commands : List Requisicao
  pub front : ℕ
  pub rear : ℕ
  pub count : ℕ
  pub shutdown : Bool

-- `queue_init`, on the storage as it is found.
unfoldable pub queue_init : List Requisicao → CommandQueue
queue_init storage = record { commands = storage; front = 0; rear = 0; count = 0; shutdown = false }

pub data Attempt (A : Type 0) : Type 0 where
  waits : Attempt A
  returns : A → Attempt A

unfoldable pub queue_push : Requisicao → CommandQueue → Outcome (Attempt (Bool × CommandQueue))
unfolding write
queue_push req q =
    if leb queue_size q.count && not q.shutdown
    then done waits
    else if q.shutdown
    then done (returns (false, q))
    else do
      commands ← write q.commands q.rear req
      done (
          returns (
            true,
            record q { commands = commands; rear = (q.rear + 1) % queue_size; count = q.count + 1 },
          ))

-- What is popped stands for `true` and `*req`.
unfoldable pub queue_pop : CommandQueue → Outcome (Attempt (Option Requisicao × CommandQueue))
unfolding read
queue_pop q =
    if q.count == 0 && not q.shutdown
    then done waits
    else if q.count == 0 && q.shutdown
    then done (returns (none, q))
    else do
      req ← read q.commands q.front
      done
          (returns (some req, record q { front = (q.front + 1) % queue_size; count = q.count - 1 }))

-- The end of `reader_thread`, and what `request` does where it cannot start the sender.
unfoldable pub queue_close : CommandQueue → CommandQueue
queue_close q = record q { shutdown = true }
