-- ===== src/Client/Threads/Signals.antt =====
-- client/processing.c: the calls of `pthread_cond_wait` and `pthread_cond_signal`. A thread that finds
-- the test of its loop in `queue_push` or `queue_pop` true falls asleep, and goes on only after a
-- signal of the other, or a wake-up that nothing has caused, from that test again. The mutex is let
-- go of with the test made, so that no signal comes between the two. Each condition has one waiter.
pub mod Deadlock
use inf01151_trabalho.Common.{
  ◌≡◌, Bool, true, false, ◌&&◌, not, Option, none, some, List, [], ◌∷◌, Outcome, done, fault,
}
use inf01151_trabalho.Client.Types.{Requisicao}
use inf01151_trabalho.Client.Queue.{Attempt, waits, returns, CommandQueue, queue_push, queue_pop}
use inf01151_trabalho.Client.Parse.{Libc}
use inf01151_trabalho.Client.Sender.{Answer}
use inf01151_trabalho.Client.Threads.{
  Input, Reader, reading, pushing, retrying, closed, Sender, popping, sending, finished, System,
  start, reader_step, sender_step,
}

-- Whether a call of `queue_push` signals `not_empty`: after a command is stored, and not where it is
-- refused.
abbrev pub push_signals : Outcome (Attempt (Bool × CommandQueue)) → Bool
push_signals (done (returns (true, q))) = true
push_signals (done (returns (false, q))) = false
push_signals (done waits) = false
push_signals fault = false

-- Whether a call of `queue_pop` signals `not_full`: after a command is taken.
abbrev pub pop_signals : Outcome (Attempt (Option Requisicao × CommandQueue)) → Bool
pop_signals (done (returns (some req, q))) = true
pop_signals (done (returns (none, q))) = false
pop_signals (done waits) = false
pop_signals fault = false

-- The reader closes the queue at the end of the input, and signals `not_empty`.
abbrev pub close_signals : List Input → Bool
close_signals [] = true
close_signals (i ∷ rest) = false

-- Whether the reader's step signals `not_empty`.
abbrev pub reader_signals : Reader → System → Bool
reader_signals reading s = close_signals s.input
reader_signals (pushing req) s = push_signals (queue_push req s.queue)
reader_signals (retrying req) s = push_signals (queue_push req s.queue)
reader_signals closed s = false

-- Whether the sender's step signals `not_full`.
abbrev pub sender_signals : Sender → System → Bool
sender_signals popping s = pop_signals (queue_pop s.queue)
sender_signals (sending req) s = false
sender_signals finished s = false

-- Whether the reader is in a call of `queue_push` that waits.
abbrev pub ReaderWaits : Reader → CommandQueue → Type 0
ReaderWaits reading q = ⊥
ReaderWaits (pushing req) q = queue_push req q ≡ done waits
ReaderWaits (retrying req) q = queue_push req q ≡ done waits
ReaderWaits closed q = ⊥

abbrev pub SenderWaits : Sender → CommandQueue → Type 0
SenderWaits popping q = queue_pop q ≡ done waits
SenderWaits (sending req) q = ⊥
SenderWaits finished q = ⊥

-- The threads, and which of them are in `pthread_cond_wait`.
pub record Signalled : Type 0 where
  pub system : System
  pub reader_asleep : Bool
  pub sender_asleep : Bool

abbrev pub both_awake : System → Signalled
both_awake s = record { system = s; reader_asleep = false; sender_asleep = false }

-- A thread that is awake takes a step, and wakes the other if the step signals it.
pub data Moves (libc : Libc) (p : Signalled) : Signalled → Type 0 where
  reader_moves :
      {s : System}
      → p.reader_asleep ≡ false
      → reader_step libc p.system.reader p.system ≡ done (some s)
      → Moves libc p (record p {
        system = s;
        sender_asleep = p.sender_asleep && not (reader_signals p.system.reader p.system);
      })
  sender_moves :
      (answer : Answer) {s : System}
      → p.sender_asleep ≡ false
      → sender_step answer p.system.sender p.system ≡ done (some s)
      → Moves libc p (record p {
        system = s;
        reader_asleep = p.reader_asleep && not (sender_signals p.system.sender p.system);
      })

-- Or a thread falls asleep, or wakes with no signal.
pub data Step (libc : Libc) (p : Signalled) : Signalled → Type 0 where
  moves : {p' : Signalled} → Moves libc p p' → Step libc p p'
  reader_sleeps :
      p.reader_asleep ≡ false
      → ReaderWaits p.system.reader p.system.queue
      → Step libc p (record p { reader_asleep = true })
  sender_sleeps :
      p.sender_asleep ≡ false
      → SenderWaits p.system.sender p.system.queue
      → Step libc p (record p { sender_asleep = true })
  reader_wakes : Step libc p (record p { reader_asleep = false })
  sender_wakes : Step libc p (record p { sender_asleep = false })

pub data Reach (libc : Libc) (p : Signalled) : Signalled → Type 0 where
  here : Reach libc p p
  next : {q r : Signalled} → Reach libc p q → Step libc q r → Reach libc p r
