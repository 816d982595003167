-- ===== src/Client/Threads.antt =====
-- client/processing.c: `request`, with `reader_thread` and `sender_thread` interleaved over the
-- command queue. A step of a thread is one pass through a critical section of the queue, or one
-- line read, or one command sent; a thread that would wait on a condition has no step here, and
-- Signals adds the waits and the signals themselves.
pub mod Order
pub mod Progress
pub mod Signals
pub mod Ending
use inf01151_trabalho.Common.{
  ℕ, Bool, true, false, Option, none, some, List, [], ◌∷◌, ◌++◌, ◌≡◌, Outcome, done, fault, ◌>>=◌,
}
use inf01151_trabalho.Client.Types.{Requisicao, Packet}
use inf01151_trabalho.Client.Queue.{
  Attempt, waits, returns, CommandQueue, queue_init, queue_push, queue_pop, queue_close,
}
use inf01151_trabalho.Client.Parse.{Libc, parse_command}
use inf01151_trabalho.Client.Sender.{Answer, send_command}

-- What one call of `fgets` gives before the end of the file.
pub data Input : Type 0 where
  line : List ℕ → Input
  read_error : Input

-- Where the reader stands: before `fgets`, in the first or the second call of `queue_push`, or at
-- its end.
pub data Reader : Type 0 where
  reading : Reader
  pushing : Requisicao → Reader
  retrying : Requisicao → Reader
  closed : Reader

-- Where the sender stands: in `queue_pop`, with a command in hand, or at its end.
pub data Sender : Type 0 where
  popping : Sender
  sending : Requisicao → Sender
  finished : Sender

-- `handled` and `sent` record the commands that the sender has dealt with, and the packets that
-- went out.
pub record System : Type 0 where
  pub input : List Input
  pub reader : Reader
  pub queue : CommandQueue
  pub sender : Sender
  pub next_sequence : ℕ
  pub handled : List Requisicao
  pub sent : List Packet

abbrev pub start : List Input → List Requisicao → System
start input storage = record {
  input = input;
  reader = reading;
  queue = queue_init storage;
  sender = popping;
  next_sequence = 1;
  handled = [];
  sent = [];
}

module _ (libc : Libc) where
  -- What the reader makes of a line.
  abbrev pub after_line : Option Requisicao → Reader
  after_line none = reading
  after_line (some req) = pushing req

  unfoldable pub read_input : List Input → System → System
  unfolding queue_close
  read_input [] s = record s { reader = closed; queue = queue_close s.queue }
  read_input (read_error ∷ rest) s = record s { input = rest }
  read_input (line text ∷ rest) s = record s {
    input = rest;
    reader = after_line (parse_command libc (some text));
  }

-- What follows a call of `queue_push`: after a refused first call the reader calls it again.
abbrev pub after_push : Requisicao → System → Attempt (Bool × CommandQueue) → Option System
after_push req s waits = none
after_push req s (returns (true, q)) = some (record s { queue = q; reader = reading })
after_push req s (returns (false, q)) = some (record s { queue = q; reader = retrying req })

abbrev pub after_retry : System → Attempt (Bool × CommandQueue) → Option System
after_retry s waits = none
after_retry s (returns (pushed, q)) = some (record s { queue = q; reader = reading })

-- One step of the reader; no state where it waits or has ended.
unfoldable pub reader_step : Libc → Reader → System → Outcome (Option System)
unfolding read_input queue_push
reader_step libc reading s = done (some (read_input libc s.input s))
reader_step libc (pushing req) s = do r ← queue_push req s.queue; done (after_push req s r)
reader_step libc (retrying req) s = do r ← queue_push req s.queue; done (after_retry s r)
reader_step libc closed s = done none

abbrev pub after_pop : System → Attempt (Option Requisicao × CommandQueue) → Option System
after_pop s waits = none
after_pop s (returns (none, q)) = some (record s { queue = q; sender = finished })
after_pop s (returns (some req, q)) = some (record s { queue = q; sender = sending req })

abbrev pub sent_with : Option Packet → List Packet → List Packet
sent_with none sent = sent
sent_with (some pkt) sent = sent ++ (pkt ∷ [])

-- One step of the sender, with the network's answer to a command.
unfoldable pub sender_step : Answer → Sender → System → Outcome (Option System)
unfolding queue_pop send_command
sender_step answer popping s = do r ← queue_pop s.queue; done (after_pop s r)
sender_step answer (sending req) s =
    let (next, pkt) = send_command answer req s.next_sequence in
    done (
      some (record s {
        sender = popping;
        next_sequence = next;
        handled = s.handled ++ (req ∷ []);
        sent = sent_with pkt s.sent;
      }))
sender_step answer finished s = done none

-- The threads take their steps in any order.
pub data Step (libc : Libc) (s : System) (s' : System) : Type 0 where
  reader_moves : reader_step libc s.reader s ≡ done (some s') → Step libc s s'
  sender_moves : (answer : Answer) → sender_step answer s.sender s ≡ done (some s') → Step libc s s'

pub data Reach (libc : Libc) (s : System) : System → Type 0 where
  here : Reach libc s s
  next : {t u : System} → Reach libc s t → Step libc t u → Reach libc s u
