-- ===== src/Client/Tests.antt =====
-- The client's functions at concrete queues, and the theorems about them at concrete inputs.
mod Process
mod Signals
use inf01151_trabalho.Common.{
  arith, ◌+◌, ◌*◌, ◌≤◌, length, ◌⊎◌, ◌≡◌, refl, Bool, Option, none, some, List, [], ◌∷◌, ◌++◌,
  Outcome, done, fault, replicate,
}
use inf01151_trabalho.Client.Types.{Requisicao}
use inf01151_trabalho.Client.Queue.{Attempt, CommandQueue, queue_init, queue_push, queue_pop}
use inf01151_trabalho.Client.Queue.Channel
use inf01151_trabalho.Client.Queue.Fifo.{
  IsValid, channel_of, view, Keeps, queue_init_lem, queue_push_refines, queue_pop_refines,
}
use inf01151_trabalho.Client.Parse.{Libc, parse_command}
use inf01151_trabalho.Client.Sender.{receive_failed, send_command}
use inf01151_trabalho.Client.Threads.{
  System, Input, line, closed, finished, start, read_input, reader_step, sender_step, Step,
  reader_moves, sender_moves, Reach, here, next,
}
use inf01151_trabalho.Client.Threads.Order.{commands_of, handled-IsPrefix, all_handled}
use inf01151_trabalho.Client.Threads.Ending.{work, steps, steps-bound}

abbrev pay : Requisicao
pay = record { dest_addr = 22; value = 30 }

abbrev storage : List Requisicao
storage = replicate 100 (record { dest_addr = 0; value = 0 })

-- Every line is read as a transfer of 30 to 22.
abbrev libc : Libc
libc = record { sscanf = λ text. some (text, 30); inet_aton = λ text. some 22 }

abbrev input : List Input
input = line (49 ∷ []) ∷ []

abbrev state_of : System → Outcome (Option System) → System
state_of s fault = s
state_of s (done none) = s
state_of s (done (some s')) = s'

abbrev read_on : System → System
unfolding reader_step read_input parse_command queue_push
read_on s = state_of s (reader_step libc s.reader s)

abbrev send_on : System → System
unfolding sender_step queue_pop send_command
send_on s = state_of s (sender_step receive_failed s.sender s)

-- The line is read and queued, the command popped and sent, the input closed.
abbrev queued : System
queued = read_on (read_on (start input storage))

abbrev dealt : System
dealt = send_on (send_on queued)

abbrev ended : System
ended = send_on (read_on dealt)

to_queued : Reach libc (start input storage) queued
unfolding reader_step parse_command queue_init
to_queued = next (next here (reader_moves refl)) (reader_moves refl)

to_ended : Reach libc (start input storage) ended
unfolding reader_step sender_step read_on queue_init
to_ended =
    next
      (next
        (next (next to_queued (sender_moves receive_failed refl))
          (sender_moves receive_failed refl))
        (reader_moves refl))
      (sender_moves receive_failed refl)

handled_run : ended.handled ≡ pay ∷ []
unfolding send_on read_on queue_init
handled_run = refl

queue_push_refines_example :
    (r : Attempt (Bool × CommandQueue)) × (queue_push pay (queue_init storage) ≡ done r)
    × (view r ≡ Channel.push pay (channel_of (queue_init storage)))
    × Keeps r
queue_push_refines_example = queue_push_refines pay (queue_init_lem storage refl).0

queued-IsValid : IsValid queued.queue
unfolding read_on queue_init
queued-IsValid = record {
  storage = refl;
  front_in = omega arith;
  count_in = omega arith;
  rear_at = refl;
}

queue_pop_refines_example :
    (r : Attempt (Option Requisicao × CommandQueue)) × (queue_pop queued.queue ≡ done r)
    × (view r ≡ Channel.pop (channel_of queued.queue))
    × Keeps r
queue_pop_refines_example = queue_pop_refines queued-IsValid

handled-IsPrefix_example :
    (rest : List Requisicao) × (queued.handled ++ rest ≡ commands_of libc input)
handled-IsPrefix_example = handled-IsPrefix libc input storage refl to_queued

all_handled_example : ended.handled ≡ commands_of libc input
unfolding send_on read_on queue_init
all_handled_example = all_handled libc input storage refl to_ended refl refl

steps-bound_example : steps to_ended + work ended ≤ 6 * length input + 2
steps-bound_example = steps-bound libc input storage refl to_ended
