-- ===== src/Client/Tests/Signals.antt =====
-- The waits and the signals of the client's threads, on one line of input.
use inf01151_trabalho.Common.{◌⊎◌, ◌≡◌, refl}
use inf01151_trabalho.Client.Queue.{queue_init, queue_push, queue_pop}
use inf01151_trabalho.Client.Parse.{parse_command}
use inf01151_trabalho.Client.Threads.{closed, finished, start, read_input, reader_step}
use inf01151_trabalho.Client.Threads.Signals.{
  Signalled, both_awake, Moves, moves, reader_moves, sender_sleeps, Reach, here, next,
}
use inf01151_trabalho.Client.Threads.Signals.Deadlock.{no_deadlock}
use inf01151_trabalho.Client.Tests.{libc, input, storage, queued}

-- The sender sleeps on the empty queue, and is woken by the signal of the reader's `queue_push`.
abbrev sender_woken : Signalled
sender_woken = both_awake queued

to_woken : Reach libc (both_awake (start input storage)) sender_woken
unfolding reader_step parse_command queue_init queue_push queue_pop read_input
to_woken =
    next (next (next here (sender_sleeps refl refl)) (moves (reader_moves refl refl)))
      (moves (reader_moves refl refl))

no_deadlock_example :
    ((queued.reader ≡ closed) × (queued.sender ≡ finished))
    ⊎ ((p' : Signalled) × Moves libc sender_woken p')
no_deadlock_example = no_deadlock libc input storage refl to_woken
