-- ===== src/Client/Threads/Signals/Deadlock.antt =====
-- The two threads of the client never wait for one another: no signal is lost.
use inf01151_trabalho.Common.{
  ◌≡◌, refl, Bool, true, false, ◌&&◌, not, Bool-cases, Option, none, some, List, [], ◌∷◌, ◌⊎◌, inl,
  inr, length, done, subst, sym, done-injective,
}
use mathlib.Core.Option.{some-injective}
use inf01151_trabalho.Client.Types.{Requisicao}
use inf01151_trabalho.Client.Queue.{
  Attempt, waits, returns, CommandQueue, queue_push, queue_pop, queue_size,
}
use inf01151_trabalho.Client.Queue.Fifo.{queue_push_refines, queue_pop_refines}
use inf01151_trabalho.Client.Queue.Calls.{push_false, push_waits, pop_none}
use inf01151_trabalho.Client.Parse.{Libc}
use inf01151_trabalho.Client.Sender.{Answer}
use inf01151_trabalho.Client.Threads as Base
use inf01151_trabalho.Client.Threads.{
  Input, line, read_error, Reader, reading, pushing, retrying, closed, Sender, popping, sending,
  finished, System, start, read_input, after_push, reader_step, after_pop, sender_step,
}
use inf01151_trabalho.Client.Threads.Order.{Inv, Reach-Inv}
use inf01151_trabalho.Client.Threads.Progress.{has_step}
use inf01151_trabalho.Client.Threads.Signals.{
  close_signals, reader_signals, sender_signals, ReaderWaits, SenderWaits, Signalled, both_awake,
  Moves, reader_moves, sender_moves, Step, moves, reader_sleeps, sender_sleeps, reader_wakes,
  sender_wakes, Reach, here, next,
}

module _ (libc : Libc) where
  -- Without the calls on the conditions, the threads take the same steps.
  Reach-system : {p q : Signalled} → Reach libc p q → Base.Reach libc p.system q.system
  Reach-system here = Base.here
  Reach-system (next r (moves (reader_moves awake e))) =
      Base.next (Reach-system r) (Base.reader_moves e)
  Reach-system (next r (moves (sender_moves answer awake e))) =
      Base.next (Reach-system r) (Base.sender_moves answer e)
  Reach-system (next r (reader_sleeps awake w)) = Reach-system r
  Reach-system (next r (sender_sleeps awake w)) = Reach-system r
  Reach-system (next r reader_wakes) = Reach-system r
  Reach-system (next r sender_wakes) = Reach-system r

  -- A step of the reader that does not signal leaves the queue and the sender.
  read_input-quiet :
      (rest : List Input) (s : System)
      → close_signals rest ≡ false
      → ((read_input libc rest s).queue ≡ s.queue) × ((read_input libc rest s).sender ≡ s.sender)
  unfolding read_input
  read_input-quiet [] s quiet = absurd cc
  read_input-quiet (read_error ∷ rest) s quiet = (refl, refl)
  read_input-quiet (line text ∷ rest) s quiet = (refl, refl)

  module _ (input : List Input) where
    after_push-quiet :
        (req : Requisicao) {s s' : System} (r : Attempt (Bool × CommandQueue))
        → queue_push req s.queue ≡ done r
        → after_push req s r ≡ some s'
        → s.reader ≡ pushing req
        → Inv libc input s
        → reader_signals (pushing req) s ≡ false
        → (s'.queue ≡ s.queue) × (s'.sender ≡ s.sender)
    after_push-quiet req waits called e is inv quiet = absurd cc
    after_push-quiet req (returns (true, q)) called e is inv quiet =
        absurd (cc (rw called at quiet))
    after_push-quiet req {s} (returns (false, q)) called e is inv quiet =
        let shut = push_false req inv.ring called in
        let open_ : s.queue.shutdown ≡ false = rw is at inv.gate in absurd cc

    reader_step-quiet :
        {s s' : System} (r : Reader)
        → reader_step libc r s ≡ done (some s')
        → s.reader ≡ r
        → Inv libc input s
        → reader_signals r s ≡ false
        → (s'.queue ≡ s.queue) × (s'.sender ≡ s.sender)
    unfolding reader_step
    reader_step-quiet {s} {s'} reading e is inv quiet =
        let same : read_input libc s.input s ≡ s' = cc in
        subst (λ (x : System). (x.queue ≡ s.queue) × (x.sender ≡ s.sender)) same
          (read_input-quiet s.input s quiet)
    reader_step-quiet {s} {s'} (pushing req) e is inv quiet =
        let (r, called, _, _) = queue_push_refines req inv.ring in
        after_push-quiet req {s' = s'} r called (cc (rw called at e)) is inv quiet
    reader_step-quiet {s} (retrying req) e is inv quiet = absurd (rw is at inv.gate)
    reader_step-quiet closed e is inv quiet = absurd cc

    -- The sender stays in its wait while nothing signals it.
    SenderWaits-kept :
        {s s' : System}
        → reader_step libc s.reader s ≡ done (some s')
        → Inv libc input s
        → reader_signals s.reader s ≡ false
        → SenderWaits s.sender s.queue
        → SenderWaits s'.sender s'.queue
    SenderWaits-kept {s} {s'} e inv quiet w =
        let (queue, sender) = reader_step-quiet s.reader e refl inv quiet in
        subst (λ q. SenderWaits s'.sender q) (sym queue)
          (subst (λ p. SenderWaits p s.queue) (sym sender) w)

    -- The reader waits at an open queue.
    ReaderWaits-open :
        (r : Reader) {s : System}
        → ReaderWaits r s.queue
        → Inv libc input s
        → s.queue.shutdown ≡ false
    ReaderWaits-open reading w inv = absurd w
    ReaderWaits-open (pushing req) w inv = (push_waits req inv.ring w).0
    ReaderWaits-open (retrying req) w inv = (push_waits req inv.ring w).0
    ReaderWaits-open closed w inv = absurd w

    -- While the reader waits, a step of the sender that does not signal leaves the queue and the
    -- reader.
    after_pop-quiet :
        {s s' : System} (r : Attempt (Option Requisicao × CommandQueue))
        → queue_pop s.queue ≡ done r
        → after_pop s r ≡ some s'
        → Inv libc input s
        → sender_signals popping s ≡ false
        → ReaderWaits s.reader s.queue
        → (s'.queue ≡ s.queue) × (s'.reader ≡ s.reader)
    after_pop-quiet waits called e inv quiet w = absurd cc
    after_pop-quiet {s} (returns (none, q)) called e inv quiet w =
        let shut = (pop_none inv.ring called).0 in
        let open_ = ReaderWaits-open s.reader w inv in absurd cc
    after_pop-quiet (returns (some req, q)) called e inv quiet w = absurd (cc (rw called at quiet))

    sender_step-quiet :
        {s s' : System} (answer : Answer) (p : Sender)
        → sender_step answer p s ≡ done (some s')
        → Inv libc input s
        → sender_signals p s ≡ false
        → ReaderWaits s.reader s.queue
        → (s'.queue ≡ s.queue) × (s'.reader ≡ s.reader)
    unfolding sender_step
    sender_step-quiet {s} {s'} answer popping e inv quiet w =
        let (r, called, _, _) = queue_pop_refines inv.ring in
        after_pop-quiet {s' = s'} r called (cc (rw called at e)) inv quiet w
    sender_step-quiet {s} {s'} answer (sending req) e inv quiet w =
        subst (λ (x : System). (x.queue ≡ s.queue) × (x.reader ≡ s.reader))
          (some-injective _ _ (done-injective e)) (refl, refl)
    sender_step-quiet answer finished e inv quiet w = absurd cc

    -- The reader stays in its wait while nothing signals it.
    ReaderWaits-kept :
        {s s' : System} (answer : Answer)
        → sender_step answer s.sender s ≡ done (some s')
        → Inv libc input s
        → sender_signals s.sender s ≡ false
        → ReaderWaits s.reader s.queue
        → ReaderWaits s'.reader s'.queue
    ReaderWaits-kept {s} {s'} answer e inv quiet w =
        let (queue, reader) = sender_step-quiet answer s.sender e inv quiet w in
        subst (λ q. ReaderWaits s'.reader q) (sym queue)
          (subst (λ r. ReaderWaits r s.queue) (sym reader) w)

  -- A thread that is asleep would wait again.
  record Watched (p : Signalled) : Type 0 where
    reader : p.reader_asleep ≡ true → ReaderWaits p.system.reader p.system.queue
    sender : p.sender_asleep ≡ true → SenderWaits p.system.sender p.system.queue

  and_true : (a b : Bool) → (a && not b) ≡ true → (a ≡ true) × (b ≡ false)
  and_true true true e = absurd cc
  and_true true false e = (refl, refl)
  and_true false b e = absurd cc

  module _ (input : List Input) where
    Step-Watched :
        {p q : Signalled} → Step libc p q → Inv libc input p.system → Watched p → Watched q
    Step-Watched {p} (moves (reader_moves awake e)) inv h = record {
      reader = λ asleep. absurd cc;
      sender = λ asleep.
          let (slept, quiet) =
            and_true p.sender_asleep (reader_signals p.system.reader p.system) asleep in
          SenderWaits-kept input e inv quiet (h.sender slept);
    }
    Step-Watched {p} (moves (sender_moves answer awake e)) inv h = record {
      reader = λ asleep.
          let (slept, quiet) =
            and_true p.reader_asleep (sender_signals p.system.sender p.system) asleep in
          ReaderWaits-kept input answer e inv quiet (h.reader slept);
      sender = λ asleep. absurd cc;
    }
    Step-Watched (reader_sleeps awake w) inv h = record { reader = λ asleep. w; sender = h.sender }
    Step-Watched (sender_sleeps awake w) inv h = record { reader = h.reader; sender = λ asleep. w }
    Step-Watched reader_wakes inv h = record { reader = λ asleep. absurd cc; sender = h.sender }
    Step-Watched sender_wakes inv h = record { reader = h.reader; sender = λ asleep. absurd cc }

    module _ (storage : List Requisicao) (size : length storage ≡ queue_size) where
      Reach-Watched : {p : Signalled} → Reach libc (both_awake (start input storage)) p → Watched p
      Reach-Watched here = record { reader = λ asleep. absurd cc; sender = λ asleep. absurd cc }
      Reach-Watched (next r st) =
          Step-Watched st (Reach-Inv libc input storage size (Reach-system r)) (Reach-Watched r)

  -- A thread that waits has no step.
  reader_stuck :
      (r : Reader) (s : System) → ReaderWaits r s.queue → reader_step libc r s ≡ done none
  unfolding reader_step
  reader_stuck reading s w = absurd w
  reader_stuck (pushing req) s w = rw w refl
  reader_stuck (retrying req) s w = rw w refl
  reader_stuck closed s w = absurd w

  sender_stuck :
      (answer : Answer) (p : Sender) (s : System)
      → SenderWaits p s.queue
      → sender_step answer p s ≡ done none
  unfolding sender_step
  sender_stuck answer popping s w = rw w refl
  sender_stuck answer (sending req) s w = absurd w
  sender_stuck answer finished s w = absurd w

  -- The thread that can step is awake.
  awake_moves :
      (p : Signalled) {s : System}
      → Watched p
      → Base.Step libc p.system s
      → (p' : Signalled) × Moves libc p p'
  awake_moves p h (Base.reader_moves e) = elim (Bool-cases (p.reader_asleep)) [
    | inr awake ↦ (_, reader_moves awake e)
    | inl asleep ↦ let stuck = reader_stuck p.system.reader p.system (h.reader asleep) in absurd cc
  ]
  awake_moves p h (Base.sender_moves answer e) = elim (Bool-cases (p.sender_asleep)) [
    | inr awake ↦ (_, sender_moves answer awake e)
    | inl asleep ↦
        let stuck = sender_stuck answer p.system.sender p.system (h.sender asleep) in absurd cc
  ]

-- No deadlock: in every state that the threads reach with their waits and signals, both have ended,
-- or one that is not in `pthread_cond_wait` has a step of its own.
pub no_deadlock :
    (libc : Libc) (input : List Input) (storage : List Requisicao) {p : Signalled}
    → length storage ≡ queue_size
    → Reach libc (both_awake (start input storage)) p
    → ((p.system.reader ≡ closed) × (p.system.sender ≡ finished))
      ⊎ ((p' : Signalled) × Moves libc p p')
no_deadlock libc input storage {p} size r =
    elim (has_step libc input storage size (Reach-system libc r)) [
      | inl ended ↦ inl ended
      | inr (s, step) ↦ inr (awake_moves libc p (Reach-Watched libc input storage size r) step)
    ]
