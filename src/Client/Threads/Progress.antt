-- ===== src/Client/Threads/Progress.antt =====
-- Some thread of the client always has a step that does not wait.
use inf01151_trabalho.Common.{
  ◌≡◌, refl, Bool, true, false, Option, none, some, List, [], ◌⊎◌, inl, inr, arith, length, done,
  ap, ◌∙◌,
}
use inf01151_trabalho.Client.Types.{Requisicao}
use inf01151_trabalho.Client.Queue.{
  Attempt, waits, returns, CommandQueue, queue_push, queue_pop, queue_size,
}
use inf01151_trabalho.Client.Queue.Fifo.{queue_push_refines, queue_pop_refines}
use inf01151_trabalho.Client.Queue.Calls.{items, push_waits, pop_waits}
use inf01151_trabalho.Client.Parse.{Libc}
use inf01151_trabalho.Client.Sender.{receive_failed}
use inf01151_trabalho.Client.Threads.{
  Input, Reader, reading, pushing, retrying, closed, Sender, popping, sending, finished, System,
  start, reader_step, sender_step, Step, reader_moves, sender_moves, Reach,
}
use inf01151_trabalho.Client.Threads.Order.{Inv, Reach-Inv}

module _ (libc : Libc) (input : List Input) where
  reader_at :
      {s s' : System} (r : Reader)
      → s.reader ≡ r
      → reader_step libc r s ≡ done (some s')
      → Step libc s s'
  reader_at {s} r is e = reader_moves (ap (λ x. reader_step libc x s) is ∙ e)

  sender_at :
      {s s' : System} (p : Sender)
      → s.sender ≡ p
      → sender_step receive_failed p s ≡ done (some s')
      → Step libc s s'
  sender_at {s} p is e =
      sender_moves receive_failed (ap (λ x. sender_step receive_failed x s) is ∙ e)

  after_push_moves :
      (req : Requisicao) {s : System} (r : Attempt (Bool × CommandQueue))
      → queue_push req s.queue ≡ done r
      → s.reader ≡ pushing req
      → Inv libc input s
      → items s.queue ≡ []
      → (s' : System) × Step libc s s'
  unfolding reader_step
  after_push_moves req waits called is inv empty =
      let (_, full) = push_waits req inv.ring called in absurd (omega (arith, ap length empty))
  after_push_moves req {s} (returns (true, q)) called is inv empty =
      (record s { queue = q; reader = reading }, reader_at (pushing req) is (rw called))
  after_push_moves req {s} (returns (false, q)) called is inv empty =
      (record s { queue = q; reader = retrying req }, reader_at (pushing req) is (rw called))

  -- The reader can move while the queue is open and empty.
  reader_can_move :
      {s : System} (r : Reader)
      → s.reader ≡ r
      → Inv libc input s
      → s.queue.shutdown ≡ false
      → items s.queue ≡ []
      → (s' : System) × Step libc s s'
  unfolding reader_step
  reader_can_move {s} reading is inv open_ empty = (_, reader_at reading is refl)
  reader_can_move {s} (pushing req) is inv open_ empty =
      let (r, called, _, _) = queue_push_refines req inv.ring in
      after_push_moves req r called is inv empty
  reader_can_move {s} (retrying req) is inv open_ empty = absurd (rw is at inv.gate)
  reader_can_move {s} closed is inv open_ empty =
      let gate : (s.queue.shutdown ≡ true) × (s.input ≡ []) = rw is at inv.gate in cc (gate.0)

  after_pop_moves :
      {s : System} (r : Attempt (Option Requisicao × CommandQueue))
      → queue_pop s.queue ≡ done r
      → s.sender ≡ popping
      → Inv libc input s
      → (s' : System) × Step libc s s'
  unfolding sender_step
  after_pop_moves {s} waits called is inv =
      let (open_, empty) = pop_waits inv.ring called in
      reader_can_move s.reader refl inv open_ empty
  after_pop_moves {s} (returns (none, q)) called is inv =
      (record s { queue = q; sender = finished }, sender_at popping is (rw called))
  after_pop_moves {s} (returns (some req, q)) called is inv =
      (record s { queue = q; sender = sending req }, sender_at popping is (rw called))

  ended :
      {s : System} (r : Reader)
      → s.reader ≡ r
      → s.queue.shutdown ≡ true
      → Inv libc input s
      → s.reader ≡ closed
  ended reading is shut inv = let g = (rw is at inv.gate) in cc
  ended (pushing req) is shut inv = cc (rw is at inv.gate)
  ended (retrying req) is shut inv = absurd (rw is at inv.gate)
  ended closed is shut inv = is

  sender_can_move :
      {s : System} (p : Sender)
      → s.sender ≡ p
      → Inv libc input s
      → ((s.reader ≡ closed) × (s.sender ≡ finished)) ⊎ ((s' : System) × Step libc s s')
  unfolding sender_step
  sender_can_move {s} popping is inv =
      let (r, called, _, _) = queue_pop_refines inv.ring in inr (after_pop_moves r called is inv)
  sender_can_move {s} (sending req) is inv = inr (_, sender_at (sending req) is refl)
  sender_can_move {s} finished is inv =
      let drained : (s.queue.shutdown ≡ true) × (items s.queue ≡ []) = rw is at inv.drained in
      inl (ended s.reader refl drained.0 inv, is)

-- In every state that the threads reach, both have ended or one of them has a step.
pub has_step :
    (libc : Libc) (input : List Input) (storage : List Requisicao) {s : System}
    → length storage ≡ queue_size
    → Reach libc (start input storage) s
    → ((s.reader ≡ closed) × (s.sender ≡ finished)) ⊎ ((s' : System) × Step libc s s')
has_step libc input storage {s} size r =
    sender_can_move libc input s.sender refl (Reach-Inv libc input storage size r)
