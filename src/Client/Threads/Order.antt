-- ===== src/Client/Threads/Order.antt =====
-- No interleaving of the two threads loses, doubles or reorders a command.
use inf01151_trabalho.Common.{
  ◌≡◌, refl, sym, ◌∙◌, Bool, true, false, Option, none, some, List, [], ◌∷◌, ◌++◌, length, done,
  Option-cases, inl, inr,
}
use mathlib.Core.Path.{subst}
use mathlib.Core.Option.{some-injective}
use mathlib.Core.List.{append_assoc, append-nil}
use inf01151_trabalho.Client.Types.{Requisicao}
use inf01151_trabalho.Client.Queue.{
  Attempt, waits, returns, CommandQueue, queue_init, queue_push, queue_pop, queue_close, queue_size,
}
use inf01151_trabalho.Client.Queue.Fifo.{
  IsValid, queue_init_lem, queue_push_refines, queue_pop_refines,
}
use inf01151_trabalho.Client.Queue.Calls.{items, push_true, push_false, pop_some, pop_none}
use inf01151_trabalho.Client.Parse.{Libc, parse_command}
use inf01151_trabalho.Client.Sender.{Answer}
use inf01151_trabalho.Client.Threads.{
  Input, line, read_error, Reader, reading, pushing, retrying, closed, Sender, popping, sending,
  finished, System, start, read_input, after_push, reader_step, after_pop, sender_step, Step,
  reader_moves, sender_moves, Reach, here, next,
}

abbrev listed : Option Requisicao → List Requisicao
listed none = []
listed (some req) = req ∷ []

-- The commands that the lines hold, in order.
pub commands_of : Libc → List Input → List Requisicao
commands_of libc [] = []
commands_of libc (read_error ∷ rest) = commands_of libc rest
commands_of libc (line text ∷ rest) =
    listed (parse_command libc (some text)) ++ commands_of libc rest

-- The commands that a thread holds.
abbrev pub pending : Reader → List Requisicao
pending reading = []
pending (pushing req) = req ∷ []
pending (retrying req) = req ∷ []
pending closed = []

abbrev pub in_hand : Sender → List Requisicao
in_hand popping = []
in_hand (sending req) = req ∷ []
in_hand finished = []

-- The queue is open until the reader has ended, so that no call of `queue_push` is refused.
abbrev pub Gate : Reader → Bool → List Input → Type 0
Gate reading shut input = shut ≡ false
Gate (pushing req) shut input = shut ≡ false
Gate (retrying req) shut input = ⊥
Gate closed shut input = (shut ≡ true) × (input ≡ [])

-- The sender ends at an empty, closed queue.
abbrev pub Drained : Sender → CommandQueue → Type 0
Drained popping q = Unit
Drained (sending req) q = Unit
Drained finished q = (q.shutdown ≡ true) × (items q ≡ [])

Drained-close : (p : Sender) (q : CommandQueue) → Drained p q → Drained p (queue_close q)
unfolding queue_close
Drained-close popping q d = tt
Drained-close (sending req) q d = tt
Drained-close finished q d = (refl, d.1)

-- A sender has not ended while the queue is open.
Drained-open : (p : Sender) (q q' : CommandQueue) → q.shutdown ≡ false → Drained p q → Drained p q'
Drained-open popping q q' open_ d = tt
Drained-open (sending req) q q' open_ d = tt
Drained-open finished q q' open_ d = cc (d.0)

module _ (libc : Libc) (input : List Input) where
  -- Where the commands of the input are, in order.
  pub record Inv (s : System) : Type 0 where
    pub ring : IsValid s.queue
    pub flow :
        s.handled
          ++ (in_hand s.sender ++ (items s.queue ++ (pending s.reader ++ commands_of libc s.input)))
        ≡ commands_of libc input
    pub gate : Gate s.reader s.queue.shutdown s.input
    pub drained : Drained s.sender s.queue

  read_input-Inv :
      {s : System} (rest : List Input)
      → s.input ≡ rest
      → s.reader ≡ reading
      → Inv s
      → Inv (read_input libc rest s)
  unfolding read_input commands_of queue_close
  read_input-Inv {s} [] e is inv = record {
    ring = record {
      storage = inv.ring.storage;
      front_in = inv.ring.front_in;
      count_in = inv.ring.count_in;
      rear_at = inv.ring.rear_at;
    };
    flow = rw is at inv.flow;
    gate = (refl, e);
    drained = Drained-close (s.sender) (s.queue) inv.drained;
  }
  read_input-Inv {s} (read_error ∷ rest) e is inv = record {
    ring = inv.ring;
    flow = rw e at inv.flow;
    gate = rw is (rw is at inv.gate);
    drained = inv.drained;
  }
  read_input-Inv {s} (line text ∷ rest) e is inv =
      elim (Option-cases (parse_command libc (some text))) [
        | inl bad ↦ record {
          ring = inv.ring;
          flow = rw bad (rw (is, e, bad) at inv.flow);
          gate = rw bad (rw is at inv.gate);
          drained = inv.drained;
        }
        | inr (req, good) ↦ record {
          ring = inv.ring;
          flow = rw good (rw (is, e, good) at inv.flow);
          gate = rw good (rw is at inv.gate);
          drained = inv.drained;
        }
      ]

  after_push-Inv :
      (req : Requisicao) {s s' : System} (r : Attempt (Bool × CommandQueue))
      → queue_push req s.queue ≡ done r
      → after_push req s r ≡ some s'
      → s.reader ≡ pushing req
      → Inv s
      → Inv s'
  after_push-Inv req waits called e is inv = cc
  after_push-Inv req {s} {s'} (returns (true, q)) called e is inv =
      let (ring, more, same) = push_true req inv.ring called in
      subst Inv (some-injective _ _ e) (record {
        ring = ring;
        flow = rw (more, append_assoc) (rw is at inv.flow);
        gate = same ∙ (rw is at inv.gate);
        drained = Drained-open (s.sender) (s.queue) q (rw is at inv.gate) inv.drained;
      })
  after_push-Inv req {s} {s'} (returns (false, q)) called e is inv =
      let shut = push_false req inv.ring called in
      let open_ : s.queue.shutdown ≡ false = rw is at inv.gate in cc

  after_pop-Inv :
      {s s' : System} (r : Attempt (Option Requisicao × CommandQueue))
      → queue_pop s.queue ≡ done r
      → after_pop s r ≡ some s'
      → s.sender ≡ popping
      → Inv s
      → Inv s'
  after_pop-Inv waits called e is inv = cc
  after_pop-Inv {s} {s'} (returns (none, q)) called e is inv =
      let (shut, empty, ring, empty', shut') = pop_none inv.ring called in
      subst Inv (some-injective _ _ e) (record {
        ring = ring;
        flow = rw empty' (rw (is, empty) at inv.flow);
        gate = rw shut' (rw shut at inv.gate);
        drained = (shut', empty');
      })
  after_pop-Inv {s} {s'} (returns (some req, q)) called e is inv =
      let (ring, less, same) = pop_some inv.ring called in
      subst Inv (some-injective _ _ e) (record {
        ring = ring;
        flow = rw (is, less) at inv.flow;
        gate = rw same inv.gate;
        drained = tt;
      })

  reader_step-Inv :
      {s s' : System} (r : Reader)
      → reader_step libc r s ≡ done (some s')
      → s.reader ≡ r
      → Inv s
      → Inv s'
  unfolding reader_step
  reader_step-Inv {s} {s'} reading e is inv =
      let same : read_input libc s.input s ≡ s' = cc in
      subst Inv same (read_input-Inv s.input refl is inv)
  reader_step-Inv {s} {s'} (pushing req) e is inv =
      let (r, called, _, _) = queue_push_refines req inv.ring in
      after_push-Inv req r called (cc (rw called at e)) is inv
  reader_step-Inv {s} (retrying req) e is inv = absurd (rw is at inv.gate)
  reader_step-Inv closed e is inv = cc

  sender_step-Inv :
      {s s' : System} (answer : Answer) (p : Sender)
      → sender_step answer p s ≡ done (some s')
      → s.sender ≡ p
      → Inv s
      → Inv s'
  unfolding sender_step
  sender_step-Inv answer popping e is inv =
      let (r, called, _, _) = queue_pop_refines inv.ring in
      after_pop-Inv r called (cc (rw called at e)) is inv
  sender_step-Inv {s} {s'} answer (sending req) e is inv = subst Inv (same e) (record {
    ring = inv.ring;
    flow = rw append_assoc (rw is at inv.flow);
    gate = inv.gate;
    drained = tt;
  })
    where
      same : {t : System} → done (some t) ≡ done (some s') → t ≡ s'
      same h = cc
  sender_step-Inv answer finished e is inv = cc

  Step-Inv : {s s' : System} → Step libc s s' → Inv s → Inv s'
  Step-Inv {s} (reader_moves e) inv = reader_step-Inv s.reader e refl inv
  Step-Inv {s} (sender_moves answer e) inv = sender_step-Inv answer s.sender e refl inv

  start-Inv : (storage : List Requisicao) → length storage ≡ queue_size → Inv (start input storage)
  unfolding queue_init
  start-Inv storage size = record {
    ring = (queue_init_lem storage size).0;
    flow = refl;
    gate = refl;
    drained = tt;
  }

  pub Reach-Inv :
      (storage : List Requisicao) {s : System}
      → length storage ≡ queue_size
      → Reach libc (start input storage) s
      → Inv s
  Reach-Inv storage size here = start-Inv storage size
  Reach-Inv storage size (next r st) = Step-Inv st (Reach-Inv storage size r)

-- At every moment of every interleaving, the sender has dealt with the first commands of the input,
-- each once and in order; what is missing is the rest of them.
pub handled-IsPrefix :
    (libc : Libc) (input : List Input) (storage : List Requisicao) {s : System}
    → length storage ≡ queue_size
    → Reach libc (start input storage) s
    → (rest : List Requisicao) × (s.handled ++ rest ≡ commands_of libc input)
handled-IsPrefix libc input storage size r = (_, (Reach-Inv libc input storage size r).flow)

-- Where both threads have ended, the sender has dealt with every command of the input, each once
-- and in order.
pub all_handled :
    (libc : Libc) (input : List Input) (storage : List Requisicao) {s : System}
    → length storage ≡ queue_size
    → Reach libc (start input storage) s
    → s.reader ≡ closed
    → s.sender ≡ finished
    → s.handled ≡ commands_of libc input
unfolding commands_of
all_handled libc input storage {s} size r ended done_ =
    let inv = Reach-Inv libc input storage size r in
    let drained : (s.queue.shutdown ≡ true) × (items s.queue ≡ []) = rw done_ at inv.drained in
    let gate : (s.queue.shutdown ≡ true) × (s.input ≡ []) = rw ended at inv.gate in
    sym (append-nil s.handled) ∙ (rw (done_, ended, drained.1, gate.1) at inv.flow)
