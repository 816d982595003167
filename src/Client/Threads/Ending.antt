-- ===== src/Client/Threads/Ending.antt =====
-- The runs of the two threads end.
use inf01151_trabalho.Common.{
  ℕ, suc, ◌+◌, ◌*◌, ◌≤◌, ◌<◌, ◌≡◌, refl, ap, subst, Bool, true, false, Option, none, some, List, [],
  ◌∷◌, length, length-append, done, arith,
}
use mathlib.Core.Option.{some-injective}
use inf01151_trabalho.Client.Types.{Requisicao}
use inf01151_trabalho.Client.Queue.{
  Attempt, waits, returns, CommandQueue, queue_push, queue_pop, queue_close, queue_size, queue_init,
}
use inf01151_trabalho.Client.Queue.Fifo.{queue_push_refines, queue_pop_refines}
use inf01151_trabalho.Client.Queue.Calls.{items, push_true, push_false, pop_some, pop_none}
use inf01151_trabalho.Client.Parse.{Libc, parse_command}
use inf01151_trabalho.Client.Sender.{Answer}
use inf01151_trabalho.Client.Threads.{
  Input, line, read_error, Reader, reading, pushing, retrying, closed, Sender, popping, sending,
  finished, System, start, after_line, read_input, reader_step, after_push, after_pop, sender_step,
  Step, reader_moves, sender_moves, Reach, here, next,
}
use inf01151_trabalho.Client.Threads.Order.{Inv, Reach-Inv}

abbrev reader_work : Reader → ℕ
reader_work reading = 1
reader_work (pushing req) = 6
reader_work (retrying req) = 5
reader_work closed = 0

abbrev sender_work : Sender → ℕ
sender_work popping = 1
sender_work (sending req) = 2
sender_work finished = 0

-- A bound on the steps that are left.
abbrev pub work : System → ℕ
work s =
    6 * length s.input + reader_work s.reader + 3 * length (items s.queue) + sender_work s.sender

-- The steps of a run.
abbrev pub steps : {libc : Libc} {s s' : System} → Reach libc s s' → ℕ
steps here = 0
steps (next r st) = suc (steps r)

module _ (libc : Libc) (input : List Input) where
  line_work : (o : Option Requisicao) → reader_work (after_line libc o) ≤ 6
  line_work none = omega arith
  line_work (some req) = omega arith

  read_input-work :
      (s : System) (is : List Input)
      → s.input ≡ is
      → s.reader ≡ reading
      → work (read_input libc is s) < work s
  unfolding read_input queue_close
  read_input-work s [] e r = omega (arith, ap length e, ap reader_work r)
  read_input-work s (read_error ∷ rest) e r = omega (arith, ap length e, ap reader_work r)
  read_input-work s (line text ∷ rest) e r =
      omega (arith, ap length e, ap reader_work r, line_work (parse_command libc (some text)))

  after_push-work :
      (req : Requisicao) {s s' : System} (r : Attempt (Bool × CommandQueue))
      → queue_push req s.queue ≡ done r
      → after_push req s r ≡ some s'
      → s.reader ≡ pushing req
      → Inv libc input s
      → work s' < work s
  after_push-work req waits called e is inv = cc
  after_push-work req {s} {s'} (returns (true, q)) called e is inv =
      let (_, more, _) = push_true req inv.ring called in
      subst (λ t. work t < work s) (some-injective _ _ e)
        (omega (arith, ap length more, length-append (items s.queue) (req ∷ []), ap reader_work is))
  after_push-work req {s} {s'} (returns (false, q)) called e is inv =
      let shut = push_false req inv.ring called in
      let open_ : s.queue.shutdown ≡ false = rw is at inv.gate in cc

  after_pop-work :
      {s s' : System} (r : Attempt (Option Requisicao × CommandQueue))
      → queue_pop s.queue ≡ done r
      → after_pop s r ≡ some s'
      → s.sender ≡ popping
      → Inv libc input s
      → work s' < work s
  after_pop-work waits called e is inv = cc
  after_pop-work {s} (returns (none, q)) called e is inv =
      let (_, _, _, empty, _) = pop_none inv.ring called in
      subst (λ t. work t < work s) (some-injective _ _ e)
        (omega (arith, ap length empty, ap sender_work is))
  after_pop-work {s} (returns (some req, q)) called e is inv =
      let (_, less, _) = pop_some inv.ring called in
      subst (λ t. work t < work s) (some-injective _ _ e)
        (omega (arith, ap length less, ap sender_work is))

  reader_step-work :
      {s s' : System} (r : Reader)
      → reader_step libc r s ≡ done (some s')
      → s.reader ≡ r
      → Inv libc input s
      → work s' < work s
  unfolding reader_step
  reader_step-work {s} {s'} reading e is inv =
      let same : read_input libc s.input s ≡ s' = cc in
      subst (λ t. work t < work s) same (read_input-work s s.input refl is)
  reader_step-work {s} {s'} (pushing req) e is inv =
      let (r, called, _, _) = queue_push_refines req inv.ring in
      after_push-work req {s = s} {s' = s'} r called (cc (rw called at e)) is inv
  reader_step-work (retrying req) e is inv = absurd (rw is at inv.gate)
  reader_step-work closed e is inv = cc

  sender_step-work :
      {s s' : System} (answer : Answer) (p : Sender)
      → sender_step answer p s ≡ done (some s')
      → s.sender ≡ p
      → Inv libc input s
      → work s' < work s
  unfolding sender_step
  sender_step-work {s} {s'} answer popping e is inv =
      let (r, called, _, _) = queue_pop_refines inv.ring in
      after_pop-work {s = s} {s' = s'} r called (cc (rw called at e)) is inv
  sender_step-work {s} {s'} answer (sending req) e is inv =
      subst (λ t. work t < work s) (same e) (omega (arith, ap sender_work is))
    where
      same : {t : System} → done (some t) ≡ done (some s') → t ≡ s'
      same h = cc
  sender_step-work answer finished e is inv = cc

  -- Every step lowers the work that is left.
  Step-work : {s s' : System} → Step libc s s' → Inv libc input s → work s' < work s
  Step-work {s} (reader_moves e) inv = reader_step-work s.reader e refl inv
  Step-work {s} (sender_moves answer e) inv = sender_step-work answer s.sender e refl inv

-- No interleaving of the two threads takes more than six steps for each line of the input and two
-- more, so that every run ends.
pub steps-bound :
    (libc : Libc) (input : List Input) (storage : List Requisicao) {s : System}
    → length storage ≡ queue_size
    → (r : Reach libc (start input storage) s) → steps r + work s ≤ 6 * length input + 2
unfolding queue_init
steps-bound libc input storage size here = omega arith
steps-bound libc input storage size (next r st) = omega (
  arith,
  steps-bound libc input storage size r,
  Step-work libc input st (Reach-Inv libc input storage size r),
)
