-- ===== src/Client/Queue/Calls.antt =====
-- What a call of the command queue that has returned says of the items, on a well-formed ring.
use inf01151_trabalho.Common.{
  ◌≤◌, ◌≡◌, Bool, true, false, Option, none, some, List, [], ◌∷◌, ◌++◌, arith, length, done,
}
use mathlib.Core.Path.{subst}
use inf01151_trabalho.Client.Types.{Requisicao}
use inf01151_trabalho.Client.Queue.{
  Attempt, waits, returns, CommandQueue, queue_push, queue_pop, queue_size,
}
use inf01151_trabalho.Client.Queue.Channel
use inf01151_trabalho.Client.Queue.Channel.{Channel}
use inf01151_trabalho.Client.Queue.Fifo.{
  IsValid, channel_of, segment, view, Keeps, queue_push_refines, queue_pop_refines,
}

abbrev pub items : CommandQueue → List Requisicao
items q = segment q.commands q.front 0 q.count

module _ (req : Requisicao) {q : CommandQueue} (v : IsValid q) where
  push-view :
      {r : Attempt (Bool × CommandQueue)}
      → queue_push req q ≡ done r
      → (view r ≡ Channel.push req (channel_of q)) × Keeps r
  push-view {r} e =
      let (r₀, e₀, sees, keeps) = queue_push_refines req v in
      let same : r₀ ≡ r = cc in
      (subst (λ x. view x ≡ Channel.push req (channel_of q)) same sees, subst Keeps same keeps)

  pub push_true :
      {q' : CommandQueue}
      → queue_push req q ≡ done (returns (true, q'))
      → IsValid q' × (items q' ≡ items q ++ (req ∷ [])) × (q'.shutdown ≡ q.shutdown)
  unfolding Channel.push
  push_true {q'} e = let (sees, keeps) = push-view e in (keeps, ground arith, ground arith)

  pub push_false :
      {q' : CommandQueue} → queue_push req q ≡ done (returns (false, q')) → q.shutdown ≡ true
  unfolding Channel.push
  push_false {q'} e = let (sees, keeps) = push-view e in ground arith

  -- A push waits only at a full queue.
  pub push_waits :
      queue_push req q ≡ done waits → (q.shutdown ≡ false) × (queue_size ≤ length (items q))
  unfolding Channel.push
  push_waits e = let (sees, keeps) = push-view e in (ground arith, ground arith)

module _ {q : CommandQueue} (v : IsValid q) where
  pop-view :
      {r : Attempt (Option Requisicao × CommandQueue)}
      → queue_pop q ≡ done r
      → (view r ≡ Channel.pop (channel_of q)) × Keeps r
  pop-view {r} e =
      let (r₀, e₀, sees, keeps) = queue_pop_refines v in
      let same : r₀ ≡ r = cc in
      (subst (λ x. view x ≡ Channel.pop (channel_of q)) same sees, subst Keeps same keeps)

  pub pop_some :
      {req : Requisicao} {q' : CommandQueue}
      → queue_pop q ≡ done (returns (some req, q'))
      → IsValid q' × (items q ≡ req ∷ items q') × (q'.shutdown ≡ q.shutdown)
  unfolding Channel.pop
  pop_some {req} {q'} e = let (sees, keeps) = pop-view e in (keeps, ground arith, ground arith)

  pub pop_none :
      {q' : CommandQueue}
      → queue_pop q ≡ done (returns (none, q'))
      → (q.shutdown ≡ true) × (items q ≡ []) × IsValid q' × (items q' ≡ []) × (q'.shutdown ≡ true)
  unfolding Channel.pop
  pop_none {q'} e =
      let (sees, keeps) = pop-view e in
      (ground arith, ground arith, keeps, ground arith, ground arith)

  -- A pop waits only at an empty queue that is open.
  pub pop_waits : queue_pop q ≡ done waits → (q.shutdown ≡ false) × (items q ≡ [])
  unfolding Channel.pop
  pop_waits e = let (sees, keeps) = pop-view e in (ground arith, ground arith)
