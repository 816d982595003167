-- ===== src/Client/Queue/Channel.antt =====
-- What the command queue promises: a bounded first-in first-out channel that can be closed.
use inf01151_trabalho.Common.{
  Bool, true, false, Option, none, some, List, [], ◌∷◌, ◌++◌, if◌then◌else◌, leb, length,
}
use inf01151_trabalho.Client.Types.{Requisicao}
use inf01151_trabalho.Client.Queue.{Attempt, waits, returns, queue_size}

pub record Channel : Type 0 where
  pub items : List Requisicao
  pub closed : Bool

-- A closed channel refuses, a full one makes the caller wait.
unfoldable pub push : Requisicao → Channel → Attempt (Bool × Channel)
push req c =
    if c.closed
    then returns (false, c)
    else if leb queue_size (length c.items)
    then waits
    else returns (true, record c { items = c.items ++ (req ∷ []) })

-- What is in a closed channel can still be taken; an empty one makes the caller wait, or ends.
unfoldable pub pop : Channel → Attempt (Option Requisicao × Channel)
pop c = elim (c.items) [
  | [] ↦ if c.closed then returns (none, c) else waits
  | req ∷ rest ↦ returns (some req, record c { items = rest })
]
