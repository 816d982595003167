-- ===== src/Server/Discovery.antt =====
-- server/discovery.c: `handle_discovery`. What `getsockname` and `sendto` answer are arguments.
use inf01151_trabalho.Common.{
  ℕ, Option, none, some, List, if◌then◌else◌, int_eq, Outcome, done, ◌>>=◌,
}
use inf01151_trabalho.Server.Types.{Server, SockAddr}
use inf01151_trabalho.Server.Clients.{find_or_add_client}

-- What a `sendto` answers: success, `EAGAIN` or `EWOULDBLOCK`, another error.
pub data SendResult : Type 0 where
  sent would_block failed : SendResult

-- How the handler ends: it says nothing, it has sent the text to the address, or the process exits.
pub data Discovery : Type 0 where
  silent : Discovery
  replied : SockAddr → List ℕ → Discovery
  exited : Discovery

-- `server_ip` is the text of the socket's own address, or nothing where `getsockname` fails.
unfoldable pub handle_discovery :
    Option (List ℕ) → SendResult → SockAddr → Server → Outcome (Server × Discovery)
unfolding int_eq find_or_add_client
handle_discovery server_ip result client_addr s =
    if int_eq s.my_id s.current_leader_id
    then elim server_ip [
      | none ↦ done (s, exited)
      | some text ↦ do
        (_, l) ← find_or_add_client client_addr.s_addr s.ledger
        let s' = record s { ledger = l }
        elim result [
          | sent ↦ done (s', replied client_addr text)
          | would_block ↦ done (s', replied client_addr text)
          | failed ↦ done (s', exited)
        ]
    ]
    else done (s, silent)
