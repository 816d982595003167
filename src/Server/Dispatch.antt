-- ===== src/Server/Dispatch.antt =====
-- server/server.c, the receive loop of `main`: what is done with one packet.
use inf01151_trabalho.Common.{
  ℕ, ℤ, Bool, Option, some, List, [], ◌∷◌, if◌then◌else◌, int_eq, int_lt, Outcome, done, ◌>>=◌,
  to_u32, zero, suc, pos_part, ◌||◌, read,
}
use inf01151_trabalho.Server.Types.{
  Replica, replica_primario, replica_secundario, PacketType, desc, req, desc_ack, req_ack,
  rep_update, rep_confirm, election, answer, coordinator, find_leader, ping, server_join, Packet,
  Server, Sent, SockAddr, zero_packet,
}
use inf01151_trabalho.Server.Peers.{add_peer}
use inf01151_trabalho.Server.Replication.{handle_replication_update, rep_packet}
use inf01151_trabalho.Server.Election.{
  start_election, handle_election_message, handle_answer_message, handle_coordinator_message,
}
use inf01151_trabalho.Server.Ping.{handle_ping, reset_health_timers}
use inf01151_trabalho.Server.Discovery.{SendResult, Discovery, silent, handle_discovery}
use inf01151_trabalho.Server.Startup.{join_packet}

-- What becomes of the `args` that hold the packet: freed, handed to a request thread, or lost.
pub data Args : Type 0 where
  freed : Args
  to_thread : SockAddr → Packet → Args
  leaked : Args

-- What one round of the loop leaves.
pub record Round : Type 0 where
  pub server : Server
  pub out : List Sent
  pub discovery : Discovery
  pub args : Args

-- What the outside answers during a round: whether each `sendto` of an election succeeds, what the
-- other threads do while this one sleeps, the clock, the answers of the calls of
-- `handle_discovery`, and whether `pthread_create` succeeds.
pub record World : Type 0 where
  pub reaches : ℕ → Bool
  pub sleep : ℕ → Server → Server
  pub now : ℕ
  pub server_ip : Option (List ℕ)
  pub discovery_send : SendResult
  pub thread_created : Bool

abbrev pub quiet_round : Server → List Sent → Round
quiet_round s out = record { server = s; out = out; discovery = silent; args = freed }

abbrev pub leader_packet : Server → Packet
leader_packet s = record zero_packet {
  type = coordinator;
  seqn = to_u32 s.my_id;
  leader = record { leader_id = s.my_id; nr_servers = s.num_servers; servers = s.server_list };
}

-- The loop of `FIND_LEADER` over the servers that are neither this one nor the new one.
unfoldable pub announce_from : List Replica → ℤ → ℤ → Packet → ℕ → ℕ → Outcome (List Sent)
unfolding read int_eq
announce_from list my_id backup_id pkt i zero = done []
announce_from list my_id backup_id pkt i (suc n) =
    let rest = announce_from list my_id backup_id pkt (suc i) n in
    do
      r ← read list i
      out ← rest
      done (
          if int_eq r.id my_id || int_eq r.id backup_id
          then out
          else record { to = r.addr; pkt = pkt } ∷ out)

unfoldable pub on_find_leader : Packet → SockAddr → Server → Outcome (Server × List Sent)
unfolding int_eq add_peer announce_from
on_find_leader pkt client_addr s =
    if int_eq s.my_id s.current_leader_id
    then (do
      let backup_id = pkt.new_server.id
      s' ← add_peer backup_id client_addr s
      let resp = leader_packet s'
      let first : Sent = record { to = client_addr; pkt = resp }
      let second : Sent = record { to = client_addr; pkt = rep_packet s'.ledger }
      out ← announce_from s'.server_list s'.my_id backup_id resp 0 (pos_part s'.num_servers)
      done (s', first ∷ second ∷ out))
    else done (s, [])

unfoldable pub on_server_join : Packet → SockAddr → Server → Outcome Server
unfolding int_eq add_peer
on_server_join pkt client_addr s =
    if int_eq s.my_id s.current_leader_id then add_peer pkt.new_server.id client_addr s else done s

-- `server_addr` is the address that the server has bound.
unfoldable pub on_coordinator :
    World → SockAddr → Packet → SockAddr → Server → Outcome (Server × List Sent)
unfolding int_lt start_election handle_coordinator_message reset_health_timers
on_coordinator w server_addr pkt client_addr s =
    if int_lt pkt.leader.leader_id s.my_id then start_election w.reaches w.sleep w.now s else do
      s' ← handle_coordinator_message w.now (some pkt) s
      let s'' = reset_health_timers w.now s'
      let me : Replica = record { id = s''.my_id; addr = server_addr }
      done (
        s'',
        elim s''.current_role [
          | replica_primario ↦ []
          | replica_secundario ↦ record { to = client_addr; pkt = join_packet me } ∷ []
        ],
      )

unfoldable pub on_rep_update : Packet → SockAddr → Server → Server × List Sent
unfolding int_eq handle_replication_update
on_rep_update pkt client_addr s =
    if int_eq s.my_id s.current_leader_id
    then (s, [])
    else handle_replication_update (some pkt) (some client_addr) s

-- Where `pthread_create` fails, `args` is freed; the thread runs `handle_request`.
unfoldable pub on_req : World → Packet → SockAddr → Server → Args
unfolding int_eq
on_req w pkt client_addr s =
    if int_eq s.my_id s.current_leader_id
    then (if w.thread_created then to_thread client_addr pkt else freed)
    else freed

unfoldable pub dispatch_as :
    PacketType → World → SockAddr → Packet → SockAddr → Server → Outcome Round
unfolding on_find_leader on_server_join on_coordinator handle_discovery on_req on_rep_update
    handle_election_message handle_answer_message handle_ping
dispatch_as find_leader w self pkt from s = do
  (s', out) ← on_find_leader pkt from s
  done (quiet_round s' out)
dispatch_as server_join w self pkt from s = do
  s' ← on_server_join pkt from s
  done (quiet_round s' [])
dispatch_as coordinator w self pkt from s = do
  (s', out) ← on_coordinator w self pkt from s
  done (quiet_round s' out)
dispatch_as desc w self pkt from s =
    if int_eq s.my_id s.current_leader_id
    then (do
      (s', d) ← handle_discovery w.server_ip w.discovery_send from s
      done (record { server = s'; out = []; discovery = d; args = freed }))
    else done (quiet_round s [])
dispatch_as req w self pkt from s = done (record (quiet_round s []) { args = on_req w pkt from s })
dispatch_as rep_update w self pkt from s =
    let (s', out) = on_rep_update pkt from s in done (quiet_round s' out)
dispatch_as election w self pkt from s = do
  (s', out) ← handle_election_message w.reaches w.sleep w.now (some pkt) (some from) s
  done (quiet_round s' out)
dispatch_as answer w self pkt from s = done (quiet_round (handle_answer_message (some pkt) s) [])
dispatch_as ping w self pkt from s = do
  s' ← handle_ping w.now (some pkt) (some from) s
  done (quiet_round s' [])
dispatch_as desc_ack w self pkt from s = done (record (quiet_round s []) { args = leaked })
dispatch_as req_ack w self pkt from s = done (record (quiet_round s []) { args = leaked })
dispatch_as rep_confirm w self pkt from s = done (record (quiet_round s []) { args = leaked })

-- One round of the loop: the packet `pkt` from `from`, at a server that has bound `self`.
unfoldable pub dispatch : World → SockAddr → Packet → SockAddr → Server → Outcome Round
unfolding dispatch_as
dispatch w self pkt from s = dispatch_as pkt.type w self pkt from s
