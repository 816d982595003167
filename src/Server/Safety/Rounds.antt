-- ===== src/Server/Safety/Rounds.antt =====
-- Every round of the receive loop runs to its end and keeps a server well formed.
use inf01151_trabalho.Common.{
  some, [], Outcome, done, ◌>>=◌, Bool, true, false, int_eq, if◌then◌else◌,
}
use inf01151_trabalho.Server.Types.{
  Packet, PacketType, desc, req, desc_ack, req_ack, rep_update, rep_confirm, election, answer,
  coordinator, find_leader, ping, server_join, Server, SockAddr,
}
use inf01151_trabalho.Server.Discovery.{Discovery}
use inf01151_trabalho.Server.Dispatch.{World, Round, freed, quiet_round, dispatch_as, dispatch}
use inf01151_trabalho.Server.Safety.{IsSafe, IsGood, AllGood, SafeOut, Runs, Runs-bind}
use inf01151_trabalho.Server.Safety.Elections.{
  KeepsSafe, handle_election_message-Runs, handle_answer_message-IsSafe,
}
use inf01151_trabalho.Server.Safety.Heartbeat.{handle_ping-Runs}
use inf01151_trabalho.Server.Safety.Handlers.{
  on_find_leader-Runs, on_server_join-Runs, on_coordinator-Runs, on_rep_update-SafeOut,
  handle_discovery-Runs,
}

-- The server that a round leaves is well formed, and so is what it sends.
abbrev pub SafeRound : Round → Type 0
SafeRound r = IsSafe r.server × AllGood r.out

-- The answer to a discovery if `b`.
discovery_if-Runs :
    (b : Bool) (m : Outcome (Server × Discovery)) {s : Server}
    → IsSafe s
    → Runs (λ r. IsSafe r.0) m
    → Runs SafeRound (
        if b
        then (m >>= λ r. done (record { server = r.0; out = []; discovery = r.1; args = freed }))
        else done (quiet_round s []))
discovery_if-Runs true m safe h =
    Runs-bind (λ (r : Server × Discovery). IsSafe r.0) SafeRound m _ h (λ r h. (h, tt))
discovery_if-Runs false m safe h = (safe, tt)

-- A round whatever the type of the packet.
dispatch_as-Runs :
    (t : PacketType) (w : World) (self : SockAddr) (pkt : Packet) (from : SockAddr) {s : Server}
    → KeepsSafe w.sleep
    → IsGood pkt
    → IsSafe s
    → Runs SafeRound (dispatch_as t w self pkt from s)
unfolding dispatch_as
dispatch_as-Runs find_leader w self pkt from keeps good safe =
    Runs-bind SafeOut SafeRound _ _ (on_find_leader-Runs pkt from safe) (λ r h. h)
dispatch_as-Runs server_join w self pkt from keeps good safe =
    Runs-bind IsSafe SafeRound _ _ (on_server_join-Runs pkt from safe) (λ r h. (h, tt))
dispatch_as-Runs coordinator w self pkt from keeps good safe =
    Runs-bind SafeOut SafeRound _ _ (on_coordinator-Runs w self pkt from keeps good safe) (λ r h. h)
dispatch_as-Runs desc w self pkt from {s} keeps good safe =
    discovery_if-Runs (int_eq s.my_id s.current_leader_id) _ safe
      (handle_discovery-Runs w.server_ip w.discovery_send from safe)
dispatch_as-Runs req w self pkt from keeps good safe = (safe, tt)
dispatch_as-Runs rep_update w self pkt from keeps good safe =
    on_rep_update-SafeOut pkt from good safe
dispatch_as-Runs election w self pkt from keeps good safe =
    Runs-bind SafeOut SafeRound _ _
      (handle_election_message-Runs w.reaches w.sleep w.now (some pkt) (some from) keeps safe)
      (λ r h. h)
dispatch_as-Runs answer w self pkt from keeps good safe =
    (handle_answer_message-IsSafe (some pkt) safe, tt)
dispatch_as-Runs ping w self pkt from keeps good safe =
    Runs-bind IsSafe SafeRound _ _ (handle_ping-Runs w.now pkt from safe) (λ r h. (h, tt))
dispatch_as-Runs desc_ack w self pkt from keeps good safe = (safe, tt)
dispatch_as-Runs req_ack w self pkt from keeps good safe = (safe, tt)
dispatch_as-Runs rep_confirm w self pkt from keeps good safe = (safe, tt)

-- A round of the receive loop on a packet with a well-formed list of servers and ledger, at a
-- well-formed server, runs to its end without leaving an array or overflowing, whatever the type of
-- the packet; the server and every packet that it sends are well formed. The other threads are to
-- keep the server well formed while an election sleeps.
pub dispatch-Runs :
    (w : World) (self : SockAddr) (pkt : Packet) (from : SockAddr) {s : Server}
    → KeepsSafe w.sleep
    → IsGood pkt
    → IsSafe s
    → Runs SafeRound (dispatch w self pkt from s)
unfolding dispatch
dispatch-Runs w self pkt from keeps good safe =
    dispatch_as-Runs pkt.type w self pkt from keeps good safe
