-- ===== src/Server/Frame/Rounds.antt =====
-- The receive loop under a frame.
use inf01151_trabalho.Common.{
  ℕ, pos_part, Option, none, some, List, [], done, false, Bool-cases, inl, inr, int_eq, int_lt,
}
use inf01151_trabalho.Server.Types.{
  Packet, Ledger, Server, Sent, SockAddr, PacketType, desc, req, desc_ack, req_ack, rep_update,
  rep_confirm, election, answer, coordinator, find_leader, ping, server_join,
}
use inf01151_trabalho.Server.Peers.{add_peer}
use inf01151_trabalho.Server.Clients.{find_or_add_client}
use inf01151_trabalho.Server.Replication.{handle_replication_update}
use inf01151_trabalho.Server.Election.{handle_answer_message, handle_coordinator_message}
use inf01151_trabalho.Server.Ping.{reset_health_timers}
use inf01151_trabalho.Server.Discovery.{
  SendResult, sent, would_block, failed, Discovery, replied, exited, handle_discovery,
}
use inf01151_trabalho.Server.Dispatch.{
  World, Round, quiet_round, leader_packet, announce_from, on_find_leader, on_server_join,
  on_coordinator, on_rep_update, dispatch_as, dispatch,
}
use inf01151_trabalho.Server.Frame.{
  Leaves, leaves, Leaves-bind, Leaves-any, Leaves-eq, if-Leaves, Frame, Keeps,
}
use inf01151_trabalho.Server.Frame.Elections.{
  KeptOut, election_set, add_peer-Leaves, start_election-Leaves, handle_election_message-Leaves,
  handle_coordinator_message-Leaves, apply_state_update-kept, handle_ping-Leaves,
}

module _ {Q : Server → Type 0} {Fits : Packet → Type 0} (F : Frame Q Fits) where
  abbrev pub KeptRound : Round → Type 0
  KeptRound r = Q r.server

  quiet : {s : Server} (out : List Sent) → Q s → Leaves KeptRound (done (quiet_round s out))
  quiet out h = leaves h

  on_find_leader-Leaves :
      (pkt : Packet) (from : SockAddr) {s : Server}
      → Q s
      → Leaves (KeptOut F) (on_find_leader pkt from s)
  unfolding on_find_leader
  on_find_leader-Leaves pkt from {s} h =
      if-Leaves (KeptOut F) (int_eq s.my_id s.current_leader_id) _ _
        (Leaves-bind Q (KeptOut F) (add_peer pkt.new_server.id from s) _
          (add_peer-Leaves F pkt.new_server.id from h)
          (λ s' h'.
            Leaves-any (KeptOut F)
              (announce_from s'.server_list s'.my_id pkt.new_server.id (leader_packet s') 0
                (pos_part s'.num_servers))
              _ (λ out. leaves h')))
        (leaves h)

  on_server_join-Leaves :
      (pkt : Packet) (from : SockAddr) {s : Server} → Q s → Leaves Q (on_server_join pkt from s)
  unfolding on_server_join
  on_server_join-Leaves pkt from {s} h =
      if-Leaves Q (int_eq s.my_id s.current_leader_id) _ _
        (add_peer-Leaves F pkt.new_server.id from h) (leaves h)

  on_coordinator-Leaves :
      (w : World) (self : SockAddr) (pkt : Packet) (from : SockAddr) {s : Server}
      → Keeps Q w.sleep
      → Q s
      → Leaves (KeptOut F) (on_coordinator w self pkt from s)
  unfolding on_coordinator reset_health_timers
  on_coordinator-Leaves w self pkt from {s} keeps h =
      elim (Bool-cases (int_lt pkt.leader.leader_id s.my_id)) [
        | inl lower ↦ rw lower (start_election-Leaves F w.reaches w.sleep w.now keeps h)
        | inr higher ↦ rw higher (
            Leaves-bind Q (KeptOut F) (handle_coordinator_message w.now (some pkt) s) _
              (handle_coordinator_message-Leaves F w.now pkt higher h)
              (λ s' h'.
                leaves (F.arrays s' s'.server_list s'.num_servers s'.election_in_progress _ h')))
      ]

  on_rep_update-kept :
      (pkt : Packet) (from : SockAddr) {s : Server}
      → Fits pkt
      → Q s
      → Q (on_rep_update pkt from s).0
  unfolding on_rep_update handle_replication_update
  on_rep_update-kept pkt from {s} fits h = elim (Bool-cases (int_eq s.my_id s.current_leader_id)) [
    | inl leads ↦ rw leads h
    | inr follower ↦ rw follower (apply_state_update-kept F pkt fits h)
  ]

  discovered-Leaves :
      (result : SendResult) (text : List ℕ) (from : SockAddr) {s : Server}
      → Q s
      → Leaves
          (λ (r : Server × Discovery). Q r.0)
          (elim result [
            | sent ↦ done (s, replied from text)
            | would_block ↦ done (s, replied from text)
            | failed ↦ done (s, exited)
          ])
  discovered-Leaves sent text from h = leaves h
  discovered-Leaves would_block text from h = leaves h
  discovered-Leaves failed text from h = leaves h

  handle_discovery-Leaves :
      (ip : Option (List ℕ)) (result : SendResult) (from : SockAddr) {s : Server}
      → Q s
      → Leaves (λ (r : Server × Discovery). Q r.0) (handle_discovery ip result from s)
  unfolding handle_discovery
  handle_discovery-Leaves none result from {s} h =
      if-Leaves (λ (r : Server × Discovery). Q r.0) (int_eq s.my_id s.current_leader_id) _ _
        (leaves h) (leaves h)
  handle_discovery-Leaves (some text) result from {s} h =
      if-Leaves (λ (r : Server × Discovery). Q r.0) (int_eq s.my_id s.current_leader_id) _ _
        (Leaves-eq (λ (r : Server × Discovery). Q r.0) (find_or_add_client from.s_addr s.ledger) _
          (λ (r : Option ℕ × Ledger) e.
            discovered-Leaves result text from (F.registers s from.s_addr r.0 r.1 e h)))
        (leaves h)

  dispatch_as-Leaves :
      (t : PacketType) (w : World) (self : SockAddr) (pkt : Packet) (from : SockAddr) {s : Server}
      → Keeps Q w.sleep
      → Fits pkt
      → Q s
      → Leaves KeptRound (dispatch_as t w self pkt from s)
  unfolding dispatch_as handle_answer_message
  dispatch_as-Leaves find_leader w self pkt from keeps fits h =
      Leaves-bind (KeptOut F) KeptRound _ _ (on_find_leader-Leaves pkt from h) (λ r k. quiet r.1 k)
  dispatch_as-Leaves server_join w self pkt from keeps fits h =
      Leaves-bind Q KeptRound _ _ (on_server_join-Leaves pkt from h) (λ s k. quiet [] k)
  dispatch_as-Leaves coordinator w self pkt from keeps fits h =
      Leaves-bind (KeptOut F) KeptRound _ _ (on_coordinator-Leaves w self pkt from keeps h)
        (λ r k. quiet r.1 k)
  dispatch_as-Leaves desc w self pkt from {s} keeps fits h =
      if-Leaves KeptRound (int_eq s.my_id s.current_leader_id) _ _
        (Leaves-bind (λ (r : Server × Discovery). Q r.0) KeptRound _ _
          (handle_discovery-Leaves w.server_ip w.discovery_send from h) (λ r k. leaves k))
        (quiet [] h)
  dispatch_as-Leaves req w self pkt from keeps fits h = leaves h
  dispatch_as-Leaves rep_update w self pkt from {s} keeps fits h =
      quiet (on_rep_update pkt from s).1 (on_rep_update-kept pkt from fits h)
  dispatch_as-Leaves election w self pkt from keeps fits h =
      Leaves-bind (KeptOut F) KeptRound _ _
        (handle_election_message-Leaves F w.reaches w.sleep w.now pkt from keeps h)
        (λ r k. quiet r.1 k)
  dispatch_as-Leaves answer w self pkt from {s} keeps fits h = quiet [] (election_set F false s h)
  dispatch_as-Leaves ping w self pkt from keeps fits h =
      Leaves-bind Q KeptRound _ _ (handle_ping-Leaves F w.now pkt from h) (λ s k. quiet [] k)
  dispatch_as-Leaves desc_ack w self pkt from keeps fits h = leaves h
  dispatch_as-Leaves req_ack w self pkt from keeps fits h = leaves h
  dispatch_as-Leaves rep_confirm w self pkt from keeps fits h = leaves h

  pub dispatch-Leaves :
      (w : World) (self : SockAddr) (pkt : Packet) (from : SockAddr) {s : Server}
      → Keeps Q w.sleep
      → Fits pkt
      → Q s
      → Leaves KeptRound (dispatch w self pkt from s)
  unfolding dispatch
  dispatch-Leaves w self pkt from keeps fits h =
      dispatch_as-Leaves pkt.type w self pkt from keeps fits h
