-- ===== src/Server/Frame/Elections.antt =====
-- The list of servers, the election and the heartbeat under a frame.
use inf01151_trabalho.Common.{
  ℕ, ◌≡◌, ℤ, pos, pos_part, Option, none, some, List, [], ◌++◌, done, ◌>>=◌, Bool, true, false, not,
  int_eq, int_lt, if◌then◌else◌, read, write, ◌==◌,
}
use inf01151_trabalho.Server.Types.{
  Role, replica_primario, replica_secundario, Packet, LeaderInfo, Server, Sent, SockAddr,
}
use inf01151_trabalho.Server.Peers.{find_server_from, add_peer, append_peer}
use inf01151_trabalho.Server.Replication.{apply_state_update}
use inf01151_trabalho.Server.Election.{
  all_alive, challenge_from, promote_to_primary, start_election, handle_election_message,
  copy_servers, revive_from, adopt_servers, handle_coordinator_message,
}
use inf01151_trabalho.Server.Ping.{Scan, scan_from, handle_ping, monitor_round}
use inf01151_trabalho.Server.Safety.{ledger_of}
use inf01151_trabalho.Server.Frame.{
  Leaves, leaves, Leaves-bind, Leaves-any, if-Leaves, Frame, Keeps,
}

module _ {Q : Server → Type 0} {Fits : Packet → Type 0} (F : Frame Q Fits) where
  -- A server with packets.
  abbrev pub KeptOut : Server × List Sent → Type 0
  KeptOut (s, out) = Q s

  append_peer-Leaves :
      (k : ℤ) (addr : SockAddr) {s : Server} → Q s → Leaves Q (append_peer k addr s)
  unfolding append_peer
  append_peer-Leaves k addr {s} h = search (if-Leaves, Leaves-any, leaves, F.arrays, h) depth 9

  -- What `add_peer` does after its search.
  found-Leaves :
      (found : Option ℕ) (k : ℤ) (addr : SockAddr) {s : Server}
      → Q s
      → Leaves Q (elim found [
        | some i ↦
            (read s.server_list i >>= λ r.
            write s.server_list i (record r { addr = addr }) >>= λ list.
            done (record s { server_list = list }))
        | none ↦ append_peer k addr s
      ])
  found-Leaves none k addr h = append_peer-Leaves k addr h
  found-Leaves (some i) k addr {s} h = search (Leaves-any, leaves, F.arrays, h) depth 7

  pub add_peer-Leaves : (k : ℤ) (addr : SockAddr) {s : Server} → Q s → Leaves Q (add_peer k addr s)
  unfolding add_peer
  add_peer-Leaves k addr {s} h = if-Leaves Q (int_eq k s.my_id) _ _ (leaves h) (
      Leaves-any Q (find_server_from k s.server_list 0 (pos_part s.num_servers)) _
        (λ (found : Option ℕ). found-Leaves found k addr h))

  pub promote_to_primary-Leaves :
      (now : ℕ) (s : Server) → Q s → Leaves KeptOut (promote_to_primary now s)
  unfolding promote_to_primary
  promote_to_primary-Leaves now s h =
      let promoted = F.promotes s (all_alive now) h in search (Leaves-any, leaves, promoted)

  pub election_set : (b : Bool) (s : Server) → Q s → Q (record s { election_in_progress = b })
  election_set b s h = F.arrays s s.server_list s.num_servers b s.server_health h

  promotion-Leaves :
      (now : ℕ) (out : List Sent) {s : Server}
      → Q s
      → Leaves KeptOut (promote_to_primary now s >>= λ r. done (r.0, out ++ r.1))
  promotion-Leaves now out {s} h =
      Leaves-bind KeptOut KeptOut _ _ (promote_to_primary-Leaves now s h) (λ r k. leaves k)

  pub start_election-Leaves :
      (reaches : ℕ → Bool) (sleep : ℕ → Server → Server) (now : ℕ) {s : Server}
      → Keeps Q sleep
      → Q s
      → Leaves KeptOut (start_election reaches sleep now s)
  unfolding start_election
  start_election-Leaves reaches sleep now {s} keeps h =
      let calling = election_set true s h in
      Leaves-any KeptOut (challenge_from reaches s.server_list s.my_id 0 (pos_part s.num_servers)) _
        (λ (r : ℕ × List Sent).
          if-Leaves KeptOut (r.0 == 0) _ _ (promotion-Leaves now r.1 (keeps 1 _ calling)) (
            if-Leaves KeptOut
              ((sleep 3 (record s { election_in_progress = true })).election_in_progress) _ _
              (promotion-Leaves now r.1 (keeps 3 _ calling))
              (leaves {a = (sleep 3 (record s { election_in_progress = true }), r.1)}
                (keeps 3 _ calling))))

  pub handle_election_message-Leaves :
      (reaches : ℕ → Bool) (sleep : ℕ → Server → Server) (now : ℕ) (pkt : Packet) (from : SockAddr)
      {s : Server}
      → Keeps Q sleep
      → Q s
      → Leaves KeptOut (handle_election_message reaches sleep now (some pkt) (some from) s)
  unfolding handle_election_message
  handle_election_message-Leaves reaches sleep now pkt from {s} keeps h =
      if-Leaves KeptOut (not s.election_in_progress) _ _
        (Leaves-bind KeptOut KeptOut _ _ (start_election-Leaves reaches sleep now keeps h)
          (λ r k. leaves k))
        (leaves h)

  adopt_servers-Leaves : (info : LeaderInfo) {s : Server} → Q s → Leaves Q (adopt_servers info s)
  unfolding adopt_servers
  adopt_servers-Leaves info {s} h =
      if-Leaves Q (int_lt (pos 0) info.nr_servers) _ _
        (Leaves-any Q (copy_servers info.nr_servers info.servers s.server_list) _ (λ list.
          leaves (F.arrays s list info.nr_servers s.election_in_progress s.server_health h)))
        (leaves h)

  pub handle_coordinator_message-Leaves :
      (now : ℕ) (pkt : Packet) {s : Server}
      → int_lt pkt.leader.leader_id s.my_id ≡ false
      → Q s
      → Leaves Q (handle_coordinator_message now (some pkt) s)
  unfolding handle_coordinator_message
  handle_coordinator_message-Leaves now pkt {s} higher h =
      Leaves-any Q
        (revive_from now pkt.leader.leader_id s.server_list s.server_health 0
          (pos_part s.num_servers))
        _
        (λ health.
          adopt_servers-Leaves pkt.leader (F.follows s pkt.leader.leader_id health higher h))

  pub apply_state_update-kept :
      (pkt : Packet) {s : Server} → Fits pkt → Q s → Q (apply_state_update (some pkt.rep) s)
  unfolding apply_state_update
  apply_state_update-kept pkt {s} fits h =
      elim s.current_role
        as (λ (r : Role). Q (elim r [
          | replica_primario ↦ s
          | replica_secundario ↦ record s { ledger = ledger_of pkt.rep }
        ])) [ replica_primario ↦ h | replica_secundario ↦ F.replicates s pkt fits h ]

  pub handle_ping-Leaves :
      (now : ℕ) (pkt : Packet) (from : SockAddr) {s : Server}
      → Q s
      → Leaves Q (handle_ping now (some pkt) (some from) s)
  unfolding handle_ping
  handle_ping-Leaves now pkt from {s} h =
      Leaves-any Q (find_server_from pkt.leader.leader_id s.server_list 0 (pos_part s.num_servers))
        _ (λ found. pinged found)
    where
      pinged :
          (found : Option ℕ)
          → Leaves Q (elim found [
            | none ↦ done s
            | some i ↦
                (write s.server_health i (record { last_ping_received = now; is_alive = true })
                  >>= λ health. done (record s { server_health = health }))
          ])
      pinged none = leaves h
      pinged (some i) = search (Leaves-any, leaves, F.arrays, h)

  election_if-Leaves :
      (b : Bool) (reaches : ℕ → Bool) (sleep : ℕ → Server → Server) (now : ℕ) {s : Server}
      → Keeps Q sleep
      → Q s
      → Leaves KeptOut (if b then start_election reaches sleep now s else done (s, []))
  election_if-Leaves b reaches sleep now {s} keeps h =
      if-Leaves KeptOut b _ _ (start_election-Leaves reaches sleep now keeps h)
        (leaves {a = (s, [])} h)

  pub monitor_round-Leaves :
      (reaches : ℕ → Bool) (sleep : ℕ → Server → Server) (now : ℕ) {s : Server}
      → Keeps Q sleep
      → Q s
      → Leaves KeptOut (monitor_round reaches sleep now s)
  unfolding monitor_round
  monitor_round-Leaves reaches sleep now {s} keeps h =
      Leaves-any KeptOut
        (scan_from now s.my_id s.current_leader_id 0 (pos_part s.num_servers) (record {
          list = s.server_list;
          health = s.server_health;
          count = s.num_servers;
          leader_failed = false;
        }))
        _
        (λ (c : Scan).
          election_if-Leaves _ reaches sleep now keeps
            (F.arrays s c.list c.count s.election_in_progress c.health h))
