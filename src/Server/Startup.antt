-- ===== src/Server/Startup.antt =====
-- server/server.c, `main` up to the receive loop: the question for the leader, and what is made of
-- the first reply. The socket calls and the reading of the arguments are left out.
use inf01151_trabalho.Common.{
  ℕ, zero, suc, ℤ, pos, negsuc, pos_part, false, Option, none, some, List, [], ◌∷◌, if◌then◌else◌,
  int_eq, int_lt, Outcome, done, ◌>>=◌, add_int, read, write, replicate, to_u32,
}
use inf01151_trabalho.Server.Types.{
  Replica, replica_primario, replica_secundario, LeaderInfo, PacketType, coordinator, election,
  answer, ping, Packet, find_leader, server_join, Server, Sent, SockAddr, max_servers, no_replica,
  zero_packet,
}
use inf01151_trabalho.Server.Ledger.{empty_ledger}
use inf01151_trabalho.Server.Peers.{add_peer}
use inf01151_trabalho.Server.Election.{promote_to_primary}

-- The globals once `my_id` is read. `server_health` is in static storage, so it holds zeros.
abbrev pub initial : ℤ → Server
initial my_id = record {
  my_id = my_id;
  current_leader_id = negsuc 0;
  current_role = replica_secundario;
  num_servers = pos 0;
  server_list = replicate max_servers no_replica;
  ledger = empty_ledger;
  election_in_progress = false;
  server_health = replicate max_servers (record { last_ping_received = 0; is_alive = false });
}

-- The packet that is broadcast, and the one that joins a leader.
abbrev pub find_leader_packet : Replica → Packet
find_leader_packet me = record zero_packet {
  type = find_leader;
  seqn = to_u32 me.id;
  new_server = me;
}

abbrev pub join_packet : Replica → Packet
join_packet me = record zero_packet { type = server_join; seqn = to_u32 me.id; new_server = me }

-- `for (int i = 0; i < received_count; i++)`: the servers of the reply, from `i` on.
unfoldable pub add_known_from : List Replica → ℕ → ℕ → Server → Outcome Server
unfolding read int_eq add_peer
add_known_from servers i zero s = done s
add_known_from servers i (suc n) s = do
  known ← read servers i
  s' ← if int_eq known.id s.my_id then done s else add_peer known.id known.addr s
  add_known_from servers (suc i) n s'

-- A leader with a lower id: take over.
unfoldable pub take_over : ℕ → SockAddr → LeaderInfo → Server → Outcome (Server × List Sent)
unfolding write add_int add_known_from promote_to_primary
take_over now server_addr info s = do
  list ← write s.server_list 0 (record { id = s.my_id; addr = server_addr })
  n ← add_int (pos 0) 1
  s' ← add_known_from info.servers 0 (pos_part info.nr_servers) (record s {
    current_role = replica_primario;
    current_leader_id = s.my_id;
    num_servers = n;
    server_list = list;
  })
  promote_to_primary now s'

-- Any other leader: follow it.
unfoldable pub follow : SockAddr → SockAddr → LeaderInfo → Server → Server × List Sent
unfolding int_eq
follow server_addr leader_addr info s =
    let s' = record s {
      current_leader_id = info.leader_id;
      num_servers = info.nr_servers;
      server_list = info.servers;
      current_role = replica_secundario;
    } in
    let me = record no_replica { id = s.my_id; addr = server_addr } in
    (
      s',
      if int_eq s'.current_leader_id s'.my_id
          then []
          else record { to = leader_addr; pkt = join_packet me } ∷ [],
    )

-- What the bytes of a packet's union read as through `leader`: the member itself in the packets whose
-- sender writes it, and otherwise what `overlay`, the layout of the union, makes of the bytes of
-- another member.
abbrev pub read_leader_as : PacketType → LeaderInfo → LeaderInfo → LeaderInfo
read_leader_as coordinator written bytes = written
read_leader_as election written bytes = written
read_leader_as answer written bytes = written
read_leader_as ping written bytes = written
read_leader_as _ written bytes = bytes

abbrev pub read_leader : (Packet → LeaderInfo) → Packet → LeaderInfo
read_leader overlay pkt = read_leader_as pkt.type pkt.leader (overlay pkt)

-- `reply` is what `recvfrom` gives within two seconds, with its sender. The type of the packet is
-- not looked at.
unfoldable pub startup :
    (Packet → LeaderInfo)
    → ℕ
    → SockAddr
    → Option (Packet × SockAddr)
    → Server
    → Outcome (Server × List Sent)
unfolding int_lt write take_over follow
startup overlay now server_addr none s = do
  list ← write s.server_list 0 (record { id = s.my_id; addr = server_addr })
  done (
    record s {
      current_leader_id = s.my_id;
      current_role = replica_primario;
      num_servers = pos 1;
      server_list = list;
    },
    [],
  )
startup overlay now server_addr (some (resp, leader_addr)) s =
    let info = read_leader overlay resp in
    if int_lt info.leader_id s.my_id
    then take_over now server_addr info s
    else done (follow server_addr leader_addr info s)
