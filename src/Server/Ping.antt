-- ===== src/Server/Ping.antt =====
-- server/replication.c, the heartbeat: `handle_ping`, `reset_health_timers`, and the rounds of
-- `ping_sender_thread` and `ping_monitor_thread`. Clock readings are not negative, so `-` that stops
-- at 0 decides the tests on `elapsed` as the signed one does.
pub mod Shift
pub mod Scans
pub mod Removal
use inf01151_trabalho.Common.{
  ℕ, zero, suc, ◌-◌, ℤ, negsuc, pos_part, Bool, true, false, not, ◌&&◌, Option, none, some, List,
  [], ◌==◌, ltb, leb, if◌then◌else◌, int_eq, Outcome, done, ◌>>=◌, read, write, to_u32, ◌+ℤ◌,
}
use inf01151_trabalho.Server.Types.{
  Replica, Packet, PacketType, Health, Server, Sent, SockAddr, zero_packet,
}
use inf01151_trabalho.Server.Peers.{find_server_from}
use inf01151_trabalho.Server.Replication.{send_others}
use inf01151_trabalho.Server.Election.{all_alive, start_election}

abbrev pub ping_timeout : ℕ
ping_timeout = 6

-- `handle_ping`: the loop stops at the first server with the sender's id.
unfoldable pub handle_ping : ℕ → Option Packet → Option SockAddr → Server → Outcome Server
unfolding find_server_from write
handle_ping now none sender s = done s
handle_ping now (some pkt) none s = done s
handle_ping now (some pkt) (some sender) s = do
  found ← find_server_from pkt.leader.leader_id s.server_list 0 (pos_part s.num_servers)
  elim found [
    | none ↦ done s
    | some i ↦ do
      health ← write s.server_health i (record { last_ping_received = now; is_alive = true })
      done (record s { server_health = health })
  ]

unfoldable pub reset_health_timers : ℕ → Server → Server
reset_health_timers now s = record s { server_health = all_alive now }

abbrev pub ping_packet : ℤ → Packet
ping_packet my_id = record zero_packet {
  type = PacketType.ping;
  seqn = to_u32 my_id;
  leader = record zero_packet.leader { leader_id = my_id };
}

-- One round of the loop of `ping_sender_thread`.
unfoldable pub ping_round : Server → Outcome (List Sent)
unfolding send_others
ping_round s = send_others (ping_packet s.my_id) s

-- `for (int j = i; j < num_servers - 1; j++) { list[j] = list[j+1]; health[j] = health[j+1]; }`,
-- from `j` on with the rounds that are left.
unfoldable pub shift_from :
    List Replica → List Health → ℕ → ℕ → Outcome (List Replica × List Health)
unfolding read write
shift_from list health j zero = done (list, health)
shift_from list health j (suc n) = do
  r ← read list (suc j)
  list' ← write list j r
  h ← read health (suc j)
  health' ← write health j h
  shift_from list' health' (suc j) n

-- What the monitor does with the server at one index.
pub data Finding : Type 0 where
  keep : Health → Finding  -- the entry of `server_health` as it is left
  remove : Finding

unfoldable pub examine : ℕ → Health → Finding
examine now h =
    if h.last_ping_received == 0
    then keep (record { last_ping_received = now; is_alive = true })
    else (let elapsed = now - h.last_ping_received in
        if ltb ping_timeout elapsed && h.is_alive
        then remove
        else if leb elapsed ping_timeout && not h.is_alive
        then keep (record h { is_alive = true })
        else keep h)

-- What is done with the finding: the entry is written, or the server removed.
abbrev pub on_finding {ℓ} : {A : Type ℓ} → Finding → (Health → A) → A → A
on_finding (keep h) kept removed = kept h
on_finding remove kept removed = removed

-- What the loop of `ping_monitor_thread` works on: the two arrays, `num_servers` and
-- `leader_failed`.
pub record Scan : Type 0 where
  pub list : List Replica
  pub health : List Health
  pub count : ℤ
  pub leader_failed : Bool

-- The loop, at `i` with `n` rounds left: a removal lowers `num_servers` and `i`, so that it takes a
-- round as any other step does.
unfoldable pub scan_from : ℕ → ℤ → ℤ → ℕ → ℕ → Scan → Outcome Scan
unfolding read write int_eq examine shift_from ◌+ℤ◌
scan_from now my_id leader i zero c = done c
scan_from now my_id leader i (suc n) c =
    let skip = scan_from now my_id leader (suc i) n c in
    do
      r ← read c.list i
      if int_eq r.id my_id then skip else (do
        h ← read c.health i
        on_finding (examine now h)
            (λ h'.
              write c.health i h'
              >>= (λ health. scan_from now my_id leader (suc i) n (record c { health = health })))
            (write c.health i (record h { is_alive = false }) >>= (λ health.
              shift_from c.list health i n >>= (λ arrays. scan_from now my_id leader i n (record {
                list = arrays.0;
                health = arrays.1;
                count = c.count +ℤ negsuc 0;
                leader_failed = if int_eq r.id leader then true else c.leader_failed;
              })))))

-- One round of the loop of `ping_monitor_thread`: the scan, and the election that a failure of the
-- leader calls for.
unfoldable pub monitor_round :
    (ℕ → Bool) → (ℕ → Server → Server) → ℕ → Server → Outcome (Server × List Sent)
unfolding scan_from start_election
monitor_round reaches sleep now s = do
  c ← scan_from now s.my_id s.current_leader_id 0 (pos_part s.num_servers) (record {
    list = s.server_list;
    health = s.server_health;
    count = s.num_servers;
    leader_failed = false;
  })
  let s' = record s { server_list = c.list; server_health = c.health; num_servers = c.count }
  if c.leader_failed && not s'.election_in_progress && not (int_eq s'.current_leader_id s'.my_id)
      then start_election reaches sleep now s'
      else done (s', [])
