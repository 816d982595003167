-- ===== src/Server/Election.antt =====
-- server/replication.c, the election of a leader by the bully algorithm. A handler reads the clock
-- once; printing is left out. Pointers that the code tests for NULL are options.
use inf01151_trabalho.Common.{
  ℕ, zero, suc, ◌+◌, ℤ, pos, pos_part, Bool, true, false, not, Option, none, some, List, [], ◌∷◌,
  ◌++◌, ◌==◌, if◌then◌else◌, int_eq, int_lt, Outcome, done, ◌>>=◌, read, write, replicate,
}
use Prim.Native.Nat.{min}
use inf01151_trabalho.Server.Types.{
  Replica, replica_primario, replica_secundario, LeaderInfo, Packet, election, answer, coordinator,
  Health, Server, Sent, SockAddr, max_servers, zero_packet,
}
use inf01151_trabalho.Server.Replication.{send_others, propagate_state_to_backups}

-- `for (int i = 0; i < num_servers && i < MAX_SERVERS; i++) to[i] = from[i];`
unfoldable pub copy_from : List Replica → List Replica → ℕ → ℕ → Outcome (List Replica)
unfolding read write
copy_from source target i zero = done target
copy_from source target i (suc n) = do
  r ← read source i
  target' ← write target i r
  copy_from source target' (suc i) n

abbrev pub copy_servers : ℤ → List Replica → List Replica → Outcome (List Replica)
copy_servers count source target = copy_from source target 0 (min (pos_part count) max_servers)

-- `server_health` as `promote_to_primary`, `reset_health_timers` and the start of the ping thread
-- write it.
abbrev pub all_alive : ℕ → List Health
all_alive now = replicate max_servers (record { last_ping_received = now; is_alive = true })

unfoldable pub promote_to_primary : ℕ → Server → Outcome (Server × List Sent)
unfolding copy_from send_others propagate_state_to_backups
promote_to_primary now s = do
  let s' = record s {
    current_role = replica_primario;
    current_leader_id = s.my_id;
    election_in_progress = false;
    server_health = all_alive now;
  }
  servers ← copy_servers s'.num_servers s'.server_list zero_packet.leader.servers
  let pkt = record zero_packet {
    type = coordinator;
    leader = record { leader_id = s.my_id; nr_servers = s'.num_servers; servers = servers };
  }
  out ← send_others pkt s'
  updates ← propagate_state_to_backups s'
  done (s', out ++ updates)

abbrev pub election_packet : ℤ → Packet
election_packet my_id = record zero_packet {
  type = election;
  leader = record zero_packet.leader { leader_id = my_id };
}

-- The loop of `start_election`, from `i` on: how many sends to higher servers succeed, and the
-- sends. `reaches i` is whether the `sendto` to `server_list[i]` succeeds.
unfoldable pub challenge_from : (ℕ → Bool) → List Replica → ℤ → ℕ → ℕ → Outcome (ℕ × List Sent)
unfolding read int_lt
challenge_from reaches list my_id i zero = done (0, [])
challenge_from reaches list my_id i (suc n) =
    let rest = challenge_from reaches list my_id (suc i) n in
    do
      r ← read list i
      (count, out) ← rest
      if int_lt my_id r.id
          then done (
            (if reaches i then count + 1 else count),
            record { to = r.addr; pkt = election_packet my_id } ∷ out,
          )
          else done (count, out)

-- `sleep k` is what the other threads do to the globals while this one sleeps `k` seconds.
unfoldable pub start_election :
    (ℕ → Bool) → (ℕ → Server → Server) → ℕ → Server → Outcome (Server × List Sent)
unfolding challenge_from promote_to_primary
start_election reaches sleep now s = do
  let s₁ = record s { election_in_progress = true }
  (sent_to_higher, out) ← challenge_from reaches s₁.server_list s₁.my_id 0 (pos_part s₁.num_servers)
  if sent_to_higher == 0
      then (do (s₂, out') ← promote_to_primary now (sleep 1 s₁); done (s₂, out ++ out'))
      else (let s₂ = sleep 3 s₁ in
          if s₂.election_in_progress
          then (do (s₃, out') ← promote_to_primary now s₂; done (s₃, out ++ out'))
          else done (s₂, out))

abbrev pub answer_packet : ℤ → Packet
answer_packet my_id = record zero_packet {
  type = answer;
  leader = record zero_packet.leader { leader_id = my_id };
}

unfoldable pub handle_election_message :
    (ℕ → Bool)
    → (ℕ → Server → Server)
    → ℕ
    → Option Packet
    → Option SockAddr
    → Server
    → Outcome (Server × List Sent)
unfolding start_election
handle_election_message reaches sleep now none sender s = done (s, [])
handle_election_message reaches sleep now (some pkt) none s = done (s, [])
handle_election_message reaches sleep now (some pkt) (some sender) s = do
  let reply : Sent = record { to = sender; pkt = answer_packet s.my_id }
  if not s.election_in_progress
      then (do (s', out) ← start_election reaches sleep now s; done (s', reply ∷ out))
      else done (s, reply ∷ [])

unfoldable pub handle_answer_message : Option Packet → Server → Server
handle_answer_message none s = s
handle_answer_message (some pkt) s = record s { election_in_progress = false }

-- The loop of `handle_coordinator_message` over `server_health`, from `i` on.
unfoldable pub revive_from : ℕ → ℤ → List Replica → List Health → ℕ → ℕ → Outcome (List Health)
unfolding read write int_eq
revive_from now id list health i zero = done health
revive_from now id list health i (suc n) = do
  r ← read list i
  health' ←
      if int_eq r.id id
      then write health i (record { last_ping_received = now; is_alive = true })
      else done health
  revive_from now id list health' (suc i) n

-- `if (pkt->leader.nr_servers > 0)`: the list of the announcement replaces one's own.
unfoldable pub adopt_servers : LeaderInfo → Server → Outcome Server
unfolding int_lt copy_from
adopt_servers info s =
    if int_lt (pos 0) info.nr_servers
    then (do
      list ← copy_servers info.nr_servers info.servers s.server_list
      done (record s { num_servers = info.nr_servers; server_list = list }))
    else done s

unfoldable pub handle_coordinator_message : ℕ → Option Packet → Server → Outcome Server
unfolding revive_from adopt_servers int_eq
handle_coordinator_message now none s = done s
handle_coordinator_message now (some pkt) s = do
  let new_leader_id = pkt.leader.leader_id
  health ← revive_from now new_leader_id s.server_list s.server_health 0 (pos_part s.num_servers)
  adopt_servers pkt.leader (record s {
    current_leader_id = new_leader_id;
    server_health = health;
    election_in_progress = false;
    current_role = if int_eq s.my_id new_leader_id then replica_primario else replica_secundario;
  })
