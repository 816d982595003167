-- ===== src/Server/Safety/Starts.antt =====
-- The start of a server runs to its end and leaves it well formed.
use inf01151_trabalho.Common.{
  ◌∙◌, ℕ, zero, suc, ◌+◌, ◌≤◌, refl, ℤ, pos, pos_part, Option, none, some, List, [], ◌∷◌, length,
  length-set, set, done, arith, Bool, true, false, Bool-cases, inl, inr, int_eq, int_lt,
  if◌then◌else◌, write-eq-set,
}
use inf01151_trabalho.Server.Types.{Replica, replica_primario, LeaderInfo, Packet, Server, SockAddr}
use inf01151_trabalho.Server.Ledger.{empty_ledger-IsValid}
use inf01151_trabalho.Server.Peers.{add_peer}
use inf01151_trabalho.Server.Startup.{
  initial, read_leader, join_packet, add_known_from, take_over, follow, startup,
}
use inf01151_trabalho.Server.Safety.{
  IsSafe, IsLeaderInfo, AllGood, SafeOut, Runs, Runs-bind, leader_id_good,
}
use inf01151_trabalho.Server.Safety.Loops.{read-Runs}
use inf01151_trabalho.Server.Safety.Elections.{promote_to_primary-Runs}
use inf01151_trabalho.Server.Safety.Handlers.{add_peer-Runs}

-- A known server is added, if it is another one.
add_if-Runs :
    (own : Bool) (id : ℤ) (addr : SockAddr) {s : Server}
    → IsSafe s
    → Runs IsSafe (if own then done s else add_peer id addr s)
add_if-Runs true id addr safe = safe
add_if-Runs false id addr safe = add_peer-Runs id addr safe

add_known_from-Runs :
    (servers : List Replica) (i n : ℕ) {s : Server}
    → i + n ≤ length servers
    → IsSafe s
    → Runs IsSafe (add_known_from servers i n s)
unfolding add_known_from
add_known_from-Runs servers i zero h safe = safe
add_known_from-Runs servers i (suc n) {s} h safe =
    let (r, at) = read-Runs servers i (omega arith) in
    rw at (
      Runs-bind IsSafe IsSafe _ _ (add_if-Runs (int_eq r.id s.my_id) r.id r.addr safe)
        (λ s' safe'. add_known_from-Runs servers (suc i) n (omega arith) safe'))

-- The server alone in its list.
alone-IsSafe :
    (me : Replica) (leader : ℤ) {s : Server}
    → IsSafe s
    → IsSafe (record s {
      current_leader_id = leader;
      current_role = replica_primario;
      num_servers = pos 1;
      server_list = set s.server_list 0 me;
    })
alone-IsSafe me leader {s} safe = record {
  has_peers = record {
    list_size = length-set s.server_list 0 me ∙ safe.has_peers.list_size;
    servers_counted = refl;
    servers_few = omega arith;
  };
  health_size = safe.health_size;
  valid = safe.valid;
}

take_over-Runs :
    (now : ℕ) (self : SockAddr) (info : LeaderInfo) {s : Server}
    → IsLeaderInfo info
    → IsSafe s
    → Runs SafeOut (take_over now self info s)
unfolding take_over
take_over-Runs now self info {s} good safe =
    let me : Replica = record { id = s.my_id; addr = self } in
    rw (write-eq-set s.server_list 0 me (omega (arith, safe.has_peers.list_size))) (
      Runs-bind IsSafe SafeOut _ _
        (add_known_from-Runs info.servers 0 (pos_part info.nr_servers)
          (omega (arith, good.info_size, good.info_few)) (alone-IsSafe me s.my_id safe))
        (λ s' safe'. promote_to_primary-Runs now safe'))

join_if-good :
    (own : Bool) (me : Replica) (to : SockAddr)
    → AllGood (if own then [] else record { to = to; pkt = join_packet me } ∷ [])
join_if-good true me to = tt
join_if-good false me to =
    (record { good_leader = leader_id_good (pos 0); good_rep = empty_ledger-IsValid }, tt)

follow-SafeOut :
    (self from : SockAddr) (info : LeaderInfo) {s : Server}
    → IsLeaderInfo info
    → IsSafe s
    → SafeOut (follow self from info s)
unfolding follow
follow-SafeOut self from info {s} good safe = (
  record {
    has_peers = record {
      list_size = good.info_size;
      servers_counted = good.info_counted;
      servers_few = good.info_few;
    };
    health_size = safe.health_size;
    valid = safe.valid;
  },
  join_if-good (int_eq info.leader_id s.my_id) _ from,
)

initial-IsSafe : (my_id : ℤ) → IsSafe (initial my_id)
initial-IsSafe my_id = record {
  has_peers = record { list_size = refl; servers_counted = refl; servers_few = omega arith };
  health_size = refl;
  valid = empty_ledger-IsValid;
}

-- What the start reads as a list of servers in the first packet, if there is one, is well formed.
abbrev pub GoodReply : (Packet → LeaderInfo) → Option (Packet × SockAddr) → Type 0
GoodReply overlay none = Unit
GoodReply overlay (some (resp, from)) = IsLeaderInfo (read_leader overlay resp)

-- A server that starts, with any id, and gets no packet in the first two seconds, or one in which
-- the bytes that it reads as a list of servers, whatever the type of the packet, are a well-formed
-- list with a count that stays in it, reaches its receive loop without leaving an array or
-- overflowing; it and every packet that it sends are well formed.
pub startup-Runs :
    (overlay : Packet → LeaderInfo) (now : ℕ) (self : SockAddr) (reply : Option (Packet × SockAddr))
    (my_id : ℤ)
    → GoodReply overlay reply
    → Runs SafeOut (startup overlay now self reply (initial my_id))
unfolding startup
startup-Runs overlay now self none my_id good =
    let me : Replica = record { id = my_id; addr = self } in
    (alone-IsSafe me my_id (initial-IsSafe my_id), tt)
startup-Runs overlay now self (some (resp, from)) my_id good =
    let info = read_leader overlay resp in
    elim (Bool-cases (int_lt info.leader_id my_id)) [
      | inl lower ↦ rw lower (take_over-Runs now self info good (initial-IsSafe my_id))
      | inr higher ↦ rw higher (follow-SafeOut self from info good (initial-IsSafe my_id))
    ]
