-- ===== src/Server/Frame/Led.antt =====
-- Who leads, as a server sees it: kept by the receive loop and by the ping monitor, from the start on.
use inf01151_trabalho.Common.{
  sym, ℕ, zero, suc, ◌≡◌, refl, ℤ, pos, pos_part, read, write, add_int, Option, none, some, Outcome,
  done, fault, arith, Bool, false, Bool-cases, inl, inr, int_eq, int_lt, int_eq_iff, if◌then◌else◌,
  List, [],
}
use inf01151_trabalho.Server.Types.{
  LeaderInfo, Replica, Role, replica_primario, replica_secundario, Packet, Server, Sent, SockAddr,
}
use inf01151_trabalho.Server.Peers.{add_peer}
use inf01151_trabalho.Server.Ping.{monitor_round}
use inf01151_trabalho.Server.Startup.{
  read_leader, add_known_from, take_over, follow, startup, initial,
}
use inf01151_trabalho.Server.Dispatch.{World, Round, dispatch}
use inf01151_trabalho.Server.Safety.{IsSafe, IsGood, SafeOut, Runs}
use inf01151_trabalho.Server.Safety.Elections.{KeepsSafe}
use inf01151_trabalho.Server.Safety.Rounds.{SafeRound, dispatch-Runs}
use inf01151_trabalho.Server.Safety.Heartbeat.{monitor_round-Runs}
use inf01151_trabalho.Server.Safety.Starts.{GoodReply, startup-Runs}
use inf01151_trabalho.Server.Frame.{
  Leaves, leaves, Leaves-done, Leaves-bind, Leaves-any, if-Leaves, Frame, Keeps,
}
use inf01151_trabalho.Server.Frame.Elections.{
  KeptOut, add_peer-Leaves, promote_to_primary-Leaves, monitor_round-Leaves,
}
use inf01151_trabalho.Server.Frame.Rounds.{dispatch-Leaves}

-- A primary is its own leader.
abbrev pub RoleFits : Role → ℤ → ℤ → Type 0
RoleFits replica_primario leader id = leader ≡ id
RoleFits replica_secundario leader id = Unit {0}

-- The id is the one that the server has started with, its leader's id is not lower, and a primary is
-- its own leader.
pub record IsLed (id : ℤ) (s : Server) : Type 0 where
  pub identity : s.my_id ≡ id
  pub not_below : int_lt s.current_leader_id s.my_id ≡ false
  pub role : RoleFits s.current_role s.current_leader_id s.my_id

int_lt_irrefl : (a : ℤ) → int_lt a a ≡ false
unfolding int_lt
int_lt_irrefl a = ground arith

-- The role that a follower takes.
followed_role :
    (id leader : ℤ)
    → RoleFits (if int_eq id leader then replica_primario else replica_secundario) leader id
followed_role id leader = elim (Bool-cases (int_eq id leader)) [
  | inl same ↦ rw same (sym ((int_eq_iff id leader).0 same))
  | inr other ↦ rw other tt
]

-- Every change that the code makes to the globals keeps it, whatever the packet.
pub led_frame : (id : ℤ) → Frame (IsLed id) (λ _. Unit {0})
led_frame id = record {
  arrays = λ s list n b health h. record {
    identity = h.identity;
    not_below = h.not_below;
    role = h.role;
  };
  registers =
      λ s ip o l e h. record { identity = h.identity; not_below = h.not_below; role = h.role };
  promotes = λ s health h. record {
    identity = h.identity;
    not_below = int_lt_irrefl s.my_id;
    role = refl;
  };
  follows = λ s leader health higher h. record {
    identity = h.identity;
    not_below = higher;
    role = followed_role s.my_id leader;
  };
  replicates =
      λ s pkt fits h. record { identity = h.identity; not_below = h.not_below; role = h.role };
}

-- What holds of a value that is there holds of the value.
Runs-Leaves {ℓ} :
    {A : Type ℓ} (P Q : A → Type 0) (m : Outcome A)
    → Runs P m
    → Leaves Q m
    → (a : A) × (m ≡ done a) × P a × Q a
Runs-Leaves P Q (done a) p q = (a, refl, p, Leaves-done q)
Runs-Leaves P Q fault p q = absurd p

-- One round of the receive loop on a well-formed packet at a well-formed server returns, and leaves
-- the server well formed; it keeps the server's id, its leader's id not lower, and a primary its own
-- leader, whatever the packet, if the other threads keep both while an election sleeps.
pub dispatch-IsLed :
    (w : World) (self : SockAddr) (pkt : Packet) (from : SockAddr) (id : ℤ) {s : Server}
    → KeepsSafe w.sleep
    → Keeps (IsLed id) w.sleep
    → IsGood pkt
    → IsSafe s
    → IsLed id s
    → (r : Round) × (dispatch w self pkt from s ≡ done r) × SafeRound r × IsLed id r.server
dispatch-IsLed w self pkt from id keeps keeps_led good safe led =
    Runs-Leaves SafeRound (λ (r : Round). IsLed id r.server) _
      (dispatch-Runs w self pkt from keeps good safe)
      (dispatch-Leaves (led_frame id) w self pkt from keeps_led tt led)

-- The servers of a reply are added one by one.
add_known_from-Leaves :
    (id : ℤ) (servers : List Replica) (i n : ℕ) {s : Server}
    → IsLed id s
    → Leaves (IsLed id) (add_known_from servers i n s)
unfolding add_known_from
add_known_from-Leaves id servers i zero h = leaves h
add_known_from-Leaves id servers i (suc n) {s} h =
    Leaves-any (IsLed id) (read servers i) _ (λ (r : Replica).
      Leaves-bind (IsLed id) (IsLed id)
        (if int_eq r.id s.my_id then done s else add_peer r.id r.addr s) _
        (if-Leaves (IsLed id) (int_eq r.id s.my_id) _ _ (leaves h)
          (add_peer-Leaves (led_frame id) r.id r.addr h))
        (λ s' h'. add_known_from-Leaves id servers (suc i) n h'))

-- A server in the role of a primary that is its own leader.
leads :
    (my_id : ℤ) (list : List Replica)
    → IsLed my_id (record (initial my_id) {
      current_role = replica_primario;
      current_leader_id = my_id;
      num_servers = pos 1;
      server_list = list;
    })
leads my_id list = record { identity = refl; not_below = int_lt_irrefl my_id; role = refl }

take_over-Leaves :
    (now : ℕ) (self : SockAddr) (info : LeaderInfo) (my_id : ℤ)
    → Leaves (KeptOut (led_frame my_id)) (take_over now self info (initial my_id))
unfolding take_over
take_over-Leaves now self info my_id =
    Leaves-any (KeptOut (led_frame my_id))
      (write (initial my_id).server_list 0 (record { id = my_id; addr = self })) _
      (λ (list : List Replica).
        Leaves-any (KeptOut (led_frame my_id)) (add_int (pos 0) 1) _ (λ (n : ℤ).
          Leaves-bind (IsLed my_id) (KeptOut (led_frame my_id))
            (add_known_from info.servers 0 (pos_part info.nr_servers) (record (initial my_id) {
              current_role = replica_primario;
              current_leader_id = my_id;
              num_servers = n;
              server_list = list;
            }))
            _
            (add_known_from-Leaves my_id info.servers 0 (pos_part info.nr_servers)
              (record { identity = refl; not_below = int_lt_irrefl my_id; role = refl }))
            (λ s h. promote_to_primary-Leaves (led_frame my_id) now s h)))

startup-Leaves :
    (overlay : Packet → LeaderInfo) (now : ℕ) (self : SockAddr) (reply : Option (Packet × SockAddr))
    (my_id : ℤ)
    → Leaves (KeptOut (led_frame my_id)) (startup overlay now self reply (initial my_id))
unfolding startup follow
startup-Leaves overlay now self none my_id =
    Leaves-any (KeptOut (led_frame my_id))
      (write (initial my_id).server_list 0 (record { id = my_id; addr = self })) _
      (λ (list : List Replica).
        leaves
          {a = (
            record (initial my_id) {
              current_role = replica_primario;
              current_leader_id = my_id;
              num_servers = pos 1;
              server_list = list;
            },
            [],
          )}
          (leads my_id list))
startup-Leaves overlay now self (some (resp, from)) my_id =
    let info = read_leader overlay resp in
    elim (Bool-cases (int_lt info.leader_id my_id)) [
      | inl lower ↦ rw lower (take_over-Leaves now self info my_id)
      | inr higher ↦ rw higher (leaves (record { identity = refl; not_below = higher; role = tt }))
    ]

-- A server that starts, with no reply or one that reads as a well-formed list, is well formed and led in its receive loop.
pub startup-IsLed :
    (overlay : Packet → LeaderInfo) (now : ℕ) (self : SockAddr) (reply : Option (Packet × SockAddr))
    (my_id : ℤ)
    → GoodReply overlay reply
    → (r : Server × List Sent) × (startup overlay now self reply (initial my_id) ≡ done r)
      × SafeOut r
      × IsLed my_id r.0
startup-IsLed overlay now self reply my_id good =
    Runs-Leaves SafeOut (λ (r : Server × List Sent). IsLed my_id r.0) _
      (startup-Runs overlay now self reply my_id good) (startup-Leaves overlay now self reply my_id)

-- A round of the ping monitor.
pub monitor_round-IsLed :
    (reaches : ℕ → Bool) (sleep : ℕ → Server → Server) (now : ℕ) (id : ℤ) {s : Server}
    → KeepsSafe sleep
    → Keeps (IsLed id) sleep
    → IsSafe s
    → IsLed id s
    → (r : Server × List Sent) × (monitor_round reaches sleep now s ≡ done r)
      × SafeOut r
      × IsLed id r.0
monitor_round-IsLed reaches sleep now id keeps keeps_led safe led =
    Runs-Leaves SafeOut (λ (r : Server × List Sent). IsLed id r.0) _
      (monitor_round-Runs reaches sleep now keeps safe)
      (monitor_round-Leaves (led_frame id) reaches sleep now keeps_led led)
