-- ===== src/Server/Main.antt =====
-- server/server.c, `main`: the checks and the calls up to the receive loop, and a turn of the loop;
-- `init_ping_system` of server/replication.c. How the calls answer is an argument; what `atoi` reads
-- from the arguments is one too.
pub mod Exits
pub mod Turns
use inf01151_trabalho.Common.{
  ℕ, ℤ, pos, negsuc, Bool, true, false, Option, none, some, List, [], Outcome, done, ◌>>=◌, ◌==◌,
  if◌then◌else◌,
}
use inf01151_trabalho.Server.Types.{LeaderInfo, Packet, Server, Sent, SockAddr}
use inf01151_trabalho.Server.Discovery.{Discovery, silent, replied, exited}
use inf01151_trabalho.Server.Election.{all_alive}
use inf01151_trabalho.Server.Startup.{initial, startup}
use inf01151_trabalho.Server.Dispatch.{World, Round, quiet_round, dispatch}

-- Whether the calls of `main` succeed, what `recvfrom` gives within two seconds, and what the layout
-- of the union makes of a packet without a list of servers.
pub record Calls : Type 0 where
  pub mutex_init : Bool
  pub socket : Bool
  pub bind : Bool
  pub enable_broadcast : Bool
  pub ask : Bool
  pub overlay : Packet → LeaderInfo
  pub reply : Option (Packet × SockAddr)
  pub create_sender : Bool
  pub create_monitor : Bool

-- The process that serves: its globals, what it has sent since the question for the leader, and
-- which of the threads of the heartbeat run.
pub record Serving : Type 0 where
  pub server : Server
  pub out : List Sent
  pub pinging : Bool
  pub monitoring : Bool

-- Where `main` has come: it has ended with a code, with its socket open or not, or it serves.
pub data Process : Type 0 where
  ended : (code : ℤ) (socket_open : Bool) → Process
  serves : Serving → Process

-- What the sender thread of the heartbeat does first.
abbrev pub begin_pings : ℕ → Server → Server
begin_pings now s = record s { server_health = all_alive now }

-- Without the sender thread there is no monitor.
unfoldable pub init_ping_system : ℕ → Bool → Bool → Server → List Sent → Serving
init_ping_system now sender_created monitor_created s out =
    if sender_created
    then record {
      server = begin_pings now s;
      out = out;
      pinging = true;
      monitoring = monitor_created;
    }
    else record { server = s; out = out; pinging = false; monitoring = false }

-- `server_addr` is the address that is bound, `now` the clock.
unfoldable pub main : ℕ → ℤ → SockAddr → ℕ → Calls → Outcome Process
unfolding startup init_ping_system
main argc my_id server_addr now calls =
    let served = startup calls.overlay now server_addr calls.reply (initial my_id) in
    if argc == 3
    then if calls.mutex_init
      then if calls.socket
        then if calls.bind
          then if calls.enable_broadcast
            then if calls.ask
              then (do
                (s, out) ← served
                done (serves (init_ping_system now calls.create_sender calls.create_monitor s out)))
              else done (ended (negsuc 0) false)
            else done (ended (negsuc 0) true)
          else done (ended (pos 1) false)
        else done (ended (pos 1) false)
      else done (ended (negsuc 0) false)
    else done (ended (negsuc 0) false)

-- What a turn of the loop begins with: no memory for `args`, no packet, or a packet.
pub data Arrival : Type 0 where
  no_memory : Arrival
  no_packet : Arrival
  arrived : World → Packet → SockAddr → Arrival

-- What a turn leaves: the loop goes on, with no round where there are no `args`, or the process has
-- left by `exit(1)` in `handle_discovery`.
pub data Turn : Type 0 where
  goes_on : Server → Option Round → Turn
  left : Turn

abbrev pub after_round : Discovery → Round → Turn
after_round exited r = left
after_round silent r = goes_on r.server (some r)
after_round (replied addr text) r = goes_on r.server (some r)

unfoldable pub turn : SockAddr → Arrival → Server → Outcome Turn
unfolding dispatch
turn server_addr no_memory s = done (goes_on s none)
turn server_addr no_packet s = done (goes_on s (some (quiet_round s [])))
turn server_addr (arrived w pkt from) s = do
  r ← dispatch w server_addr pkt from s
  done (after_round r.discovery r)
