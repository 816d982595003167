-- ===== src/Server/Tests/Process.antt =====
-- A whole server process at concrete inputs: its start, its loop, its log, and the last transfer that
-- its counter has room for.
use inf01151_trabalho.Common.{
  Option, ◌^◌, ◌-◌, ◌≡◌, ◌↔◌, refl, ◌<ℤ◌, int_max, int_lt, pos, negsuc, ◌+ℤ◌, true, false, none,
  some, List, replicate, ◌++◌, [], ◌∷◌, arith, fault, done,
}
use inf01151_trabalho.Server.Types.{
  Packet, desc, zero_packet, replica_primario, no_replica, no_client, Health, Ledger, Server,
}
use inf01151_trabalho.Server.Clients.Find.{sum_balances}
use inf01151_trabalho.Server.Ledger.{IsValid, empty_ledger, empty_ledger-IsValid}
use inf01151_trabalho.Server.Safety.{IsGood, leader_id_good}
use inf01151_trabalho.Server.Discovery.{failed}
use inf01151_trabalho.Server.Bank.{executed}
use inf01151_trabalho.Server.Processing.{handle_request}
use inf01151_trabalho.Server.Processing.Handle.{bank_answer}
use inf01151_trabalho.Server.Processing.Overflow.{handle_request-fault}
use inf01151_trabalho.Server.Replication.Sends.{HasPeers}
use inf01151_trabalho.Server.Startup.{initial, startup}
use inf01151_trabalho.Server.Life.{
  IsUp, served, stays, received, monitored, Reached, started, moved, Reached-IsUp,
}
use inf01151_trabalho.Server.Dispatch.{dispatch}
use inf01151_trabalho.Server.Clients.{new_client}
use inf01151_trabalho.Server.Ping.{monitor_round}
use inf01151_trabalho.Server.Main.{Calls, Arrival, no_memory, no_packet, arrived}
use inf01151_trabalho.Server.Main.Turns.{turns, turns-Lasts, Lasts}
use inf01151_trabalho.Print.{text, digits, skipped, int, lit', signed'}
use inf01151_trabalho.Print.Numbers.{IsInt}
use inf01151_trabalho.Print.Clock.{Tm, IsTime, date_read}
use inf01151_trabalho.Server.Log.{log_history, log_request}
use inf01151_trabalho.Server.Log.Reading.{
  logged, history_format, request_format, request_read, scan_line-log_history,
  scan_lines-log_request,
}
use inf01151_trabalho.Server.Tests.{client_a, two_clients, primary, transfer_packet}
use inf01151_trabalho.Server.Tests.Network.{
  no_overlay, calm, port_of, primary-IsSafe, newcomer, newcomer-IsGood, leader_reply,
}

-- The primary after as many transfers as an `int` counts.
abbrev counted_out : Ledger
counted_out = record two_clients { num_transactions = pos (2 ^ 31 - 1) }

counted_out-IsValid : IsValid counted_out
unfolding sum_balances
counted_out-IsValid = record {
  size = refl;
  counted = refl;
  few = omega arith;
  total = refl;
  money = refl;
}

abbrev worn : Server
worn = record primary { ledger = counted_out }

worn-HasPeers : HasPeers worn
worn-HasPeers = record { list_size = refl; servers_counted = refl; servers_few = omega arith }

handle_request-fault_example :
    (handle_request (some client_a) (some (transfer_packet 1 22 30)) worn ≡ fault) ↔ (
      ((bank_answer client_a (transfer_packet 1 22 30) worn).0 ≡ executed)
      × ¬ (pos (2 ^ 31 - 1) <ℤ int_max))
handle_request-fault_example =
    handle_request-fault client_a (transfer_packet 1 22 30) refl counted_out-IsValid worn-HasPeers

primary-IsUp : IsUp (pos 3) primary
unfolding int_lt
primary-IsUp = (primary-IsSafe, record { identity = refl; not_below = refl; role = refl })

-- The server 3 with no other.
abbrev alone : Server
alone = record (initial (pos 3)) {
  current_leader_id = pos 3;
  current_role = replica_primario;
  num_servers = pos 1;
  server_list = record { id = pos 3; addr = port_of 0 } ∷ replicate 3 no_replica;
}

abbrev never_heard : Health
never_heard = record { last_ping_received = 0; is_alive = false }

-- The server 7 has come, a client has made itself known, and the monitor has sent its pings.
abbrev joined_by : Server
joined_by = record alone {
  num_servers = pos 2;
  server_list =
      record { id = pos 3; addr = port_of 0 }
      ∷ record { id = pos 7; addr = port_of 107 }
      ∷ replicate 2 no_replica;
  server_health =
      never_heard ∷ record { last_ping_received = 100; is_alive = true } ∷ replicate 2 never_heard;
  ledger = record empty_ledger {
    total_balance = pos 100;
    num_clients = pos 1;
    client_table = new_client 11 ∷ replicate 9 no_client;
  };
}

joined_by-Reached : Reached (port_of 0) (pos 3) joined_by
unfolding startup dispatch monitor_round handle_request
joined_by-Reached = moved (started no_overlay 100 none tt refl) (
    monitored (λ i. true) (λ k s. s) 100
      (served client_a (transfer_packet 1 22 30)
        (received calm newcomer (port_of 107) stays (λ k s. stays) newcomer-IsGood refl) refl refl)
      (λ k s. stays) refl)

Reached-IsUp_example : IsUp (pos 3) joined_by
Reached-IsUp_example = Reached-IsUp (port_of 0) (pos 3) joined_by-Reached

abbrev good_calls : Calls
good_calls = record {
  mutex_init = true;
  socket = true;
  bind = true;
  enable_broadcast = true;
  ask = true;
  overlay = no_overlay;
  reply = some (leader_reply, port_of 103);
  create_sender = true;
  create_monitor = false;
}

abbrev discovery : Packet
discovery = record zero_packet { type = desc }

discovery-IsGood : IsGood discovery
discovery-IsGood = record { good_leader = leader_id_good (pos 0); good_rep = empty_ledger-IsValid }

-- The last is a DESC for which `sendto` fails.
abbrev four_arrivals : List Arrival
four_arrivals =
    no_memory
    ∷ arrived calm newcomer (port_of 107)
    ∷ no_packet
    ∷ arrived (record calm { discovery_send = failed }) discovery client_a
    ∷ []

left_run : turns (port_of 0) four_arrivals primary ≡ done none
unfolding turns
left_run = refl

turns-Lasts_example :
    (o : Option Server) × (turns (port_of 0) four_arrivals primary ≡ done o)
    × Lasts (port_of 0) (pos 3) four_arrivals primary o
turns-Lasts_example =
    turns-Lasts (port_of 0) four_arrivals (pos 3)
      (tt, ((λ k s. stays, newcomer-IsGood), (tt, ((λ k s. stays, discovery-IsGood), tt))))
      primary-IsUp

-- The fifth of March 2025, at seven.
abbrev morning : Tm
morning = record {
  tm_year = pos 125;
  tm_mon = pos 2;
  tm_mday = pos 5;
  tm_hour = pos 7;
  tm_min = pos 0;
  tm_sec = pos 0;
}

small-IsInt : IsInt (pos 0)
small-IsInt = (omega arith, omega arith)

morning-IsTime : IsTime morning
unfolding ◌+ℤ◌
morning-IsTime = record {
  year = (omega arith, omega arith);
  month = (omega arith, omega arith);
  day = (omega arith, omega arith);
  hour = (omega arith, omega arith);
  minute = (omega arith, omega arith);
  second = (omega arith, omega arith);
  year_room = omega arith;
  month_room = omega arith;
}

log_run :
    log_history morning (pos 4) (pos 60) (negsuc 0)
    ≡ done (
        (text "2025-03-05 07:00:00 num_transactions 4 total_transferred 60 total_balance -1"
          ++ (10 ∷ []))
        ∷ [])
unfolding log_history digits
log_run = refl

scan_line-log_history_example :
    logged (history_format ∷ []) (log_history morning (pos 4) (pos 60) (negsuc 0))
    ≡ done (
        some (
          date_read morning (
            skipped
            ∷ int (pos 4)
            ∷ skipped
            ∷ int (pos 60)
            ∷ skipped
            ∷ int (negsuc 0)
            ∷ skipped
            ∷ []))
        ∷ [])
scan_line-log_history_example =
    scan_line-log_history (pos 4) (pos 60) (negsuc 0) morning-IsTime (omega arith, omega arith)
      (omega arith, omega arith) (omega arith, omega arith)

scan_lines-log_request_example :
    logged
      (request_format (text " id req ")
        ∷ (lit' (text "num transactions ") ∷ signed' ∷ lit' (10 ∷ []) ∷ [])
        ∷ (lit' (text "total transferred ")
            ∷ signed'
            ∷ lit' (text " total balance ")
            ∷ signed'
            ∷ lit' (10 ∷ [])
            ∷ [])
        ∷ [])
      (log_request morning (text "10.0.0.1") (text "10.0.0.2") 1 30 (pos 1) (pos 30) (pos 200))
    ≡ done (
        some (request_read morning (text "10.0.0.1") (text "10.0.0.2") 1 30)
        ∷ some (skipped ∷ int (pos 1) ∷ skipped ∷ [])
        ∷ some (skipped ∷ int (pos 30) ∷ skipped ∷ int (pos 200) ∷ skipped ∷ [])
        ∷ [])
scan_lines-log_request_example =
    scan_lines-log_request (text "10.0.0.1") (text "10.0.0.2") 1 30 (pos 1) (pos 30) (pos 200)
      morning-IsTime (refl, (refl, (refl, (refl, (refl, (refl, (refl, (refl, tt))))))))
      (refl, (refl, (refl, (refl, (refl, (refl, (refl, (refl, tt)))))))) (omega arith) (omega arith)
      (omega arith, omega arith) (omega arith, omega arith) (omega arith, omega arith)
