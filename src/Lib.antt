-- ===== src/Lib.antt =====
-- A bank over UDP with a replicated server, and its client.
--
-- The program. A client (client/) looks for the server by broadcast, and then reads commands from
-- the standard input in one thread, hands them through a bounded queue to a second thread, and
-- sends them one at a time under a sequence number. A server (server/) keeps a table of clients
-- with a balance each; every request may register its sender, and moves money if it is no duplicate
-- and the balance allows it. One server is the primary. It sends its whole state to the others after
-- each transfer; the servers ping one another, drop the silent ones, and hold a bully election where
-- the leader is silent.
--
-- The modules and the sources.
--   Common             lists, arrays with bounds, C ints, `Outcome`: a value or a fault. A fault is a
--                      read or write outside an array, or a signed overflow.
--   Server.Types       server/server.h and the globals of server/server.c, as the record `Server`
--   Server.Clients     server/processing.c: find_client_by_ip, find_or_add_client
--   Server.Processing  server/processing.c: handle_request, as `serve` (under data_mutex) and
--                      `ack_packet` (after it)
--   Server.Threads     server/processing.c: process_request_thread, any number of threads interleaved
--   Server.Replication server/replication.c: propagate_state_to_backups, apply_state_update,
--                      handle_replication_update
--   Server.Peers       server/server.c: add_peer
--   Server.Election    server/replication.c: start_election, promote_to_primary and the handlers of
--                      ELECTION, ANSWER and COORDINATOR
--   Server.Ping        server/replication.c: handle_ping, reset_health_timers, and a round of each of
--                      the loops of ping_sender_thread and ping_monitor_thread
--   Server.Discovery   server/discovery.c: handle_discovery
--   Server.Startup     server/server.c: main from the question for the leader to the receive loop
--   Server.Main        server/server.c: main as a whole, and a turn of its loop; init_ping_system
--   Server.Dispatch    server/server.c: what the receive loop does with one packet
--   Server.Log         server/interface.c
--   Server.Safety      what keeps a server well formed, handler by handler
--   Server.Frame       what every change to the globals keeps is kept by every handler
--   Server.Life        a server from its start on, its threads in any order
--   Server.Backups     a primary and a backup together: replication of a transfer
--   Server.Leadership  the new leader and another server together: an election and its announcement
--   Client.Types       client/client.h
--   Client.Queue       client/processing.c: queue_init, queue_push, queue_pop
--   Client.Parse       client/processing.c: parse_command
--   Client.Sender      client/processing.c: one command in sender_thread
--   Client.Threads     client/processing.c: reader_thread and sender_thread, interleaved, and their
--                      signals
--   Client.Discovery   client/discovery.c: discover_server
--   Client.Main        client/client.c, and request of client/processing.c with its failures
--   Client.Log         client/interface.c
--   Exchange           a client and its server together, over a network that loses packets
--   Print              the C library's printf, and a reader of what it prints
--
-- The specifications. Server.Bank is the bank that the table of clients stands for: a map from
-- addresses to accounts, a registration and the verdict on a request. Server.Ledger says when a table
-- is well formed and which bank it stands for. Client.Queue.Channel is the bounded channel that the
-- ring of the command queue stands for. Server.Safety says when a server and a packet are well
-- formed. Client.Main.Ends says in which order a process may take and let go of what it holds.
--
-- How it is modelled. A function that changes globals takes a `Server` and returns it with the
-- list of packets that it sends, in order. A handler reads the clock once. What the other
-- threads of a server do while one of them sleeps in an election is an argument of that handler
-- (in Server.Life, any moves of theirs); so are the results of sendto, getsockname,
-- pthread_create and the other calls that the code tests. `sscanf` and `inet_aton` are the
-- fields of `Libc`. The loops over arrays run on the number of rounds that their bounds leave; a
-- removal in the monitor takes one round as a step does, since it lowers the bound and the
-- index. The members of the union in a packet stand side by side, and each handler reads the
-- member that the type names; main, which reads the reply at the start as a list of servers
-- whatever its type, goes through `read_leader`: where the type names another member, the list
-- is what an argument makes of its bytes. A wait on a condition is a call that has no step until
-- the queue changes; Client.Threads.Signals adds who is asleep on which condition and what wakes
-- it. The two reads of the acknowledgement, which no mutex guards, give any values in
-- Server.Threads, and the values of the entry where the handler runs alone.
--
-- The log functions give the text of each of their calls of printf, with ten decimal digits at
-- most, which is enough for numbers of 32 bits. main of the client is the list of the calls that
-- it makes.
--
-- Not modelled: the lines that are printed outside the two files interface.c, the byte order of
-- addresses, and what atoi makes of the arguments. Outside Server.Threads a request runs as a
-- whole, and the receive loop, the monitor and the request threads take turns at whole handlers
-- (what runs during a sleep apart).
mod Common
pub mod Print
pub mod Client
pub mod Exchange
pub mod Server
