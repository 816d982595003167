-- ===== src/Client/Main.antt =====
-- client/client.c, `main`, and `request` of client/processing.c as a whole, as the calls that the
-- program makes, in their order. How the calls answer is an argument.
pub mod Ends
use inf01151_trabalho.Common.{
  ℕ, ℤ, pos, negsuc, Bool, true, false, Option, none, some, List, [], ◌∷◌, ◌++◌, ◌==◌,
  if◌then◌else◌, not,
}
use inf01151_trabalho.Client.Discovery.{
  SendAnswer, ReceiveAnswer, Search, searching, exited, found, discover_server,
}

-- `shut_down` sets `queue.shutdown` and signals `not_empty`; `joined_reader` and `joined_sender` are
-- the returns of `pthread_join`. What the threads do is in Client/Threads.antt.
pub data Event : Type 0 where
  opened_socket closed_socket : Event
  started_reader started_sender shut_down joined_reader joined_sender destroyed_queue : Event
  requested : ℕ → Event
  ended : ℤ → Event

-- How `pthread_create` answers, and whether a thread that has started comes to its end, which
-- `pthread_join` waits for: the reader may stay in `fgets`, or in `queue_push` if there is no sender.
pub record Threads : Type 0 where
  pub create_reader : Bool
  pub create_sender : Bool
  pub reader_ends : Bool
  pub sender_ends : Bool

-- The events of `request` and whether it returns, for the server's address, if the pointer is not `NULL`.
unfoldable pub request : Option ℕ → Threads → List Event × Bool
request none t = ([], true)
request (some addr) t =
    if not t.create_reader
    then (requested addr ∷ destroyed_queue ∷ [], true)
    else if not t.create_sender
    then if t.reader_ends
      then (
        requested addr ∷ started_reader ∷ shut_down ∷ joined_reader ∷ destroyed_queue ∷ [],
        true,
      )
      else (requested addr ∷ started_reader ∷ shut_down ∷ [], false)
    else if not t.reader_ends
    then (requested addr ∷ started_reader ∷ started_sender ∷ [], false)
    else if not t.sender_ends
    then (requested addr ∷ started_reader ∷ started_sender ∷ joined_reader ∷ [], false)
    else (
      requested addr
          ∷ started_reader
          ∷ started_sender
          ∷ joined_reader
          ∷ joined_sender
          ∷ destroyed_queue
          ∷ [],
      true,
    )

pub record Calls : Type 0 where
  pub socket : Bool
  pub enable_broadcast : Bool
  pub send_timeout : Bool
  pub receive_timeout : Bool
  pub rounds : List (SendAnswer × ReceiveAnswer)
  pub threads : Threads

-- What follows `discover_server`. It leaves the program by itself, its socket closed, where it fails.
unfoldable pub after_search : Search → Threads → List Event
unfolding request
after_search searching t = []
after_search exited t = closed_socket ∷ ended (pos 1) ∷ []
after_search (found addr) t =
    let (events, returns) = request (some addr) t in
    events ++ (if returns then closed_socket ∷ ended (pos 0) ∷ [] else [])

unfoldable pub main : ℕ → Calls → List Event
unfolding after_search discover_server
main argc calls =
    if argc == 2
    then if calls.socket
      then (opened_socket
          ∷ (if calls.enable_broadcast
              then after_search
                  (discover_server calls.send_timeout calls.receive_timeout calls.rounds)
                  calls.threads
              else closed_socket ∷ ended (pos 1) ∷ []))
      else ended (pos 1) ∷ []
    else ended (negsuc 0) ∷ []
