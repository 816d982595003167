-- ===== src/Exchange.antt =====
-- A client and the server that it talks to, over a network that loses, repeats, delays and reorders
-- packets: `sender_thread` of client/processing.c, and `handle_request` of server/processing.c for
-- the client and for others.
pub mod Fits
pub mod Numbers
pub mod Rounds
mod Tests
use inf01151_trabalho.Common.{ℕ, ◌≡◌, ◌≢◌, Option, none, some, List, [], ◌∷◌, ◌++◌, get_elem?, done}
use inf01151_trabalho.Client.Types as Client
use inf01151_trabalho.Client.Sender.{
  Answer, send_failed, receive_failed, received, is_req_ack, request_packet, send_command,
}
use inf01151_trabalho.Server.Types as Wire
use inf01151_trabalho.Server.Types.{Server, Sent, SockAddr, zero_packet}
use inf01151_trabalho.Server.Bank.{
  Verdict, table_full, duplicate, unknown_dest, query, insufficient, executed,
}
use inf01151_trabalho.Server.Processing.{handle_request}
use inf01151_trabalho.Server.Processing.Handle.{bank_answer}

-- The bytes of a packet as the other program has them: the two headers lay the type, the number and
-- the request or acknowledgement out alike.
abbrev pub to_client_type : Wire.PacketType → Client.PacketType
to_client_type Wire.desc = Client.desc
to_client_type Wire.req = Client.req
to_client_type Wire.desc_ack = Client.desc_ack
to_client_type Wire.req_ack = Client.req_ack
to_client_type Wire.rep_update = Client.other 4
to_client_type Wire.rep_confirm = Client.other 5
to_client_type Wire.election = Client.other 6
to_client_type Wire.answer = Client.other 7
to_client_type Wire.coordinator = Client.other 8
to_client_type Wire.find_leader = Client.other 9
to_client_type Wire.ping = Client.other 10
to_client_type Wire.server_join = Client.other 11

-- A request that the client has sent.
abbrev pub to_server : Client.Packet → Wire.Packet
to_server pkt = record zero_packet {
  type = Wire.req;
  seqn = pkt.seqn;
  req = record { dest_addr = pkt.req.dest_addr; value = pkt.req.value };
}

abbrev pub to_client : Wire.Packet → Client.Packet
to_client pkt = record {
  type = to_client_type pkt.type;
  seqn = pkt.seqn;
  req = record { dest_addr = pkt.req.dest_addr; value = pkt.req.value };
  ack = record { seqn = pkt.ack.seqn; new_balance = pkt.ack.new_balance };
}

-- The client between two commands, or with one sent; every packet that either has ever sent, and the
-- numbers that the server has accepted from the client, in order.
pub record Exchange : Type 0 where
  pub server : Server
  pub next_sequence : ℕ
  pub awaits : Option Client.Requisicao
  pub requests : List Wire.Packet
  pub replies : List Client.Packet
  pub accepted : List ℕ

abbrev pub begin : Server → Exchange
begin s = record {
  server = s;
  next_sequence = 1;
  awaits = none;
  requests = [];
  replies = [];
  accepted = [];
}

-- A number that a verdict accepts is noted.
abbrev pub noted_in : Verdict → ℕ → List ℕ → List ℕ
noted_in executed seqn ns = ns ++ (seqn ∷ [])
noted_in query seqn ns = ns ++ (seqn ∷ [])
noted_in table_full seqn ns = ns
noted_in duplicate seqn ns = ns
noted_in unknown_dest seqn ns = ns
noted_in insufficient seqn ns = ns

abbrev pub to_clients : List Sent → List Client.Packet
to_clients [] = []
to_clients (m ∷ ms) = to_client m.pkt ∷ to_clients ms

-- What the client may hear: nothing, or any packet of the server so far, once more.
pub data Hears (replies : List Client.Packet) : Answer → Type 0 where
  nothing : Hears replies receive_failed
  packet : (k : ℕ) {p : Client.Packet} → get_elem? replies k ≡ some p → Hears replies (received p)

-- `addr` is the client's address. A packet that was sent can arrive at any later time, any number of
-- times, or never.
pub data Step (addr : SockAddr) (x : Exchange) : Exchange → Type 0 where
  sends :
      (command : Client.Requisicao)
      → x.awaits ≡ none
      → Step addr x (record x {
        awaits = some command;
        requests = to_server (request_packet x.next_sequence command) ∷ x.requests;
      })
  fails :
      (command : Client.Requisicao)
      → x.awaits ≡ none
      → Step addr x
          (record x { next_sequence = (send_command send_failed command x.next_sequence).0 })
  hears :
      (answer : Answer) (command : Client.Requisicao)
      → x.awaits ≡ some command
      → Hears x.replies answer
      → Step addr x (record x {
        awaits = none;
        next_sequence = (send_command answer command x.next_sequence).0;
      })
  serves :
      (k : ℕ) {pkt : Wire.Packet} {s : Server} {out : List Sent}
      → get_elem? x.requests k ≡ some pkt
      → handle_request (some addr) (some pkt) x.server ≡ done (s, out)
      → Step addr x (record x {
        server = s;
        replies = to_clients out ++ x.replies;
        accepted = noted_in (bank_answer addr pkt x.server).0 pkt.seqn x.accepted;
      })
  serves_other :
      (from : SockAddr) (pkt : Wire.Packet) {s : Server} {out : List Sent}
      → from.s_addr ≢ addr.s_addr
      → pkt.type ≡ Wire.req
      → handle_request (some from) (some pkt) x.server ≡ done (s, out)
      → Step addr x (record x { server = s })

pub data Reach (addr : SockAddr) (x : Exchange) : Exchange → Type 0 where
  here : Reach addr x x
  next : {y z : Exchange} → Reach addr x y → Step addr y z → Reach addr x z
