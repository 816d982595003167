-- ===== src/Client/Sender.antt =====
-- client/processing.c: what `sender_thread` does with one command. How the network answers is an
-- argument.
use inf01151_trabalho.Common.{ℕ, ◌+◌, Bool, true, false, Option, none, some, u32, if◌then◌else◌}
use inf01151_trabalho.Client.Types.{PacketType, req, req_ack, Requisicao, Packet}

-- The answer to one command: `sendto` fails, `recvfrom` fails (so after the 10 ms that
-- `discover_server` has set on the socket), or a packet comes.
pub data Answer : Type 0 where
  send_failed : Answer
  receive_failed : Answer
  received : Packet → Answer

abbrev pub is_req_ack : PacketType → Bool
is_req_ack req_ack = true
is_req_ack _ = false

-- `req_pkt`, after its `memset`.
abbrev pub request_packet : ℕ → Requisicao → Packet
request_packet next_sequence command = record {
  type = req;
  seqn = next_sequence;
  req = command;
  ack = record { seqn = 0; new_balance = 0 };
}

-- One round of the loop on a command: the new `next_sequence`, and the packet that has gone out.
unfoldable pub send_command : Answer → Requisicao → ℕ → ℕ × Option Packet
send_command send_failed command next = (next, none)
send_command receive_failed command next = (next, some (request_packet next command))
send_command (received pkt) command next = (
  (if is_req_ack pkt.type then u32 (pkt.ack.seqn + 1) else next),
  some (request_packet next command),
)
