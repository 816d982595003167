-- ===== src/Client/Types.antt =====
-- client/client.h: the packets as the client has them. Its header knows four of the packet types;
-- `other` is any number else that a server may send.
use inf01151_trabalho.Common.{ℕ}

pub data PacketType : Type 0 where
  desc req desc_ack req_ack : PacketType
  other : ℕ → PacketType

pub record Requisicao : Type 0 where
  pub dest_addr : ℕ
  pub value : ℕ

pub record RequisicaoAck : Type 0 where
  pub seqn : ℕ
  pub new_balance : ℕ

-- `packet`, with the members of the union side by side.
pub record Packet : Type 0 where
  pub type : PacketType
  pub seqn : ℕ
  pub req : Requisicao
  pub ack : RequisicaoAck
