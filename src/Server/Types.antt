-- ===== src/Server/Types.antt =====
-- server/server.h: the data that the server's source files share, and the globals of server.c and
-- replication.c as one record.
use inf01151_trabalho.Common.{ℕ, ℤ, pos, Bool, List, replicate}

abbrev pub max_servers : ℕ
max_servers = 4

abbrev pub max_clients : ℕ
max_clients = 10

-- `struct sockaddr_in`, by the two fields that the program reads.
pub record SockAddr : Type 0 where
  pub s_addr : ℕ
  pub sin_port : ℕ

-- `server_role_t`
pub data Role : Type 0 where
  replica_primario : Role
  replica_secundario : Role

-- `replica_t`
pub record Replica : Type 0 where
  pub id : ℤ
  pub addr : SockAddr

-- `client_t`
pub record Client : Type 0 where
  pub ip_addr : ℕ
  pub last_req_id : ℕ
  pub balance : ℕ
  pub in_use : ℤ

pub data PacketType : Type 0 where
  desc req desc_ack req_ack rep_update rep_confirm : PacketType
  election answer coordinator find_leader ping server_join : PacketType

pub record Requisicao : Type 0 where
  pub dest_addr : ℕ
  pub value : ℕ

pub record RequisicaoAck : Type 0 where
  pub seqn : ℕ
  pub new_balance : ℕ

pub record ReplicationMsg : Type 0 where
  pub num_clients : ℤ
  pub num_transactions : ℤ
  pub total_transferred : ℤ
  pub total_balance : ℤ
  pub client_table : List Client

pub record LeaderInfo : Type 0 where
  pub leader_id : ℤ
  pub nr_servers : ℤ
  pub servers : List Replica

-- `packet`. The members of the union stand side by side: what one member writes is not seen
-- through another.
pub record Packet : Type 0 where
  pub type : PacketType
  pub seqn : ℕ
  pub req : Requisicao
  pub ack : RequisicaoAck
  pub rep : ReplicationMsg
  pub leader : LeaderInfo
  pub new_server : Replica

-- The data that `data_mutex` protects: `client_table` and the counters.
pub record Ledger : Type 0 where
  pub num_transactions : ℤ
  pub total_transferred : ℤ
  pub total_balance : ℤ
  pub num_clients : ℤ
  pub client_table : List Client

-- `server_health_t`
pub record Health : Type 0 where
  pub last_ping_received : ℕ
  pub is_alive : Bool

-- The globals of a server process.
pub record Server : Type 0 where
  pub my_id : ℤ
  pub current_leader_id : ℤ
  pub current_role : Role
  pub num_servers : ℤ
  pub server_list : List Replica
  pub ledger : Ledger
  pub election_in_progress : Bool
  pub server_health : List Health

-- A `sendto` of a packet that the program attempts.
pub record Sent : Type 0 where
  pub to : SockAddr
  pub pkt : Packet

abbrev pub no_addr : SockAddr
no_addr = record { s_addr = 0; sin_port = 0 }

abbrev pub no_replica : Replica
no_replica = record { id = pos 0; addr = no_addr }

abbrev pub no_client : Client
no_client = record { ip_addr = 0; last_req_id = 0; balance = 0; in_use = pos 0 }

-- A packet after `memset(&pkt, 0, sizeof(pkt))`.
abbrev pub zero_packet : Packet
zero_packet = record {
  type = desc;
  seqn = 0;
  req = record { dest_addr = 0; value = 0 };
  ack = record { seqn = 0; new_balance = 0 };
  rep = record {
    num_clients = pos 0;
    num_transactions = pos 0;
    total_transferred = pos 0;
    total_balance = pos 0;
    client_table = replicate max_clients no_client;
  };
  leader = record {
    leader_id = pos 0;
    nr_servers = pos 0;
    servers = replicate max_servers no_replica;
  };
  new_server = no_replica;
}
