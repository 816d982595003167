-- ===== src/Server/Peers/Known.antt =====
-- `add_peer` against the list of servers as a map from ids to addresses.
use inf01151_trabalho.Common.{
  ◌∙◌, ℕ, suc, ◌≤◌, ◌<◌, ◌≡◌, refl, ℤ, pos, pos_part, Option, none, some, List, ◌⊎◌, inl, inr, ap,
  if◌then◌else◌, arith, set, take, done, write-eq-set, take-set, take-set_next, length-set, int_eq,
  int_eq_iff, int_lt, add_int, ◌+ℤ◌, Bool-cases, ltb, ltb→lt, Outcome, Bool, true, false,
}
use inf01151_trabalho.Server.Types.{Replica, Server, SockAddr, max_servers, no_addr}
use inf01151_trabalho.Server.Replication.Sends.{HasPeers, peers}
use inf01151_trabalho.Server.Peers.{find_server_from, append_peer, add_peer}
use inf01151_trabalho.Server.Peers.Addresses.{
  address, index_id, IsServer, find_server_from-eq-index_id, index_id-cases, IsServer-get,
  address-set, IsServer-address, address-append, read-get,
}

-- Whether `add_peer` takes the address: the id is another's, and known or there is room.
abbrev pub admits : ℤ → Server → Bool
admits id s = if int_eq id s.my_id then false else elim (address id (peers s)) [
  | some a ↦ true
  | none ↦ ltb (pos_part s.num_servers) max_servers
]

-- `add_peer` never leaves the list, and changes nothing else of the server; where it takes the
-- address, the list has it under the id, and every other id as before; else all is as before.
pub record Added (id : ℤ) (addr : SockAddr) (s : Server) : Type 0 where
  pub list : List Replica
  pub count : ℤ
  pub returns : add_peer id addr s ≡ done (record s { server_list = list; num_servers = count })
  pub has_peers : HasPeers (record s { server_list = list; num_servers = count })
  pub addresses :
      (k : ℤ)
      → address k (take (pos_part count) list) ≡ (
          if admits id s
          then (if int_eq id k then some addr else address k (peers s))
          else address k (peers s))

module _ (id : ℤ) (addr : SockAddr) {s : Server} (h : HasPeers s) where
  abbrev found_at : Outcome (Option ℕ)
  found_at = find_server_from id s.server_list 0 (pos_part s.num_servers)

  search_is : found_at ≡ done (index_id id 0 (peers s))
  search_is =
      find_server_from-eq-index_id id s.server_list 0 (pos_part s.num_servers)
        (omega (arith, h.list_size, h.servers_few))

  known-admitted :
      int_eq id s.my_id ≡ false → (m : ℕ) → IsServer id (peers s) m → admits id s ≡ true
  known-admitted other m first =
      let (a, is) = IsServer-address id (peers s) m first in rw (other, is)

  new_id : (k : ℤ) → address id (peers s) ≡ none → int_eq id k ≡ true → address k (peers s) ≡ none
  new_id k unknown same = rw (← (int_eq_iff id k).0 same) unknown

  unchanged : add_peer id addr s ≡ done s → admits id s ≡ false → Added id addr s
  unchanged e no_change = record {
    list = s.server_list;
    count = s.num_servers;
    returns = e;
    has_peers = h;
    addresses = λ k. rw no_change;
  }

  add_known :
      int_eq id s.my_id ≡ false
      → (m : ℕ) → index_id id 0 (peers s) ≡ some m
      → IsServer id (peers s) m
      → Added id addr s
  unfolding add_peer
  add_known other m at first =
      let (r, there, same) = IsServer-get id (peers s) m first in
      let (reads, lt) = read-get (pos_part s.num_servers) s.server_list m there in
      let list = set s.server_list m (record r { addr = addr }) in
      record {
        list = list;
        count = s.num_servers;
        returns = rw (
          other,
          search_is,
          at,
          reads,
          write-eq-set s.server_list m (record r { addr = addr }) lt,
        );
        has_peers = record {
          list_size = length-set s.server_list m (record r { addr = addr }) ∙ h.list_size;
          servers_counted = h.servers_counted;
          servers_few = h.servers_few;
        };
        addresses = λ k.
            rw
              (
                take-set,
                address-set id k (peers s) m (record r { addr = addr }) first
                    ((int_eq_iff r.id id).0 same),
              )
              (ground (arith, known-admitted other m first));
      }

  add_int_one :
      pos_part s.num_servers < max_servers
      → add_int s.num_servers 1 ≡ done (pos (suc (pos_part s.num_servers)))
  unfolding add_int ◌+ℤ◌ int_lt
  add_int_one room = ground (arith, h.servers_counted)

  append_room :
      pos_part s.num_servers < max_servers
      → append_peer id addr s
        ≡ done (record s {
          server_list =
              set s.server_list (pos_part s.num_servers) (record { id = id; addr = addr });
          num_servers = pos (suc (pos_part s.num_servers));
        })
  unfolding append_peer int_lt
  append_room room = ground (
    arith,
    h.servers_counted,
    h.list_size,
    write-eq-set s.server_list (pos_part s.num_servers) (record { id = id; addr = addr }),
    add_int_one room,
  )

  append_full : max_servers ≤ pos_part s.num_servers → append_peer id addr s ≡ done s
  unfolding append_peer int_lt
  append_full full = ground (arith, h.servers_counted)

  add_new :
      int_eq id s.my_id ≡ false
      → index_id id 0 (peers s) ≡ none
      → address id (peers s) ≡ none
      → pos_part s.num_servers < max_servers
      → Added id addr s
  unfolding add_peer
  add_new other absent unknown room = record {
    list = set s.server_list (pos_part s.num_servers) (record { id = id; addr = addr });
    count = pos (suc (pos_part s.num_servers));
    returns = rw (other, search_is, absent) (append_room room);
    has_peers = record {
      list_size =
          length-set s.server_list (pos_part s.num_servers) (record { id = id; addr = addr })
          ∙ h.list_size;
      servers_counted = refl;
      servers_few = room;
    };
    addresses = λ k.
        rw
          (take-set_next (pos_part s.num_servers) s.server_list (record { id = id; addr = addr })
            (omega (arith, h.list_size)))
          (ground (
            arith,
            other,
            unknown,
            room,
            address-append k (peers s) (record { id = id; addr = addr }),
            new_id k unknown,
          ));
  }

  -- At a well-formed list of servers, `add_peer` returns and keeps it well formed; the address of the
  -- id is updated, or added where there is room, unless the id is the server's own, and no other
  -- address changes.
  pub add_peer_refines : Added id addr s
  unfolding add_peer
  add_peer_refines = elim (Bool-cases (int_eq id s.my_id)) [
    | inl own ↦ unchanged (rw own) (rw own)
    | inr other ↦ elim (index_id-cases id 0 (peers s)) [
      | inr (m, at, first) ↦ add_known other m (at ∙ ap some (omega arith)) first
      | inl (absent, unknown) ↦ elim (Bool-cases (ltb (pos_part s.num_servers) max_servers)) [
        | inl room ↦ add_new other absent unknown (ltb→lt _ _ room)
        | inr full ↦
            unchanged (rw (other, search_is, absent) (append_full (ground arith)))
              (rw (other, unknown) full)
      ]
    ]
  ]

-- A server that is found stands in the list.
pub find_server_from-bound :
    (id : ℤ) {s : Server}
    → HasPeers s
    → (find_server_from id s.server_list 0 (pos_part s.num_servers) ≡ done none)
      ⊎ ((m : ℕ) × (find_server_from id s.server_list 0 (pos_part s.num_servers) ≡ done (some m))
          × (m < max_servers))
find_server_from-bound id {s} h = elim (index_id-cases id 0 (peers s)) [
  | inl (absent, _) ↦ inl (search_is id no_addr h ∙ ap done absent)
  | inr (m, at, first) ↦
      let (r, there, _) = IsServer-get id (peers s) m first in
      let (_, lt) = read-get (pos_part s.num_servers) s.server_list m there in
      inr (
        m,
        search_is id no_addr h ∙ ap done (at ∙ ap some (omega arith)),
        omega (arith, lt, h.list_size),
      )
]
