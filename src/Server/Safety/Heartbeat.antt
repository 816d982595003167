-- ===== src/Server/Safety/Heartbeat.antt =====
-- The heartbeat runs to its end and keeps a server well formed.
use inf01151_trabalho.Common.{
  subst, ap, sym, ◌∙◌, ℕ, zero, suc, ◌+◌, ◌≤◌, ◌<◌, ◌≡◌, refl, ℤ, pos, negsuc, pos_part, some, List,
  [], length, set, length-set, Outcome, done, arith, Bool, true, false, Bool-cases, inl, inr,
  int_eq, if◌then◌else◌, ◌+ℤ◌, write-eq-set,
}
use inf01151_trabalho.Server.Types.{Replica, Health, Packet, Server, SockAddr, max_servers}
use inf01151_trabalho.Server.Peers.Known.{find_server_from-bound}
use inf01151_trabalho.Server.Election.{start_election}
use inf01151_trabalho.Server.Ping.{
  handle_ping, reset_health_timers, shift_from, Finding, keep, remove, on_finding, examine, Scan,
  scan_from, monitor_round,
}
use inf01151_trabalho.Server.Safety.{IsSafe, SafeOut, Runs, Runs-bind}
use inf01151_trabalho.Server.Safety.Loops.{read-Runs}
use inf01151_trabalho.Server.Safety.Elections.{KeepsSafe, start_election-Runs}

-- Both arrays keep their sizes.
abbrev Sized : List Replica × List Health → Type 0
Sized (list, health) = (length list ≡ max_servers) × (length health ≡ max_servers)

shift_from-Runs :
    (list : List Replica) (health : List Health) (j n : ℕ)
    → Sized (list, health)
    → j + n < max_servers
    → Runs Sized (shift_from list health j n)
unfolding shift_from
shift_from-Runs list health j zero sizes h = sizes
shift_from-Runs list health j (suc n) sizes h =
    let (r, at_r) = read-Runs list (suc j) (omega arith) in
    let (x, at_x) = read-Runs health (suc j) (omega arith) in
    rw (at_r, write-eq-set list j r (omega arith), at_x, write-eq-set health j x (omega arith))
      (shift_from-Runs (set list j r) (set health j x) (suc j) n
        (length-set list j r ∙ sizes.0, length-set health j x ∙ sizes.1) (omega arith))

-- A scan keeps the sizes, and its count is what is left of the servers.
record IsScan (m : ℕ) (c : Scan) : Type 0 where
  scan_list : length c.list ≡ max_servers
  scan_health : length c.health ≡ max_servers
  scan_count : c.count ≡ pos m
  scan_few : m ≤ max_servers

abbrev Scanned : Scan → Type 0
Scanned c = (m : ℕ) × IsScan m c

lower_count : (m : ℕ) {c : ℤ} → c ≡ pos (suc m) → c +ℤ negsuc 0 ≡ pos m
unfolding ◌+ℤ◌
lower_count m e = ground arith

IsScan-at : {m m' : ℕ} {c : Scan} → m ≡ m' → IsScan m c → IsScan m' c
IsScan-at {c = c} e h = subst (λ k. IsScan k c) e h

on_finding-Runs :
    (f : Finding) (kept : Health → Outcome Scan) (removed : Outcome Scan)
    → ((h : Health) → Runs Scanned (kept h))
    → Runs Scanned removed
    → Runs Scanned (on_finding f kept removed)
on_finding-Runs (keep h) kept removed a b = a h
on_finding-Runs remove kept removed a b = b

scan_from-Runs :
    (now : ℕ) (my_id leader : ℤ) (i n : ℕ) {c : Scan}
    → IsScan (i + n) c
    → Runs Scanned (scan_from now my_id leader i n c)
unfolding scan_from
scan_from-Runs now my_id leader i zero {c} h = (i + 0, h)
scan_from-Runs now my_id leader i (suc n) {c} h =
    let (r, at_r) = read-Runs c.list i (omega (arith, h.scan_list, h.scan_few)) in
    let (x, at_x) = read-Runs c.health i (omega (arith, h.scan_health, h.scan_few)) in
    elim (Bool-cases (int_eq r.id my_id)) [
      | inl own ↦
          rw (at_r, own) (scan_from-Runs now my_id leader (suc i) n (IsScan-at (omega arith) h))
      | inr other ↦
          rw (at_r, other, at_x)
            (on_finding-Runs (examine now x) _ _
              (λ h'. rw (write-eq-set c.health i h' (omega (arith, h.scan_health, h.scan_few))) (
                scan_from-Runs now my_id leader (suc i) n (
                  IsScan-at (omega arith) (record {
                    scan_list = h.scan_list;
                    scan_health = length-set c.health i h' ∙ h.scan_health;
                    scan_count = h.scan_count;
                    scan_few = h.scan_few;
                  }))))
              (let dead : Health = record x { is_alive = false } in
                rw (write-eq-set c.health i dead (omega (arith, h.scan_health, h.scan_few))) (
                  Runs-bind Sized Scanned (shift_from c.list (set c.health i dead) i n) _
                    (shift_from-Runs c.list (set c.health i dead) i n
                      (h.scan_list, length-set c.health i dead ∙ h.scan_health)
                      (omega (arith, h.scan_few)))
                    (λ (arrays : List Replica × List Health) sizes.
                      scan_from-Runs now my_id leader i n (record {
                        scan_list = sizes.0;
                        scan_health = sizes.1;
                        scan_count = lower_count (i + n) (h.scan_count ∙ ap pos (omega arith));
                        scan_few = omega (arith, h.scan_few);
                      })))))
    ]

pub handle_ping-Runs :
    (now : ℕ) (pkt : Packet) (sender : SockAddr) {s : Server}
    → IsSafe s
    → Runs IsSafe (handle_ping now (some pkt) (some sender) s)
unfolding handle_ping
handle_ping-Runs now pkt sender {s} safe =
    elim (find_server_from-bound pkt.leader.leader_id safe.has_peers) [
      | inl absent ↦ rw absent safe
      | inr (m, at, lt) ↦
          let seen : Health = record { last_ping_received = now; is_alive = true } in
          rw (at, write-eq-set s.server_health m seen (omega (arith, lt, safe.health_size)))
            (record {
              has_peers = record {
                list_size = safe.has_peers.list_size;
                servers_counted = safe.has_peers.servers_counted;
                servers_few = safe.has_peers.servers_few;
              };
              health_size = length-set s.server_health m seen ∙ safe.health_size;
              valid = safe.valid;
            })
    ]

pub reset_health_timers-IsSafe :
    (now : ℕ) {s : Server} → IsSafe s → IsSafe (reset_health_timers now s)
unfolding reset_health_timers
reset_health_timers-IsSafe now safe = record {
  has_peers = record {
    list_size = safe.has_peers.list_size;
    servers_counted = safe.has_peers.servers_counted;
    servers_few = safe.has_peers.servers_few;
  };
  health_size = refl;
  valid = safe.valid;
}

-- An election if `b`.
election_if-Runs :
    (b : Bool) (reaches : ℕ → Bool) (sleep : ℕ → Server → Server) (now : ℕ) {s : Server}
    → KeepsSafe sleep
    → IsSafe s
    → Runs SafeOut (if b then start_election reaches sleep now s else done (s, []))
election_if-Runs true reaches sleep now keeps safe =
    start_election-Runs reaches sleep now keeps safe
election_if-Runs false reaches sleep now keeps safe = (safe, tt)

-- A round of the monitor at a well-formed server runs to its end without leaving an array, and the
-- server and the packets that it leaves are well formed, if the other threads keep it well formed.
pub monitor_round-Runs :
    (reaches : ℕ → Bool) (sleep : ℕ → Server → Server) (now : ℕ) {s : Server}
    → KeepsSafe sleep
    → IsSafe s
    → Runs SafeOut (monitor_round reaches sleep now s)
unfolding monitor_round
monitor_round-Runs reaches sleep now {s} keeps safe =
    Runs-bind Scanned SafeOut _ _
      (scan_from-Runs now s.my_id s.current_leader_id 0 (pos_part s.num_servers) (record {
        scan_list = safe.has_peers.list_size;
        scan_health = safe.health_size;
        scan_count = safe.has_peers.servers_counted ∙ ap pos (omega arith);
        scan_few = omega (arith, safe.has_peers.servers_few);
      }))
      (λ (c : Scan) scanned.
        election_if-Runs _ reaches sleep now
          {s = record s { server_list = c.list; server_health = c.health; num_servers = c.count }}
          keeps
          (record {
            has_peers = record {
              list_size = scanned.1.scan_list;
              servers_counted =
                  scanned.1.scan_count ∙ ap pos (ap pos_part (sym scanned.1.scan_count));
              servers_few = omega (arith, ap pos_part scanned.1.scan_count, scanned.1.scan_few);
            };
            health_size = scanned.1.scan_health;
            valid = safe.valid;
          }))
