-- ===== src/Server/Safety/Loops.antt =====
-- The loops over the arrays of servers stay inside them.
use inf01151_trabalho.Common.{
  ◌∙◌, ℕ, zero, suc, ◌+◌, ◌≤◌, ◌<◌, ◌≡◌, ℤ, List, length, set, length-set, done, arith, read,
  read-drop, write-eq-set, Bool, true, Bool-cases, inl, inr, int_eq, int_lt,
}
use inf01151_trabalho.Server.Types.{Replica, Health, Packet, Server}
use inf01151_trabalho.Server.Replication.Sends.{
  HasPeers, peers, to_others, to_others-All, send_others-eq-to_others,
}
use inf01151_trabalho.Server.Replication.{send_others}
use inf01151_trabalho.Server.Election.{copy_from, challenge_from, election_packet, revive_from}
use inf01151_trabalho.Server.Safety.{IsGood, AllGood, Runs, Runs-done}

pub to_others-good :
    (my_id : ℤ) (pkt : Packet) (rs : List Replica) → IsGood pkt → AllGood (to_others my_id pkt rs)
to_others-good my_id pkt rs g = to_others-All IsGood my_id pkt rs g

pub send_others-good :
    (pkt : Packet) {s : Server} → HasPeers s → IsGood pkt → Runs AllGood (send_others pkt s)
send_others-good pkt {s} h g =
    rw (send_others-eq-to_others pkt h) (to_others-good s.my_id pkt (peers s) g)

-- A read and a write in range.
pub read-Runs {ℓ} :
    {A : Type ℓ} (xs : List A) (i : ℕ) → i < length xs → (x : A) × (read xs i ≡ done x)
read-Runs xs i h = let (x, at, _) = read-drop xs i h in (x, at)

pub copy_from-Runs :
    (source target : List Replica) (i n k : ℕ)
    → i + n ≤ length source
    → i + n ≤ k
    → length target ≡ k
    → Runs (λ l. length l ≡ k) (copy_from source target i n)
unfolding copy_from
copy_from-Runs source target i zero k h room size = size
copy_from-Runs source target i (suc n) k h room size =
    let (r, at) = read-Runs source i (omega arith) in
    rw (at, write-eq-set target i r (omega arith))
      (copy_from-Runs source (set target i r) (suc i) n k (omega arith) (omega arith)
        (length-set target i r ∙ size))

pub challenge_from-Runs :
    (reaches : ℕ → Bool) (list : List Replica) (my_id : ℤ) (i n : ℕ)
    → i + n ≤ length list
    → IsGood (election_packet my_id)
    → Runs (λ r. AllGood r.1) (challenge_from reaches list my_id i n)
unfolding challenge_from
challenge_from-Runs reaches list my_id i zero h g = tt
challenge_from-Runs reaches list my_id i (suc n) h g =
    let (r, at) = read-Runs list i (omega arith) in
    let ((count, out), e, good) =
      Runs-done (λ r. AllGood r.1) (challenge_from reaches list my_id (suc i) n)
        (challenge_from-Runs reaches list my_id (suc i) n (omega arith) g) in
    elim (Bool-cases (int_lt my_id r.id)) [
      | inl higher ↦ rw (at, e, higher) (g, good)
      | inr lower ↦ rw (at, e, lower) good
    ]

pub revive_from-Runs :
    (now : ℕ) (id : ℤ) (list : List Replica) (health : List Health) (i n k : ℕ)
    → i + n ≤ length list
    → i + n ≤ k
    → length health ≡ k
    → Runs (λ x. length x ≡ k) (revive_from now id list health i n)
unfolding revive_from
revive_from-Runs now id list health i zero k h room size = size
revive_from-Runs now id list health i (suc n) k h room size =
    let (r, at) = read-Runs list i (omega arith) in
    let fresh : Health = record { last_ping_received = now; is_alive = true } in
    elim (Bool-cases (int_eq r.id id)) [
      | inl same ↦
          rw (at, same, write-eq-set health i fresh (omega arith))
            (revive_from-Runs now id list (set health i fresh) (suc i) n k (omega arith)
              (omega arith) (length-set health i fresh ∙ size))
      | inr other ↦
          rw (at, other)
            (revive_from-Runs now id list health (suc i) n k (omega arith) (omega arith) size)
    ]
