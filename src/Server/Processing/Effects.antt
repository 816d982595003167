-- ===== src/Server/Processing/Effects.antt =====
-- What a verdict sends and counts.
use inf01151_trabalho.Common.{
  ◌∙◌, ℕ, ◌+◌, ◌≡◌, refl, List, [], pos, ap, All, ◌<ℤ◌, ◌+ℤ◌, int_max, u32, to_u32, to_int,
}
use inf01151_trabalho.Server.Types.{
  Ledger, Packet, Server, Sent, Role, replica_primario, replica_secundario,
}
use inf01151_trabalho.Server.Replication.{rep_packet}
use inf01151_trabalho.Server.Bank.{
  Verdict, table_full, duplicate, unknown_dest, query, insufficient, executed,
}
use inf01151_trabalho.Server.Replication.Sends.{peers, replicated, to_others-All}

-- What a verdict sends to the backups, from the state that it leaves.
abbrev pub sends : Verdict → Server → List Sent
sends executed s = replicated s
sends table_full s = []
sends duplicate s = []
sends unknown_dest s = []
sends query s = []
sends insufficient s = []

pub replicated-All :
    (P : Packet → Type 0) (r : Role) (s : Server)
    → s.current_role ≡ r
    → P (rep_packet s.ledger)
    → All (λ (m : Sent). P m.pkt) (replicated s)
replicated-All P replica_primario s is h =
    rw is (to_others-All P s.my_id (rep_packet s.ledger) (peers s) h)
replicated-All P replica_secundario s is h = rw is tt

-- Each packet that a verdict sends is the state.
pub sends-All :
    (P : Packet → Type 0) (v : Verdict) (s : Server)
    → P (rep_packet s.ledger)
    → All (λ (m : Sent). P m.pkt) (sends v s)
sends-All P executed s h = replicated-All P s.current_role s refl h
sends-All P table_full s h = tt
sends-All P duplicate s h = tt
sends-All P unknown_dest s h = tt
sends-All P query s h = tt
sends-All P insufficient s h = tt

abbrev pub SameCounts : Ledger → Ledger → Type 0
SameCounts l l' =
    (l'.num_transactions ≡ l.num_transactions) × (l'.total_transferred ≡ l.total_transferred)

-- What a verdict does to the two counters of transfers.
abbrev pub Counted : Verdict → ℕ → Ledger → Ledger → Type 0
Counted executed value l l' =
    (l'.num_transactions ≡ l.num_transactions +ℤ pos 1)
    × (l'.total_transferred ≡ to_int (u32 (to_u32 l.total_transferred + value)))
Counted table_full value l l' = SameCounts l l'
Counted duplicate value l l' = SameCounts l l'
Counted unknown_dest value l l' = SameCounts l l'
Counted query value l l' = SameCounts l l'
Counted insufficient value l l' = SameCounts l l'

-- The counter of transfers has room for what the verdict counts.
abbrev pub HasRoom : Verdict → Ledger → Type 0
HasRoom executed l = l.num_transactions <ℤ int_max
HasRoom table_full l = Unit {0}
HasRoom duplicate l = Unit {0}
HasRoom unknown_dest l = Unit {0}
HasRoom query l = Unit {0}
HasRoom insufficient l = Unit {0}

pub HasRoom-all : (v : Verdict) (l : Ledger) → l.num_transactions <ℤ int_max → HasRoom v l
HasRoom-all executed l room = room
HasRoom-all table_full l room = tt
HasRoom-all duplicate l room = tt
HasRoom-all unknown_dest l room = tt
HasRoom-all query l room = tt
HasRoom-all insufficient l room = tt

-- Counting from a ledger with the same counters.
pub Counted-from :
    (v : Verdict) (value : ℕ) (l₀ l l' : Ledger)
    → SameCounts l₀ l
    → Counted v value l l'
    → Counted v value l₀ l'
Counted-from executed value l₀ l l' same c =
    (c.0 ∙ ap (λ n. n +ℤ pos 1) same.0, c.1 ∙ ap (λ n. to_int (u32 (to_u32 n + value))) same.1)
Counted-from table_full value l₀ l l' same c = (c.0 ∙ same.0, c.1 ∙ same.1)
Counted-from duplicate value l₀ l l' same c = (c.0 ∙ same.0, c.1 ∙ same.1)
Counted-from unknown_dest value l₀ l l' same c = (c.0 ∙ same.0, c.1 ∙ same.1)
Counted-from query value l₀ l l' same c = (c.0 ∙ same.0, c.1 ∙ same.1)
Counted-from insufficient value l₀ l l' same c = (c.0 ∙ same.0, c.1 ∙ same.1)
