-- ===== src/Server/Clients/Lookup.antt =====
-- The table functions on a well-formed ledger: the loop finds the first entry of an address, and a
-- write at an entry in use stays among them.
use inf01151_trabalho.Common.{
  ◌∙◌, ℕ, zero, suc, ◌+◌, ◌≤◌, ◌<◌, ◌≡◌, refl, none, some, List, [], ◌∷◌, ◌⊎◌, inl, inr, pos_part,
  arith, length, set, take, drop, get_elem?, done, read, write, read-drop, Option-cases,
  write-eq-set, ap,
}
use inf01151_trabalho.Server.Types.{Client, Ledger}
use inf01151_trabalho.Server.Ledger.{clients, IsValid}
use inf01151_trabalho.Server.Clients.{find_from, find_client_by_ip}
use inf01151_trabalho.Server.Clients.Find.{
  find, index_from, index_from-some, index_from-none, IsFirst,
}

pub find_from-eq-index_from :
    (ip : ℕ) (t : List Client) (i n : ℕ)
    → i + n ≤ length t
    → find_from ip t i n ≡ done (index_from ip i (take n (drop i t)))
unfolding find_from index_from
find_from-eq-index_from ip t i zero h = refl
find_from-eq-index_from ip t i (suc n) h =
    let (c, at, left) = read-drop t i (omega arith) in
    rw (at, left, find_from-eq-index_from ip t (suc i) n (omega arith)) (ground arith)

-- How a search ends: no entry in use has the address, or the first such entry is found.
pub find_client_by_ip-cases :
    (ip : ℕ) {l : Ledger}
    → IsValid l
    → ((find_client_by_ip ip l ≡ done none) × (find ip (clients l) ≡ none))
      ⊎ ((m : ℕ) × (find_client_by_ip ip l ≡ done (some m)) × IsFirst ip (clients l) m)
unfolding find_client_by_ip
find_client_by_ip-cases ip {l} v = elim (Option-cases (index_from ip 0 (clients l))) [
  | inl absent ↦ inl (loop ∙ ap done absent, index_from-none ip 0 (clients l) absent)
  | inr (k, found) ↦
      let (m, at, first) = index_from-some ip 0 (clients l) found in
      inr (m, loop ∙ ap done (found ∙ ap some (omega arith)), first)
]
  where
    loop :
        find_from ip l.client_table 0 (pos_part l.num_clients) ≡ done (index_from ip 0 (clients l))
    loop =
        find_from-eq-index_from ip l.client_table 0 (pos_part l.num_clients)
          (omega (arith, v.size, v.few))

-- An entry in use is read and written in the table itself.
pub read_entry :
    (n : ℕ) (t : List Client) (m : ℕ) {c : Client}
    → get_elem? (take n t) m ≡ some c
    → read t m ≡ done c
unfolding read
read_entry zero t m e = cc
read_entry (suc n) [] m e = cc
read_entry (suc n) (x ∷ xs) zero e = ground arith
read_entry (suc n) (x ∷ xs) (suc m) e = read_entry n xs m e

pub entry_in_range :
    (n : ℕ) (t : List Client) (m : ℕ) {c : Client} → get_elem? (take n t) m ≡ some c → m < length t
entry_in_range zero t m e = cc
entry_in_range (suc n) [] m e = cc
entry_in_range (suc n) (x ∷ xs) zero e = omega arith
entry_in_range (suc n) (x ∷ xs) (suc m) e = omega (arith, entry_in_range n xs m e)

pub write_entry :
    (n : ℕ) (t : List Client) (m : ℕ) {c : Client} (c' : Client)
    → get_elem? (take n t) m ≡ some c
    → write t m c' ≡ done (set t m c')
write_entry n t m c' e = write-eq-set t m c' (entry_in_range n t m e)
