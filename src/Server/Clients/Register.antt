-- ===== src/Server/Clients/Register.antt =====
-- `find_or_add_client` on a well-formed ledger registers the address in the bank.
use inf01151_trabalho.Common.{
  ◌∙◌, ℕ, suc, ◌+◌, ◌*◌, ◌≤◌, ◌<◌, ◌≡◌, refl, Option, none, some, List, [], ◌∷◌, ◌++◌, inl, inr,
  pos, pos_part, ◌==◌, if◌then◌else◌, arith, length, set, done, length-set, length-take,
  write-eq-set, take-set_next, ap, sym, Bool-cases, ltb, ltb→lt, add_int, ◌+ℤ◌, int_lt,
}
use mathlib.Core.Path.{fun_ext, subst}
use inf01151_trabalho.Server.Types.{Client, Ledger, max_clients}
use inf01151_trabalho.Server.Ledger.{clients, IsValid, bank_of}
use inf01151_trabalho.Server.Bank.Register.{register_known, register_full, register_new}
use inf01151_trabalho.Server.Bank.{register, account_of}
use inf01151_trabalho.Server.Clients.{find_or_add_client, add_client, new_client}
use inf01151_trabalho.Server.Clients.Find.{
  find, IsFirst, IsFirst-find, IsFirst-append, IsFirst-last, find-append, sum_balances-append,
}
use inf01151_trabalho.Server.Clients.Lookup.{find_client_by_ip-cases}

-- What a result of a search says of the entries.
abbrev pub Located : ℕ → List Client → Option ℕ → Type 0
Located ip xs none = find ip xs ≡ none
Located ip xs (some m) = IsFirst ip xs m

add_int_small : (a k : ℕ) → a + k < 2000 → add_int (pos a) k ≡ done (pos (a + k))
unfolding add_int ◌+ℤ◌ int_lt
add_int_small a k h = ground arith

abbrev added : ℕ → Ledger → Ledger
added ip l = record l {
  client_table = set l.client_table (pos_part l.num_clients) (new_client ip);
  total_balance = pos (100 * suc (pos_part l.num_clients));
  num_clients = pos (suc (pos_part l.num_clients));
}

add_client_room :
    (ip : ℕ) {l : Ledger}
    → IsValid l
    → pos_part l.num_clients < max_clients
    → add_client ip l ≡ done (some (pos_part l.num_clients), added ip l)
unfolding add_client int_lt
add_client_room ip {l} v room = ground (
  arith,
  v.counted,
  v.total,
  write-eq-set l.client_table (pos_part l.num_clients) (new_client ip),
  add_int_small (100 * pos_part l.num_clients) 100,
  add_int_small (pos_part l.num_clients) 1,
)

add_client_full :
    (ip : ℕ) {l : Ledger}
    → IsValid l
    → max_clients ≤ pos_part l.num_clients
    → add_client ip l ≡ done (none, l)
unfolding add_client int_lt
add_client_full ip {l} v full = ground (arith, v.counted)

clients-added :
    (ip : ℕ) {l : Ledger}
    → IsValid l
    → pos_part l.num_clients < max_clients
    → clients (added ip l) ≡ clients l ++ (new_client ip ∷ [])
clients-added ip {l} v room =
    take-set_next (pos_part l.num_clients) l.client_table (new_client ip) (omega (arith, v.size))

length-clients : {l : Ledger} → IsValid l → length (clients l) ≡ pos_part l.num_clients
length-clients {l} v =
    omega (arith, length-take (pos_part l.num_clients) l.client_table, v.size, v.few)

added-IsValid :
    (ip : ℕ) {l : Ledger} → IsValid l → pos_part l.num_clients < max_clients → IsValid (added ip l)
added-IsValid ip {l} v room = record {
  size = length-set l.client_table (pos_part l.num_clients) (new_client ip) ∙ v.size;
  counted = refl;
  few = room;
  total = refl;
  money =
      rw (clients-added ip v room)
        (omega (arith, sum_balances-append (clients l) (new_client ip), v.money));
}

-- The new entry is an account of 100 at a new address.
bank_of-added :
    (ip : ℕ) {l : Ledger}
    → IsValid l
    → pos_part l.num_clients < max_clients
    → find ip (clients l) ≡ none
    → bank_of (added ip l) ≡ register ip (bank_of l)
bank_of-added ip {l} v room absent =
    rw (register_new ip (bank_of l) (ap account_of absent) room)
      (λ i. record { account = fun_ext account i; count = suc-count i })
  where
    account :
        (ip' : ℕ)
        → account_of (find ip' (clients (added ip l))) ≡ (
            if ip == ip'
            then some (record { last_req_id = 0; balance = 100 })
            else account_of (find ip' (clients l)))
    account ip' =
        rw (clients-added ip v room)
          (ground (arith, find-append ip' (clients l) (new_client ip), absent))

    suc-count : ◌≡◌ {A = ℕ} (suc (pos_part l.num_clients)) (pos_part l.num_clients + 1)
    suc-count = omega arith

-- `find_or_add_client` never leaves the table: it registers the address and finds its entry, or
-- reports a full table; the counters of transactions stay.
pub record Registered (ip : ℕ) (l : Ledger) : Type 0 where
  pub found : Option ℕ
  pub ledger : Ledger
  pub returns : find_or_add_client ip l ≡ done (found, ledger)
  pub valid : IsValid ledger
  pub bank : bank_of ledger ≡ register ip (bank_of l)
  pub located : Located ip (clients ledger) found
  pub firsts : (ip' m : ℕ) → IsFirst ip' (clients l) m → IsFirst ip' (clients ledger) m
  pub num_transactions_kept : ledger.num_transactions ≡ l.num_transactions
  pub total_transferred_kept : ledger.total_transferred ≡ l.total_transferred

-- On a well-formed ledger, `find_or_add_client` returns; it does to the table what
-- `Bank.register` does to the bank, returns where the address stands, or nothing where it stands
-- nowhere, and keeps the ledger well formed and its counters of transfers.
pub find_or_add_client_refines : (ip : ℕ) {l : Ledger} → IsValid l → Registered ip l
unfolding find_or_add_client
find_or_add_client_refines ip {l} v = elim (find_client_by_ip-cases ip v) [
  | inl (searched, absent) ↦ elim (Bool-cases (ltb (pos_part l.num_clients) max_clients)) [
    | inl room ↦
        let room' = ltb→lt _ _ room in
        record {
          found = some (pos_part l.num_clients);
          ledger = added ip l;
          returns = rw (searched, add_client_room ip v room');
          valid = added-IsValid ip v room';
          bank = bank_of-added ip v room' absent;
          located = rw (clients-added ip v room') (
              subst (IsFirst ip (clients l ++ (new_client ip ∷ []))) (length-clients v)
                (IsFirst-last ip (clients l) (new_client ip) absent refl));
          firsts = λ ip' m h.
              rw (clients-added ip v room')
                (IsFirst-append ip' (clients l) (new_client ip ∷ []) m h);
          num_transactions_kept = refl;
          total_transferred_kept = refl;
        }
    | inr full ↦ record {
      found = none;
      ledger = l;
      returns = rw (searched, add_client_full ip v (ground arith));
      valid = v;
      bank = sym (register_full ip (bank_of l) (ap account_of absent) (ground arith));
      located = absent;
      firsts = λ ip' m h. h;
      num_transactions_kept = refl;
      total_transferred_kept = refl;
    }
  ]
  | inr (m, searched, first) ↦ record {
    found = some m;
    ledger = l;
    returns = rw searched;
    valid = v;
    bank =
        let (c, at, is, same) = IsFirst-find ip (clients l) m first in
        sym (register_known ip (bank_of l) (ap account_of is));
    located = first;
    firsts = λ ip' m h. h;
    num_transactions_kept = refl;
    total_transferred_kept = refl;
  }
]
