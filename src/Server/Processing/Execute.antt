-- ===== src/Server/Processing/Execute.antt =====
-- `execute` on a well-formed ledger: the transfer between two entries, which may be the same.
use inf01151_trabalho.Common.{
  ◌∙◌, ℕ, ◌+◌, ◌-◌, ◌^◌, ◌≤◌, ◌≡◌, refl, Option, some, List, pos, pos_part, ap, ◌==◌, if◌then◌else◌,
  arith, length, set, take, get_elem?, done, read, write, length-set, take-set, ◌<ℤ◌, Bool-cases,
  inl, inr, ℤ, add_int, ◌+ℤ◌, int_lt, int_max, u32, to_u32, to_int,
}
use mathlib.Core.Path.{fun_ext}
use inf01151_trabalho.Server.Types.{Client, Ledger, Packet}
use inf01151_trabalho.Server.Ledger.{clients, IsValid, bank_of}
use inf01151_trabalho.Server.Bank.{Account, account_of, post}
use inf01151_trabalho.Server.Clients.Find.{
  find, find-set, IsFirst, IsFirst-find, IsFirst-set, sum_balances, sum_balances-set,
  balance-le-sum,
}
use inf01151_trabalho.Server.Clients.Lookup.{read_entry, write_entry}
use inf01151_trabalho.Server.Processing.{execute}

pub add_int_next : (a : ℤ) → a <ℤ int_max → add_int a 1 ≡ done (a +ℤ pos 1)
unfolding add_int ◌+ℤ◌ int_lt
add_int_next a h = ground arith

-- An entry in use, found as the first one of its address.
pub record Entry (n : ℕ) (t : List Client) (ip m : ℕ) : Type 0 where
  pub client : Client
  pub at : get_elem? (take n t) m ≡ some client
  pub found : find ip (take n t) ≡ some client
  pub same : client.ip_addr ≡ ip
  pub reads : read t m ≡ done client

pub entry : (n : ℕ) (t : List Client) (ip m : ℕ) → IsFirst ip (take n t) m → Entry n t ip m
entry n t ip m first =
    let (c, at, found, same) = IsFirst-find ip (take n t) m first in
    record { client = c; at = at; found = found; same = same; reads = read_entry n t m at }

-- What a write at an entry does, where it keeps the address.
pub record Written (n : ℕ) (t : List Client) (ip m : ℕ) (c c' : Client) : Type 0 where
  pub writes : write t m c' ≡ done (set t m c')
  pub finds :
      (ip' : ℕ)
      → find ip' (take n (set t m c')) ≡ (if ip == ip' then some c' else find ip' (take n t))
  pub firsts : (ip' m' : ℕ) → IsFirst ip' (take n t) m' → IsFirst ip' (take n (set t m c')) m'
  pub sums : sum_balances (take n (set t m c')) + c.balance ≡ sum_balances (take n t) + c'.balance
  pub sized : length (set t m c') ≡ length t

pub written :
    (n : ℕ) (t : List Client) (ip m : ℕ) (c c' : Client)
    → IsFirst ip (take n t) m
    → get_elem? (take n t) m ≡ some c
    → c'.ip_addr ≡ c.ip_addr
    → c.ip_addr ≡ ip
    → Written n t ip m c c'
written n t ip m c c' first at kept same = record {
  writes = write_entry n t m c' at;
  finds = λ ip'. rw take-set (find-set ip ip' (take n t) m c' first (kept ∙ same));
  firsts = λ ip' m' h. rw take-set (IsFirst-set ip' (take n t) m' m c' at kept h);
  sums = rw take-set (sum_balances-set (take n t) m c' at);
  sized = length-set t m c';
}

-- `execute` returns, keeps the ledger well formed, posts the transfer, and counts it.
pub record Executed (source dest i j : ℕ) (pkt : Packet) (l : Ledger) : Type 0 where
  pub ledger : Ledger
  pub returns : execute i j pkt l ≡ done ledger
  pub valid : IsValid ledger
  pub bank : bank_of ledger ≡ record (bank_of l) {
    account = λ ip. post source dest pkt.seqn pkt.req.value ip ((bank_of l).account ip);
  }
  pub counted : ledger.num_transactions ≡ l.num_transactions +ℤ pos 1
  pub transferred :
      ledger.total_transferred ≡ to_int (u32 (to_u32 l.total_transferred + pkt.req.value))
  pub firsts : (ip m : ℕ) → IsFirst ip (clients l) m → IsFirst ip (clients ledger) m

-- Three writes, seen as updates of a map, post the transfer.
posted :
    (source dest seqn value ip : ℕ) (f₀ f₁ f₂ f₃ : ℕ → Option Client) (c c₁ d d₁ e e₁ : Client)
    → value ≤ c.balance
    → (f₀ source ≡ some c) × (c₁ ≡ record c { balance = c.balance - value })
    → ((k : ℕ) → f₁ k ≡ (if source == k then some c₁ else f₀ k))
    → (f₁ dest ≡ some d) × (d₁ ≡ record d { balance = d.balance + value })
    → ((k : ℕ) → f₂ k ≡ (if dest == k then some d₁ else f₁ k))
    → (f₂ source ≡ some e) × (e₁ ≡ record e { last_req_id = seqn })
    → ((k : ℕ) → f₃ k ≡ (if source == k then some e₁ else f₂ k))
    → account_of (f₃ ip) ≡ post source dest seqn value ip (account_of (f₀ ip))
posted source dest seqn value ip f₀ f₁ f₂ f₃ c c₁ d d₁ e e₁ enough h₀ h₁ h₂ h₃ h₄ h₅ =
    elim (Bool-cases (source == ip)) [
      | inl is_source ↦ elim (Bool-cases (dest == ip)) [
        | inl both ↦ ground (arith, h₁ dest, h₁ ip, h₃ source, h₃ ip, h₅ ip)
        | inr not_dest ↦ ground (arith, h₁ source, h₁ ip, h₃ source, h₃ ip, h₅ ip)
      ]
      | inr not_source ↦ elim (Bool-cases (dest == ip)) [
        | inl is_dest ↦ ground (arith, h₁ dest, h₁ ip, h₃ ip, h₅ ip)
        | inr neither ↦ ground (arith, h₁ ip, h₃ ip, h₅ ip)
      ]
    ]

-- The transfer of an amount that the source has, to an account that exists.
pub execute_refines :
    (source dest i j : ℕ) (pkt : Packet) {l : Ledger}
    → IsValid l
    → IsFirst source (clients l) i
    → IsFirst dest (clients l) j
    → (a : Account) → account_of (find source (clients l)) ≡ some a
    → pkt.req.value ≤ a.balance
    → l.num_transactions <ℤ int_max
    → Executed source dest i j pkt l
unfolding execute
execute_refines source dest i j pkt {l} v first_i first_j a is enough room = record {
  ledger = ledger;
  returns = rw (
    e₁.reads,
    w₁.writes,
    e₂.reads,
    w₂.writes,
    add_int_next l.num_transactions room,
    e₃.reads,
    w₃.writes,
  );
  valid = record {
    size = w₃.sized ∙ w₂.sized ∙ w₁.sized ∙ v.size;
    counted = v.counted;
    few = v.few;
    total = v.total;
    money = omega (arith, w₁.sums, w₂.sums, w₃.sums, b₁, b₂, enough₁, v.money);
  };
  bank = λ k. record { account = fun_ext account k; count = n };
  counted = refl;
  transferred = refl;
  firsts = λ ip m h. w₃.firsts ip m (w₂.firsts ip m (w₁.firsts ip m h));
}
  where
    value : ℕ
    value = pkt.req.value

    n : ℕ
    n = pos_part l.num_clients

    t : List Client
    t = l.client_table

    e₁ : Entry n t source i
    e₁ = entry n t source i first_i

    c₁ : Client
    c₁ = record (e₁.client) { balance = u32 (e₁.client.balance + 2 ^ 32 - value) }

    w₁ : Written n t source i (e₁.client) c₁
    w₁ = written n t source i (e₁.client) c₁ first_i e₁.at refl e₁.same

    t₁ : List Client
    t₁ = set t i c₁

    e₂ : Entry n t₁ dest j
    e₂ = entry n t₁ dest j (w₁.firsts dest j first_j)

    c₂ : Client
    c₂ = record (e₂.client) { balance = u32 (e₂.client.balance + value) }

    w₂ : Written n t₁ dest j (e₂.client) c₂
    w₂ = written n t₁ dest j (e₂.client) c₂ (w₁.firsts dest j first_j) e₂.at refl e₂.same

    t₂ : List Client
    t₂ = set t₁ j c₂

    first₂ : IsFirst source (take n t₂) i
    first₂ = w₂.firsts source i (w₁.firsts source i first_i)

    e₃ : Entry n t₂ source i
    e₃ = entry n t₂ source i first₂

    c₃ : Client
    c₃ = record (e₃.client) { last_req_id = pkt.seqn }

    w₃ : Written n t₂ source i (e₃.client) c₃
    w₃ = written n t₂ source i (e₃.client) c₃ first₂ e₃.at refl e₃.same

    ledger : Ledger
    ledger = record l {
      client_table = set t₂ i c₃;
      num_transactions = l.num_transactions +ℤ pos 1;
      total_transferred = to_int (u32 (to_u32 l.total_transferred + value));
    }

    enough₁ : value ≤ e₁.client.balance
    enough₁ = ground (arith, e₁.found)

    small₁ : e₁.client.balance ≤ 1000
    small₁ = omega (arith, balance-le-sum (take n t) i e₁.at, v.money, v.few)

    b₁ : c₁.balance ≡ e₁.client.balance - value
    b₁ = omega (arith, enough₁, small₁)

    small₂ : e₂.client.balance + value ≤ 1000
    small₂ = omega (arith, balance-le-sum (take n t₁) j e₂.at, w₁.sums, b₁, enough₁, v.money, v.few)

    b₂ : c₂.balance ≡ e₂.client.balance + value
    b₂ = omega (arith, small₂)

    account :
        (ip : ℕ)
        → account_of (find ip (take n (set t₂ i c₃)))
          ≡ post source dest pkt.seqn value ip (account_of (find ip (take n t)))
    account ip =
        posted source dest pkt.seqn value ip (λ k. find k (take n t)) (λ k. find k (take n t₁))
          (λ k. find k (take n t₂)) (λ k. find k (take n (set t₂ i c₃))) (e₁.client) c₁ (e₂.client)
          c₂ (e₃.client) c₃ enough₁ (e₁.found, ap (λ b. record (e₁.client) { balance = b }) b₁)
          w₁.finds (e₂.found, ap (λ b. record (e₂.client) { balance = b }) b₂) w₂.finds
          (e₃.found, refl) w₃.finds
