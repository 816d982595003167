-- ===== src/Server/Clients/Find.antt =====
-- Lists of clients: the first entry of an address, and the sum of the balances.
use inf01151_trabalho.Common.{
  ℕ, zero, suc, ◌+◌, ◌≤◌, ◌≡◌, ◌≢◌, refl, Option, none, some, List, [], ◌∷◌, ◌++◌, ◌==◌, Bool-cases,
  inl, inr, if◌then◌else◌, arith, length, set, get_elem?,
}
use inf01151_trabalho.Server.Types.{Client}

-- The position of the first entry with the address, counted from `i`.
unfoldable pub index_from : ℕ → ℕ → List Client → Option ℕ
index_from ip i [] = none
index_from ip i (c ∷ cs) = if c.ip_addr == ip then some i else index_from ip (suc i) cs

-- The first entry with the address.
unfoldable pub find : ℕ → List Client → Option Client
find ip [] = none
find ip (c ∷ cs) = if c.ip_addr == ip then some c else find ip cs

-- The entry at `m` is the first one with the address.
abbrev pub IsFirst : ℕ → List Client → ℕ → Type 0
IsFirst ip [] m = ⊥
IsFirst ip (c ∷ cs) zero = c.ip_addr ≡ ip
IsFirst ip (c ∷ cs) (suc m) = (c.ip_addr ≢ ip) × IsFirst ip cs m

unfoldable pub sum_balances : List Client → ℕ
sum_balances [] = 0
sum_balances (c ∷ cs) = c.balance + sum_balances cs

pub index_from-some :
    (ip i : ℕ) (xs : List Client) {k : ℕ}
    → index_from ip i xs ≡ some k
    → (m : ℕ) × (k ≡ i + m) × IsFirst ip xs m
unfolding index_from
index_from-some ip i [] e = cc
index_from-some ip i (c ∷ cs) e = elim (Bool-cases (c.ip_addr == ip)) [
  | inl same ↦ (0, ground arith, ground arith)
  | inr other ↦
      let (m, at, first) = index_from-some ip (suc i) cs (rw other at e) in
      (suc m, omega arith, (ground arith, first))
]

pub index_from-none : (ip i : ℕ) (xs : List Client) → index_from ip i xs ≡ none → find ip xs ≡ none
unfolding index_from find
index_from-none ip i [] e = refl
index_from-none ip i (c ∷ cs) e = ground (arith, index_from-none ip (suc i) cs)

pub IsFirst-find :
    (ip : ℕ) (xs : List Client) (m : ℕ)
    → IsFirst ip xs m
    → (c : Client) × (get_elem? xs m ≡ some c) × (find ip xs ≡ some c) × (c.ip_addr ≡ ip)
unfolding find
IsFirst-find ip [] m h = absurd h
IsFirst-find ip (c ∷ cs) zero h = (c, refl, ground arith, h)
IsFirst-find ip (c ∷ cs) (suc m) h =
    let (d, at, found, same) = IsFirst-find ip cs m h.1 in (d, at, ground arith, same)

-- A write at the first entry of an address is an update at that address.
pub find-set :
    (ip ip' : ℕ) (xs : List Client) (m : ℕ) (c' : Client)
    → IsFirst ip xs m
    → c'.ip_addr ≡ ip
    → find ip' (set xs m c') ≡ (if ip == ip' then some c' else find ip' xs)
unfolding find
find-set ip ip' [] m c' h e = absurd h
find-set ip ip' (c ∷ cs) zero c' h e = ground arith
find-set ip ip' (c ∷ cs) (suc m) c' h e = ground (arith, find-set ip ip' cs m c' h.1 e)

pub IsFirst-set :
    (ip : ℕ) (xs : List Client) (m k : ℕ) {c : Client} (c' : Client)
    → get_elem? xs k ≡ some c
    → c'.ip_addr ≡ c.ip_addr
    → IsFirst ip xs m
    → IsFirst ip (set xs k c') m
IsFirst-set ip [] m k c' e same h = absurd h
IsFirst-set ip (d ∷ ds) zero zero c' e same h = ground arith
IsFirst-set ip (d ∷ ds) zero (suc k) c' e same h = h
IsFirst-set ip (d ∷ ds) (suc m) zero c' e same h = (ground arith, h.1)
IsFirst-set ip (d ∷ ds) (suc m) (suc k) c' e same h = (h.0, IsFirst-set ip ds m k c' e same h.1)

pub find-append :
    (ip : ℕ) (xs : List Client) (c : Client)
    → find ip (xs ++ (c ∷ []))
      ≡ elim (find ip xs) [ some d ↦ some d | none ↦ if c.ip_addr == ip then some c else none ]
unfolding find
find-append ip [] c = refl
find-append ip (d ∷ ds) c = ground (arith, find-append ip ds c)

-- What is appended comes later.
pub IsFirst-append :
    (ip : ℕ) (xs ys : List Client) (m : ℕ) → IsFirst ip xs m → IsFirst ip (xs ++ ys) m
IsFirst-append ip [] ys m h = absurd h
IsFirst-append ip (c ∷ cs) ys zero h = h
IsFirst-append ip (c ∷ cs) ys (suc m) h = (h.0, IsFirst-append ip cs ys m h.1)

pub IsFirst-last :
    (ip : ℕ) (xs : List Client) (c : Client)
    → find ip xs ≡ none
    → c.ip_addr ≡ ip
    → IsFirst ip (xs ++ (c ∷ [])) (length xs)
unfolding find
IsFirst-last ip [] c e same = same
IsFirst-last ip (d ∷ ds) c e same = (ground arith, IsFirst-last ip ds c (ground arith) same)

pub sum_balances-set :
    (xs : List Client) (m : ℕ) {c : Client} (c' : Client)
    → get_elem? xs m ≡ some c
    → sum_balances (set xs m c') + c.balance ≡ sum_balances xs + c'.balance
unfolding sum_balances
sum_balances-set [] m c' e = cc
sum_balances-set (d ∷ ds) zero c' e = ground arith
sum_balances-set (d ∷ ds) (suc m) c' e = omega (arith, sum_balances-set ds m c' e)

pub balance-le-sum :
    (xs : List Client) (m : ℕ) {c : Client} → get_elem? xs m ≡ some c → c.balance ≤ sum_balances xs
unfolding sum_balances
balance-le-sum [] m e = cc
balance-le-sum (d ∷ ds) zero e = ground arith
balance-le-sum (d ∷ ds) (suc m) e = omega (arith, balance-le-sum ds m e)

pub sum_balances-append :
    (xs : List Client) (c : Client) → sum_balances (xs ++ (c ∷ [])) ≡ sum_balances xs + c.balance
unfolding sum_balances
sum_balances-append [] c = omega arith
sum_balances-append (d ∷ ds) c = omega (arith, sum_balances-append ds c)
