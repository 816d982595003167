-- ===== src/Server/Peers/Addresses.antt =====
-- The list of servers as a map from ids to addresses, and the search in it.
use inf01151_trabalho.Common.{
  ◌∙◌, ℕ, zero, suc, ◌+◌, ◌≤◌, ◌<◌, ◌≡◌, refl, ℤ, Option, none, some, List, [], ◌∷◌, ◌++◌, ◌⊎◌, inl,
  inr, ap, if◌then◌else◌, arith, length, set, take, drop, get_elem?, done, read, read-drop, int_eq,
  int_eq_iff, Bool-cases, true, false,
}
use inf01151_trabalho.Server.Types.{Replica, SockAddr}
use inf01151_trabalho.Server.Peers.{find_server_from}

-- The address of the first server with the id.
unfoldable pub address : ℤ → List Replica → Option SockAddr
address id [] = none
address id (r ∷ rs) = if int_eq r.id id then some r.addr else address id rs

-- The position of the first server with the id, counted from `i`.
pub index_id : ℤ → ℕ → List Replica → Option ℕ
index_id id i [] = none
index_id id i (r ∷ rs) = if int_eq r.id id then some i else index_id id (suc i) rs

-- The server at `m` is the first one with the id.
abbrev pub IsServer : ℤ → List Replica → ℕ → Type 0
IsServer id [] m = ⊥
IsServer id (r ∷ rs) zero = int_eq r.id id ≡ true
IsServer id (r ∷ rs) (suc m) = (int_eq r.id id ≡ false) × IsServer id rs m

pub find_server_from-eq-index_id :
    (id : ℤ) (list : List Replica) (i n : ℕ)
    → i + n ≤ length list
    → find_server_from id list i n ≡ done (index_id id i (take n (drop i list)))
unfolding find_server_from index_id
find_server_from-eq-index_id id list i zero h = refl
find_server_from-eq-index_id id list i (suc n) h =
    let (r, at, left) = read-drop list i (omega arith) in
    rw (at, left, find_server_from-eq-index_id id list (suc i) n (omega arith)) (ground arith)

pub index_id-cases :
    (id : ℤ) (i : ℕ) (rs : List Replica)
    → ((index_id id i rs ≡ none) × (address id rs ≡ none))
      ⊎ ((m : ℕ) × (index_id id i rs ≡ some (i + m)) × IsServer id rs m)
unfolding index_id address
index_id-cases id i [] = inl (refl, refl)
index_id-cases id i (r ∷ rs) = elim (Bool-cases (int_eq r.id id)) [
  | inl same ↦ inr (0, rw same (ap some (omega arith)), same)
  | inr other ↦ elim (index_id-cases id (suc i) rs) [
    | inl (none_at, unknown) ↦ inl (rw other none_at, rw other unknown)
    | inr (m, at, first) ↦ inr (suc m, rw other (at ∙ ap some (omega arith)), (other, first))
  ]
]

-- Two equal ids are equal to the same ids.
int_eq-congr : (a b k : ℤ) → int_eq a b ≡ true → int_eq a k ≡ int_eq b k
int_eq-congr a b k e = ap (λ x. int_eq x k) ((int_eq_iff a b).0 e)

int_eq-congr_right : (c a b : ℤ) → int_eq a b ≡ true → int_eq c a ≡ int_eq c b
int_eq-congr_right c a b e = ap (int_eq c) ((int_eq_iff a b).0 e)

pub IsServer-get :
    (id : ℤ) (rs : List Replica) (m : ℕ)
    → IsServer id rs m
    → (r : Replica) × (get_elem? rs m ≡ some r) × (int_eq r.id id ≡ true)
IsServer-get id [] m h = absurd h
IsServer-get id (r ∷ rs) zero h = (r, refl, h)
IsServer-get id (r ∷ rs) (suc m) h = IsServer-get id rs m h.1

pub address-set :
    (id k : ℤ) (rs : List Replica) (m : ℕ) (r' : Replica)
    → IsServer id rs m
    → r'.id ≡ id
    → address k (set rs m r') ≡ (if int_eq id k then some r'.addr else address k rs)
unfolding address
address-set id k [] m r' h e = absurd h
address-set id k (r ∷ rs) zero r' h e = ground (arith, int_eq-congr r.id id k)
address-set id k (r ∷ rs) (suc m) r' h e =
    ground (arith, address-set id k rs m r' h.1 e, int_eq-congr_right r.id id k)

pub IsServer-address :
    (id : ℤ) (rs : List Replica) (m : ℕ)
    → IsServer id rs m
    → (a : SockAddr) × (address id rs ≡ some a)
unfolding address
IsServer-address id [] m h = absurd h
IsServer-address id (r ∷ rs) zero h = (r.addr, rw h)
IsServer-address id (r ∷ rs) (suc m) h =
    let (a, is) = IsServer-address id rs m h.1 in (a, rw (h.0) is)

pub address-append :
    (id : ℤ) (rs : List Replica) (r : Replica)
    → address id (rs ++ (r ∷ [])) ≡ elim (address id rs) [
      | some a ↦ some a
      | none ↦ if int_eq r.id id then some r.addr else none
    ]
unfolding address
address-append id [] r = refl
address-append id (x ∷ xs) r = ground (arith, address-append id xs r)

pub read-get :
    (n : ℕ) (list : List Replica) (m : ℕ) {r : Replica}
    → get_elem? (take n list) m ≡ some r
    → (read list m ≡ done r) × (m < length list)
unfolding read
read-get zero list m e = cc
read-get (suc n) [] m e = cc
read-get (suc n) (x ∷ xs) zero e = (ground arith, omega arith)
read-get (suc n) (x ∷ xs) (suc m) e = let (at, lt) = read-get n xs m e in (at, omega arith)
