-- ===== src/Server/Frame.antt =====
-- What every operation of a server keeps: a rule for each way in which the code changes the globals,
-- and from these rules the preservation by whole handlers (the children).
pub mod Elections
pub mod Rounds
pub mod Requests
pub mod Led
use inf01151_trabalho.Common.{
  ℕ, ◌≡◌, refl, ℤ, Option, List, Outcome, done, fault, ◌>>=◌, Bool, true, false, int_eq, int_lt,
  if◌then◌else◌,
}
use inf01151_trabalho.Server.Types.{
  Replica, replica_primario, replica_secundario, Packet, Ledger, Health, Server,
}
use inf01151_trabalho.Server.Clients.{find_or_add_client}
use inf01151_trabalho.Server.Safety.{ledger_of}

-- If there is a value, it has the property.
pub data Leaves {ℓ} {A : Type ℓ} (P : A → Type 0) : Outcome A → Type ℓ where
  leaves : {a : A} → P a → Leaves P (done a)
  faults : Leaves P fault

pub Leaves-done {ℓ} : {A : Type ℓ} {P : A → Type 0} {a : A} → Leaves P (done a) → P a
Leaves-done (leaves h) = h

pub Leaves-bind {ℓ κ} :
    {A : Type ℓ} {B : Type κ} (P : A → Type 0) (Q : B → Type 0) (m : Outcome A) (f : A → Outcome B)
    → Leaves P m
    → ((a : A) → P a → Leaves Q (f a))
    → Leaves Q (m >>= f)
Leaves-bind P Q (done a) f (leaves h) k = k a h
Leaves-bind P Q fault f faults k = faults

-- Where nothing need be known of the first value.
pub Leaves-any {ℓ κ} :
    {A : Type ℓ} {B : Type κ} (Q : B → Type 0) (m : Outcome A) (f : A → Outcome B)
    → ((a : A) → Leaves Q (f a))
    → Leaves Q (m >>= f)
Leaves-any Q (done a) f k = k a
Leaves-any Q fault f k = faults

-- Where the equation is wanted.
pub Leaves-eq {ℓ κ} :
    {A : Type ℓ} {B : Type κ} (Q : B → Type 0) (m : Outcome A) (f : A → Outcome B)
    → ((a : A) → m ≡ done a → Leaves Q (f a))
    → Leaves Q (m >>= f)
Leaves-eq Q (done a) f k = k a refl
Leaves-eq Q fault f k = faults

pub if-Leaves {ℓ} :
    {A : Type ℓ} (P : A → Type 0) (b : Bool) (m n : Outcome A)
    → Leaves P m
    → Leaves P n
    → Leaves P (if b then m else n)
if-Leaves P true m n h k = h
if-Leaves P false m n h k = k

-- `Q` is kept by each change that the code makes to the globals, as far as the packet that causes it
-- is one of `Fits`.
pub record Frame (Q : Server → Type 0) (Fits : Packet → Type 0) : Type 0 where
  pub arrays :
      (s : Server) (list : List Replica) (n : ℤ) (b : Bool) (health : List Health)
      → Q s
      → Q (record s {
        num_servers = n;
        server_list = list;
        election_in_progress = b;
        server_health = health;
      })
  pub registers :
      (s : Server) (ip : ℕ) (o : Option ℕ) (l : Ledger)
      → find_or_add_client ip s.ledger ≡ done (o, l)
      → Q s
      → Q (record s { ledger = l })
  pub promotes :
      (s : Server) (health : List Health)
      → Q s
      → Q (record s {
        current_role = replica_primario;
        current_leader_id = s.my_id;
        election_in_progress = false;
        server_health = health;
      })
  pub follows :
      (s : Server) (leader : ℤ) (health : List Health)
      → int_lt leader s.my_id ≡ false
      → Q s
      → Q (record s {
        current_leader_id = leader;
        server_health = health;
        election_in_progress = false;
        current_role = if int_eq s.my_id leader then replica_primario else replica_secundario;
      })
  pub replicates :
      (s : Server) (pkt : Packet) → Fits pkt → Q s → Q (record s { ledger = ledger_of pkt.rep })

-- What the other threads do during a sleep keeps `Q`.
abbrev pub Keeps : (Server → Type 0) → (ℕ → Server → Server) → Type 0
Keeps Q sleep = (k : ℕ) (s : Server) → Q s → Q (sleep k s)
