-- ===== src/Client/Queue/Fifo.antt =====
-- The ring of the command queue holds the items of a channel in order.
use inf01151_trabalho.Common.{
  ℕ, zero, suc, ◌+◌, ◌-◌, ◌%◌, ◌≤◌, ◌<◌, ◌≡◌, ◌≢◌, refl, ap, ap₂, sym, ◌∙◌, Bool, true, false,
  Option, none, some, List, [], ◌∷◌, ◌++◌, leb, ◌==◌, arith, length, set, length-set, done, read,
  write-eq-set, Bool-cases, inl, inr,
}
use native.Mathlib.Numerals.{add-one}
use inf01151_trabalho.Client.Types.{Requisicao}
use inf01151_trabalho.Client.Queue.{
  Attempt, waits, returns, CommandQueue, queue_size, queue_init, queue_push, queue_pop,
}
use inf01151_trabalho.Client.Queue.Channel
use inf01151_trabalho.Client.Queue.Channel.{Channel}

pub record IsValid (q : CommandQueue) : Type 0 where
  pub storage : length q.commands ≡ queue_size
  pub front_in : q.front < queue_size
  pub count_in : q.count ≤ queue_size
  pub rear_at : q.rear ≡ (q.front + q.count) % queue_size

abbrev no_request : Requisicao
no_request = record { dest_addr = 0; value = 0 }

abbrev slot : List Requisicao → ℕ → Requisicao
slot [] i = no_request
slot (r ∷ rs) zero = r
slot (r ∷ rs) (suc i) = slot rs i

-- The items that stand `k`, `k + 1`, ... places behind the front, `n` of them.
abbrev pub segment : List Requisicao → ℕ → ℕ → ℕ → List Requisicao
segment commands front k zero = []
segment commands front k (suc n) =
    slot commands ((front + k) % queue_size) ∷ segment commands front (suc k) n

abbrev pub channel_of : CommandQueue → Channel
channel_of q = record { items = segment q.commands q.front 0 q.count; closed = q.shutdown }

read-slot : (xs : List Requisicao) (i : ℕ) → i < length xs → read xs i ≡ done (slot xs i)
unfolding read
read-slot [] i h = elim h [ ]
read-slot (x ∷ xs) zero h = refl
read-slot (x ∷ xs) (suc i) h = read-slot xs i (omega arith)

slot-set_self :
    (xs : List Requisicao) (i : ℕ) (v : Requisicao) → i < length xs → slot (set xs i v) i ≡ v
slot-set_self [] i v h = elim h [ ]
slot-set_self (x ∷ xs) zero v h = refl
slot-set_self (x ∷ xs) (suc i) v h = slot-set_self xs i v (omega arith)

slot-set_ne :
    (xs : List Requisicao) (i j : ℕ) (v : Requisicao) → i ≢ j → slot (set xs i v) j ≡ slot xs j
slot-set_ne [] i j v h = refl
slot-set_ne (x ∷ xs) zero zero v h = absurd (h refl)
slot-set_ne (x ∷ xs) zero (suc j) v h = refl
slot-set_ne (x ∷ xs) (suc i) zero v h = refl
slot-set_ne (x ∷ xs) (suc i) (suc j) v h = slot-set_ne xs i j v (λ e. h (ap suc e))

length-segment : (xs : List Requisicao) (f k n : ℕ) → length (segment xs f k n) ≡ n
length-segment xs f k zero = refl
length-segment xs f k (suc n) = ap suc (length-segment xs f (suc k) n)

-- A write right behind a segment extends it.
segment-set :
    (xs : List Requisicao) (f k n i : ℕ) (v : Requisicao)
    → length xs ≡ queue_size
    → k + n < queue_size
    → i ≡ (f + k + n) % queue_size
    → segment (set xs i v) f k (suc n) ≡ segment xs f k n ++ (v ∷ [])
segment-set xs f k zero i v size room at =
    ap (λ r. r ∷ []) (ap (slot (set xs i v)) (omega arith) ∙ slot-set_self xs i v (omega arith))
segment-set xs f k (suc n) i v size room at =
    ap₂ ◌∷◌ (slot-set_ne xs i ((f + k) % queue_size) v (omega arith))
      (segment-set xs f (suc k) n i v size (omega arith) (omega arith))

-- One step of the front leaves the segment behind it as it is.
segment-next :
    (xs : List Requisicao) (f k n : ℕ)
    → segment xs ((f + 1) % queue_size) k n ≡ segment xs f (suc k) n
segment-next xs f k zero = refl
segment-next xs f k (suc n) = ap₂ ◌∷◌ (ap (slot xs) (omega arith)) (segment-next xs f (suc k) n)

-- An empty queue, on storage of the right size.
pub queue_init_lem :
    (storage : List Requisicao)
    → length storage ≡ queue_size
    → IsValid (queue_init storage)
      × (channel_of (queue_init storage) ≡ record { items = []; closed = false })
unfolding queue_init
queue_init_lem storage h =
    (record { storage = h; front_in = omega arith; count_in = omega arith; rear_at = refl }, refl)

-- How a call has ended on the ring, seen from the channel.
abbrev pub view : {A : Type 0} → Attempt (A × CommandQueue) → Attempt (A × Channel)
view waits = waits
view (returns (a, q)) = returns (a, channel_of q)

-- The queue that a call leaves is well formed.
abbrev pub Keeps : {A : Type 0} → Attempt (A × CommandQueue) → Type 0
Keeps waits = Unit
Keeps (returns (a, q)) = IsValid q

abbrev pushed : Requisicao → CommandQueue → CommandQueue
pushed req q = record q {
  commands = set q.commands q.rear req;
  rear = (q.rear + 1) % queue_size;
  count = q.count + 1;
}

pushed-IsValid :
    (req : Requisicao) {q : CommandQueue}
    → IsValid q
    → q.count < queue_size
    → IsValid (pushed req q)
pushed-IsValid req {q} v room = record {
  storage = length-set q.commands q.rear req ∙ v.storage;
  front_in = v.front_in;
  count_in = omega arith;
  rear_at = omega (arith, v.rear_at);
}

segment-pushed :
    (req : Requisicao) {q : CommandQueue}
    → IsValid q
    → q.count < queue_size
    → segment (set q.commands q.rear req) q.front 0 (q.count + 1)
      ≡ segment q.commands q.front 0 q.count ++ (req ∷ [])
segment-pushed req {q} v room = rw add-one (
    segment-set q.commands q.front 0 q.count q.rear req v.storage (omega arith)
      (omega (arith, v.rear_at)))

-- `queue_push` never leaves the array; it does to the ring what `Channel.push` does to the channel,
-- and keeps the ring well formed.
pub queue_push_refines :
    (req : Requisicao) {q : CommandQueue}
    → IsValid q
    → (r : Attempt (Bool × CommandQueue)) × (queue_push req q ≡ done r)
      × (view r ≡ Channel.push req (channel_of q))
      × Keeps r
unfolding queue_push Channel.push
queue_push_refines req {q} v = elim (Bool-cases (q.shutdown)) [
  | inl closed ↦ (returns (false, q), ground arith, ground arith, v)
  | inr open_ ↦ elim (Bool-cases (leb queue_size q.count)) [
    | inl full ↦
        (waits, ground arith, ground (arith, length-segment q.commands q.front 0 q.count), tt)
    | inr room ↦ (
      returns (true, pushed req q),
      ground (arith, v.rear_at, write-eq-set q.commands q.rear req),
      ground (arith, length-segment q.commands q.front 0 q.count, segment-pushed req v),
      pushed-IsValid req v (ground arith),
    )
  ]
]

abbrev popped : CommandQueue → CommandQueue
popped q = record q { front = (q.front + 1) % queue_size; count = q.count - 1 }

popped-IsValid : {q : CommandQueue} → IsValid q → 0 < q.count → IsValid (popped q)
popped-IsValid {q} v some_left = record {
  storage = v.storage;
  front_in = omega arith;
  count_in = omega (arith, v.count_in);
  rear_at = omega (arith, v.rear_at);
}

segment-popped :
    {q : CommandQueue}
    → IsValid q
    → 0 < q.count
    → segment q.commands q.front 0 q.count
      ≡ slot q.commands q.front ∷ segment q.commands ((q.front + 1) % queue_size) 0 (q.count - 1)
segment-popped {q} v some_left =
    ap (segment q.commands q.front 0) one_more
    ∙ ap₂ ◌∷◌ (ap (slot q.commands) (omega (arith, v.front_in)))
        (sym (segment-next q.commands q.front 0 (q.count - 1)))
  where
    one_more : q.count ≡ suc (q.count - 1)
    one_more = omega arith

-- `queue_pop` never leaves the array; it does to the ring what `Channel.pop` does to the channel,
-- and keeps the ring well formed.
pub queue_pop_refines :
    {q : CommandQueue}
    → IsValid q
    → (r : Attempt (Option Requisicao × CommandQueue)) × (queue_pop q ≡ done r)
      × (view r ≡ Channel.pop (channel_of q))
      × Keeps r
unfolding queue_pop Channel.pop
queue_pop_refines {q} v = elim (Bool-cases (q.count == 0)) [
  | inl empty ↦
      let none_left : q.count ≡ 0 = ground arith in
      elim (Bool-cases (q.shutdown)) [
        | inl closed ↦ (returns (none, q), ground arith, rw (none_left, closed), v)
        | inr open_ ↦ (waits, ground arith, rw (none_left, open_), tt)
      ]
  | inr some_left ↦ (
    returns (some (slot q.commands q.front), popped q),
    ground (arith, read-slot q.commands q.front, v.front_in, v.storage),
    rw (segment-popped v (ground arith)),
    popped-IsValid v (ground arith),
  )
]
