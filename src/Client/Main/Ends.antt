-- ===== src/Client/Main/Ends.antt =====
-- What the client holds, and how it lets go of it, whatever calls fail.
use inf01151_trabalho.Common.{
  ℕ, ◌≡◌, refl, ◌⊎◌, inl, inr, Bool, true, false, ◌&&◌, not, Bool-cases, Option, none, some, List,
  [], ◌∷◌, ◌==◌, if◌then◌else◌,
}
use inf01151_trabalho.Client.Discovery.{Search, searching, exited, found, discover_server}
use inf01151_trabalho.Client.Main.{
  Event, opened_socket, closed_socket, started_reader, started_sender, shut_down, joined_reader,
  joined_sender, destroyed_queue, requested, ended, request, after_search, Calls, Threads, main,
}

-- What the process holds: its socket, the command queue, and the two threads.
pub record Held : Type 0 where
  pub running : Bool
  pub socket : Bool
  pub queue : Bool
  pub reader : Bool
  pub sender : Bool

abbrev pub idle : Held
idle = record { running = true; socket = false; queue = false; reader = false; sender = false }

-- The process has ended, and holds nothing.
abbrev pub gone : Held
gone = record { running = false; socket = false; queue = false; reader = false; sender = false }

-- It has its socket, and nothing else.
abbrev pub waiting : Held
waiting = record { running = true; socket = true; queue = false; reader = false; sender = false }

abbrev allowed : Bool → Held → Option Held
allowed b h = if b then some h else none

-- What an event is allowed in, and what it leaves: a thread is started on a queue that is there and
-- joined once, the queue is destroyed after the threads on it have been joined, the socket is closed
-- once, after the queue, and the process ends with nothing held.
abbrev pub after : Event → Held → Option Held
after opened_socket h = allowed (h.running && not h.socket) (record h { socket = true })
after closed_socket h = allowed (h.socket && not h.queue) (record h { socket = false })
after (requested addr) h = allowed (h.socket && not h.queue) (record h { queue = true })
after started_reader h = allowed (h.queue && not h.reader) (record h { reader = true })
after started_sender h = allowed (h.queue && not h.sender) (record h { sender = true })
after shut_down h = allowed (h.queue) h
after joined_reader h = allowed (h.reader) (record h { reader = false })
after joined_sender h = allowed (h.sender) (record h { sender = false })
after destroyed_queue h =
    allowed (h.queue && not h.reader && not h.sender) (record h { queue = false })
after (ended code) h =
    allowed (h.running && not h.socket && not h.queue) (record h { running = false })

abbrev pub and_then : Option Held → (Held → Option Held) → Option Held
and_then none f = none
and_then (some h) f = f h

-- A sequence of events, each allowed.
abbrev pub follow : List Event → Held → Option Held
follow [] h = some h
follow (e ∷ es) h = and_then (after e h) (follow es)

-- In a `pthread_join`: for the reader, with the sender started or not, or for the sender after it.
abbrev pub Joining : Threads → Held → Type 0
Joining t h =
    ((h ≡ record waiting { queue = true; reader = true; sender = t.create_sender })
      × (t.reader_ends ≡ false))
    ⊎ ((h ≡ record waiting { queue = true; sender = true }) × (t.sender_ends ≡ false))

-- How a run of the client is left, by what it holds.
abbrev pub Left : Search → Threads → Option Held → Type 0
Left r t o =
    (o ≡ some gone)
    ⊎ ((o ≡ some waiting) × (r ≡ searching))
    ⊎ ((h : Held) × (o ≡ some h) × Joining t h)

after_search-follow : (r : Search) (t : Threads) → Left r t (follow (after_search r t) waiting)
unfolding after_search request
after_search-follow searching t = inr (inl (refl, refl))
after_search-follow exited t = inl refl
after_search-follow (found addr) t = elim (Bool-cases (t.create_reader)) [
  | inr e ↦ inl (rw e refl)
  | inl e₁ ↦ elim (Bool-cases (t.create_sender)) [
    | inr e₂ ↦ elim (Bool-cases (t.reader_ends)) [
      | inl e ↦ inl (rw (e₁, e₂, e) refl)
      | inr e ↦ inr (
          inr (
            record waiting { queue = true; reader = true; sender = t.create_sender },
            rw (e₁, e₂, e) refl,
            inl (refl, e),
          ))
    ]
    | inl e₂ ↦ elim (Bool-cases (t.reader_ends)) [
      | inr e ↦ inr (
          inr (
            record waiting { queue = true; reader = true; sender = t.create_sender },
            rw (e₁, e₂, e) refl,
            inl (refl, e),
          ))
      | inl e₃ ↦ elim (Bool-cases (t.sender_ends)) [
        | inl e ↦ inl (rw (e₁, e₂, e₃, e) refl)
        | inr e ↦ inr (
            inr (
              record waiting { queue = true; sender = true },
              rw (e₁, e₂, e₃, e) refl,
              inr (refl, e),
            ))
      ]
    ]
  ]
]

-- In every run of the client, whatever calls fail, each event is allowed where it comes, and the
-- process ends with nothing held, unless it is still in the retries of `discover_server`, when it
-- holds its socket, or waits in `pthread_join` for a thread that does not end, when it holds its
-- socket, the queue and the threads that are not joined.
pub follow-main :
    (argc : ℕ) (calls : Calls)
    → Left
        (discover_server calls.send_timeout calls.receive_timeout calls.rounds)
        calls.threads
        (follow (main argc calls) idle)
unfolding main
follow-main argc calls = elim (Bool-cases (argc == 2)) [
  | inr e ↦ inl (rw e refl)
  | inl e₁ ↦ elim (Bool-cases (calls.socket)) [
    | inr e ↦ inl (rw (e₁, e) refl)
    | inl e₂ ↦ elim (Bool-cases (calls.enable_broadcast)) [
      | inr e ↦ inl (rw (e₁, e₂, e) refl)
      | inl e₃ ↦
          rw (e₁, e₂, e₃)
            (after_search-follow
              (discover_server calls.send_timeout calls.receive_timeout calls.rounds) calls.threads)
    ]
  ]
]
