-- ===== src/Server/Bank.antt =====
-- What the request handling of server/processing.c promises, with no table: a map from addresses
-- to accounts, of bounded size.
pub mod Register
pub mod Once
pub mod Last
use inf01151_trabalho.Common.{
  ℕ, ◌+◌, ◌-◌, ◌<◌, Option, none, some, ◌==◌, ltb, leb, if◌then◌else◌, Bool, true, false,
}
use inf01151_trabalho.Server.Types.{max_clients, Client}

pub record Account : Type 0 where
  pub last_req_id : ℕ
  pub balance : ℕ

pub record Bank : Type 0 where
  pub account : ℕ → Option Account
  pub count : ℕ

abbrev pub account_of : Option Client → Option Account
account_of none = none
account_of (some c) = some (record { last_req_id = c.last_req_id; balance = c.balance })

-- How a request ends.
pub data Verdict : Type 0 where
  table_full duplicate unknown_dest query insufficient executed : Verdict

-- An unknown address gets an account of 100, while there is room.
unfoldable pub register : ℕ → Bank → Bank
register ip b = elim (b.account ip) [
  | some a ↦ b
  | none ↦
      if ltb b.count max_clients
      then record {
        account = λ ip'.
            if ip == ip' then some (record { last_req_id = 0; balance = 100 }) else b.account ip';
        count = b.count + 1;
      }
      else b
]

-- The request is noted at the source; `value` leaves the source and reaches the destination.
abbrev pub post : ℕ → ℕ → ℕ → ℕ → ℕ → Option Account → Option Account
post source dest seqn value ip none = none
post source dest seqn value ip (some a) = some (record {
  last_req_id = if source == ip then seqn else a.last_req_id;
  balance = a.balance + (if dest == ip then value else 0) - (if source == ip then value else 0);
})

module _ (source dest seqn value : ℕ) where
  -- What is wanted of a registered source.
  unfoldable pub verdict : Account → Option Account → Verdict
  verdict a d = if leb seqn a.last_req_id then duplicate else elim d [
    | none ↦ unknown_dest
    | some _ ↦ if value == 0 then query else if ltb a.balance value then insufficient else executed
  ]

  unfoldable pub request_verdict : Bank → Verdict
  unfolding verdict
  request_verdict b = elim (b.account source) [
    | none ↦ table_full
    | some a ↦ verdict a (b.account dest)
  ]

  unfoldable pub settle : Verdict → Bank → Bank
  settle executed b = record b { account = λ ip. post source dest seqn value ip (b.account ip) }
  settle query b = record b { account = λ ip. post source dest seqn 0 ip (b.account ip) }
  settle table_full b = b
  settle duplicate b = b
  settle unknown_dest b = b
  settle insufficient b = b

  -- A request registers its sender, and then has the effect of its verdict.
  unfoldable pub request : Bank → Verdict × Bank
  unfolding register request_verdict settle
  request b = let b' = register source b in let v = request_verdict b' in (v, settle v b')
