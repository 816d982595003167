-- ===== src/Server/Bank/Last.antt =====
-- The last number that the bank has noted for an address.
use inf01151_trabalho.Common.{
  ℕ, ◌<◌, ◌≡◌, ◌≢◌, refl, ◌∙◌, Option, none, some, arith, ap, Option-cases, inl, inr,
}
use inf01151_trabalho.Server.Bank.{
  Account, Bank, register, post, Verdict, table_full, duplicate, unknown_dest, query, insufficient,
  executed, verdict, request_verdict, settle, request,
}
use inf01151_trabalho.Server.Bank.Once.{Accepted}
use inf01151_trabalho.Server.Bank.Register.{register_known}

abbrev pub last_of_account : Option Account → ℕ
last_of_account none = 0
last_of_account (some a) = a.last_req_id

-- None is 0, as in a new account.
abbrev pub last_of : ℕ → Bank → ℕ
last_of ip b = last_of_account (b.account ip)

module _ (ip source : ℕ) (b : Bank) where
  register-last_of : last_of ip (register source b) ≡ last_of ip b
  unfolding register
  register-last_of = ground arith

post-last_of :
    (source dest seqn value ip : ℕ) (o : Option Account)
    → source ≢ ip
    → last_of_account (post source dest seqn value ip o) ≡ last_of_account o
post-last_of source dest seqn value ip none other = refl
post-last_of source dest seqn value ip (some a) other = ground arith

-- What a verdict notes at the source.
abbrev pub noted : ℕ → Verdict → ℕ → ℕ
noted seqn executed last = seqn
noted seqn query last = seqn
noted seqn table_full last = last
noted seqn duplicate last = last
noted seqn unknown_dest last = last
noted seqn insufficient last = last

module _ (source dest seqn value : ℕ) where
  settle-last_of_other :
      (ip : ℕ) (v : Verdict) (b : Bank)
      → source ≢ ip
      → last_of ip (settle source dest seqn value v b) ≡ last_of ip b
  unfolding settle
  settle-last_of_other ip executed b other =
      post-last_of source dest seqn value ip (b.account ip) other
  settle-last_of_other ip query b other = post-last_of source dest seqn 0 ip (b.account ip) other
  settle-last_of_other ip table_full b other = refl
  settle-last_of_other ip duplicate b other = refl
  settle-last_of_other ip unknown_dest b other = refl
  settle-last_of_other ip insufficient b other = refl

  -- A request notes nothing at another address.
  pub request-last_of_other :
      (ip : ℕ) (b : Bank)
      → source ≢ ip
      → last_of ip (request source dest seqn value b).1 ≡ last_of ip b
  unfolding request
  request-last_of_other ip b other =
      settle-last_of_other ip (request_verdict source dest seqn value (register source b))
        (register source b) other
      ∙ register-last_of ip source b

  -- An accepted request has a higher number than the last.
  verdict-Accepted :
      (b : Bank) → Accepted (request_verdict source dest seqn value b) → last_of source b < seqn
  unfolding request_verdict verdict
  verdict-Accepted b acc = ground arith

  settle-last_of :
      (b : Bank)
      → last_of source (settle source dest seqn value (request_verdict source dest seqn value b) b)
        ≡ noted seqn (request_verdict source dest seqn value b) (last_of source b)
  unfolding settle request_verdict verdict
  settle-last_of b = ground arith

  pub request-last_of :
      (b : Bank)
      → last_of source (request source dest seqn value b).1
        ≡ noted seqn (request source dest seqn value b).0 (last_of source b)
  unfolding request
  request-last_of b =
      settle-last_of (register source b)
      ∙ ap (noted seqn (request_verdict source dest seqn value (register source b)))
          (register-last_of source source b)

  pub request-Accepted :
      (b : Bank) → Accepted (request source dest seqn value b).0 → last_of source b < seqn
  unfolding request
  request-Accepted b acc =
      omega (arith, verdict-Accepted (register source b) acc, register-last_of source source b)

  -- A registered source stays so.
  settle_keeps :
      (v : Verdict) (b : Bank) {a : Account}
      → b.account source ≡ some a
      → (settle source dest seqn value v b).account source ≢ none
  unfolding settle
  settle_keeps executed b known = ground arith
  settle_keeps query b known = ground arith
  settle_keeps table_full b known = ground arith
  settle_keeps duplicate b known = ground arith
  settle_keeps unknown_dest b known = ground arith
  settle_keeps insufficient b known = ground arith

  -- A registered source stays so, with a number that is the request's or the last one.
  pub request_keeps :
      (b : Bank) {a : Account} (bound : ℕ)
      → b.account source ≡ some a
      → a.last_req_id < bound
      → seqn < bound
      → (a' : Account) × ((request source dest seqn value b).1.account source ≡ some a')
        × (a'.last_req_id < bound)
  unfolding request
  request_keeps b {a} bound known low low_seqn =
      elim (Option-cases ((request source dest seqn value b).1.account source)) [
        | inl lost ↦ absurd (
            settle_keeps (request_verdict source dest seqn value (register source b))
              (register source b)
              (ap (λ (b' : Bank). b'.account source) (register_known source b known) ∙ known) lost)
        | inr (a', kept) ↦ (
          a',
          kept,
          noted-bound (request source dest seqn value b).0 a' (ap last_of_account kept)
              (request-last_of b) (ap last_of_account known),
        )
      ]
    where
      noted-bound :
          (v : Verdict) (a' : Account)
          → last_of source (request source dest seqn value b).1 ≡ a'.last_req_id
          → last_of source (request source dest seqn value b).1 ≡ noted seqn v (last_of source b)
          → last_of source b ≡ a.last_req_id
          → a'.last_req_id < bound
      noted-bound executed a' e₁ e₂ e₃ = omega arith
      noted-bound query a' e₁ e₂ e₃ = omega arith
      noted-bound table_full a' e₁ e₂ e₃ = omega arith
      noted-bound duplicate a' e₁ e₂ e₃ = omega arith
      noted-bound unknown_dest a' e₁ e₂ e₃ = omega arith
      noted-bound insufficient a' e₁ e₂ e₃ = omega arith
