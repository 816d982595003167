-- ===== src/Server/Bank/Once.antt =====
-- A request that has been accepted has its effect once.
use inf01151_trabalho.Common.{
  ℕ, ◌+◌, ◌-◌, ◌≤◌, ◌≡◌, refl, some, ◌==◌, if◌then◌else◌, arith, inl, inr, Option-cases, ◌∙◌,
}
use inf01151_trabalho.Server.Bank.{
  Account, Bank, register, Verdict, table_full, duplicate, unknown_dest, query, insufficient,
  executed, verdict, request_verdict, settle, request,
}
use inf01151_trabalho.Server.Bank.Register.{
  register_known, request_verdict_known, request_verdict_full,
}

-- The verdicts that note the request at its source.
abbrev pub Accepted : Verdict → Type 0
Accepted executed = Unit
Accepted query = Unit
Accepted table_full = ⊥
Accepted duplicate = ⊥
Accepted unknown_dest = ⊥
Accepted insufficient = ⊥

module _ (source dest seqn value : ℕ) where
  -- An accepted request leaves its number at the source.
  settle_notes :
      (v : Verdict) (b : Bank) {a : Account}
      → Accepted v
      → b.account source ≡ some a
      → (a' : Account) × ((settle source dest seqn value v b).account source ≡ some a')
        × (a'.last_req_id ≡ seqn)
  unfolding settle
  settle_notes executed b {a} acc e = (
    record {
      last_req_id = seqn;
      balance = a.balance + (if dest == source then value else 0) - value;
    },
    ground arith,
    refl,
  )
  settle_notes query b {a} acc e =
      (record { last_req_id = seqn; balance = a.balance }, ground arith, refl)
  settle_notes table_full b acc e = absurd acc
  settle_notes duplicate b acc e = absurd acc
  settle_notes unknown_dest b acc e = absurd acc
  settle_notes insufficient b acc e = absurd acc

  -- What stands at the source after an accepted request.
  request_notes :
      (b : Bank)
      → Accepted (request source dest seqn value b).0
      → (a' : Account) × ((request source dest seqn value b).1.account source ≡ some a')
        × (a'.last_req_id ≡ seqn)
  unfolding request
  request_notes b acc = elim (Option-cases ((register source b).account source)) [
    | inl unknown ↦
        absurd (rw (request_verdict_full source dest seqn value (register source b) unknown) at acc)
    | inr (a, known) ↦
        settle_notes (request_verdict source dest seqn value (register source b))
          (register source b) acc known
  ]

-- A request under a number that is noted already is a duplicate, and changes nothing.
pub request_duplicate :
    (source dest seqn value : ℕ) (b : Bank) {a : Account}
    → b.account source ≡ some a
    → seqn ≤ a.last_req_id
    → request source dest seqn value b ≡ (duplicate, b)
unfolding request verdict settle
request_duplicate source dest seqn value b {a} known old =
    let is : request_verdict source dest seqn value b ≡ duplicate =
      request_verdict_known source dest seqn value b known ∙ ground arith in
    rw (register_known source b known, is)

-- After an accepted request, any request of the source under its number or a lower one is a
-- duplicate, whatever it asks for.
pub request_again :
    (source dest seqn value dest' seqn' value' : ℕ) (b : Bank)
    → Accepted (request source dest seqn value b).0
    → seqn' ≤ seqn
    → let b' = (request source dest seqn value b).1 in
      request source dest' seqn' value' b' ≡ (duplicate, b')
request_again source dest seqn value dest' seqn' value' b acc old =
    let (a, known, noted) = request_notes source dest seqn value b acc in
    request_duplicate source dest' seqn' value' (request source dest seqn value b).1 known
      (omega arith)
