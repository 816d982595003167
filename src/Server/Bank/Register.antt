-- ===== src/Server/Bank/Register.antt =====
-- `register` and the choice of a verdict, in each of their cases.
use inf01151_trabalho.Common.{ℕ, ◌+◌, ◌≤◌, ◌<◌, ◌≡◌, none, some, ◌==◌, if◌then◌else◌, arith}
use inf01151_trabalho.Server.Types.{max_clients}
use inf01151_trabalho.Server.Bank.{Account, Bank, register, verdict, request_verdict, table_full}

module _ (ip : ℕ) (b : Bank) where
  pub register_known : {a : Account} → b.account ip ≡ some a → register ip b ≡ b
  unfolding register
  register_known e = rw (e, register)

  pub register_full : b.account ip ≡ none → max_clients ≤ b.count → register ip b ≡ b
  unfolding register
  register_full e full = ground arith

  pub register_new :
      b.account ip ≡ none
      → b.count < max_clients
      → register ip b ≡ record {
        account = λ ip'.
            if ip == ip' then some (record { last_req_id = 0; balance = 100 }) else b.account ip';
        count = b.count + 1;
      }
  unfolding register
  register_new e room = ground arith

module _ (source dest seqn value : ℕ) (b : Bank) where
  pub request_verdict_full :
      b.account source ≡ none → request_verdict source dest seqn value b ≡ table_full
  unfolding request_verdict
  request_verdict_full e = ground arith

  pub request_verdict_known :
      {a : Account}
      → b.account source ≡ some a
      → request_verdict source dest seqn value b ≡ verdict source dest seqn value a (b.account dest)
  unfolding request_verdict
  request_verdict_known e = rw (e, request_verdict)
