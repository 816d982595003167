-- ===== src/Client/Parse.antt =====
-- client/processing.c: `parse_command`. The C library's `sscanf` and `inet_aton` are parameters:
-- what `sscanf(line, "%15s %lu", ...)` has converted where it returns 2, and the address that
-- `inet_aton` reads, if any.
use inf01151_trabalho.Common.{ℕ, Option, none, some, List, u32}
use inf01151_trabalho.Client.Types.{Requisicao}

pub record Libc : Type 0 where
  pub sscanf : List ℕ → Option (List ℕ × ℕ)
  pub inet_aton : List ℕ → Option ℕ

module _ (libc : Libc) where
  abbrev from_address : ℕ → Option ℕ → Option Requisicao
  from_address value none = none
  from_address value (some addr) = some (record { dest_addr = addr; value = u32 value })

  abbrev from_scan : Option (List ℕ × ℕ) → Option Requisicao
  from_scan none = none
  from_scan (some (ip, value)) = from_address value (libc.inet_aton ip)

  -- The result stands for `true` and `*req_out`.
  unfoldable pub parse_command : Option (List ℕ) → Option Requisicao
  parse_command none = none
  parse_command (some line) = from_scan (libc.sscanf line)
