-- ===== src/Client/Pending.antt =====
-- The lines that `PypilotClient` keeps until they can be sent, in src/pypilot/client.cpp: a table of
-- 16 entries of 192 bytes. `bytes` is what the first `size` bytes of the array hold.
pub mod Bag
use pypilot_cxx.Prelude.{
  ℕ, Bool, true, false, not, Option, none, some, List, [], ◌∷◌, leb, if◌then◌else◌, length,
}
use pypilot_cxx.Prelude.Text.{Text}
use pypilot_cxx.Values.Watches.{replace_first}

pub record PendingLine : Type 0 where
  pub active : Bool
  pub bytes : Text

abbrev pub max_pending_lines : ℕ
max_pending_lines = 16

abbrev pub max_line_size : ℕ
max_line_size = 192

-- `pending.active = false; pending.size = 0; pending.bytes[0] = '\0';`
abbrev pub clear_line : PendingLine → PendingLine
clear_line p = record { active = false; bytes = [] }

unfoldable pub queue_line : Text → List PendingLine → Bool × List PendingLine
queue_line line ps =
    if leb max_line_size (length line)
    then (false, ps)
    else elim (replace_first (λ p. not p.active) (λ p. record { active = true; bytes = line }) ps) [
      | none ↦ (false, ps)
      | some ps' ↦ (true, ps')
    ]

unfoldable pub pop_outgoing : List PendingLine → Option Text × List PendingLine
pop_outgoing [] = (none, [])
pop_outgoing (p ∷ ps) =
    let (line, ps') = pop_outgoing ps in
    if p.active then (some p.bytes, clear_line p ∷ ps) else (line, p ∷ ps')

-- The loop of `flush_pending`, where `send` says whether the connection took a whole line.
unfoldable pub flush_lines :
    {N : Type 0} → (Text → N → Bool × N) → List PendingLine → N → List PendingLine × N
flush_lines send [] n = ([], n)
flush_lines send (p ∷ ps) n =
    let (sent, n') = if p.active then send p.bytes n else (false, n) in
    let (ps', n'') = flush_lines send ps n' in ((if sent then clear_line p else p) ∷ ps', n'')
