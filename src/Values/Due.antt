-- ===== src/Values/Due.antt =====
-- `emit_due_watches` of values.cpp: periodic watches, and when each is due again.
pub mod Entries
pub mod Schedule
pub mod Written
use pypilot_cxx.Prelude.{
  ℕ, zero, suc, ◌+◌, ◌%◌, ◌^◌, Bool, not, ◌&&◌, ◌||◌, Option, none, some, List, [], ◌∷◌, ltb, leb,
  ◌==◌, if◌then◌else◌,
}
use pypilot_cxx.Float.{Float, whole}
use pypilot_cxx.Values.Writer.{ValueWriter}
use pypilot_cxx.Values.Access.{Watch, ValueRegistry}
use pypilot_cxx.Values.Lines.{write_value_line_id}
use pypilot_cxx.Values.Watches.{period_us}

-- `do { due += period; } while (period && now >= due);` on `uint64_t`, with fuel for the turns; none
-- means that it ran out.
unfoldable pub catch_up : ℕ → ℕ → ℕ → ℕ → Option ℕ
catch_up zero now_us period due = none
catch_up (suc fuel) now_us period due =
    let due' = (due + period) % 2 ^ 64 in
    let rest = catch_up fuel now_us period due' in
    if not (period == 0) && leb due' now_us then rest else some due'

module _ {R : Type 0} ⦃fl : Float R⦄ where
  -- `!w.active || w.period_seconds <= Real{0} || now_us < w.next_due_us`.
  abbrev pub is_quiet : ℕ → Watch R → Bool
  is_quiet now_us w = not w.active || fl.le w.period_seconds (whole 0) || ltb now_us w.next_due_us

  abbrev pub rescheduled : Watch R → Option ℕ → Option (Watch R)
  rescheduled w none = none
  rescheduled w (some due) = some (record w { next_due_us = due })

module _ {R W : Type 0} ⦃fl : Float R⦄ ⦃writer : ValueWriter W⦄ where
  -- One turn of the loop over the watches: the watch and the writer after it.
  unfoldable pub emit_due : ℕ → ℕ → ValueRegistry R → Watch R → W → Option (Watch R × W)
  emit_due fuel now_us v w out =
      if is_quiet now_us w
      then some (w, out)
      else elim (rescheduled w (catch_up fuel now_us (period_us w.period_seconds) w.next_due_us)) [
        | none ↦ none
        | some w' ↦ some (w', (write_value_line_id w.id v out).1)
      ]

  unfoldable pub emit_all_due :
      ℕ → ℕ → ValueRegistry R → List (Watch R) → W → Option (List (Watch R) × W)
  emit_all_due fuel now_us v [] out = some ([], out)
  emit_all_due fuel now_us v (w ∷ ws) out = elim (emit_due fuel now_us v w out) [
    | none ↦ none
    | some (w', out') ↦ elim (emit_all_due fuel now_us v ws out') [
      | none ↦ none
      | some (ws', out'') ↦ some (w' ∷ ws', out'')
    ]
  ]

  unfoldable pub emit_due_watches : ℕ → ℕ → ValueRegistry R → W → Option (ValueRegistry R × W)
  emit_due_watches fuel now_us v out = elim (emit_all_due fuel now_us v v.watches out) [
    | none ↦ none
    | some (ws, out') ↦ some (record v { watches = ws }, out')
  ]
