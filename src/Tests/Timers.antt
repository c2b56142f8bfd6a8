-- ===== src/Tests/Timers.antt =====
-- Timers of the event loop.
use pypilot_cxx.Prelude.{ℕ, ◌≡◌, true, false, none, some, List, [], ◌∷◌, arith, ◌==◌, if◌then◌else◌}
use mathlib.Core.List.{Forall₂}
use pypilot_cxx.EventLoop.{Slot, EventLoop, cancel, run_once}
use pypilot_cxx.EventLoop.Run.{run_callback, run_callbacks, run_once-Served}
use pypilot_cxx.EventLoop.Turns.{Served, all_called}
use pypilot_cxx.EventLoop.Handles.{IsLoop, holders}
use pypilot_cxx.EventLoop.Cancelled.{cancel-holders}

-- A loop of two slots, with the handle 1 in use. The callbacks are numbers.
abbrev pub loop : EventLoop ℕ
loop = record {
  slots =
      record {
        active = true;
        periodic_poll = false;
        id = 1;
        due_us = 10;
        period_us = 10;
        cb = some 7;
      }
      ∷ record {
        active = false;
        periodic_poll = false;
        id = 0;
        due_us = 0;
        period_us = 0;
        cb = none;
      }
      ∷ [];
  next_id = 2;
}

pub loop-IsLoop : IsLoop loop
loop-IsLoop = record { fresh = λ k. ground arith; single = λ handle. ground arith }

cancel-holders_example :
    holders 1 (cancel 1 loop).slots ≡ (if 1 == 1 then 0 else holders 1 loop.slots)
cancel-holders_example = cancel-holders 1 1 loop (omega arith) loop-IsLoop

-- The callbacks are run in the order of their slots: here they are written down.
run_once-Served_example :
    (slots : List (Slot ℕ)) × Forall₂ (Served 35) loop.slots slots
    × (run_once (run_callback (λ cb w. cb ∷ w)) 36 35 loop []
        ≡ some (
          record loop { slots = slots },
          run_callbacks (λ cb w. cb ∷ w) (all_called 35 loop.slots) [],
        ))
run_once-Served_example =
    run_once-Served (λ cb w. cb ∷ w) 35 loop [] (omega arith, (omega arith, tt))
