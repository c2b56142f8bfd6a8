-- ===== src/Tests/Loops.antt =====
-- The two event loops.
use pypilot_cxx.Prelude.{ℕ, ◌≡◌, refl, true, some, List, [], ◌∷◌, arith}
use pypilot_cxx.Prelude.Int.{pos}
use pypilot_cxx.EventLoop
use pypilot_cxx.SyslibLoop.{TimerLoop, add_timer, cancel, run_once}
use pypilot_cxx.SyslibLoop.Alike.{to_loop, to_handle}
use pypilot_cxx.SyslibLoop.Turns.{IsSame, Agrees}
use pypilot_cxx.SyslibLoop.Runs.{loops_alike}

-- A loop of timers whose callbacks are written down.
abbrev timers : TimerLoop ℕ
timers = record {
  timers =
      record { active = true; id = 1; due_us = 10; period_us = 10; callback = some 7 }
      ∷ record { active = true; id = 2; due_us = 5; period_us = 0; callback = some 8 }
      ∷ [];
  next_id = 3;
}

abbrev write_down : {L : Type 0} → ℕ → L → List ℕ → L × List ℕ
write_down cb l w = (l, cb ∷ w)

write_down-IsSame : IsSame {C = ℕ} {W = List ℕ} write_down write_down
write_down-IsSame = record { same = λ cb l w. refl; sound = λ cb l w h. h }

loops_alike_example :
    (let (handle, l') = add_timer 35 20 0 9 timers in
      EventLoop.add_timer 35 20 0 9 (to_loop timers) ≡ (to_handle handle, to_loop l'))
    × (EventLoop.cancel 2 (to_loop timers) ≡ to_loop (cancel (pos 2) timers))
    × Agrees
        (run_once write_down 36 35 timers [])
        (EventLoop.run_once write_down 36 35 (to_loop timers) [])
loops_alike_example =
    loops_alike write_down write_down write_down-IsSame 36 35 20 0 9 (pos 2) timers []
      (λ e. omega (arith, e)) ((λ e. (7, refl)), ((λ e. (8, refl)), tt))
