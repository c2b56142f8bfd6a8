-- ===== src/SyslibLoop/Runs.antt =====
-- A run of one event loop is a run of the other, whatever callbacks do to timers.
use pypilot_cxx.Prelude.{
  ℕ, zero, suc, ◌≡◌, refl, ap, ◌≢◌, Option, none, some, length, get_elem?, All,
}
use pypilot_cxx.Prelude.Int.{ℤ}
use pypilot_cxx.EventLoop
use pypilot_cxx.EventLoop.{EventLoop}
use pypilot_cxx.SyslibLoop.{
  Timer, TimerLoop, add_timer, cancel, visit, run_from, run_due_timers, run_once,
}
use pypilot_cxx.SyslibLoop.Alike.{
  map_some, get_elem?-map, length-map, to_slot, to_loop, to_handle, add_timer-to_loop,
  cancel-to_loop, HasCallback, All-get,
}
use pypilot_cxx.SyslibLoop.Turns.{IsSame, Agrees, Agrees-both, visit-Agrees}

module _ {C W : Type 0} (call : C → TimerLoop C → W → TimerLoop C × W)
    (call' : C → EventLoop C → W → EventLoop C × W) (same : IsSame call call') where
  module _ (fuel now count i : ℕ) where
    -- The turns behind one, for either loop.
    abbrev go_on : Option (TimerLoop C × W) → Option (TimerLoop C × W)
    go_on x = elim x [ none ↦ none | some (l, w) ↦ run_from call fuel now count (suc i) l w ]

    abbrev slots_go_on : Option (EventLoop C × W) → Option (EventLoop C × W)
    slots_go_on x = elim x [
      | none ↦ none
      | some (l, w) ↦ EventLoop.run_from call' fuel now count (suc i) l w
    ]

    abbrev Rest : Type 0
    Rest =
        (l : TimerLoop C) (w : W)
        → All HasCallback l.timers
        → Agrees (run_from call fuel now count (suc i) l w)
            (EventLoop.run_from call' fuel now count (suc i) (to_loop l) w)

    go_on-Agrees :
        (x : Option (TimerLoop C × W)) (x' : Option (EventLoop C × W))
        → Rest
        → Agrees x x'
        → Agrees (go_on x) (slots_go_on x')
    go_on-Agrees none x' rest e = rw e refl
    go_on-Agrees (some (l, w)) x' rest (e, h) = rw e (rest l w h)

    looked-Agrees :
        (l : TimerLoop C) (w : W) (o : Option (Timer C))
        → Rest
        → All HasCallback l.timers
        → get_elem? l.timers i ≡ o
        → Agrees
            (elim o [ none ↦ some (l, w) | some t ↦ go_on (visit call fuel now i t l w) ])
            (elim (map_some to_slot o) [
              | none ↦ some (to_loop l, w)
              | some s ↦ slots_go_on (EventLoop.visit call' fuel now i s (to_loop l) w)
            ])
    looked-Agrees l w none rest h e = (refl, h)
    looked-Agrees l w (some t) rest h e =
        go_on-Agrees _ _ rest
          (visit-Agrees call call' same fuel now i t l w h (All-get l.timers i t h e))

  run_from-Agrees :
      (fuel now count i : ℕ) (l : TimerLoop C) (w : W)
      → All HasCallback l.timers
      → Agrees
          (run_from call fuel now count i l w)
          (EventLoop.run_from call' fuel now count i (to_loop l) w)
  unfolding run_from EventLoop.run_from
  run_from-Agrees fuel now zero i l w h = (refl, h)
  run_from-Agrees fuel now (suc count) i l w h =
      Agrees-both refl
        (ap
          (λ o. elim o as (λ _. Option (EventLoop C × W)) [
            | none ↦ some (to_loop l, w)
            | some s ↦
                slots_go_on fuel now count i (EventLoop.visit call' fuel now i s (to_loop l) w)
          ])
          (get_elem?-map to_slot l.timers i))
        (looked-Agrees fuel now count i l w (get_elem? l.timers i)
          (λ l w h. run_from-Agrees fuel now count (suc i) l w h) h refl)

  -- The same for a whole run.
  run_once-Agrees :
      (fuel now : ℕ) (l : TimerLoop C) (w : W)
      → All HasCallback l.timers
      → Agrees (run_once call fuel now l w) (EventLoop.run_once call' fuel now (to_loop l) w)
  unfolding run_once run_due_timers EventLoop.run_once
  run_once-Agrees fuel now l w h =
      Agrees-both refl
        (ap (λ (n : ℕ). EventLoop.run_from call' fuel now n 0 (to_loop l) w)
          (length-map to_slot l.timers))
        (run_from-Agrees fuel now (length l.timers) 0 l w h)

  -- Let a callback do the same to both loops, and leave no timer in use without a callback. Then both
  -- loops do the same where every timer in use has a callback: adding a timer leaves loops that
  -- correspond and gives the same handle, 0 standing for -1; so does cancelling a handle other than
  -- these two; and a run of one leaves what a run of the other leaves, the rest of the world included,
  -- or both need more fuel.
  pub loops_alike :
      (fuel now delay period : ℕ) (cb : C) (id : ℤ) (l : TimerLoop C) (w : W)
      → to_handle id ≢ 0
      → All HasCallback l.timers
      → (let (handle, l') = add_timer now delay period cb l in
          EventLoop.add_timer now delay period cb (to_loop l) ≡ (to_handle handle, to_loop l'))
        × (EventLoop.cancel (to_handle id) (to_loop l) ≡ to_loop (cancel id l))
        × Agrees (run_once call fuel now l w) (EventLoop.run_once call' fuel now (to_loop l) w)
  loops_alike fuel now delay period cb id l w positive h = (
    add_timer-to_loop now delay period cb l,
    cancel-to_loop id l positive,
    run_once-Agrees fuel now l w h,
  )
