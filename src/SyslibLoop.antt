-- ===== src/SyslibLoop.antt =====
-- src/pypilot/syslib/event_loop.hpp: the other `EventLoop` of the repository, here `TimerLoop`, which
-- has timers only. A handle is an `int`, and -1 where no timer is free.
pub mod Alike
pub mod Runs
pub mod Turns
use pypilot_cxx.Prelude.{
  ℕ, zero, suc, ◌+◌, ◌%◌, ◌^◌, Bool, true, false, not, ◌&&◌, ◌||◌, Option, none, some, List, ltb,
  ◌==◌, if◌then◌else◌, length, get_elem?, set,
}
use pypilot_cxx.Prelude.Int.{ℤ, pos, negsuc}
use pypilot_cxx.Values.Watches.{replace_first}
use pypilot_cxx.EventLoop.{advance}

pub record Timer (C : Type 0) : Type 0 where
  pub active : Bool
  pub id : ℕ
  pub due_us : ℕ
  pub period_us : ℕ
  pub callback : Option C

pub record TimerLoop (C : Type 0) : Type 0 where
  pub timers : List (Timer C)
  pub next_id : ℕ

module _ {C : Type 0} where
  unfoldable pub add_timer : ℕ → ℕ → ℕ → C → TimerLoop C → ℤ × TimerLoop C
  add_timer now_us delay_us period_us cb l =
      elim (replace_first (λ t. not t.active)
        (λ t. record {
          active = true;
          id = l.next_id;
          due_us = (now_us + delay_us) % 2 ^ 64;
          period_us = period_us;
          callback = some cb;
        })
        l.timers) [
          | none ↦ (negsuc 0, l)
          | some timers ↦ (pos l.next_id, record { timers = timers; next_id = l.next_id + 1 })
        ]

  unfoldable pub call_later_us : ℕ → ℕ → C → TimerLoop C → ℤ × TimerLoop C
  call_later_us now_us delay_us cb l = add_timer now_us delay_us 0 cb l

  unfoldable pub call_every_us : ℕ → ℕ → C → TimerLoop C → ℤ × TimerLoop C
  call_every_us now_us period_us cb l = add_timer now_us period_us period_us cb l

  -- `timer.active && timer.id == id`.
  abbrev pub has_id : ℤ → Timer C → Bool
  has_id (pos id) t = t.active && t.id == id
  has_id (negsuc n) t = false

  unfoldable pub cancel : ℤ → TimerLoop C → TimerLoop C
  cancel id l =
      elim (replace_first (has_id id) (λ t. record t { active = false; callback = none })
        l.timers) [ none ↦ l | some timers ↦ record l { timers = timers } ]

  -- What a due timer becomes before its callback runs.
  unfoldable pub retire : ℕ → ℕ → Timer C → Option (Timer C)
  retire fuel now t =
      if t.period_us == 0
      then some (record t { active = false; callback = none })
      else elim (advance fuel now t.period_us t.due_us) [
        | none ↦ none
        | some due ↦ some (record t { due_us = due })
      ]

module _ {C W : Type 0} (call : C → TimerLoop C → W → TimerLoop C × W) where
  -- `if (callback) callback();`
  abbrev pub call_back : Option C → TimerLoop C → W → TimerLoop C × W
  call_back none l w = (l, w)
  call_back (some cb) l w = call cb l w

  unfoldable pub visit : ℕ → ℕ → ℕ → Timer C → TimerLoop C → W → Option (TimerLoop C × W)
  visit fuel now i t l w =
      if not t.active || ltb now t.due_us then some (l, w) else elim (retire fuel now t) [
        | none ↦ none
        | some t' ↦ some (call_back t.callback (record l { timers = set l.timers i t' }) w)
      ]

  -- The loop of `run_due_timers` over `count` timers from the index `i` on.
  unfoldable pub run_from : ℕ → ℕ → ℕ → ℕ → TimerLoop C → W → Option (TimerLoop C × W)
  run_from fuel now zero i l w = some (l, w)
  run_from fuel now (suc count) i l w = elim (get_elem? l.timers i) [
    | none ↦ some (l, w)
    | some t ↦ elim (visit fuel now i t l w) [
      | none ↦ none
      | some (l', w') ↦ run_from fuel now count (suc i) l' w'
    ]
  ]

  unfoldable pub run_due_timers : ℕ → ℕ → TimerLoop C → W → Option (TimerLoop C × W)
  run_due_timers fuel now l w = run_from fuel now (length l.timers) 0 l w

  unfoldable pub run_once : ℕ → ℕ → TimerLoop C → W → Option (TimerLoop C × W)
  run_once fuel now l w = run_due_timers fuel now l w
