-- ===== src/EventLoop.antt =====
-- src/async_event_loop/event_loop.hpp: `EventLoop`, a table of timers and polls. What a callback does
-- is a parameter: `call` takes the callback, the loop, which a callback may change, and the rest of
-- the world. Handles are numbers that do not wrap.
pub mod Handles
pub mod Cancelled
pub mod Busy
pub mod Run
pub mod Turns
use pypilot_cxx.Prelude.{
  ℕ, zero, suc, ◌+◌, ◌*◌, ◌%◌, ◌^◌, Bool, true, false, not, ◌&&◌, ◌||◌, Option, none, some, List,
  leb, ◌==◌, if◌then◌else◌, length, get_elem?, set,
}
use pypilot_cxx.Values.Watches.{replace_first}

pub record Slot (C : Type 0) : Type 0 where
  pub active : Bool
  pub periodic_poll : Bool
  pub id : ℕ
  pub due_us : ℕ
  pub period_us : ℕ
  pub cb : Option C

pub record EventLoop (C : Type 0) : Type 0 where
  pub slots : List (Slot C)
  pub next_id : ℕ

-- `do { slot.due_us += slot.period_us; } while (now >= slot.due_us);` with fuel for the turns.
unfoldable pub advance : ℕ → ℕ → ℕ → ℕ → Option ℕ
advance zero now period due = none
advance (suc fuel) now period due =
    let due' = (due + period) % 2 ^ 64 in
    let rest = advance fuel now period due' in if leb due' now then rest else some due'

module _ {C : Type 0} where
  -- The first free slot is filled, and its handle returned; 0 where no slot is free.
  abbrev fill_free : (Slot C → Slot C) → EventLoop C → ℕ × EventLoop C
  fill_free fill l = elim (replace_first (λ s. not s.active) fill l.slots) [
    | none ↦ (0, l)
    | some slots ↦ (l.next_id, record { slots = slots; next_id = l.next_id + 1 })
  ]

  unfoldable pub add_timer : ℕ → ℕ → ℕ → C → EventLoop C → ℕ × EventLoop C
  add_timer now_us delay_us period_us cb l =
      fill_free
        (λ s. record {
          active = true;
          periodic_poll = false;
          id = l.next_id;
          due_us = (now_us + delay_us) % 2 ^ 64;
          period_us = period_us;
          cb = some cb;
        })
        l

  -- The times of the slot stay as they were.
  unfoldable pub add_poll : C → EventLoop C → ℕ × EventLoop C
  add_poll cb l =
      fill_free
        (λ s. record s { active = true; periodic_poll = true; id = l.next_id; cb = some cb }) l

  abbrev has_handle : ℕ → Slot C → Bool
  has_handle handle s = s.active && s.id == handle

  unfoldable pub cancel : ℕ → EventLoop C → EventLoop C
  cancel handle l =
      if handle == 0
      then l
      else elim (replace_first (has_handle handle) (λ s. record s { active = false; cb = none })
          l.slots) [ none ↦ l | some slots ↦ record l { slots = slots } ]

  unfoldable pub on_repeat_us : ℕ → ℕ → C → EventLoop C → ℕ × EventLoop C
  on_repeat_us now_us period_us cb l = add_timer now_us period_us period_us cb l

  unfoldable pub on_delay_us : ℕ → ℕ → C → EventLoop C → ℕ × EventLoop C
  on_delay_us now_us delay_us cb l = add_timer now_us delay_us 0 cb l

  -- `uint64_t` arithmetic on milliseconds of 32 bits does not wrap.
  unfoldable pub on_repeat : ℕ → ℕ → C → EventLoop C → ℕ × EventLoop C
  on_repeat now_us period_ms cb l = on_repeat_us now_us (period_ms * 1000) cb l

  unfoldable pub on_delay : ℕ → ℕ → C → EventLoop C → ℕ × EventLoop C
  on_delay now_us delay_ms cb l = on_delay_us now_us (delay_ms * 1000) cb l

  unfoldable pub call_later_us : ℕ → ℕ → C → EventLoop C → ℕ × EventLoop C
  call_later_us now_us delay_us cb l = on_delay_us now_us delay_us cb l

  unfoldable pub call_every_us : ℕ → ℕ → C → EventLoop C → ℕ × EventLoop C
  call_every_us now_us period_us cb l = on_repeat_us now_us period_us cb l

  -- `on_bytes_ready`, whose callback `cb` does what `if_bytes_ready` says.
  unfoldable pub on_bytes_ready : C → EventLoop C → ℕ × EventLoop C
  on_bytes_ready cb l = add_poll cb l

  -- `slot.periodic_poll || now >= slot.due_us`.
  abbrev is_ready : ℕ → Slot C → Bool
  is_ready now s = s.periodic_poll || leb s.due_us now

  -- What the slot becomes before its callback runs.
  unfoldable pub retire : ℕ → ℕ → Slot C → Option (Slot C)
  retire fuel now s =
      if s.periodic_poll
      then some s
      else if s.period_us == 0
      then some (record s { active = false; cb = none })
      else elim (advance fuel now s.period_us s.due_us) [
        | none ↦ none
        | some due ↦ some (record s { due_us = due })
      ]

-- `if (stream.valid() && stream.readable()) callable();`
abbrev pub if_bytes_ready : {W : Type 0} → (W → Bool) → (W → Bool) → (W → W) → W → W
if_bytes_ready valid readable callable w = if valid w && readable w then callable w else w

module _ {C W : Type 0} (call : C → EventLoop C → W → EventLoop C × W) where
  -- A slot whose callback is `cb` and is ready, at the index `i`.
  unfoldable pub fire : ℕ → ℕ → ℕ → Slot C → C → EventLoop C → W → Option (EventLoop C × W)
  fire fuel now i s cb l w = elim (retire fuel now s) [
    | none ↦ none
    | some s' ↦ some (call cb (record l { slots = set l.slots i s' }) w)
  ]

  unfoldable pub visit : ℕ → ℕ → ℕ → Slot C → EventLoop C → W → Option (EventLoop C × W)
  visit fuel now i s l w = if not s.active then some (l, w) else elim s.cb [
    | none ↦ some (l, w)
    | some cb ↦ if is_ready now s then fire fuel now i s cb l w else some (l, w)
  ]

  -- The loop of `run_once` over `count` slots from the index `i` on: each is looked at when its turn
  -- comes, so that what callbacks changed is seen.
  unfoldable pub run_from : ℕ → ℕ → ℕ → ℕ → EventLoop C → W → Option (EventLoop C × W)
  run_from fuel now zero i l w = some (l, w)
  run_from fuel now (suc count) i l w = elim (get_elem? l.slots i) [
    | none ↦ some (l, w)
    | some s ↦ elim (visit fuel now i s l w) [
      | none ↦ none
      | some (l', w') ↦ run_from fuel now count (suc i) l' w'
    ]
  ]

  unfoldable pub run_once : ℕ → ℕ → EventLoop C → W → Option (EventLoop C × W)
  run_once fuel now l w = run_from fuel now (length l.slots) 0 l w

  unfoldable pub tick : ℕ → ℕ → EventLoop C → W → Option (EventLoop C × W)
  tick fuel now l w = run_once fuel now l w
