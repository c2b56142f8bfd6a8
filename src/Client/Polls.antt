-- ===== src/Client/Polls.antt =====
-- `poll` and `receive` of `PypilotClient`: the client runs the event loop that calls it back.
pub mod Read
use pypilot_cxx.Prelude.{
  ℕ, suc, ◌≡◌, refl, sym, ap, ◌∙◌, Bool, true, false, ◌&&◌, Option, none, some, List, if◌then◌else◌,
  All,
}
use mathlib.Core.List.{Forall₂}
use pypilot_cxx.Float.{Float, whole}
use pypilot_cxx.EventLoop.{EventLoop, Slot, run_once}
use pypilot_cxx.EventLoop.Turns.{Bounded, Served, all_called}
use pypilot_cxx.EventLoop.Run.{run_callback, run_callbacks, run_once-Served}
use pypilot_cxx.Platform.{seconds_to_us}
use pypilot_cxx.Client.Session.{Tcp, PypilotClient}
use pypilot_cxx.Client.Callbacks.{
  receive_bytes, stream_valid, stream_readable, poll_line_reader, on_bytes,
}

-- A callback of the event loop is the client's, or one of others that leave the client alone.
pub data Task (D : Type 0) : Type 0 where
  read_lines : Task D
  other : D → Task D

-- The client gets the loop back that has run.
abbrev pub polled :
    {R C N : Type 0}
    → Option (EventLoop C × (PypilotClient R C × N))
    → Option (PypilotClient R C × N)
polled none = none
polled (some (l, (c, n))) = some (record c { loop = l }, n)

module _ {R D N : Type 0} ⦃fl : Float R⦄ ⦃tcp : Tcp N⦄ (others : D → N → N) where
  -- The client's loop stands in `l` while it runs.
  unfoldable pub run_task :
      Task D
      → EventLoop (Task D)
      → PypilotClient R (Task D) × N
      → EventLoop (Task D) × (PypilotClient R (Task D) × N)
  run_task read_lines l (c, n) =
      let (c', n') = on_bytes (record c { loop = l }) n in
      (c'.loop, (record c' { loop = c.loop }, n'))
  run_task (other d) l (c, n) = (l, (c, others d n))

  -- None means that the loop ran out of the fuel for a repeating timer.
  unfoldable pub poll : ℕ → ℕ → PypilotClient R (Task D) → N → Option (PypilotClient R (Task D) × N)
  poll fuel now_us c n = polled (run_once run_task fuel now_us c.loop (c, n))

  -- `receive`: the poll, and how long the loop sleeps behind it, if it does.
  unfoldable pub receive :
      ℕ → ℕ → R → PypilotClient R (Task D) → N → Option (PypilotClient R (Task D) × N × Option ℕ)
  receive fuel now_us timeout_seconds c n = elim (poll fuel now_us c n) [
    | none ↦ none
    | some (c', n') ↦ some (
      c',
      n',
      if fl.lt (whole 0) timeout_seconds then some (seconds_to_us timeout_seconds) else none,
    )
  ]

module _ {R C N : Type 0} ⦃fl : Float R⦄ ⦃tcp : Tcp N⦄ where
  -- A client and a network, with another loop in the client.
  abbrev on_loop : EventLoop C → PypilotClient R C × N → PypilotClient R C × N
  on_loop l (c, n) = (record c { loop = l }, n)

  -- Reading from the connection, where the stream is ready or not.
  abbrev read_at : Bool → Option ℕ → PypilotClient R C → N → PypilotClient R C × N
  read_at ready o c n = elim o [
    | none ↦ (c, n)
    | some k ↦
        let (input, n') = tcp.take_input k n in
        if ready then (receive_bytes input c, n') else (c, n)
  ]

  read_at-loop :
      (ready : Bool) (o : Option ℕ) (l : EventLoop C) (c : PypilotClient R C) (n : N)
      → read_at ready o (record c { loop = l }) n ≡ on_loop l (read_at ready o c n)
  unfolding receive_bytes
  read_at-loop ready none l c n = refl
  read_at-loop true (some k) l c n = refl
  read_at-loop false (some k) l c n = refl

  on_loop-if :
      (b : Bool) (l : EventLoop C) (s x y : PypilotClient R C × N)
      → x ≡ on_loop l y
      → (if b then x else on_loop l s) ≡ on_loop l (if b then y else s)
  on_loop-if true l s x y e = e
  on_loop-if false l s x y e = refl

  -- What the client reads does not depend on the loop.
  on_bytes-loop :
      (l : EventLoop C) (c : PypilotClient R C) (n : N)
      → on_bytes (record c { loop = l }) n ≡ on_loop l (on_bytes c n)
  unfolding on_bytes poll_line_reader stream_valid stream_readable
  on_bytes-loop l c n =
      on_loop-if (stream_valid c n && stream_readable c n) l (c, n)
        (poll_line_reader (record c { loop = l }) n) (poll_line_reader c n)
        (read_at-loop (stream_readable c n) c.tcp_stream l c n)

module _ {R D N : Type 0} ⦃fl : Float R⦄ ⦃tcp : Tcp N⦄ (others : D → N → N) where
  -- A callback as an action on the client and the network.
  abbrev pub act : Task D → PypilotClient R (Task D) × N → PypilotClient R (Task D) × N
  act read_lines (c, n) = on_bytes c n
  act (other d) (c, n) = (c, others d n)

  run_task-act :
      (t : Task D) (l : EventLoop (Task D)) (w : PypilotClient R (Task D) × N)
      → run_task others t l w ≡ run_callback act t l w
  unfolding run_task
  run_task-act read_lines l (c, n) =
      ap (λ x. (x.0.loop, (record x.0 { loop = c.loop }, x.1))) (on_bytes-loop l c n)
      ∙ ap (λ x. (l, x)) (sym (on_bytes-loop c.loop c n))
  run_task-act (other d) l (c, n) = refl

  -- Where no period reaches over the end of the clock, a poll ends. The callbacks of the slots that
  -- are active and ready run once each, in the order of the slots: the client's reads its lines. The
  -- slots are due then as after any run of the loop, and nothing else of the client is changed.
  pub poll-Served :
      (now : ℕ) (c : PypilotClient R (Task D)) (n : N)
      → All (Bounded now) c.loop.slots
      → (slots : List (Slot (Task D))) × Forall₂ (Served now) c.loop.slots slots
        × (let (c', n') = run_callbacks act (all_called now c.loop.slots) (c, n) in
            poll others (suc now) now c n
            ≡ some (record c' { loop = record c.loop { slots = slots } }, n'))
  unfolding poll
  poll-Served now c n b =
      let (slots, served, went) = run_once-Served act now c.loop (c, n) b in
      (
        slots,
        served,
        ap
              (λ (f : Task D
                  → EventLoop (Task D)
                  → PypilotClient R (Task D) × N
                  → EventLoop (Task D) × (PypilotClient R (Task D) × N)).
                polled (run_once f (suc now) now c.loop (c, n)))
              (λ i t l w. run_task-act t l w i)
            ∙ ap polled went,
      )
