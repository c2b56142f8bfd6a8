-- ===== src/SyslibLoop/Turns.antt =====
-- A timer's turn in one event loop is its slot's turn in the other.
use pypilot_cxx.Prelude.{
  ℕ, ◌≡◌, refl, sym, ap, ◌∙◌, inl, inr, Bool, true, false, not, ◌||◌, Option, none, some, arith,
  ltb, leb, if◌then◌else◌, Bool-cases, set, All,
}
use pypilot_cxx.EventLoop
use pypilot_cxx.EventLoop.{Slot, EventLoop}
use pypilot_cxx.SyslibLoop.{Timer, TimerLoop, retire, call_back, visit}
use pypilot_cxx.SyslibLoop.Alike.{
  map_some, set-map, to_slot, to_loop, HasCallback, All-set, retire-to_slot, Kept, retire-Kept,
}

-- A callback's effect on one loop is its effect on the other, and leaves no timer in use without a
-- callback.
pub record IsSame {C W : Type 0} (call : C → TimerLoop C → W → TimerLoop C × W)
    (call' : C → EventLoop C → W → EventLoop C × W) : Type 0 where
  pub same :
      (cb : C) (l : TimerLoop C) (w : W)
      → call' cb (to_loop l) w ≡ (to_loop (call cb l w).0, (call cb l w).1)
  pub sound :
      (cb : C) (l : TimerLoop C) (w : W)
      → All HasCallback l.timers
      → All HasCallback (call cb l w).0.timers

module _ {C W : Type 0} where
  -- A result of one loop and the result of the other.
  abbrev pub Agrees : Option (TimerLoop C × W) → Option (EventLoop C × W) → Type 0
  Agrees none o = o ≡ none
  Agrees (some (l, w)) o = (o ≡ some (to_loop l, w)) × All HasCallback l.timers

  pub Agrees-both :
      {x y : Option (TimerLoop C × W)} {x' y' : Option (EventLoop C × W)}
      → x ≡ y
      → x' ≡ y'
      → Agrees y y'
      → Agrees x x'
  Agrees-both e e' h = rw (e, e') h

module _ {C W : Type 0} (call : C → TimerLoop C → W → TimerLoop C × W)
    (call' : C → EventLoop C → W → EventLoop C × W) (same : IsSame call call') where
  called-Agrees :
      (i : ℕ) (cb : C) (l : TimerLoop C) (w : W) (t' : Option (Timer C))
      → All HasCallback l.timers
      → Kept t'
      → Agrees
          (elim t' [
            | none ↦ none
            | some t' ↦ some (call cb (record l { timers = set l.timers i t' }) w)
          ])
          (elim (map_some to_slot t') [
            | none ↦ none
            | some s' ↦
                some (call' cb (record (to_loop l) { slots = set (to_loop l).slots i s' }) w)
          ])
  called-Agrees i cb l w none h k = refl
  called-Agrees i cb l w (some t') h k =
      let l' = record l { timers = set l.timers i t' } in
      (
        ap (λ slots. some (call' cb (record (to_loop l) { slots = slots }) w))
              (sym (set-map to_slot l.timers i t'))
            ∙ ap some (same.same cb l' w),
        same.sound cb l' w (All-set l.timers i t' h k),
      )

  module _ (fuel now i : ℕ) (t : Timer C) (l : TimerLoop C) (w : W) where
    -- A due timer, and its slot.
    abbrev ran : Option C → Option (TimerLoop C × W)
    ran o = elim (retire fuel now t) [
      | none ↦ none
      | some t' ↦ some (call_back call o (record l { timers = set l.timers i t' }) w)
    ]

    abbrev slot_ran : C → Option (Slot C) → Option (EventLoop C × W)
    slot_ran cb o = elim o [
      | none ↦ none
      | some s' ↦ some (call' cb (record (to_loop l) { slots = set (to_loop l).slots i s' }) w)
    ]

    visit_due :
        (cb : C)
        → t.active ≡ true
        → t.callback ≡ some cb
        → ltb now t.due_us ≡ false
        → visit call fuel now i t l w ≡ ran (some cb)
    unfolding visit
    visit_due cb on e due =
        ap (λ (b : Bool). if not b || ltb now t.due_us then some (l, w) else ran t.callback) on
        ∙ ap (λ (b : Bool). if b then some (l, w) else ran t.callback) due
        ∙ ap ran e

    visit_off : t.active ≡ false → visit call fuel now i t l w ≡ some (l, w)
    unfolding visit
    visit_off off = simp (off, visit) refl

    visit_early : ltb now t.due_us ≡ true → visit call fuel now i t l w ≡ some (l, w)
    unfolding visit
    visit_early early = elim (Bool-cases t.active) [
      | inl on ↦ simp (on, early, visit) refl
      | inr off ↦ visit_off off
    ]

    -- What a slot in use does, by its callback.
    abbrev asked : Option C → Option (EventLoop C × W)
    asked o = elim o [
      | none ↦ some (to_loop l, w)
      | some cb ↦
          if leb t.due_us now
          then EventLoop.fire call' fuel now i (to_slot t) cb (to_loop l) w
          else some (to_loop l, w)
    ]

    visit_slot_off :
        t.active ≡ false
        → EventLoop.visit call' fuel now i (to_slot t) (to_loop l) w ≡ some (to_loop l, w)
    unfolding EventLoop.visit
    visit_slot_off off =
        ap (λ (b : Bool). if not b then some (to_loop l, w) else asked t.callback) off

    visit_slot :
        (cb : C)
        → t.active ≡ true
        → t.callback ≡ some cb
        → EventLoop.visit call' fuel now i (to_slot t) (to_loop l) w ≡ (
            if leb t.due_us now
            then slot_ran cb (map_some to_slot (retire fuel now t))
            else some (to_loop l, w))
    unfolding EventLoop.visit EventLoop.fire
    visit_slot cb on e =
        ap (λ (b : Bool). if not b then some (to_loop l, w) else asked t.callback) on
        ∙ ap asked e
        ∙ ap (λ o. if leb t.due_us now then slot_ran cb o else some (to_loop l, w))
            (retire-to_slot fuel now t)

    pub visit-Agrees :
        All HasCallback l.timers
        → HasCallback t
        → Agrees
            (visit call fuel now i t l w)
            (EventLoop.visit call' fuel now i (to_slot t) (to_loop l) w)
    visit-Agrees h k = elim (Bool-cases t.active) [
      | inr off ↦ Agrees-both (visit_off off) (visit_slot_off off) (refl, h)
      | inl on ↦
          let (cb, e) = k on in
          elim (Bool-cases (ltb now t.due_us)) [
            | inl early ↦
                let waits : leb t.due_us now ≡ false = ground arith in
                Agrees-both (visit_early early) (visit_slot cb on e ∙ rw waits refl) (refl, h)
            | inr due ↦
                let ready : leb t.due_us now ≡ true = ground arith in
                Agrees-both (visit_due cb on e due) (visit_slot cb on e ∙ rw ready refl)
                  (called-Agrees i cb l w (retire fuel now t) h (retire-Kept fuel now t k))
          ]
    ]
