-- ===== src/EventLoop/Turns.antt =====
-- What a run of the loop does with one slot: whether it runs the slot's callback, and when the slot is
-- due afterwards.
use pypilot_cxx.Prelude.{
  ℕ, zero, suc, ◌+◌, ◌%◌, ◌^◌, ◌≤◌, ◌<◌, ◌≡◌, refl, sym, ap, ◌∙◌, inl, inr, Bool, true, false, ◌&&◌,
  ◌||◌, Option, none, some, List, [], ◌∷◌, ◌++◌, arith, leb, ◌==◌, if◌then◌else◌, leb→le, ==_iff,
  Bool-cases, length, get_elem?, set,
}
use pypilot_cxx.Values.Due.{catch_up}
use pypilot_cxx.Values.Due.Schedule.{Next, catch_up-Next}
use pypilot_cxx.EventLoop.{Slot, advance, is_ready, retire}

-- The loop that moves a repeating timer is the one that moves a watch.
advance-catch_up :
    (fuel now period due : ℕ)
    → 0 < period
    → advance fuel now period due ≡ catch_up fuel now period due
unfolding advance catch_up
advance-catch_up zero now period due h = refl
advance-catch_up (suc fuel) now period due h =
    let nonzero : (period == 0) ≡ false = ground arith in
    rw (nonzero, advance-catch_up fuel now period ((due + period) % 2 ^ 64) h) refl

module _ {C : Type 0} where
  -- A timer that repeats does not overrun the clock.
  abbrev pub Bounded : ℕ → Slot C → Type 0
  Bounded now s = now + s.period_us < 2 ^ 64

  -- The callback that a slot runs, if any.
  abbrev pub called : ℕ → Slot C → Option C
  called now s = if s.active && is_ready now s then s.cb else none

  abbrev pub all_called : ℕ → List (Slot C) → List C
  all_called now [] = []
  all_called now (s ∷ slots) = elim (called now s) [
    | none ↦ all_called now slots
    | some cb ↦ cb ∷ all_called now slots
  ]

  -- What becomes of a slot: nothing, where it runs no callback or is a poll; it is free, where it ran
  -- once; or it is due at the first whole period after now.
  pub data Served (now : ℕ) (s : Slot C) : Slot C → Type 0 where
    idle : called now s ≡ none → Served now s s
    polled : s.periodic_poll ≡ true → Served now s s
    ran_once :
        {cb : C}
        → called now s ≡ some cb
        → s.periodic_poll ≡ false
        → s.period_us ≡ 0
        → Served now s (record s { active = false; cb = none })
    repeated :
        {d : ℕ} {cb : C}
        → called now s ≡ some cb
        → s.periodic_poll ≡ false
        → Next now s.period_us s.due_us d
        → Served now s (record s { due_us = d })

  pub retire-Served :
      (now : ℕ) (s : Slot C) (cb : C)
      → Bounded now s
      → is_ready now s ≡ true
      → called now s ≡ some cb
      → (s' : Slot C) × (retire (suc now) now s ≡ some s') × Served now s s'
  unfolding retire
  retire-Served now s cb b ready loud = elim (Bool-cases s.periodic_poll) [
    | inl poll ↦ (s, simp poll refl, polled poll)
    | inr timer ↦ elim (Bool-cases (s.period_us == 0)) [
      | inl single ↦ (
        record s { active = false; cb = none },
        simp (timer, single) refl,
        ran_once loud timer ((==_iff s.period_us 0).0 single),
      )
      | inr repeats ↦
          let positive : 0 < s.period_us = ground arith in
          let due : s.due_us ≤ now =
            leb→le s.due_us now (ap (λ (b : Bool). b || leb s.due_us now) (sym timer) ∙ ready) in
          let (d, e, next) =
            catch_up-Next (suc now) now s.period_us s.due_us positive b due (omega arith) in
          (
            record s { due_us = d },
            simp
                (
                  retire,
                  timer,
                  repeats,
                  advance-catch_up (suc now) now s.period_us s.due_us positive ∙ e,
                )
                refl,
            repeated loud timer next,
          )
    ]
  ]

  pub get_elem?-set :
      (slots : List (Slot C)) (i : ℕ) (s : Slot C)
      → get_elem? slots i ≡ some s
      → set slots i s ≡ slots
  get_elem?-set [] i s h = refl
  get_elem?-set (x ∷ slots) zero s h = ap (λ t. t ∷ slots) (ground arith)
  get_elem?-set (x ∷ slots) (suc i) s h = ap (λ t. x ∷ t) (get_elem?-set slots i s h)

  pub get_elem?-middle :
      (done rest : List (Slot C)) (s : Slot C) → get_elem? (done ++ s ∷ rest) (length done) ≡ some s
  get_elem?-middle [] rest s = refl
  get_elem?-middle (x ∷ done) rest s = get_elem?-middle done rest s

  pub set-middle :
      (done rest : List (Slot C)) (s s' : Slot C)
      → set (done ++ s ∷ rest) (length done) s' ≡ done ++ s' ∷ rest
  set-middle [] rest s s' = refl
  set-middle (x ∷ done) rest s s' = ap (λ t. x ∷ t) (set-middle done rest s s')
