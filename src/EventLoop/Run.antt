-- ===== src/EventLoop/Run.antt =====
-- A run of the loop whose callbacks leave the loop alone: which callbacks run, and when each slot is
-- due afterwards.
use pypilot_cxx.Prelude.{
  ℕ, suc, ◌≡◌, refl, sym, ap, ◌∙◌, inl, inr, Bool, true, ◌&&◌, Option, none, some, List, [], ◌∷◌,
  ◌++◌, arith, if◌then◌else◌, Bool-cases, Option-cases, length, get_elem?, set, All, length-append,
}
use mathlib.Core.List.{append_assoc, Forall₂}
use pypilot_cxx.EventLoop.{run_once, fire, visit, run_from, EventLoop, Slot, is_ready}
use pypilot_cxx.EventLoop.Turns.{
  Bounded, called, all_called, Served, idle, retire-Served, get_elem?-set, get_elem?-middle,
  set-middle,
}

module _ {C W : Type 0} (act : C → W → W) where
  -- A callback that does not change the loop.
  abbrev pub run_callback : C → EventLoop C → W → EventLoop C × W
  run_callback cb l w = (l, act cb w)

  abbrev pub run_callbacks : List C → W → W
  run_callbacks [] w = w
  run_callbacks (cb ∷ cbs) w = run_callbacks cbs (act cb w)

  abbrev run_called : Option C → W → W
  run_called none w = w
  run_called (some cb) w = act cb w

  run_callbacks-next :
      (o : Option C) (cbs : List C) (w : W)
      → run_callbacks (elim o [ none ↦ cbs | some cb ↦ cb ∷ cbs ]) w
        ≡ run_callbacks cbs (run_called o w)
  run_callbacks-next none cbs w = refl
  run_callbacks-next (some cb) cbs w = refl

  module _ (now : ℕ) where
    -- A slot's turn.
    abbrev Turn : ℕ → Slot C → EventLoop C → W → Type 0
    Turn i s l w =
        (s' : Slot C) × (visit run_callback (suc now) now i s l w
          ≡ some (record l { slots = set l.slots i s' }, run_called (called now s) w))
        × Served now s s'

    module _ (i : ℕ) (s : Slot C) (l : EventLoop C) (w : W)
        (at_i : get_elem? l.slots i ≡ some s) where
      idle-Turn :
          called now s ≡ none
          → visit run_callback (suc now) now i s l w ≡ some (l, w)
          → Turn i s l w
      idle-Turn quiet e = (
        s,
        e
            ∙ ap (λ t. some (record l { slots = t }, w)) (sym (get_elem?-set l.slots i s at_i))
            ∙ ap (λ o. some (record l { slots = set l.slots i s }, run_called o w)) (sym quiet),
        idle quiet,
      )

      fire-Turn :
          (cb : C)
          → Bounded now s
          → is_ready now s ≡ true
          → called now s ≡ some cb
          → visit run_callback (suc now) now i s l w ≡ fire run_callback (suc now) now i s cb l w
          → Turn i s l w
      unfolding fire
      fire-Turn cb b ready loud e =
          let (s', retired, served) = retire-Served now s cb b ready loud in
          (
            s',
            e
                ∙ simp (retired, fire) refl
                ∙ ap (λ o. some (record l { slots = set l.slots i s' }, run_called o w)) (sym loud),
            served,
          )

      visit-Turn : Bounded now s → Turn i s l w
      unfolding visit
      visit-Turn b = elim (Bool-cases s.active) [
        | inr off ↦
            idle-Turn (ap (λ (x : Bool). if x && is_ready now s then s.cb else none) off)
              (simp (off, visit) refl)
        | inl on ↦
            let awake : called now s ≡ (if is_ready now s then s.cb else none) =
              ap (λ (x : Bool). if x && is_ready now s then s.cb else none) on in
            elim (Bool-cases (is_ready now s)) [
              | inr early ↦
                  idle-Turn (awake ∙ ap (λ (x : Bool). if x then s.cb else none) early)
                    elim (Option-cases s.cb) [
                      | inl e ↦ simp (on, e, visit) refl
                      | inr (cb, e) ↦ simp (on, e, early, visit) refl
                    ]
              | inl ready ↦
                  let wanted = awake ∙ ap (λ (x : Bool). if x then s.cb else none) ready in
                  elim (Option-cases s.cb) [
                    | inl e ↦ idle-Turn (wanted ∙ e) (simp (on, e, visit) refl)
                    | inr (cb, e) ↦
                        fire-Turn cb b ready (wanted ∙ e) (simp (on, e, ready, visit) refl)
                  ]
            ]
      ]

    run_from-turn :
        (count i : ℕ) (s : Slot C) (l l' : EventLoop C) (w w' : W)
        → get_elem? l.slots i ≡ some s
        → visit run_callback (suc now) now i s l w ≡ some (l', w')
        → run_from run_callback (suc now) now (suc count) i l w
          ≡ run_from run_callback (suc now) now count (suc i) l' w'
    unfolding run_from
    run_from-turn count i s l l' w w' at_i turned = simp (at_i, turned, run_from) refl

    run_from-Served :
        (done rest : List (Slot C)) (l : EventLoop C) (w : W)
        → All (Bounded now) rest
        → l.slots ≡ done ++ rest
        → (slots : List (Slot C)) × Forall₂ (Served now) rest slots
          × (run_from run_callback (suc now) now (length rest) (length done) l w
              ≡ some (record l { slots = done ++ slots }, run_callbacks (all_called now rest) w))
    unfolding run_from
    run_from-Served done [] l w b e =
        ([], Forall₂.nil, ap (λ t. some (record l { slots = t }, w)) e)
    run_from-Served done (s ∷ rest) l w b e =
        let at_i = ap (λ t. get_elem? t (length done)) e ∙ get_elem?-middle done rest s in
        let (s', turned, served) = visit-Turn (length done) s l w at_i b.0 in
        let l' = record l { slots = set l.slots (length done) s' } in
        let w' = run_called (called now s) w in
        let shape =
          ap (λ t. set t (length done) s') e
          ∙ set-middle done rest s s'
          ∙ sym (append_assoc done (s' ∷ []) rest) in
        let (slots, all, went) = run_from-Served (done ++ s' ∷ []) rest l' w' b.1 shape in
        let next : length (done ++ s' ∷ []) ≡ suc (length done) =
          omega (arith, length-append done (s' ∷ [])) in
        (
          s' ∷ slots,
          Forall₂.cons served all,
          run_from-turn (length rest) (length done) s l l' w w' at_i turned
              ∙ ap (λ (i : ℕ). run_from run_callback (suc now) now (length rest) i l' w') (sym next)
              ∙ went
              ∙ ap (λ t. some (record l { slots = t }, run_callbacks (all_called now rest) w'))
                  (append_assoc done (s' ∷ []) slots)
              ∙ ap (λ x. some (record l { slots = done ++ s' ∷ slots }, x))
                  (sym (run_callbacks-next (called now s) (all_called now rest) w)),
        )

  -- Where no period reaches over the end of the clock, and callbacks leave the loop alone, a run ends.
  -- It runs the callbacks of the active slots that are ready, each once, in the order of the slots.
  -- Then a timer that ran once is free, a repeating one is due at its first whole period after now,
  -- and all other slots are as they were.
  pub run_once-Served :
      (now : ℕ) (l : EventLoop C) (w : W)
      → All (Bounded now) l.slots
      → (slots : List (Slot C)) × Forall₂ (Served now) l.slots slots
        × (run_once run_callback (suc now) now l w
            ≡ some (record l { slots = slots }, run_callbacks (all_called now l.slots) w))
  unfolding run_once
  run_once-Served now l w b = run_from-Served now [] l.slots l w b refl
