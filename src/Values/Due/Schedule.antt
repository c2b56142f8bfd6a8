-- ===== src/Values/Due/Schedule.antt =====
-- What `emit_due_watches` makes of a watch that is due: it is moved past the present by whole periods,
-- or stays due where its period is less than a microsecond.
use pypilot_cxx.Prelude.{
  ℕ, zero, suc, ◌+◌, ◌-◌, ◌*◌, ◌%◌, ◌^◌, ◌≤◌, ◌<◌, ◌≡◌, refl, sym, ap, ◌∙◌, ◌⊎◌, inl, inr, Bool,
  true, false, not, ◌&&◌, Option, some, List, [], ◌∷◌, arith, leb, ◌==◌, if◌then◌else◌, leb→le,
  ==_iff, Bool-cases, All,
}
use mathlib.Core.Bool.{false≢true}
use mathlib.Core.List.{Forall₂}
use pypilot_cxx.Float.{Float}
use pypilot_cxx.Values.Writer.{ValueWriter}
use pypilot_cxx.Values.Access.{Watch, ValueRegistry}
use pypilot_cxx.Values.Lines.{write_value_line_id}
use pypilot_cxx.Values.Fields.{FieldId}
use pypilot_cxx.Values.Lines.Steady.{write_lines}
use pypilot_cxx.Values.Watches.{period_us}
use pypilot_cxx.Values.Due.{catch_up, is_quiet, emit_due, emit_all_due, emit_due_watches}

-- The first time after `now` that is a whole number of periods after `due`.
pub record Next (now period due d : ℕ) : Type 0 where
  pub turns : ℕ
  pub whole_periods : d ≡ due + suc turns * period
  pub later : now < d
  pub first : d ≤ now + period

-- A turn of the loop where nothing wraps.
abbrev turn : ℕ → ℕ → ℕ → ℕ → Option ℕ
turn fuel now period due' =
    if not (period == 0) && leb due' now then catch_up fuel now period due' else some due'

catch_up-turn :
    (fuel now period due : ℕ)
    → due + period < 2 ^ 64
    → catch_up (suc fuel) now period due ≡ turn fuel now period (due + period)
unfolding catch_up
catch_up-turn fuel now period due room =
    let exact : (due + period) % 2 ^ 64 ≡ due + period = omega arith in
    ap (turn fuel now period) exact

-- As long as the clock and the period do not reach 2^64, the loop ends within as many turns as
-- microseconds have passed, at the first whole period after now.
pub catch_up-Next :
    (fuel now period due : ℕ)
    → 0 < period
    → now + period < 2 ^ 64
    → due ≤ now
    → now - due < fuel
    → (d : ℕ) × (catch_up fuel now period due ≡ some d) × Next now period due d
catch_up-Next zero now period due pos room past enough = absurd (omega arith)
catch_up-Next (suc fuel) now period due pos room past enough =
    let nonzero : (period == 0) ≡ false = ground arith in
    let step = catch_up-turn fuel now period due (omega arith) in
    elim (Bool-cases (leb (due + period) now)) [
      | inl more ↦
          let below = leb→le (due + period) now more in
          let (d, e, n) =
            catch_up-Next fuel now period (due + period) pos room below (omega arith) in
          (
            d,
            step ∙ rw (nonzero, more) e,
            record {
              turns = suc n.turns;
              whole_periods = grind (arith, n.whole_periods);
              later = n.later;
              first = n.first;
            },
          )
      | inr done ↦ (
        due + period,
        step ∙ rw (nonzero, done),
        record {
          turns = 0;
          whole_periods = omega arith;
          later = ground arith;
          first = omega arith;
        },
      )
    ]

-- A period that rounds to no microsecond: the loop ends in its first turn and moves nothing.
catch_up-zero :
    (fuel now period due : ℕ)
    → period ≡ 0
    → due < 2 ^ 64
    → catch_up (suc fuel) now period due ≡ some due
unfolding catch_up
catch_up-zero fuel now period due e room =
    let kept : (due + period) % 2 ^ 64 ≡ due = omega (arith, e) in
    let off : (period == 0) ≡ true = ground (arith, e) in simp (off, kept, catch_up) refl

module _ {R : Type 0} ⦃fl : Float R⦄ where
  -- A watch that is not due, or whose period does not overrun the clock.
  abbrev pub Bounded : ℕ → Watch R → Type 0
  Bounded now w = (is_quiet now w ≡ true) ⊎ (now + period_us w.period_seconds < 2 ^ 64)

  -- A watch that is due, with a period of less than a microsecond.
  abbrev pub IsInstant : ℕ → Watch R → Type 0
  IsInstant now w =
      (is_quiet now w ≡ false) × (period_us w.period_seconds ≡ 0) × (w.next_due_us < 2 ^ 64)

  -- A watch that is not due stays, and so does one whose period is less than a microsecond; another one
  -- that is due goes to its next whole period.
  abbrev pub Rescheduled : ℕ → Watch R → Watch R → Type 0
  Rescheduled now w w' =
      ((is_quiet now w ≡ true) × (w' ≡ w))
      ⊎ ((IsInstant now w × (w' ≡ w))
          ⊎ ((d : ℕ) × (is_quiet now w ≡ false)
              × (w' ≡ record w { next_due_us = d })
              × Next now (period_us w.period_seconds) w.next_due_us d))

  -- The fields of the watches that are due.
  abbrev pub due_ids : ℕ → List (Watch R) → List FieldId
  due_ids now [] = []
  due_ids now (w ∷ ws) = if is_quiet now w then due_ids now ws else w.id ∷ due_ids now ws

  loud-due : (now : ℕ) (w : Watch R) → is_quiet now w ≡ false → w.next_due_us ≤ now
  loud-due now w h = ground arith

  loud-Bounded :
      (now : ℕ) (w : Watch R)
      → Bounded now w
      → is_quiet now w ≡ false
      → now + period_us w.period_seconds < 2 ^ 64
  loud-Bounded now w (inl quiet) loud = absurd (false≢true (sym loud ∙ quiet))
  loud-Bounded now w (inr b) loud = b

  catch_up-watch :
      (now : ℕ) (w : Watch R)
      → Bounded now w
      → is_quiet now w ≡ false
      → (d : ℕ) × (catch_up (suc now) now (period_us w.period_seconds) w.next_due_us ≡ some d)
        × Rescheduled now w (record w { next_due_us = d })
  catch_up-watch now w b loud =
      let room = loud-Bounded now w b loud in
      let past = loud-due now w loud in
      elim (Bool-cases (period_us w.period_seconds == 0)) [
        | inl instant ↦
            let none = (==_iff (period_us w.period_seconds) 0).0 instant in
            let within : w.next_due_us < 2 ^ 64 = omega (arith, room, past) in
            (
              w.next_due_us,
              catch_up-zero now now (period_us w.period_seconds) w.next_due_us none within,
              inr (inl ((loud, none, within), refl)),
            )
        | inr lasting ↦
            let (d, e, n) =
              catch_up-Next (suc now) now (period_us w.period_seconds) w.next_due_us
                (ground (arith, lasting)) room past (omega arith) in
            (d, e, inr (inr (d, loud, refl, n)))
      ]

  -- A watch that is quiet, or has a period of less than a microsecond.
  abbrev IsSettled : ℕ → Watch R → Type 0
  IsSettled now w = (is_quiet now w ≡ true) ⊎ IsInstant now w

  Rescheduled-IsSettled : (now : ℕ) (w w' : Watch R) → Rescheduled now w w' → IsSettled now w'
  Rescheduled-IsSettled now w w' (inl (quiet, same)) = inl (rw same quiet)
  Rescheduled-IsSettled now w w' (inr (inl (instant, same))) = inr (rw same instant)
  Rescheduled-IsSettled now w w' (inr (inr (d, loud, same, n))) =
      inl (rw same (ground (arith, n.later)))

  All-IsSettled :
      (now : ℕ) {ws ws' : List (Watch R)}
      → Forall₂ (Rescheduled now) ws ws'
      → All (IsSettled now) ws'
  All-IsSettled now Forall₂.nil = tt
  All-IsSettled now (Forall₂.cons {a = w} {b = w'} r rs) =
      (Rescheduled-IsSettled now w w' r, All-IsSettled now rs)

module _ {R W : Type 0} ⦃fl : Float R⦄ ⦃writer : ValueWriter W⦄ where
  -- The loop's turn for one watch, with fuel for as many turns as the clock has microseconds.
  emit_due-Rescheduled :
      (now : ℕ) (v : ValueRegistry R) (w : Watch R) (out : W)
      → Bounded now w
      → (w' : Watch R) × (emit_due (suc now) now v w out
          ≡ some (w', if is_quiet now w then out else (write_value_line_id w.id v out).1))
        × Rescheduled now w w'
  unfolding emit_due
  emit_due-Rescheduled now v w out b = elim (Bool-cases (is_quiet now w)) [
    | inl quiet ↦ (w, rw quiet refl, inl (quiet, refl))
    | inr loud ↦
        let (d, e, r) = catch_up-watch now w b loud in
        (record w { next_due_us = d }, rw (loud, e) refl, r)
  ]

  emit_due-quiet :
      (fuel now : ℕ) (v : ValueRegistry R) (w : Watch R) (out : W)
      → is_quiet now w ≡ true
      → emit_due fuel now v w out ≡ some (w, out)
  unfolding emit_due
  emit_due-quiet fuel now v w out quiet = rw quiet

  emit_due-IsInstant :
      (fuel now : ℕ) (v : ValueRegistry R) (w : Watch R) (out : W)
      → IsInstant now w
      → emit_due (suc fuel) now v w out ≡ some (w, (write_value_line_id w.id v out).1)
  unfolding emit_due
  emit_due-IsInstant fuel now v w out (loud, none, within) =
      rw (loud, catch_up-zero fuel now (period_us w.period_seconds) w.next_due_us none within)

  write_lines-next :
      (quiet : Bool) (id : FieldId) (ids : List FieldId) (v : ValueRegistry R) (out : W)
      → write_lines v ids (if quiet then out else (write_value_line_id id v out).1)
        ≡ write_lines v (if quiet then ids else id ∷ ids) out
  write_lines-next true id ids v out = refl
  write_lines-next false id ids v out = refl

  emit_all_due-Rescheduled :
      (now : ℕ) (v : ValueRegistry R) (ws : List (Watch R)) (out : W)
      → All (Bounded now) ws
      → (ws' : List (Watch R)) × (emit_all_due (suc now) now v ws out
          ≡ some (ws', write_lines v (due_ids now ws) out))
        × Forall₂ (Rescheduled now) ws ws'
  unfolding emit_all_due
  emit_all_due-Rescheduled now v [] out h = ([], refl, Forall₂.nil)
  emit_all_due-Rescheduled now v (w ∷ ws) out (h, hs) =
      let (w', e, r) = emit_due-Rescheduled now v w out h in
      let out' = if is_quiet now w then out else (write_value_line_id w.id v out).1 in
      let (ws', es, rs) = emit_all_due-Rescheduled now v ws out' hs in
      (
        w' ∷ ws',
        rw (e, emit_all_due, es) refl
            ∙ ap (λ (o : W). some (w' ∷ ws', o))
                (write_lines-next (is_quiet now w) w.id (due_ids now ws) v out),
        Forall₂.cons r rs,
      )

  emit_all_due-IsSettled :
      (fuel now : ℕ) (v : ValueRegistry R) (ws : List (Watch R)) (out : W)
      → All (IsSettled now) ws
      → emit_all_due (suc fuel) now v ws out ≡ some (ws, write_lines v (due_ids now ws) out)
  unfolding emit_all_due
  emit_all_due-IsSettled fuel now v [] out h = refl
  emit_all_due-IsSettled fuel now v (w ∷ ws) out (inl quiet, hs) =
      rw
        (
          emit_due-quiet (suc fuel) now v w out quiet,
          emit_all_due,
          emit_all_due-IsSettled fuel now v ws out hs,
          quiet,
        )
        refl
  emit_all_due-IsSettled fuel now v (w ∷ ws) out (inr instant, hs) =
      rw
        (
          emit_due-IsInstant fuel now v w out instant,
          emit_all_due,
          emit_all_due-IsSettled fuel now v ws (write_value_line_id w.id v out).1 hs,
          instant.0,
        )
        refl

  -- As long as no period of a watch that is due overruns the clock, the call ends, and writes the lines
  -- of the watches that are due, in the order of the table. A watch that was due is moved to its first
  -- whole period after now, or stays as it is where its period is less than a microsecond; the others
  -- stay. A second call at the same time changes nothing, and writes the lines of those watches that
  -- were due and have such a period, and no other.
  pub emit_due_watches-Rescheduled :
      (now : ℕ) (v : ValueRegistry R) (out : W)
      → All (Bounded now) v.watches
      → (v' : ValueRegistry R) × (emit_due_watches (suc now) now v out
          ≡ some (v', write_lines v (due_ids now v.watches) out))
        × Forall₂ (Rescheduled now) v.watches v'.watches
        × ((out₂ : W)
            → emit_due_watches (suc now) now v' out₂
              ≡ some (v', write_lines v' (due_ids now v'.watches) out₂))
  unfolding emit_due_watches
  emit_due_watches-Rescheduled now v out h =
      let (ws', e, r) = emit_all_due-Rescheduled now v v.watches out h in
      (
        record v { watches = ws' },
        rw (e, emit_due_watches),
        r,
        λ out₂. rw (
          emit_all_due-IsSettled now now (record v { watches = ws' }) ws' out₂
              (All-IsSettled now r),
          emit_due_watches,
        ),
      )
