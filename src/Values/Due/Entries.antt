-- ===== src/Values/Due/Entries.antt =====
-- `emit_due_watches` moves watches in time, and neither adds nor takes out any.
use pypilot_cxx.Prelude.{
  ℕ, suc, ◌+◌, ◌≡◌, refl, ap, ◌∙◌, inl, inr, Option, none, some, List, [], ◌∷◌, arith,
  if◌then◌else◌, Bool-cases, Option-cases, length,
}
use pypilot_cxx.Float.{Float}
use pypilot_cxx.Values.Fields.{FieldId}
use pypilot_cxx.Values.Writer.{ValueWriter}
use pypilot_cxx.Values.Access.{Watch, ValueRegistry}
use pypilot_cxx.Values.Watches.{period_us, holds}
use pypilot_cxx.Values.Watches.Table.{entries, IsTable}
use pypilot_cxx.Values.Due.{catch_up, is_quiet, emit_due, emit_all_due, emit_due_watches}

module _ {R : Type 0} where
  -- A watch at another time.
  data Retimed (w : Watch R) : Watch R → Type 0 where
    retimed : (due : ℕ) → Retimed w (record w { next_due_us = due })

module _ {R : Type 0} ⦃fl : Float R⦄ where
  -- The tables have as many entries, and as many active ones of each field.
  record SameEntries (ws ws' : List (Watch R)) : Type 0 where
    same : (j : FieldId) → entries j ws' ≡ entries j ws
    same_size : length ws' ≡ length ws

  SameEntries-cons :
      (w w' : Watch R) (ws ws' : List (Watch R))
      → Retimed w w'
      → SameEntries ws ws'
      → SameEntries (w ∷ ws) (w' ∷ ws')
  SameEntries-cons w _ ws ws' (retimed due) h = record {
    same = λ j. ap (λ (n : ℕ). if holds j w then n + 1 else n) (h.same j);
    same_size = ap suc h.same_size;
  }

module _ {R W : Type 0} ⦃fl : Float R⦄ ⦃writer : ValueWriter W⦄ where
  abbrev RetimedIf : Watch R → Option (Watch R × W) → Type 0
  RetimedIf w none = Unit
  RetimedIf w (some (w', out)) = Retimed w w'

  emit_due-RetimedIf :
      (fuel now : ℕ) (v : ValueRegistry R) (w : Watch R) (out : W)
      → RetimedIf w (emit_due fuel now v w out)
  unfolding emit_due
  emit_due-RetimedIf fuel now v w out = elim (Bool-cases (is_quiet now w)) [
    | inl quiet ↦ rw quiet (retimed w.next_due_us)
    | inr due ↦
        rw due (elim (Option-cases (catch_up fuel now (period_us w.period_seconds) w.next_due_us)) [
          | inl e ↦ rw e tt
          | inr (d, e) ↦ rw e (retimed d)
        ])
  ]

  abbrev SameIf : List (Watch R) → Option (List (Watch R) × W) → Type 0
  SameIf ws none = Unit
  SameIf ws (some (ws', out)) = SameEntries ws ws'

  emit_all_due-SameIf :
      (fuel now : ℕ) (v : ValueRegistry R) (ws : List (Watch R)) (out : W)
      → SameIf ws (emit_all_due fuel now v ws out)
  unfolding emit_all_due
  emit_all_due-SameIf fuel now v [] out = record { same = λ j. refl; same_size = refl }
  emit_all_due-SameIf fuel now v (w ∷ ws) out =
      go (emit_due fuel now v w out) (emit_due-RetimedIf fuel now v w out)
        (emit_all_due-SameIf fuel now v ws)
    where
      later :
          (w' : Watch R) (r : Option (List (Watch R) × W))
          → Retimed w w'
          → SameIf ws r
          → SameIf (w ∷ ws) (elim r as (λ _. Option (List (Watch R) × W)) [
            | none ↦ none
            | some (ws', out'') ↦ some (w' ∷ ws', out'')
          ])
      later w' none h k = tt
      later w' (some (ws', out'')) h k = SameEntries-cons w w' ws ws' h k

      go :
          (o : Option (Watch R × W))
          → RetimedIf w o
          → ((out' : W) → SameIf ws (emit_all_due fuel now v ws out'))
          → SameIf (w ∷ ws) (elim o as (λ _. Option (List (Watch R) × W)) [
            | none ↦ none
            | some (w', out') ↦ elim (emit_all_due fuel now v ws out') [
              | none ↦ none
              | some (ws', out'') ↦ some (w' ∷ ws', out'')
            ]
          ])
      go none h ih = tt
      go (some (w', out')) h ih = later w' (emit_all_due fuel now v ws out') h (ih out')

  -- Where the call ends, the table is still one, and the marks and the state are as they were.
  pub emit_due_watches-IsTable :
      (fuel now : ℕ) (v v' : ValueRegistry R) (out out' : W)
      → emit_due_watches fuel now v out ≡ some (v', out')
      → IsTable v.watches
      → (v' ≡ record v { watches = v'.watches }) × IsTable v'.watches
  unfolding emit_due_watches
  emit_due_watches-IsTable fuel now v v' out out' e t =
      go (emit_all_due fuel now v v.watches out) (emit_all_due-SameIf fuel now v v.watches out) e
    where
      go :
          (o : Option (List (Watch R) × W))
          → SameIf v.watches o
          → ◌≡◌ {A = Option (ValueRegistry R × W)}
              (elim o [ none ↦ none | some (ws, out') ↦ some (record v { watches = ws }, out') ])
              (some (v', out'))
          → (v' ≡ record v { watches = v'.watches }) × IsTable v'.watches
      go none h e = cc
      go (some (ws, out'')) h e =
          let same : record v { watches = ws } ≡ v' = cc in
          rw (← same) (
            refl,
            record {
              single = λ j. omega (arith, h.same j, t.single j);
              sized = h.same_size ∙ t.sized;
            },
          )
