-- ===== src/Values/Due/Written.antt =====
-- What `emit_due_watches` writes, and what it leaves of the registry.
use mathlib.Core.Bool.{false≢true}
use pypilot_cxx.Prelude.{
  Bool, false, not, ◌||◌, ltb, All, All-append, ◌⊎◌, ℕ, ◌≡◌, refl, sym, ap, ◌∙◌, inl, inr, Option,
  none, some, List, [], ◌∷◌, ◌++◌, Bool-cases, Option-cases,
}
use pypilot_cxx.Float.{Float, whole}
use pypilot_cxx.Values.Fields.{FieldId}
use pypilot_cxx.Values.Writer.{ValueWriter}
use pypilot_cxx.Values.Access.{Watch, ValueRegistry}
use pypilot_cxx.Values.Lines.{write_value_line_id}
use pypilot_cxx.Values.Lines.Steady.{write_lines}
use pypilot_cxx.Values.Watches.{period_us}
use pypilot_cxx.Values.Due.{catch_up, is_quiet, emit_due, emit_all_due, emit_due_watches}

module _ {R : Type 0} where
  -- A watch that is off, or whose field has a property.
  abbrev pub OffOr : (FieldId → Type 0) → Watch R → Type 0
  OffOr P w = (w.active ≡ false) ⊎ P w.id

module _ {R W : Type 0} ⦃fl : Float R⦄ ⦃writer : ValueWriter W⦄ where
  pub write_lines-append :
      (v : ValueRegistry R) (ids ids' : List FieldId) (out : W)
      → write_lines v ids' (write_lines v ids out) ≡ write_lines v (ids ++ ids') out
  write_lines-append v [] ids' out = refl
  write_lines-append v (id ∷ ids) ids' out =
      write_lines-append v ids ids' (write_value_line_id id v out).1

module _ {R : Type 0} ⦃fl : Float R⦄ (P : FieldId → Type 0) where
  loud-has : (now : ℕ) (w : Watch R) → is_quiet now w ≡ false → OffOr P w → P w.id
  loud-has now w loud (inr h) = h
  loud-has now w loud (inl off) =
      let quiet =
        ap (λ (b : Bool). not b || fl.le w.period_seconds (whole 0) || ltb now w.next_due_us) off in
      absurd (false≢true (sym loud ∙ quiet))

module _ {R W : Type 0} ⦃fl : Float R⦄ ⦃writer : ValueWriter W⦄ (P : FieldId → Type 0) where
  -- What the call writes: lines of fields with the property.
  abbrev WritesIf : {A : Type 0} → ValueRegistry R → W → Option (A × W) → Type 0
  WritesIf v out none = Unit
  WritesIf v out (some (a, out')) =
      (ids : List FieldId) × (out' ≡ write_lines v ids out) × All P ids

  emit_due-WritesIf :
      (fuel now : ℕ) (v : ValueRegistry R) (w : Watch R) (out : W)
      → OffOr P w
      → WritesIf v out (emit_due fuel now v w out)
  unfolding emit_due
  emit_due-WritesIf fuel now v w out h = elim (Bool-cases (is_quiet now w)) [
    | inl quiet ↦ rw quiet ([], refl, tt)
    | inr due ↦
        rw due (elim (Option-cases (catch_up fuel now (period_us w.period_seconds) w.next_due_us)) [
          | inl e ↦ rw e tt
          | inr (d, e) ↦ rw e (w.id ∷ [], refl, (loud-has P now w due h, tt))
        ])
  ]

  emit_all_due-WritesIf :
      (fuel now : ℕ) (v : ValueRegistry R) (ws : List (Watch R)) (out : W)
      → All (OffOr P) ws
      → WritesIf v out (emit_all_due fuel now v ws out)
  unfolding emit_all_due
  emit_all_due-WritesIf fuel now v [] out h = ([], refl, tt)
  emit_all_due-WritesIf fuel now v (w ∷ ws) out h =
      go (emit_due fuel now v w out) (emit_due-WritesIf fuel now v w out h.0)
        (λ out'. emit_all_due-WritesIf fuel now v ws out' h.1)
    where
      later :
          (w' : Watch R) (out' : W) (r : Option (List (Watch R) × W))
          → (ids : List FieldId) × (out' ≡ write_lines v ids out) × All P ids
          → WritesIf v out' r
          → WritesIf v out (elim r as (λ _. Option (List (Watch R) × W)) [
            | none ↦ none
            | some (ws', out'') ↦ some (w' ∷ ws', out'')
          ])
      later w' out' none h k = tt
      later w' out' (some (ws', out'')) (ids, e, g) (ids', e', g') = (
        ids ++ ids',
        e' ∙ ap (write_lines v ids') e ∙ write_lines-append v ids ids' out,
        All-append P ids ids' g g',
      )

      go :
          (o : Option (Watch R × W))
          → WritesIf v out o
          → ((out' : W) → WritesIf v out' (emit_all_due fuel now v ws out'))
          → WritesIf v out (elim o as (λ _. Option (List (Watch R) × W)) [
            | none ↦ none
            | some (w', out') ↦ elim (emit_all_due fuel now v ws out') [
              | none ↦ none
              | some (ws', out'') ↦ some (w' ∷ ws', out'')
            ]
          ])
      go none h ih = tt
      go (some (w', out')) h ih = later w' out' (emit_all_due fuel now v ws out') h (ih out')

  -- Let the fields of all active watches have the property. Where the call ends, it has written lines
  -- of fields with the property, and changed the table of watches only.
  pub emit_due_watches-lines :
      (fuel now : ℕ) (v v' : ValueRegistry R) (out out' : W)
      → emit_due_watches fuel now v out ≡ some (v', out')
      → All (OffOr P) v.watches
      → (v' ≡ record v { watches = v'.watches })
        × (ids : List FieldId) × (out' ≡ write_lines v ids out)
        × All P ids
  unfolding emit_due_watches
  emit_due_watches-lines fuel now v v' out out' e offs =
      go (emit_all_due fuel now v v.watches out)
        (emit_all_due-WritesIf fuel now v v.watches out offs) e
    where
      go :
          (o : Option (List (Watch R) × W))
          → WritesIf v out o
          → ◌≡◌ {A = Option (ValueRegistry R × W)}
              (elim o [ none ↦ none | some (ws, out') ↦ some (record v { watches = ws }, out') ])
              (some (v', out'))
          → (v' ≡ record v { watches = v'.watches })
            × (ids : List FieldId) × (out' ≡ write_lines v ids out)
            × All P ids
      go none h e = cc
      go (some (ws, out'')) (ids, h, g) e =
          let same : record v { watches = ws } ≡ v' = cc in
          let out_same : out'' ≡ out' = cc in (rw (← same) refl, ids, sym out_same ∙ h, g)
