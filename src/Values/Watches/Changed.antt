-- ===== src/Values/Watches/Changed.antt =====
-- `emit_changed_watches`: every mark is taken off, and a second call writes nothing.
use pypilot_cxx.Prelude.{
  suc, ◌≡◌, refl, ap, ◌∙◌, Bool, true, false, List, [], ◌∷◌, map, arith, if◌then◌else◌, length,
}
use pypilot_cxx.Float.{Float}
use pypilot_cxx.Values.Writer.{ValueWriter}
use pypilot_cxx.Values.Access.{ValueRegistry}
use pypilot_cxx.Values.Lines.{write_value_line_id}
use pypilot_cxx.Values.Watches.{all_ids, emit_changed_watches, any_of, immediate, emit_marked}
use pypilot_cxx.Values.Fields.{field_count, FieldId}

pub length-map-false : (marks : List Bool) → length (map (λ (_ : Bool). false) marks) ≡ length marks
length-map-false [] = refl
length-map-false (m ∷ marks) = ap suc (length-map-false marks)

module _ {R W : Type 0} ⦃fl : Float R⦄ ⦃writer : ValueWriter W⦄ where
  -- The lines of the marked fields that are watched at once, in the order of the fields.
  abbrev pub lines_of : ValueRegistry R → List FieldId → List Bool → W → W
  lines_of v [] marks out = out
  lines_of v (id ∷ ids) [] out = out
  lines_of v (id ∷ ids) (mark ∷ marks) out = lines_of v ids marks (
      if mark
      then (if any_of (immediate id) v.watches then (write_value_line_id id v out).1 else out)
      else out)

  emit_marked-lines :
      (v : ValueRegistry R) (ids : List FieldId) (marks : List Bool) (out : W)
      → length marks ≡ length ids
      → emit_marked v ids marks out ≡ (map (λ _. false) marks, lines_of v ids marks out)
  unfolding emit_marked
  emit_marked-lines v [] [] out h = refl
  emit_marked-lines v [] (m ∷ marks) out h = absurd (omega arith)
  emit_marked-lines v (id ∷ ids) [] out h = absurd (omega arith)
  emit_marked-lines v (id ∷ ids) (false ∷ marks) out h =
      rw (emit_marked-lines v ids marks out (omega arith))
  emit_marked-lines v (id ∷ ids) (true ∷ marks) out h =
      let out' =
        if any_of (immediate id) v.watches then (write_value_line_id id v out).1 else out in
      rw (emit_marked-lines v ids marks out' (omega arith))

  lines_of-unmarked :
      (v : ValueRegistry R) (ids : List FieldId) (marks : List Bool) (out : W)
      → lines_of v ids (map (λ _. false) marks) out ≡ out
  lines_of-unmarked v [] marks out = refl
  lines_of-unmarked v (id ∷ ids) [] out = refl
  lines_of-unmarked v (id ∷ ids) (m ∷ marks) out = lines_of-unmarked v ids marks out

  -- The call writes the lines of the marked fields that are watched at once, in the order of the
  -- fields, and takes off every mark; the same call again writes nothing.
  pub emit_changed_watches-lines :
      (v : ValueRegistry R) (out out₂ : W)
      → length v.dirty ≡ field_count
      → let (v', out') = emit_changed_watches v out in
        (out' ≡ lines_of v all_ids v.dirty out)
        × (v' ≡ record v { dirty = map (λ _. false) v.dirty })
        × ((emit_changed_watches v' out₂).1 ≡ out₂)
  unfolding emit_changed_watches
  emit_changed_watches-lines v out out₂ h =
      let e = emit_marked-lines v all_ids v.dirty out h in
      let v' = record v { dirty = map (λ _. false) v.dirty } in
      let e' = emit_marked-lines v' all_ids v'.dirty out₂ (length-map-false v.dirty ∙ h) in
      rw e (refl, refl, rw e' (lines_of-unmarked v' all_ids v.dirty out₂))
