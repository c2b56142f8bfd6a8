-- ===== src/Values/Lines/Steady.antt =====
-- The line of a field depends on how the field reads, and on nothing else of the registry.
use pypilot_cxx.Prelude.{
  ◌≡◌, refl, sym, ap, ◌∙◌, Bool, false, Option, none, some, List, [], ◌∷◌, if◌then◌else◌,
}
use mathlib.Core.Path.{subst}
use pypilot_cxx.Prelude.Text.{Text}
use pypilot_cxx.Float.{Float}
use pypilot_cxx.Values.Fields.{Kind, real, boolean, string, FieldId, Descriptor, find, descriptor}
use pypilot_cxx.Values.Rows.{descriptor-some, descriptor-Row}
use pypilot_cxx.Values.Writer.{
  ValueWriter, Emit, succeed, ◌&&>◌, write_char, write_bool, write_real, write_json_string,
}
use pypilot_cxx.Values.Access.{ValueRegistry, read_real_id, read_bool_id, read_string_id}
use pypilot_cxx.Values.Access.Stored.{Agree}
use pypilot_cxx.Values.Lines.{write_found, write_value, write_value_line_id}

module _ {R W : Type 0} ⦃fl : Float R⦄ ⦃writer : ValueWriter W⦄ where
  abbrev pub written : Kind → Option R → Option Bool → Option Text → Emit W
  written k x b s = elim k [
    | real ↦ elim x [ none ↦ succeed false | some x ↦ write_real x ]
    | boolean ↦ elim b [ none ↦ succeed false | some b ↦ write_bool b ]
    | string ↦ elim s [ none ↦ succeed false | some s ↦ write_json_string s ]
  ]

  pub write_found-written :
      (d : Descriptor R) (v : ValueRegistry R)
      → write_found d v
        ≡ written d.kind (read_real_id d.id v) (read_bool_id d.id v) (read_string_id d.id v)
  unfolding write_found
  write_found-written d v = refl

  -- The parts of a line.
  pub line-parts :
      (id : FieldId) (d : Descriptor R) (u : ValueRegistry R)
      → descriptor id ≡ some d
      → find d.name ≡ some d
      → write_value_line_id {W = W} id u
        ≡ writer.write d.name &&> write_char b'=' &&> write_found d u &&> write_char b'\n'
  unfolding write_value_line_id write_value
  line-parts id d u e f = rw (e, write_value_line_id) (rw (f, write_value) refl)

  -- The lines of fields, one behind the other.
  abbrev pub write_lines : ValueRegistry R → List FieldId → W → W
  write_lines v [] out = out
  write_lines v (id ∷ ids) out = write_lines v ids (write_value_line_id id v out).1

  module _ (v v' : ValueRegistry R) (on : v'.attached ≡ v.attached) where
    write_found-Agree :
        (d : Descriptor R)
        → Agree d.id v.state v'.state
        → write_found {W = W} d v' ≡ write_found d v
    unfolding read_real_id read_bool_id read_string_id
    write_found-Agree d (x, b, s) =
        write_found-written d v'
        ∙ (λ i.
            written d.kind (if on i then x i else none) (if on i then b i else none)
              (if on i then s i else none))
        ∙ sym (write_found-written d v)

    -- Two registries in which a field reads the same write the same line of it.
    pub line-Agree :
        (j : FieldId)
        → Agree j v.state v'.state
        → write_value_line_id {W = W} j v' ≡ write_value_line_id j v
    line-Agree j same =
        let (d, e) = descriptor-some j in
        let (row, here) = descriptor-Row j d e in
        line-parts j d v' e row.by_name
        ∙ ap (λ (m : Emit W). writer.write d.name &&> write_char b'=' &&> m &&> write_char b'\n')
            (write_found-Agree d (subst (λ id. Agree id v.state v'.state) (sym here) same))
        ∙ sym (line-parts j d v e row.by_name)
