-- ===== src/Values/Lines/Partial.antt =====
-- The lines that `write_value_line` writes for a string writer, whole and cut short.
use pypilot_cxx.Prelude.{
  ◌-◌, ◌≤◌, ◌<◌, ◌≡◌, refl, ap, ◌∙◌, true, false, Option, none, some, [], ◌∷◌, ◌++◌, arith, length,
  take,
}
use mathlib.Core.List.{append_assoc}
use pypilot_cxx.Prelude.Text.{codes, Text}
use pypilot_cxx.Float.{Float}
use pypilot_cxx.Values.Fields.{
  boolean, string, descriptor_in, fields, Kind, real, rudder_angle, FieldId, Descriptor, find,
  descriptor,
}
use pypilot_cxx.Values.Access.{get_real, read_string_id, read_bool_id, read_real_id, ValueRegistry}
use pypilot_cxx.Values.Rows.{kind_of, descriptor-Row}
use pypilot_cxx.Values.Writer.{string_writer, ◌&&>◌, write_char, write_real}
use pypilot_cxx.Values.Lines.{
  write_json_string, write_bool, succeed, Emit, write_found, write_value, write_value_line_id,
}

module _ {R : Type 0} ⦃fl : Float R⦄ where
  -- A number that formats to at most 31 bytes is written as it is formatted.
  write_real-fits :
      (x : R) (out : Text)
      → 0 < length (fl.fixed4 x)
      → length (fl.fixed4 x) < 32
      → write_real x out ≡ (true, out ++ fl.fixed4 x)
  unfolding write_real
  write_real-fits x out h k = ground arith

  -- A number that formats to 32 bytes or more is not written as it is formatted: the output goes on
  -- past the buffer, with its NUL and the memory behind it, for as many bytes as the format has.
  pub write_real-overrun :
      (x : R) (out : Text)
      → 32 ≤ length (fl.fixed4 x)
      → write_real x out
        ≡ (true, out ++ (take 31 (fl.fixed4 x) ++ 0 ∷ fl.behind (length (fl.fixed4 x) - 32)))
  unfolding write_real
  write_real-overrun x out h = ground arith

  pub line-found :
      (id : FieldId) (d : Descriptor R) (v : ValueRegistry R) (out : Text)
      → descriptor id ≡ some d
      → find d.name ≡ some d
      → write_value_line_id id v out
        ≡ (write_found d v &&> write_char b'\n') ((out ++ d.name) ++ b'=' ∷ [])
  unfolding write_value_line_id write_value
  line-found id d v out e f = rw (e, write_value_line_id) (rw (f, write_value))

  module _ (id : FieldId) (d : Descriptor R) (found : descriptor id ≡ some d)
      (right : kind_of id ≡ real) (v : ValueRegistry R) (out : Text) where
    -- What stands in the output once the name of the field is written.
    abbrev named : Text
    named = (out ++ d.name) ++ b'=' ∷ []

    abbrev real_part : Option R → Emit Text
    real_part o = elim o [ none ↦ succeed false | some x ↦ write_real x ]

    write_found-real : d.kind ≡ real → write_found d v ≡ real_part (read_real_id d.id v)
    unfolding write_found
    write_found-real e =
        ap
          (λ (k : Kind). elim k [
            | real ↦ real_part (read_real_id d.id v)
            | boolean ↦ elim (read_bool_id d.id v) [ none ↦ succeed false | some b ↦ write_bool b ]
            | string ↦ elim (read_string_id d.id v) [
              | none ↦ succeed false
              | some s ↦ write_json_string s
            ]
          ])
          e

    line_real :
        (o : Option R)
        → read_real_id id v ≡ o
        → write_value_line_id id v out ≡ (real_part o &&> write_char b'\n') named
    line_real o e =
        let (row, same) = descriptor-Row id d found in
        line-found id d v out found row.by_name
        ∙ ap (λ (m : Emit Text). (m &&> write_char b'\n') named)
            (write_found-real (row.kind_right ∙ ap kind_of same ∙ right)
              ∙ ap (λ (j : FieldId). real_part (read_real_id j v)) same
              ∙ ap real_part e)

    -- The line of a number that can be read and fits the buffer: its name, an equals sign, its four
    -- decimals and a newline.
    pub line_whole :
        (x : R)
        → read_real_id id v ≡ some x
        → 0 < length (fl.fixed4 x)
        → length (fl.fixed4 x) < 32
        → write_value_line_id id v out ≡ (true, (named ++ fl.fixed4 x) ++ b'\n' ∷ [])
    line_whole x e lo hi = line_real (some x) e ∙ rw (write_real-fits x named lo hi)

    -- The line of a number that cannot be read is cut short behind the equals sign, with no newline.
    line_cut : read_real_id id v ≡ none → write_value_line_id id v out ≡ (false, named)
    line_cut e = line_real none e

  -- A rudder angle that is not valid leaves `rudder.angle=` in the output with no newline, so that
  -- whatever line is written next goes on from there.
  pub rudder_line_cut :
      (v : ValueRegistry R) (out : Text)
      → v.state.rudder.angle.valid ≡ false
      → write_value_line_id rudder_angle v out ≡ (false, out ++ codes "rudder.angle=")
  unfolding read_real_id get_real descriptor descriptor_in fields codes
  rudder_line_cut v out invalid =
      line_cut rudder_angle _ refl refl v out (rw invalid (ground arith))
      ∙ ap (λ (t : Text). (false, t)) (append_assoc out (codes "rudder.angle") (b'=' ∷ []))
