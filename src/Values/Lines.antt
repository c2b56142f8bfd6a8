-- ===== src/Values/Lines.antt =====
-- The lines that values.cpp writes: a value, a value with its name, and the list of all fields.
pub mod Json
pub mod Appended
pub mod Partial
pub mod Steady
use pypilot_cxx.Prelude.{Bool, true, false, none, some, List, [], ◌∷◌, if◌then◌else◌}
use pypilot_cxx.Prelude.Text.{Text, codes}
use pypilot_cxx.Float.{Float}
use pypilot_cxx.Values.Writer.{
  ValueWriter, Emit, succeed, ◌&&>◌, write_char, write_bool, write_real, write_json_string,
}
use pypilot_cxx.Values.Access.{ValueRegistry, read_real_id, read_bool_id, read_string_id}
use pypilot_cxx.Values.Fields.{real, boolean, string, FieldId, Descriptor, fields, find, descriptor}

module _ {R W : Type 0} ⦃fl : Float R⦄ ⦃writer : ValueWriter W⦄ where
  open writer use {write}

  -- `write_value` once the descriptor is found.
  unfoldable pub write_found : Descriptor R → ValueRegistry R → Emit W
  write_found d v = elim d.kind [
    | real ↦ elim (read_real_id d.id v) [ none ↦ succeed false | some x ↦ write_real x ]
    | boolean ↦ elim (read_bool_id d.id v) [ none ↦ succeed false | some b ↦ write_bool b ]
    | string ↦ elim (read_string_id d.id v) [ none ↦ succeed false | some s ↦ write_json_string s ]
  ]

  unfoldable pub write_value : Text → ValueRegistry R → Emit W
  write_value name v = elim (find {R = R} name) [ none ↦ succeed false | some d ↦ write_found d v ]

  -- The overload that takes a field id.
  unfoldable pub write_value_line_id : FieldId → ValueRegistry R → Emit W
  write_value_line_id id v = elim (descriptor {R = R} id) [
    | none ↦ succeed false
    | some d ↦ write d.name &&> write_char b'=' &&> write_value d.name v &&> write_char b'\n'
  ]

  unfoldable pub write_value_line : Text → ValueRegistry R → Emit W
  write_value_line name v = elim (find {R = R} name) [
    | none ↦ succeed false
    | some d ↦ write_value_line_id d.id v
  ]

module _ (R : Type 0) {W : Type 0} ⦃fl : Float R⦄ ⦃writer : ValueWriter W⦄ where
  open writer use {write}

  unfoldable pub write_info_json : FieldId → Emit W
  write_info_json id = elim (descriptor {R = R} id) [
    | none ↦ succeed false
    | some d ↦
        write (codes "{\"type\":")
        &&> write_json_string d.info.type
        &&> (if d.info.writable then write (codes ",\"writable\":true") else succeed true)
        &&> write_char b'}'
  ]

  -- The loop over the table; `first` is the loop's flag.
  unfoldable pub write_rows : Bool → List (Descriptor R) → Emit W
  write_rows first [] = succeed true
  write_rows first (d ∷ ds) =
      (if first then succeed true else write_char b',')
      &&> write_json_string d.name
      &&> write_char b':'
      &&> write_info_json d.id
      &&> write_rows false ds

  unfoldable pub write_values_json : Emit W
  write_values_json = write_char b'{' &&> write_rows true fields &&> write_char b'}'
