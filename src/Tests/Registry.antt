-- ===== src/Tests/Registry.antt =====
-- The registry of values and its watches.
use pypilot_cxx.Values.Fields.{
  real, FieldId, server_running, ap_heading, ap_heading_command, rudder_angle, index, same_id,
  Descriptor, fields, find_in, find, descriptor_in, descriptor,
}
use pypilot_cxx.Prelude.{
  ℕ, zero, suc, ◌≤◌, ◌≡◌, refl, ap, inl, inr, true, false, none, some, [], ◌∷◌, ◌++◌, arith,
  if◌then◌else◌, replicate, All,
}
use pypilot_cxx.Prelude.Text.{text_eq, Text, codes}
use pypilot_cxx.Prelude.Int.{ℤ, pos}
use pypilot_cxx.Tests.Sample.{whole_numbers, registry, watch_at}
use pypilot_cxx.Values.Writer.{string_writer, write_json_string}
use pypilot_cxx.Values.Access.{ValueRegistry, set_from_wire}
use pypilot_cxx.Values.Access.Wire.{set_from_wire-ReadsBack, ReadsBack}
use pypilot_cxx.Values.Access.Frame.{set_from_wire-Agree}
use pypilot_cxx.Values.Access.Stored.{Agree}
use pypilot_cxx.Values.Lines.{write_value_line_id}
use pypilot_cxx.Values.Lines.Json.{write_json_string-read_quoted, read_quoted}
use pypilot_cxx.Values.Lines.Partial.{rudder_line_cut}
use pypilot_cxx.Values.Watches.{period_us, unwatch}
use pypilot_cxx.Values.Watches.Table.{IsTable, entries}
use pypilot_cxx.Values.Watches.Removed.{in_use, of_others, unwatch-entries}
use pypilot_cxx.Values.Due.{emit_due_watches}
use pypilot_cxx.Values.Lines.Steady.{write_lines}
use pypilot_cxx.Values.Due.Schedule.{due_ids, Bounded, Rescheduled, emit_due_watches-Rescheduled}
use mathlib.Core.List.{Forall₂}

abbrev command_row : Descriptor ℤ
command_row = record {
  name = codes "ap.heading_command";
  id = ap_heading_command;
  kind = real;
  info = record {
    type = codes "RangeProperty";
    writable = true;
    persistent = false;
    profiled = false;
    directional = true;
    has_min = true;
    has_max = true;
    min_value = pos 0;
    max_value = pos 360;
    units = codes "degrees";
    choices_csv = [];
  };
}

found_command : find (codes "ap.heading_command") ≡ some command_row
unfolding find find_in fields text_eq codes
found_command = refl

abbrev heading_row : Descriptor ℤ
heading_row = record {
  name = codes "ap.heading";
  id = ap_heading;
  kind = real;
  info = record {
    type = codes "SensorValue";
    writable = false;
    persistent = false;
    profiled = false;
    directional = true;
    has_min = false;
    has_max = false;
    min_value = pos 0;
    max_value = pos 0;
    units = [];
    choices_csv = [];
  };
}

found_heading : find (codes "ap.heading") ≡ some heading_row
unfolding find find_in fields text_eq codes
found_heading = refl

described_heading : descriptor ap_heading ≡ some heading_row
unfolding descriptor descriptor_in fields
described_heading = refl

set_from_wire-ReadsBack_example :
    ReadsBack command_row
      (codes "123")
      (set_from_wire (codes "ap.heading_command") (codes "123") true registry)
set_from_wire-ReadsBack_example =
    set_from_wire-ReadsBack (codes "ap.heading_command") (codes "123") registry command_row refl
      found_command refl

unknown : find {R = ℤ} (codes "no.such.value") ≡ none
unfolding find find_in fields text_eq codes
unknown = refl

set_from_wire-Agree_example :
    let v' = (set_from_wire (codes "ap.heading_command") (codes "123") true registry).1 in
    Agree ap_heading registry.state v'.state
    × (v'.attached ≡ true)
    × (v'.watches ≡ registry.watches)
set_from_wire-Agree_example =
    set_from_wire-Agree (codes "ap.heading_command") (codes "123") true registry command_row
      ap_heading found_command λ e. absurd (omega (arith, ap index e))

write_json_string-read_quoted_example :
    (text : Text) × (write_json_string (codes "a\"b") [] ≡ (true, [] ++ b'"' ∷ text))
    × (read_quoted (text ++ codes ",") ≡ some (codes "a\"b", codes ","))
write_json_string-read_quoted_example = write_json_string-read_quoted (codes "a\"b") [] (codes ",")

rudder_line_cut_example :
    write_value_line_id rudder_angle registry (codes "x\n")
    ≡ (false, codes "x\n" ++ codes "rudder.angle=")
rudder_line_cut_example = rudder_line_cut registry (codes "x\n") refl

registry-IsTable : IsTable registry.watches
registry-IsTable = record { single = λ id. one id; sized = refl }
  where
    one : (id : FieldId) → entries id registry.watches ≤ 1
    one ap_heading = omega arith
    one _ = omega arith

unwatch-entries_example :
    let v' = (unwatch (codes "ap.heading") registry).1 in
    ((unwatch (codes "ap.heading") registry).0 ≡ true)
    × ((j : FieldId)
        → entries j v'.watches ≡ (if same_id ap_heading j then 0 else entries j registry.watches))
    × (in_use v'.watches ≡ of_others ap_heading (in_use registry.watches))
    × IsTable v'.watches
unwatch-entries_example =
    unwatch-entries (codes "ap.heading") registry heading_row found_heading registry-IsTable

registry-Bounded : All (Bounded 5000000) registry.watches
unfolding period_us
registry-Bounded = (inr (omega arith), idle 63)
  where
    idle : (n : ℕ) → All (Bounded 5000000) (replicate n (watch_at false server_running 0 0))
    idle zero = tt
    idle (suc n) = (inl refl, idle n)

emit_due_watches-Rescheduled_example :
    (v' : ValueRegistry ℤ) × (emit_due_watches 5000001 5000000 registry (codes "")
      ≡ some (v', write_lines registry (due_ids 5000000 registry.watches) (codes "")))
    × Forall₂ (Rescheduled 5000000) registry.watches v'.watches
    × ((out₂ : Text)
        → emit_due_watches 5000001 5000000 v' out₂
          ≡ some (v', write_lines v' (due_ids 5000000 v'.watches) out₂))
emit_due_watches-Rescheduled_example =
    emit_due_watches-Rescheduled 5000000 registry (codes "") registry-Bounded
