-- ===== src/Values/Access.antt =====
-- `ValueRegistry` of src/pypilot/pypilot.hpp: its state, and the reads and writes of values.cpp that
-- go through a name or a field id to the data model.
pub mod Held
pub mod Wire
pub mod Frame
pub mod Stored
use pypilot_cxx.Prelude.{
  ℕ, ap, Bool, true, false, not, ◌&&◌, ◌||◌, Option, none, some, List, [], ◌∷◌, ltb, leb, ◌==◌,
  if◌then◌else◌, length, set, take, replicate,
}
use pypilot_cxx.Prelude.Text.{Text, codes, text_eq, starts_with, ends_with, tail, init}
use pypilot_cxx.Float.{Float, whole}
use pypilot_cxx.DataModel.{DataModel}
use pypilot_cxx.Values.Fields.{
  real, boolean, string, FieldId, server_running, server_port, ap_enabled, ap_mode, ap_pilot,
  ap_heading, ap_heading_command, ap_heading_error, ap_command, rudder_angle, rudder_offset,
  rudder_range, servo_command, servo_current, servo_voltage, servo_engaged, servo_fault, index,
  field_count, Descriptor, find,
}

pub record Watch (R : Type 0) : Type 0 where
  pub active : Bool
  pub id : FieldId
  pub period_seconds : R
  pub next_due_us : ℕ

abbrev pub max_watches : ℕ
max_watches = 64

-- `state_` is a pointer: `attached` tells whether it is set, and `state` is what it points to then.
-- The control objects write the same object between the registry's calls.
pub record ValueRegistry (R : Type 0) : Type 0 where
  pub attached : Bool
  pub state : DataModel R
  pub watches : List (Watch R)
  pub dirty : List Bool

-- A registry as it is made; `state` is what its pointer is set to later.
unfoldable pub new_registry : {R : Type 0} ⦃fl : Float R⦄ → DataModel R → ValueRegistry R
new_registry state = record {
  attached = false;
  state = state;
  watches =
      replicate max_watches
        (record { active = false; id = server_running; period_seconds = whole 0; next_due_us = 0 });
  dirty = replicate field_count false;
}

-- `attach(state)`.
unfoldable pub attach : {R : Type 0} → DataModel R → ValueRegistry R → ValueRegistry R
attach state v = record v { attached = true; state = state }

unfoldable pub mark_dirty : {R : Type 0} → FieldId → ValueRegistry R → ValueRegistry R
mark_dirty id v =
    if ltb (index id) field_count then record v { dirty = set v.dirty (index id) true } else v

module _ {R : Type 0} ⦃fl : Float R⦄ where
  -- The switch of `set_real(FieldId, ...)`; none is its default.
  unfoldable pub put_real : FieldId → R → DataModel R → Option (DataModel R)
  put_real server_port x s = some (record s { server = record s.server { port = fl.to_u16 x } })
  put_real ap_heading x s = some (record s { ap = record s.ap { heading = x } })
  put_real ap_heading_command x s = some (record s { ap = record s.ap { heading_command = x } })
  put_real ap_heading_error x s = some (record s { ap = record s.ap { heading_error = x } })
  put_real ap_command x s = some (record s { ap = record s.ap { command = x } })
  put_real rudder_angle x s = some (record s {
    rudder = record s.rudder { angle = record s.rudder.angle { value = x; valid = true } };
  })
  put_real rudder_offset x s = some (record s { rudder = record s.rudder { offset = x } })
  put_real rudder_range x s = some (record s { rudder = record s.rudder { range = x } })
  put_real servo_command x s = some (record s { servo = record s.servo { command = x } })
  put_real servo_current x s = some (record s { servo = record s.servo { current = x } })
  put_real servo_voltage x s = some (record s { servo = record s.servo { voltage = x } })
  put_real _ x s = none

  unfoldable pub put_bool : FieldId → Bool → DataModel R → Option (DataModel R)
  put_bool server_running b s = some (record s { server = record s.server { running = b } })
  put_bool ap_enabled b s = some (record s { ap = record s.ap { enabled = b } })
  put_bool servo_engaged b s = some (record s { servo = record s.servo { engaged = b } })
  put_bool servo_fault b s = some (record s { servo = record s.servo { fault = b } })
  put_bool _ b s = none

  unfoldable pub put_string : FieldId → Text → DataModel R → Option (DataModel R)
  put_string ap_mode t s = some (record s { ap = record s.ap { mode = t } })
  put_string ap_pilot t s = some (record s { ap = record s.ap { pilot = t } })
  put_string _ t s = none

  -- The switch of `read_real(FieldId, ...)`; none is the result false.
  unfoldable pub get_real : FieldId → DataModel R → Option R
  get_real server_port s = some (fl.of_nat s.server.port)
  get_real ap_heading s = some s.ap.heading
  get_real ap_heading_command s = some s.ap.heading_command
  get_real ap_heading_error s = some s.ap.heading_error
  get_real ap_command s = some s.ap.command
  get_real rudder_angle s = if s.rudder.angle.valid then some s.rudder.angle.value else none
  get_real rudder_offset s = some s.rudder.offset
  get_real rudder_range s = some s.rudder.range
  get_real servo_command s = some s.servo.command
  get_real servo_current s = some s.servo.current
  get_real servo_voltage s = some s.servo.voltage
  get_real _ s = none

  unfoldable pub get_bool : FieldId → DataModel R → Option Bool
  get_bool server_running s = some s.server.running
  get_bool ap_enabled s = some s.ap.enabled
  get_bool servo_engaged s = some s.servo.engaged
  get_bool servo_fault s = some s.servo.fault
  get_bool _ s = none

  unfoldable pub get_string : FieldId → DataModel R → Option Text
  get_string ap_mode s = some s.ap.mode
  get_string ap_pilot s = some s.ap.pilot
  get_string _ s = none

  -- What the three setters do around their switch: nothing without a state, and a mark on success.
  unfoldable pub store : FieldId → Option (DataModel R) → ValueRegistry R → Bool × ValueRegistry R
  store id none v = (false, v)
  store id (some s) v =
      if v.attached then (true, mark_dirty id (record v { state = s })) else (false, v)

  unfoldable pub set_real_id : FieldId → R → ValueRegistry R → Bool × ValueRegistry R
  set_real_id id x v = store id (put_real id x v.state) v

  unfoldable pub set_bool_id : FieldId → Bool → ValueRegistry R → Bool × ValueRegistry R
  set_bool_id id b v = store id (put_bool id b v.state) v

  unfoldable pub set_string_id : FieldId → Text → ValueRegistry R → Bool × ValueRegistry R
  set_string_id id t v = store id (put_string id t v.state) v

  unfoldable pub read_real_id : FieldId → ValueRegistry R → Option R
  read_real_id id v = if v.attached then get_real id v.state else none

  unfoldable pub read_bool_id : FieldId → ValueRegistry R → Option Bool
  read_bool_id id v = if v.attached then get_bool id v.state else none

  unfoldable pub read_string_id : FieldId → ValueRegistry R → Option Text
  read_string_id id v = if v.attached then get_string id v.state else none

  -- The overloads that take a name. Their last parameter, `external_write`, is not used.
  abbrev with_field :
      Text
      → (FieldId → ValueRegistry R → Bool × ValueRegistry R)
      → ValueRegistry R
      → Bool × ValueRegistry R
  with_field name act v = elim (find {R = R} name) [ none ↦ (false, v) | some d ↦ act d.id v ]

  unfoldable pub set_real : Text → R → ValueRegistry R → Bool × ValueRegistry R
  set_real name x = with_field name λ id. set_real_id id x

  unfoldable pub set_bool : Text → Bool → ValueRegistry R → Bool × ValueRegistry R
  set_bool name b = with_field name λ id. set_bool_id id b

  unfoldable pub set_string : Text → Text → ValueRegistry R → Bool × ValueRegistry R
  set_string name t = with_field name λ id. set_string_id id t

  unfoldable pub read_real : Text → ValueRegistry R → Option R
  read_real name v = elim (find {R = R} name) [ none ↦ none | some d ↦ read_real_id d.id v ]

  unfoldable pub read_bool : Text → ValueRegistry R → Option Bool
  read_bool name v = elim (find {R = R} name) [ none ↦ none | some d ↦ read_bool_id d.id v ]

  unfoldable pub read_string : Text → ValueRegistry R → Option Text
  read_string name v = elim (find {R = R} name) [ none ↦ none | some d ↦ read_string_id d.id v ]

-- `parse_real`: the first 31 bytes go to `strtof`, which stops at a NUL.
unfoldable pub until_nul : Text → Text
until_nul [] = []
until_nul (c ∷ s) = if c == 0 then [] else c ∷ until_nul s

unfoldable pub parse_real : {R : Type 0} ⦃fl : Float R⦄ → Text → Option R
parse_real ⦃fl⦄ s = fl.strtof (until_nul (take 31 s))

unfoldable pub parse_bool : Text → Option Bool
parse_bool s =
    if text_eq s (codes "true") || text_eq s (codes "True") || text_eq s (codes "1")
    then some true
    else if text_eq s (codes "false") || text_eq s (codes "False") || text_eq s (codes "0")
    then some false
    else none

unfoldable pub strip_quotes : Text → Text
strip_quotes s =
    if leb 2 (length s) && starts_with b'"' s && ends_with b'"' s then init (tail s) else s

module _ {R : Type 0} ⦃fl : Float R⦄ where
  -- `set_from_wire` once the descriptor is found and may be written.
  unfoldable pub set_parsed : Descriptor R → Text → ValueRegistry R → Bool × ValueRegistry R
  set_parsed d wire_value v = elim d.kind [
    | real ↦ elim (parse_real wire_value) [ none ↦ (false, v) | some x ↦ set_real_id d.id x v ]
    | boolean ↦ elim (parse_bool wire_value) [ none ↦ (false, v) | some b ↦ set_bool_id d.id b v ]
    | string ↦ set_string_id d.id (strip_quotes wire_value) v
  ]

  unfoldable pub set_from_wire : Text → Text → Bool → ValueRegistry R → Bool × ValueRegistry R
  set_from_wire name wire_value external_write v = elim (find {R = R} name) [
    | none ↦ (false, v)
    | some d ↦
        if external_write && not d.info.writable then (false, v) else set_parsed d wire_value v
  ]
