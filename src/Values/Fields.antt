-- ===== src/Values/Fields.antt =====
-- The descriptor table of src/pypilot/values.cpp, the types it is made of, and its two look-ups.
use pypilot_cxx.Prelude.{
  ℕ, Bool, true, false, Option, none, some, List, [], ◌∷◌, ◌==◌, if◌then◌else◌,
}
use pypilot_cxx.Prelude.Text.{Text, codes, text_eq}
use pypilot_cxx.Float.{Float, whole}

pub data Kind : Type 0 where
  real boolean string : Kind

-- `count` of the enumeration is the number of fields and no field.
pub data FieldId : Type 0 where
  server_running server_port ap_enabled ap_mode ap_pilot ap_heading ap_heading_command : FieldId
  ap_heading_error ap_command rudder_angle rudder_offset rudder_range servo_command : FieldId
  servo_current servo_voltage servo_engaged servo_fault : FieldId

-- `static_cast<size_t>(id)`.
abbrev pub index : FieldId → ℕ
index server_running = 0
index server_port = 1
index ap_enabled = 2
index ap_mode = 3
index ap_pilot = 4
index ap_heading = 5
index ap_heading_command = 6
index ap_heading_error = 7
index ap_command = 8
index rudder_angle = 9
index rudder_offset = 10
index rudder_range = 11
index servo_command = 12
index servo_current = 13
index servo_voltage = 14
index servo_engaged = 15
index servo_fault = 16

abbrev pub field_count : ℕ
field_count = 17

-- `a == b` on field ids.
abbrev pub same_id : FieldId → FieldId → Bool
same_id a b = index a == index b

pub record Info (R : Type 0) : Type 0 where
  pub type : Text
  pub writable : Bool
  pub persistent : Bool
  pub profiled : Bool
  pub directional : Bool
  pub has_min : Bool
  pub has_max : Bool
  pub min_value : R
  pub max_value : R
  pub units : Text
  pub choices_csv : Text

pub record Descriptor (R : Type 0) : Type 0 where
  pub name : Text
  pub id : FieldId
  pub kind : Kind
  pub info : Info R

module _ {R : Type 0} ⦃fl : Float R⦄ where
  -- The first two members; the others keep the values of their initialisers.
  abbrev info_of : Text → Bool → Info R
  info_of type writable = record {
    type = type;
    writable = writable;
    persistent = false;
    profiled = false;
    directional = false;
    has_min = false;
    has_max = false;
    min_value = whole 0;
    max_value = whole 0;
    units = [];
    choices_csv = [];
  }

  abbrev boolean_value : Info R
  boolean_value = info_of (codes "BooleanValue") false

  abbrev sensor_value : Info R
  sensor_value = info_of (codes "SensorValue") false

  abbrev heading_value : Info R
  heading_value = record sensor_value { directional = true }

  abbrev saved : Text → Info R
  saved type = record (info_of type true) { persistent = true }

  abbrev heading_command_info : Info R
  heading_command_info = record (info_of (codes "RangeProperty") true) {
    directional = true;
    has_min = true;
    has_max = true;
    min_value = whole 0;
    max_value = whole 360;
    units = codes "degrees";
  }

  abbrev servo_command_info : Info R
  servo_command_info = record (info_of (codes "RangeProperty") true) {
    has_min = true;
    has_max = true;
    min_value = fl.neg (whole 1);
    max_value = whole 1;
  }

  abbrev row : Text → FieldId → Kind → Info R → Descriptor R
  row name id kind info = record { name = name; id = id; kind = kind; info = info }

  unfoldable pub fields : List (Descriptor R)
  fields =
      row (codes "server.running") server_running boolean boolean_value
      ∷ row (codes "server.port") server_port real (info_of (codes "Value") false)
      ∷ row (codes "ap.enabled") ap_enabled boolean (saved (codes "BooleanProperty"))
      ∷ row (codes "ap.mode") ap_mode string (saved (codes "EnumProperty"))
      ∷ row (codes "ap.pilot") ap_pilot string (saved (codes "EnumProperty"))
      ∷ row (codes "ap.heading") ap_heading real heading_value
      ∷ row (codes "ap.heading_command") ap_heading_command real heading_command_info
      ∷ row (codes "ap.heading_error") ap_heading_error real heading_value
      ∷ row (codes "ap.command") ap_command real sensor_value
      ∷ row (codes "rudder.angle") rudder_angle real heading_value
      ∷ row (codes "rudder.offset") rudder_offset real (saved (codes "RangeProperty"))
      ∷ row (codes "rudder.range") rudder_range real (saved (codes "RangeProperty"))
      ∷ row (codes "servo.command") servo_command real servo_command_info
      ∷ row (codes "servo.current") servo_current real sensor_value
      ∷ row (codes "servo.voltage") servo_voltage real sensor_value
      ∷ row (codes "servo.engaged") servo_engaged boolean boolean_value
      ∷ row (codes "servo.fault") servo_fault boolean boolean_value
      ∷ []

  unfoldable pub find_in : Text → List (Descriptor R) → Option (Descriptor R)
  find_in name [] = none
  find_in name (d ∷ ds) = if text_eq name d.name then some d else find_in name ds

  unfoldable pub find : Text → Option (Descriptor R)
  find name = find_in name fields

  unfoldable pub descriptor_in : FieldId → List (Descriptor R) → Option (Descriptor R)
  descriptor_in id [] = none
  descriptor_in id (d ∷ ds) = if same_id d.id id then some d else descriptor_in id ds

  unfoldable pub descriptor : FieldId → Option (Descriptor R)
  descriptor id = descriptor_in id fields
