-- ===== src/DataModel.antt =====
-- src/pypilot/syslib/data_model.hpp: the one state of the program, shared by the control objects and
-- the protocol's registry of values. `R` is `Real`.
use pypilot_cxx.Prelude.{ℕ, Bool, true, false}
use pypilot_cxx.Prelude.Text.{Text, codes}
use pypilot_cxx.Prelude.Int.{ℤ, pos}
use pypilot_cxx.Float.{Float, whole}

pub data SensorSource : Type 0 where
  none gpsd servo serial tcp signalk water_wind gps_wind : SensorSource

pub source_priority : SensorSource → ℕ
source_priority gpsd = 1
source_priority servo = 1
source_priority serial = 2
source_priority tcp = 3
source_priority signalk = 4
source_priority water_wind = 5
source_priority gps_wind = 6
source_priority none = 7

pub source_name : SensorSource → Text
source_name gpsd = codes "gpsd"
source_name servo = codes "servo"
source_name serial = codes "serial"
source_name tcp = codes "tcp"
source_name signalk = codes "signalk"
source_name water_wind = codes "water+wind"
source_name gps_wind = codes "gps+wind"
source_name none = codes "none"

pub record SourceStamped (R : Type 0) : Type 0 where
  pub value : R
  pub timestamp_us : ℕ
  pub source : SensorSource
  pub valid : Bool

pub record Server : Type 0 where
  pub running : Bool
  pub port : ℕ

pub record Status : Type 0 where
  pub enabled : Bool
  pub imu_ready : Bool
  pub mode : Text
  pub pilot : Text

pub record Tack (R : Type 0) : Type 0 where
  pub state : Bool
  pub direction : ℤ
  pub timeout : R

pub record Ap (R : Type 0) : Type 0 where
  pub enabled : Bool
  pub heading : R
  pub heading_command : R
  pub heading_error : R
  pub command : R
  pub mode : Text
  pub pilot : Text
  pub tack : Tack R

pub record Imu (R : Type 0) : Type 0 where
  pub heading : R
  pub pitch : R
  pub roll : R
  pub heading_rate : R
  pub valid : Bool
  pub timestamp_us : ℕ

pub record Gps (R : Type 0) : Type 0 where
  pub speed : SourceStamped R
  pub track : SourceStamped R
  pub latitude : SourceStamped R
  pub longitude : SourceStamped R

pub record Wind (R : Type 0) : Type 0 where
  pub apparent_direction : SourceStamped R
  pub apparent_speed : SourceStamped R
  pub true_direction : SourceStamped R
  pub true_speed : SourceStamped R

pub record Water (R : Type 0) : Type 0 where
  pub speed : SourceStamped R
  pub leeway : SourceStamped R

pub record Rudder (R : Type 0) : Type 0 where
  pub angle : SourceStamped R
  pub speed : SourceStamped R
  pub offset : R
  pub scale : R
  pub nonlinearity : R
  pub range : R
  pub raw : R
  pub raw_valid : Bool
  pub raw_timestamp_us : ℕ
  pub last_angle_time_us : ℕ
  pub last_angle : R
  pub min_raw : R
  pub max_raw : R
  pub calibration_state : Text
  pub last_device : Text

pub record Apb (R : Type 0) : Type 0 where
  pub xte_nmi : SourceStamped R
  pub track_deg : SourceStamped R
  pub sender_id : Text
  pub mode_hint : Bool

pub record Navigation (R : Type 0) : Type 0 where
  pub apb : Apb R

pub record Servo (R : Type 0) : Type 0 where
  pub position_command : R
  pub command : R
  pub duty : R
  pub faults : ℕ
  pub voltage : R
  pub current : R
  pub current_noise : R
  pub controller_temp : R
  pub motor_temp : R
  pub max_current : R
  pub current_factor : R
  pub current_offset : R
  pub voltage_factor : R
  pub voltage_offset : R
  pub max_controller_temp : R
  pub max_motor_temp : R
  pub max_slew_speed : R
  pub max_slew_slow : R
  pub speed_gain : R
  pub gain : R
  pub clutch_pwm : R
  pub use_brake : Bool
  pub brake_on : Bool
  pub period : R
  pub compensate_current : Bool
  pub compensate_voltage : Bool
  pub amp_hours : R
  pub watts : R
  pub speed : R
  pub speed_min : R
  pub speed_max : R
  pub position : R
  pub position_p : R
  pub position_i : R
  pub position_d : R
  pub raw_command : R
  pub use_eeprom : Bool
  pub state : Text
  pub controller : Text
  pub flags : ℕ
  pub engaged : Bool
  pub fault : Bool
  pub last_current_time_us : ℕ

pub record DataModel (R : Type 0) : Type 0 where
  pub server : Server
  pub status : Status
  pub ap : Ap R
  pub imu : Imu R
  pub gps : Gps R
  pub wind : Wind R
  pub water : Water R
  pub rudder : Rudder R
  pub navigation : Navigation R
  pub servo : Servo R

module _ {R : Type 0} ⦃fl : Float R⦄ where
  open fl use {ratio, neg}

  abbrev pub unset : SourceStamped R
  unset = record { value = whole 0; timestamp_us = 0; source = none; valid = false }

  abbrev initial_ap : Ap R
  initial_ap = record {
    enabled = false;
    heading = whole 0;
    heading_command = whole 0;
    heading_error = whole 0;
    command = whole 0;
    mode = codes "compass";
    pilot = codes "basic";
    tack = record { state = false; direction = pos 0; timeout = whole 0 };
  }

  abbrev initial_rudder : Rudder R
  initial_rudder = record {
    angle = unset;
    speed = unset;
    offset = whole 0;
    scale = whole 100;
    nonlinearity = whole 0;
    range = whole 45;
    raw = whole 0;
    raw_valid = false;
    raw_timestamp_us = 0;
    last_angle_time_us = 0;
    last_angle = whole 0;
    min_raw = neg (ratio 45 100);
    max_raw = ratio 45 100;
    calibration_state = codes "idle";
    last_device = codes "";
  }

  abbrev initial_servo : Servo R
  initial_servo = record {
    position_command = whole 0;
    command = whole 0;
    duty = whole 0;
    faults = 0;
    voltage = whole 0;
    current = whole 0;
    current_noise = whole 0;
    controller_temp = whole 0;
    motor_temp = whole 0;
    max_current = ratio 45 10;
    current_factor = whole 1;
    current_offset = whole 0;
    voltage_factor = whole 1;
    voltage_offset = whole 0;
    max_controller_temp = whole 60;
    max_motor_temp = whole 60;
    max_slew_speed = whole 28;
    max_slew_slow = whole 34;
    speed_gain = whole 0;
    gain = whole 1;
    clutch_pwm = whole 100;
    use_brake = true;
    brake_on = false;
    period = ratio 4 10;
    compensate_current = false;
    compensate_voltage = false;
    amp_hours = whole 0;
    watts = whole 0;
    speed = whole 0;
    speed_min = whole 100;
    speed_max = whole 100;
    position = whole 0;
    position_p = ratio 1 10;
    position_i = whole 0;
    position_d = ratio 1 100;
    raw_command = whole 0;
    use_eeprom = true;
    state = codes "none";
    controller = codes "none";
    flags = 0;
    engaged = false;
    fault = false;
    last_current_time_us = 0;
  }

  -- `DataModel{}`: what the member initialisers say.
  abbrev pub initial : DataModel R
  initial = record {
    server = record { running = false; port = 23322 };
    status = record {
      enabled = false;
      imu_ready = false;
      mode = codes "compass";
      pilot = codes "basic";
    };
    ap = initial_ap;
    imu = record {
      heading = whole 0;
      pitch = whole 0;
      roll = whole 0;
      heading_rate = whole 0;
      valid = false;
      timestamp_us = 0;
    };
    gps = record { speed = unset; track = unset; latitude = unset; longitude = unset };
    wind = record {
      apparent_direction = unset;
      apparent_speed = unset;
      true_direction = unset;
      true_speed = unset;
    };
    water = record { speed = unset; leeway = unset };
    rudder = initial_rudder;
    navigation = record {
      apb = record { xte_nmi = unset; track_deg = unset; sender_id = codes ""; mode_hint = false };
    };
    servo = initial_servo;
  }
