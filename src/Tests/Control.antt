-- ===== src/Tests/Control.antt =====
-- The servo, the rudder and an iteration of the autopilot.
use pypilot_cxx.Prelude.{◌≡◌, Bool, true, false, not, ◌&&◌, [], ◌∷◌, arith}
use pypilot_cxx.Prelude.Text.{codes, text_eq}
use pypilot_cxx.Prelude.Int.{ℤ, pos}
use pypilot_cxx.Tests.Sample.{whole_numbers}
use pypilot_cxx.DataModel.{DataModel, initial}
use pypilot_cxx.Servo.{Servo}
use pypilot_cxx.Servo as Servo
use pypilot_cxx.Rudder.{update, invalid}
use pypilot_cxx.Rudder.Readings.{IsAsymmetric, update-valid}
use pypilot_cxx.Autopilot.{Autopilot}

abbrev servo_at : Bool → Servo ℤ
servo_at ap_enabled = record {
  parser = [];
  sample = record {
    mask = 0;
    current = pos 0;
    voltage = pos 0;
    controller_temp = pos 0;
    motor_temp = pos 0;
    rudder = pos 0;
    flags = 0;
  };
  tx = 1 ∷ [];
  ap_enabled = ap_enabled;
}

abbrev model : DataModel ℤ
model = initial

lt-IsAsymmetric : IsAsymmetric whole_numbers.lt
lt-IsAsymmetric a b h = ground arith

update-valid_example :
    let (done, r') = update (pos 3) (codes "servo") 7 model.rudder in
    (done
      ≡ (text_eq (codes "servo") model.rudder.last_device && not (whole_numbers.is_nan (pos 3))))
    × (invalid r' ≡ not done)
    × (text_eq (codes "servo") r'.last_device ≡ true)
update-valid_example = update-valid (pos 3) (codes "servo") 7 model.rudder

abbrev autopilot : Autopilot ℤ
autopilot = record {
  state = record model { ap = record model.ap { enabled = true; heading_command = pos 350 } };
  servo = servo_at false;
}
