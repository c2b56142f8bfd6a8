-- ===== src/Servo.antt =====
-- src/pypilot/servo.cpp: `Servo`, which turns commands into packets for the motor controller and the
-- controller's packets into the shared state. Each method takes the object and the state it refers
-- to and returns both; the event loop's clock is the argument `now_us`.
pub mod Sent
use pypilot_cxx.Prelude.{ℕ, Bool, true, false, not, List, [], ◌++◌, ◌==◌, if◌then◌else◌}
use Prim.Native.Nat.{bit_and}
use pypilot_cxx.Prelude.Text.{codes}
use pypilot_cxx.Float.{Float, whole, clamp}
use pypilot_cxx.DataModel.{DataModel}
use pypilot_cxx.ServoProtocol.{
  TelemetrySample, flags_bit, current_bit, voltage_bit, rudder_bit, engaged_flag, encode_command,
  encode_reset, encode_disengage, empty_sample, feed,
}

-- The members that the code uses: the parser's buffer, the sample, the bytes to send and the flag.
pub record Servo (R : Type 0) : Type 0 where
  pub parser : List ℕ
  pub sample : TelemetrySample R
  pub tx : List ℕ
  pub ap_enabled : Bool

module _ {R : Type 0} where
  unfoldable pub queue_packet : List ℕ → Servo R → Servo R
  queue_packet packet s = record s { tx = s.tx ++ packet }

  unfoldable pub take_driver_tx : Servo R → List ℕ × Servo R
  take_driver_tx s = (s.tx, record s { tx = [] })

module _ {R : Type 0} ⦃fl : Float R⦄ where
  -- `std::clamp(value, Real{-1}, Real{1})`.
  abbrev pub clamp_unit : R → R
  clamp_unit value = clamp value (fl.neg (whole 1)) (whole 1)

  unfoldable pub command : R → DataModel R → DataModel R
  command value m = record m { servo = record m.servo { command = clamp_unit value } }

  unfoldable pub raw_command : R → Servo R → DataModel R → Servo R × DataModel R
  raw_command value s m =
      let clamped = clamp_unit value in
      (
        queue_packet (encode_command clamped) s,
        record m { servo = record m.servo { raw_command = clamped } },
      )

  unfoldable pub stop : Servo R → DataModel R → Servo R × DataModel R
  stop s m =
      let (s', m') = raw_command (whole 0) s m in
      (s', record m' { servo = record m'.servo { state = codes "stop" } })

  -- The constructor.
  unfoldable pub start : DataModel R → Servo R × DataModel R
  start m =
      raw_command (whole 0)
        (record { parser = []; sample = empty_sample; tx = []; ap_enabled = false }) m

  unfoldable pub reset : Servo R → Servo R
  reset s = queue_packet encode_reset s

  unfoldable pub disengage : Servo R → DataModel R → Servo R × DataModel R
  disengage s m =
      (queue_packet encode_disengage s, record m { servo = record m.servo { engaged = false } })

  unfoldable pub set_autopilot_enabled : Bool → Servo R → DataModel R → Servo R × DataModel R
  set_autopilot_enabled enabled s m =
      (record s { ap_enabled = enabled }, record m { servo = record m.servo { engaged = enabled } })

  -- The four tests of `apply_driver_sample`, in their order.
  abbrev apply_voltage : ℕ → TelemetrySample R → DataModel R → DataModel R
  apply_voltage mask sample m =
      if bit_and mask voltage_bit == 0
      then m
      else record m { servo = record m.servo { voltage = sample.voltage } }

  abbrev apply_current : ℕ → TelemetrySample R → DataModel R → DataModel R
  apply_current mask sample m =
      if bit_and mask current_bit == 0
      then m
      else record m { servo = record m.servo { current = sample.current } }

  abbrev apply_raw : ℕ → ℕ → TelemetrySample R → DataModel R → DataModel R
  apply_raw mask now_us sample m = if bit_and mask rudder_bit == 0 then m else record m {
    rudder = record m.rudder {
      raw = sample.rudder;
      raw_valid = true;
      raw_timestamp_us = now_us;
      last_device = codes "servo";
    };
  }

  abbrev apply_flags : ℕ → TelemetrySample R → DataModel R → DataModel R
  apply_flags mask sample m = if bit_and mask flags_bit == 0 then m else record m {
    servo = record m.servo {
      flags = sample.flags;
      engaged = not (bit_and sample.flags engaged_flag == 0);
    };
  }

  unfoldable pub apply_driver_sample : ℕ → ℕ → TelemetrySample R → DataModel R → DataModel R
  apply_driver_sample mask now_us sample m =
      apply_flags mask sample
        (apply_raw mask now_us sample (apply_current mask sample (apply_voltage mask sample m)))

  -- The mask that is returned, the object and the state.
  unfoldable pub feed_driver_bytes : List ℕ → ℕ → Servo R → DataModel R → ℕ × Servo R × DataModel R
  feed_driver_bytes bytes now_us s m =
      let fed = feed s.parser bytes s.sample in
      let m' = if fed.mask == 0 then m else apply_driver_sample fed.mask now_us fed.sample m in
      (fed.mask, record s { parser = fed.buf; sample = fed.sample }, m')

  unfoldable pub poll : Servo R → DataModel R → Servo R × DataModel R
  poll s m = if s.ap_enabled then raw_command m.servo.command s m else disengage s m
