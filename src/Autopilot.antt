-- ===== src/Autopilot.antt =====
-- src/pypilot/autopilot.cpp: one iteration of the autopilot, with what it calls of
-- src/pypilot/sensors.cpp, boatimu.cpp, tacking.cpp, resolv.hpp and pilots/. Methods that do nothing
-- (`Sensors::poll`, `Tacking::poll`, `Nmea::poll`, ...) leave no trace here.
pub mod Iterations
use pypilot_cxx.Prelude.{
  ℕ, zero, suc, ◌-◌, ap, Bool, true, Option, none, some, ltb, leb, if◌then◌else◌,
}
use pypilot_cxx.Float.{Float, whole}
use pypilot_cxx.DataModel.{DataModel, SensorSource, source_priority}
use pypilot_cxx.Servo as Servo
use pypilot_cxx.Servo.{Servo, clamp_unit}
use pypilot_cxx.Rudder as Rudder

pub record Autopilot (R : Type 0) : Type 0 where
  pub state : DataModel R
  pub servo : Servo R

-- `Sensors::accept_source`.
unfoldable pub accept_source : SensorSource → SensorSource → Bool
accept_source current incoming = leb (source_priority incoming) (source_priority current)

module _ {R : Type 0} ⦃fl : Float R⦄ where
  open fl use {add, sub, div, neg, lt, le, fmod}

  -- The two loops of `resolv`, with fuel for their turns; none means that it ran out.
  unfoldable pub raise : ℕ → R → Option R
  raise zero angle = none
  raise (suc fuel) angle =
      let rest = raise fuel (add angle (whole 360)) in
      if lt angle (neg (whole 180)) then rest else some angle

  unfoldable pub lower : ℕ → R → Option R
  lower zero angle = none
  lower (suc fuel) angle =
      let rest = lower fuel (sub angle (whole 360)) in
      if le (whole 180) angle then rest else some angle

  unfoldable pub resolv : ℕ → R → Option R
  resolv fuel angle = elim (raise fuel angle) [ none ↦ none | some raised ↦ lower fuel raised ]

  unfoldable pub heading_error : ℕ → R → R → Option R
  heading_error fuel command_deg heading_deg = resolv fuel (sub command_deg heading_deg)

  unfoldable pub compass_normalize : R → R
  compass_normalize angle =
      let a = fmod angle (whole 360) in if lt a (whole 0) then add a (whole 360) else a

  -- `BoatIMU::read`, which always succeeds, so that `iteration` tries it once.
  unfoldable pub read_imu : ℕ → DataModel R → DataModel R
  read_imu now_us m = record m {
    imu = record m.imu { valid = true; timestamp_us = now_us };
    ap = record m.ap { heading = m.imu.heading };
  }

  -- `Pilot::process`, which `SimplePilot` calls.
  unfoldable pub process : DataModel R → DataModel R
  process m = record m { servo = record m.servo { command = m.ap.command } }

  unfoldable pub basic_process : DataModel R → DataModel R
  basic_process m =
      let command = clamp_unit (div m.ap.heading_error (whole 30)) in
      record m {
        ap = record m.ap { command = command };
        servo = record m.servo { command = command };
      }

  -- `GpsPilot::compute_heading` and `WindPilot::compute_heading`.
  unfoldable pub gps_heading : DataModel R → DataModel R
  gps_heading m =
      if m.navigation.apb.track_deg.valid
      then record m { ap = record m.ap { heading_command = m.navigation.apb.track_deg.value } }
      else m

  unfoldable pub wind_heading : DataModel R → DataModel R
  wind_heading m =
      if m.wind.apparent_direction.valid
      then record m { ap = record m.ap { heading_command = m.wind.apparent_direction.value } }
      else m

  -- The constructor: the servo's sends a command, the rudder's sets the limits.
  unfoldable pub start : DataModel R → Autopilot R
  start m =
      let (s, m') = Servo.start m in
      record { state = record m' { rudder = Rudder.update_minmax m'.rudder }; servo = s }

  unfoldable pub poll_servo : Autopilot R → Autopilot R
  poll_servo a = let (s, m) = Servo.poll a.servo a.state in record { state = m; servo = s }

  -- `if (!state_.ap.enabled) servo_.poll();` and the reading of the IMU.
  unfoldable pub before_pilot : ℕ → Autopilot R → Autopilot R
  before_pilot imu_now a =
      let a' = if a.state.ap.enabled then a else poll_servo a in
      record a' { state = read_imu imu_now a'.state }

  -- `compute_heading_error` once the error is there, and the pilot, which is always the basic one.
  unfoldable pub steer : R → Autopilot R → Autopilot R
  steer error a =
      let m = record a.state { ap = record a.state.ap { heading_error = error } } in
      record a { state = if m.ap.tack.state then m else basic_process m }

  -- From `set_autopilot_enabled` to `rudder_.poll`.
  unfoldable pub after_pilot : ℕ → Autopilot R → Autopilot R
  after_pilot rudder_now a =
      let (s, m) = Servo.set_autopilot_enabled a.state.ap.enabled a.servo a.state in
      let a' : Autopilot R = record { state = m; servo = s } in
      let a'' = if a'.state.ap.enabled then poll_servo a' else a' in
      record a'' { state = record a''.state { rudder = Rudder.poll rudder_now a''.state.rudder } }

  -- `iteration` without its waiting. `imu_now` and `rudder_now` are what the clock says when the IMU
  -- and the rudder read it.
  unfoldable pub iteration : ℕ → ℕ → ℕ → Autopilot R → Option (Autopilot R)
  iteration fuel imu_now rudder_now a =
      let a' = before_pilot imu_now a in
      elim (heading_error fuel a'.state.ap.heading_command a'.state.ap.heading) [
        | none ↦ none
        | some error ↦ some (after_pilot rudder_now (steer error a'))
      ]

-- `sleep_remainder`: for how long it sleeps.
unfoldable pub sleep_remainder : ℕ → ℕ → ℕ → ℕ
sleep_remainder start_us period_us now =
    let elapsed = if ltb start_us now then now - start_us else 0 in
    if ltb elapsed period_us then period_us - elapsed else 0
