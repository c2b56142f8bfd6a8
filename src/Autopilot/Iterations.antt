-- ===== src/Autopilot/Iterations.antt =====
-- What an iteration of the autopilot sends to the motor controller.
use pypilot_cxx.Prelude.{ℕ, ◌≡◌, ap, some, List, ◌++◌, if◌then◌else◌}
use pypilot_cxx.Float.{Float, whole}
use pypilot_cxx.DataModel.{DataModel}
use pypilot_cxx.ServoProtocol.{Packet, decode}
use pypilot_cxx.Servo.{Servo, clamp_unit}
use pypilot_cxx.Servo as Servo
use pypilot_cxx.Servo.Sent.{message, command_packet}
use pypilot_cxx.Autopilot.{Autopilot, iteration}

module _ {R : Type 0} ⦃fl : Float R⦄ where
  -- The command that the pilot leaves with the servo: the error of the heading, scaled and cut to
  -- the unit range, or what was there before during a tack.
  abbrev pub next_command : R → DataModel R → R
  next_command error m =
      if m.ap.tack.state then m.servo.command else clamp_unit (fl.div error (whole 30))

  -- The one packet of an iteration: a command while the autopilot is enabled; else what the servo
  -- sends by the flag of the iteration before.
  abbrev pub packet_of : R → Autopilot R → Packet
  packet_of error a =
      if a.state.ap.enabled
      then command_packet (next_command error a.state)
      else message a.servo a.state

  -- The outcome that both cases have.
  abbrev pub Sends : ℕ → ℕ → ℕ → Autopilot R → R → Type 0
  Sends fuel imu_now rudder_now a error =
      (a' : Autopilot R) × (packet : List ℕ) × (iteration fuel imu_now rudder_now a ≡ some a')
      × (a'.servo.tx ≡ a.servo.tx ++ packet)
      × (decode packet ≡ some (packet_of error a))
      × (a'.servo.ap_enabled ≡ a.state.ap.enabled)
      × (a'.state.servo.engaged ≡ a.state.ap.enabled)
      × (a'.state.ap.enabled ≡ a.state.ap.enabled)
