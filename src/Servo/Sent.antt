-- ===== src/Servo/Sent.antt =====
-- The packets that the servo sends, and what it takes from the controller's.
use pypilot_cxx.Prelude.{
  ℕ, ◌^◌, ◌<◌, ◌≡◌, refl, sym, ap, ◌∙◌, not, some, List, [], ◌∷◌, ◌++◌, arith, ◌==◌, if◌then◌else◌,
}
use Prim.Native.Nat.{bit_and}
use mathlib.Core.List.{append-nil}
use pypilot_cxx.Float.{Float, whole}
use pypilot_cxx.DataModel.{DataModel}
use pypilot_cxx.ServoProtocol.{
  Packet, command_code, disengage_code, engaged_flag, decode, encode, encode_command,
  encode_disengage, feed, apply_packet,
}
use pypilot_cxx.ServoProtocol.Packets.{decode-encode}
use pypilot_cxx.ServoProtocol.Stream.{encode_all, feed-encode_all}
use pypilot_cxx.Servo.{Servo, clamp_unit, feed_driver_bytes, apply_driver_sample}

appended_nil : (bytes : List ℕ) → bytes ++ [] ≡ bytes
appended_nil bytes = append-nil bytes

pub decode-encode_disengage :
    decode encode_disengage ≡ some (record { code = disengage_code; value = 0 })
unfolding encode_disengage
decode-encode_disengage =
    ap decode (sym (appended_nil (encode disengage_code 0)))
    ∙ decode-encode disengage_code 0 [] (omega arith)

module _ {R : Type 0} ⦃fl : Float R⦄ where
  -- The packet of a command that is within the unit range already or not.
  abbrev pub command_packet : R → Packet
  command_packet x = record {
    code = command_code;
    value = fl.to_u16 (fl.mul (fl.add (clamp_unit (clamp_unit x)) (whole 1)) (whole 1000));
  }

  pub decode-encode_command :
      (x : R)
      → ((y : R) → fl.to_u16 y < 2 ^ 16)
      → decode (encode_command (clamp_unit x)) ≡ some (command_packet x)
  unfolding encode_command
  decode-encode_command x h =
      let p = command_packet x in
      ap decode (sym (appended_nil (encode p.code p.value))) ∙ decode-encode p.code p.value [] (h _)

  -- What `poll` has to say to the controller.
  abbrev pub message : Servo R → DataModel R → Packet
  message s m =
      if s.ap_enabled
      then command_packet m.servo.command
      else record { code = disengage_code; value = 0 }

  -- A packet of flags from the controller, read with an empty buffer, sets the flags and whether the
  -- servo is engaged, and leaves no byte behind.
  pub feed_driver_bytes-flags :
      (value now : ℕ) (s : Servo R) (m : DataModel R)
      → value < 2 ^ 16
      → s.parser ≡ []
      → let (mask, s', m') = feed_driver_bytes (encode 0x8f value) now s m in
        (m'.servo.flags ≡ value)
        × (m'.servo.engaged ≡ not (bit_and value engaged_flag == 0))
        × (s'.parser ≡ [])
  unfolding feed_driver_bytes apply_driver_sample apply_packet
  feed_driver_bytes-flags value now s m h empty =
      let p : Packet = record { code = 0x8f; value = value } in
      let e =
        ap (λ (bytes : List ℕ). feed s.parser bytes s.sample)
          (sym (appended_nil (encode 0x8f value)))
        ∙ ap (λ (buf : List ℕ). feed buf (encode_all (p ∷ [])) s.sample) empty
        ∙ feed-encode_all (p ∷ []) s.sample (h, tt) in
      rw e (refl, refl, refl)
