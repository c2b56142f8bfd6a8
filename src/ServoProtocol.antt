-- ===== src/ServoProtocol.antt =====
-- src/pypilot/syslib/servo_protocol.hpp: the packets between the autopilot and the motor
-- controller. A byte is a number below 256; an array or vector of bytes is a list.
pub mod Crc
pub mod Packets
pub mod Stream
use Prim.Native.Nat.{bit_and, bit_or, bit_xor}
use pypilot_cxx.Prelude.{
  ℕ, zero, suc, ◌*◌, ◌/◌, ◌%◌, ◌^◌, List, [], ◌∷◌, ◌++◌, Option, none, some, ◌==◌, if◌then◌else◌,
}
use pypilot_cxx.Float.{Float, whole, clamp}

abbrev pub command_code : ℕ
command_code = 0xc7

abbrev pub reset_code : ℕ
reset_code = 0xe7

abbrev pub disengage_code : ℕ
disengage_code = 0x68

-- `enum Telemetry`, the bits of a sample's mask that the sources use.
abbrev pub flags_bit : ℕ
flags_bit = 1

abbrev pub current_bit : ℕ
current_bit = 2

abbrev pub voltage_bit : ℕ
voltage_bit = 4

abbrev pub rudder_bit : ℕ
rudder_bit = 128

-- `ENGAGED` of `enum ServoFlags`.
abbrev pub engaged_flag : ℕ
engaged_flag = 8

pub record Packet : Type 0 where
  pub code : ℕ
  pub value : ℕ

pub record TelemetrySample (R : Type 0) : Type 0 where
  pub mask : ℕ
  pub current : R
  pub voltage : R
  pub controller_temp : R
  pub motor_temp : R
  pub rudder : R
  pub flags : ℕ

-- What `Parser::feed` returns, and the sample and the buffer that it leaves.
pub record Fed (R : Type 0) : Type 0 where
  pub mask : ℕ
  pub sample : TelemetrySample R
  pub buf : List ℕ

-- `crc=(crc&0x80)?uint8_t((crc<<1)^0x31):uint8_t(crc<<1)`, one turn of the loop.
unfoldable pub crc8_shift : ℕ → ℕ
crc8_shift crc = if bit_and crc 0x80 == 0 then crc * 2 % 2 ^ 8 else bit_xor (crc * 2) 0x31 % 2 ^ 8

unfoldable pub crc8_loop : ℕ → ℕ → ℕ
unfolding crc8_shift
crc8_loop zero crc = crc
crc8_loop (suc n) crc = crc8_loop n (crc8_shift crc)

unfoldable pub crc8_update : ℕ → ℕ → ℕ
unfolding crc8_loop
crc8_update crc byte = crc8_loop 8 (bit_xor crc byte)

-- The loop of `crc8` over the bytes, from the register's value on.
unfoldable pub crc8_from : ℕ → List ℕ → ℕ
unfolding crc8_update
crc8_from crc [] = crc
crc8_from crc (byte ∷ bytes) = crc8_from (crc8_update crc byte) bytes

unfoldable pub crc8 : List ℕ → ℕ
unfolding crc8_from
crc8 bytes = crc8_from 0xff bytes

unfoldable pub encode : ℕ → ℕ → List ℕ
encode code value =
    let lo = bit_and value 0xff in
    let hi = bit_and (value / 2 ^ 8) 0xff in code ∷ lo ∷ hi ∷ crc8 (code ∷ lo ∷ hi ∷ []) ∷ []

-- `none` is the result false. The sources call it with four bytes or more.
unfoldable pub decode : List ℕ → Option Packet
decode (b0 ∷ b1 ∷ b2 ∷ b3 ∷ rest) =
    if crc8 (b0 ∷ b1 ∷ b2 ∷ []) == b3
    then some (record { code = b0; value = bit_or b1 (b2 * 2 ^ 8) % 2 ^ 16 })
    else none
decode _ = none

unfoldable pub encode_reset : List ℕ
encode_reset = encode reset_code 0

unfoldable pub encode_disengage : List ℕ
encode_disengage = encode disengage_code 0

module _ {R : Type 0} ⦃fl : Float R⦄ where
  open fl use {add, sub, mul, div, neg, of_nat, ratio, quiet_nan, to_u16}

  -- `TelemetrySample{}`.
  unfoldable pub empty_sample : TelemetrySample R
  empty_sample = record {
    mask = 0;
    current = whole 0;
    voltage = whole 0;
    controller_temp = whole 0;
    motor_temp = whole 0;
    rudder = quiet_nan;
    flags = 0;
  }

  unfoldable pub encode_command : R → List ℕ
  encode_command command =
      encode command_code
        (to_u16 (mul (add (clamp command (neg (whole 1)) (whole 1)) (whole 1)) (whole 1000)))

  -- The mask bit that is returned, beside the new sample.
  unfoldable pub apply_packet : Packet → TelemetrySample R → ℕ × TelemetrySample R
  apply_packet p s =
      if p.code == 0xb3
      then (
        voltage_bit,
        record s { voltage = div (of_nat p.value) (whole 100); mask = bit_or s.mask voltage_bit },
      )
      else if p.code == 0x1c
      then (
        current_bit,
        record s { current = div (of_nat p.value) (whole 100); mask = bit_or s.mask current_bit },
      )
      else if p.code == 0xa7
      then (
        rudder_bit,
        record s {
          rudder = sub (div (of_nat p.value) (whole 65472)) (ratio 1 2);
          mask = bit_or s.mask rudder_bit;
        },
      )
      else if p.code == 0x8f
      then (flags_bit, record s { flags = p.value; mask = bit_or s.mask flags_bit })
      else (0, s)

  -- `if(decode(buf.data(),p))m|=apply_packet(p,s);`
  unfoldable pub apply_decoded : Option Packet → ℕ → TelemetrySample R → ℕ × TelemetrySample R
  apply_decoded none m s = (m, s)
  apply_decoded (some p) m s = let (bit, s') = apply_packet p s in (bit_or m bit, s')

  -- `while(buf.size()>=4)`: each turn takes four bytes off the front.
  unfoldable pub drain : ℕ → TelemetrySample R → List ℕ → Fed R
  drain m s (b0 ∷ b1 ∷ b2 ∷ b3 ∷ rest) =
      let (m', s') = apply_decoded (decode (b0 ∷ b1 ∷ b2 ∷ b3 ∷ rest)) m s in drain m' s' rest
  drain m s buf = record { mask = m; sample = s; buf = buf }

  -- `Parser::feed`, from the buffered bytes and the sample.
  unfoldable pub feed : List ℕ → List ℕ → TelemetrySample R → Fed R
  feed buf bytes s = drain 0 s (buf ++ bytes)
