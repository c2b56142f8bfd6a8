-- ===== src/ServoProtocol/Packets.antt =====
-- `encode` and `decode` of servo_protocol.hpp: what goes out comes back, and a damaged byte does not.
use Prim.Native.Nat.{bit_and, bit_or}
use pypilot_cxx.Prelude.{
  ℕ, zero, suc, ◌*◌, ◌/◌, ◌%◌, ◌^◌, ◌<◌, ◌≡◌, sym, ap, ◌∙◌, ◌≢◌, List, [], ◌∷◌, ◌++◌, All, none,
  some, set, get_elem?, ==_refl, arith,
}
use pypilot_cxx.Prelude.Bits.{or_fields, and_mask}
use pypilot_cxx.ServoProtocol.{Packet, encode, decode, crc8}
use pypilot_cxx.ServoProtocol.Crc.{IsByte, crc8_from-IsByte, crc8_differs}

-- A 16-bit value from its two bytes.
rejoin :
    (v : ℕ) → v < 2 ^ 16 → bit_or (bit_and v 0xff) (bit_and (v / 2 ^ 8) 0xff * 2 ^ 8) % 2 ^ 16 ≡ v
rejoin v h =
    rw (and_mask 8 v, and_mask 8 (v / 2 ^ 8), or_fields 8 (v / 256 % 256) (v % 256) (omega arith))
      (omega arith)

-- Every code and 16-bit value come back from the four bytes of their packet, whatever bytes follow.
pub decode-encode :
    (code value : ℕ) (rest : List ℕ)
    → value < 2 ^ 16
    → decode (encode code value ++ rest) ≡ some (record { code = code; value = value })
unfolding decode encode
decode-encode code value rest h =
    rw (
      ==_refl (crc8 (code ∷ bit_and value 0xff ∷ bit_and (value / 2 ^ 8) 0xff ∷ [])),
      rejoin value h,
    )

crc8-IsByte : (bs : List ℕ) → All IsByte bs → IsByte (crc8 bs)
unfolding crc8
crc8-IsByte bs h = crc8_from-IsByte 255 bs (omega arith) h

decode-accepted :
    (b0 b1 b2 b3 : ℕ) (rest : List ℕ) {p : Packet}
    → decode (b0 ∷ b1 ∷ b2 ∷ b3 ∷ rest) ≡ some p
    → crc8 (b0 ∷ b1 ∷ b2 ∷ []) ≡ b3
unfolding decode
decode-accepted b0 b1 b2 b3 rest h = ground arith

decode-refused :
    (b0 b1 b2 b3 : ℕ) (rest : List ℕ)
    → crc8 (b0 ∷ b1 ∷ b2 ∷ []) ≢ b3
    → decode (b0 ∷ b1 ∷ b2 ∷ b3 ∷ rest) ≡ none
unfolding decode
decode-refused b0 b1 b2 b3 rest h = ground arith

-- Four bytes that `decode` accepts are refused once any one of them is changed to another byte.
pub decode-set :
    (b0 b1 b2 b3 : ℕ) (rest : List ℕ) (i x : ℕ) {p : Packet}
    → All IsByte (b0 ∷ b1 ∷ b2 ∷ b3 ∷ [])
    → IsByte x
    → i < 4
    → get_elem? (b0 ∷ b1 ∷ b2 ∷ b3 ∷ []) i ≢ some x
    → decode (b0 ∷ b1 ∷ b2 ∷ b3 ∷ rest) ≡ some p
    → decode (set (b0 ∷ b1 ∷ b2 ∷ b3 ∷ rest) i x) ≡ none
decode-set b0 b1 b2 b3 rest zero x (h0, (h1, (h2, (h3, _)))) hx hi ne h =
    decode-refused x b1 b2 b3 rest λ e.
      crc8_differs [] (b1 ∷ b2 ∷ []) x b0 tt (h1, (h2, tt)) hx h0 (λ q. ne (ap some (sym q)))
        (e ∙ sym (decode-accepted b0 b1 b2 b3 rest h))
decode-set b0 b1 b2 b3 rest (suc zero) x (h0, (h1, (h2, (h3, _)))) hx hi ne h =
    decode-refused b0 x b2 b3 rest λ e.
      crc8_differs (b0 ∷ []) (b2 ∷ []) x b1 (h0, tt) (h2, tt) hx h1 (λ q. ne (ap some (sym q)))
        (e ∙ sym (decode-accepted b0 b1 b2 b3 rest h))
decode-set b0 b1 b2 b3 rest (suc (suc zero)) x (h0, (h1, (h2, (h3, _)))) hx hi ne h =
    decode-refused b0 b1 x b3 rest λ e.
      crc8_differs (b0 ∷ b1 ∷ []) [] x b2 (h0, (h1, tt)) tt hx h2 (λ q. ne (ap some (sym q)))
        (e ∙ sym (decode-accepted b0 b1 b2 b3 rest h))
decode-set b0 b1 b2 b3 rest (suc (suc (suc zero))) x (h0, (h1, (h2, (h3, _)))) hx hi ne h =
    decode-refused b0 b1 b2 x rest λ e. ne (ap some (sym (decode-accepted b0 b1 b2 b3 rest h) ∙ e))
decode-set b0 b1 b2 b3 rest (suc (suc (suc (suc i)))) x hs hx hi ne h = absurd (omega arith)
