-- ===== src/ServoProtocol/Stream.antt =====
-- `Parser` of servo_protocol.hpp: a stream of packets is read the same however it is cut into reads.
use pypilot_cxx.Prelude.{
  ℕ, ◌+◌, ◌%◌, ◌^◌, ◌<◌, ◌≡◌, refl, sym, ap, ◌∙◌, Option, none, some, List, [], ◌∷◌, ◌++◌, arith,
  length, All, length-append,
}
use Prim.Native.Nat.{bit_or}
use mathlib.Core.List.{append_assoc}
use pypilot_cxx.ServoProtocol.Packets.{decode-encode}
use pypilot_cxx.Prelude.Bits.{or-zero, or_assoc}
use pypilot_cxx.Float.{Float}
use pypilot_cxx.ServoProtocol.{
  feed, encode, Packet, TelemetrySample, Fed, decode, apply_packet, apply_decoded, drain,
}

decode_prefix :
    (b0 b1 b2 b3 : ℕ) (xs ys : List ℕ)
    → decode (b0 ∷ b1 ∷ b2 ∷ b3 ∷ xs) ≡ decode (b0 ∷ b1 ∷ b2 ∷ b3 ∷ ys)
unfolding decode
decode_prefix b0 b1 b2 b3 xs ys = refl

abbrev pub encode_all : List Packet → List ℕ
encode_all [] = []
encode_all (p ∷ ps) = encode p.code p.value ++ encode_all ps

module _ {R : Type 0} ⦃fl : Float R⦄ where
  -- Two runs one after the other: the bits of both, and what the second leaves.
  abbrev pub joined : ℕ → Fed R → Fed R
  joined m f = record f { mask = bit_or m f.mask }

  apply_decoded-or :
      (p : Option Packet) (m k : ℕ) (s : TelemetrySample R)
      → (apply_decoded p (bit_or k m) s).0 ≡ bit_or k (apply_decoded p m s).0
  unfolding apply_decoded
  apply_decoded-or none m k s = refl
  apply_decoded-or (some p) m k s = or_assoc k m (apply_packet p s).0

  apply_decoded-sample :
      (p : Option Packet) (m k : ℕ) (s : TelemetrySample R)
      → (apply_decoded p k s).1 ≡ (apply_decoded p m s).1
  unfolding apply_decoded
  apply_decoded-sample none m k s = refl
  apply_decoded-sample (some p) m k s = refl

  drain-or :
      (bs : List ℕ) (k m : ℕ) (s : TelemetrySample R)
      → drain (bit_or k m) s bs ≡ joined k (drain m s bs)
  unfolding drain
  drain-or [] k m s = refl
  drain-or (b0 ∷ []) k m s = refl
  drain-or (b0 ∷ b1 ∷ []) k m s = refl
  drain-or (b0 ∷ b1 ∷ b2 ∷ []) k m s = refl
  drain-or (b0 ∷ b1 ∷ b2 ∷ b3 ∷ rest) k m s =
      let p = decode (b0 ∷ b1 ∷ b2 ∷ b3 ∷ rest) in
      rw (apply_decoded-or p m k s, apply_decoded-sample p m (bit_or k m) s)
        (drain-or rest k (apply_decoded p m s).0 (apply_decoded p m s).1)

  drain-append :
      (xs ys : List ℕ) (m : ℕ) (s : TelemetrySample R)
      → drain m s (xs ++ ys)
        ≡ drain (drain m s xs).mask (drain m s xs).sample ((drain m s xs).buf ++ ys)
  unfolding drain
  drain-append [] ys m s = refl
  drain-append (b0 ∷ []) ys m s = refl
  drain-append (b0 ∷ b1 ∷ []) ys m s = refl
  drain-append (b0 ∷ b1 ∷ b2 ∷ []) ys m s = refl
  drain-append (b0 ∷ b1 ∷ b2 ∷ b3 ∷ rest) ys m s =
      let p = decode (b0 ∷ b1 ∷ b2 ∷ b3 ∷ rest) in
      rw (decode_prefix b0 b1 b2 b3 (rest ++ ys) rest)
        (drain-append rest ys (apply_decoded p m s).0 (apply_decoded p m s).1)

  -- What is left in the buffer is less than a packet, and the bytes that were read are whole packets.
  drain-buf :
      (bs : List ℕ) (m : ℕ) (s : TelemetrySample R) → length (drain m s bs).buf ≡ length bs % 4
  unfolding drain
  drain-buf [] m s = refl
  drain-buf (b0 ∷ []) m s = refl
  drain-buf (b0 ∷ b1 ∷ []) m s = refl
  drain-buf (b0 ∷ b1 ∷ b2 ∷ []) m s = refl
  drain-buf (b0 ∷ b1 ∷ b2 ∷ b3 ∷ rest) m s = omega (
    arith,
    drain-buf rest (apply_decoded (decode (b0 ∷ b1 ∷ b2 ∷ b3 ∷ rest)) m s).0
        (apply_decoded (decode (b0 ∷ b1 ∷ b2 ∷ b3 ∷ rest)) m s).1,
  )

  -- Two reads of a stream do together what one read of all the bytes does: the same sample, the same
  -- bytes left, and the bits of both masks.
  pub feed-append :
      (buf xs ys : List ℕ) (s : TelemetrySample R)
      → feed buf (xs ++ ys) s
        ≡ joined (feed buf xs s).mask (feed (feed buf xs s).buf ys (feed buf xs s).sample)
  unfolding feed
  feed-append buf xs ys s =
      ap (drain 0 s) (sym (append_assoc buf xs ys))
      ∙ drain-append (buf ++ xs) ys 0 s
      ∙ ap (λ (m : ℕ). drain m (drain 0 s (buf ++ xs)).sample ((drain 0 s (buf ++ xs)).buf ++ ys))
          (sym (or-zero (drain 0 s (buf ++ xs)).mask))
      ∙ drain-or ((drain 0 s (buf ++ xs)).buf ++ ys) (drain 0 s (buf ++ xs)).mask 0
          (drain 0 s (buf ++ xs)).sample

  -- After a read, the parser holds less than a packet: all bytes so far, less the whole packets.
  feed-buf :
      (buf bytes : List ℕ) (s : TelemetrySample R)
      → length (feed buf bytes s).buf ≡ (length buf + length bytes) % 4
  unfolding feed
  feed-buf buf bytes s = rw (← length-append buf bytes) (drain-buf (buf ++ bytes) 0 s)

  -- What the packets do one after the other.
  abbrev pub apply_all : List Packet → ℕ → TelemetrySample R → ℕ × TelemetrySample R
  apply_all [] m s = (m, s)
  apply_all (p ∷ ps) m s = let (bit, s') = apply_packet p s in apply_all ps (bit_or m bit) s'

  drain-encode :
      (code value : ℕ) (rest : List ℕ) (m : ℕ) (s : TelemetrySample R)
      → drain m s (encode code value ++ rest)
        ≡ drain
            (apply_decoded (decode (encode code value ++ rest)) m s).0
            (apply_decoded (decode (encode code value ++ rest)) m s).1
            rest
  unfolding drain encode
  drain-encode code value rest m s = refl

  drain-encode_all :
      (ps : List Packet) (m : ℕ) (s : TelemetrySample R)
      → All (λ p. p.value < 2 ^ 16) ps
      → drain m s (encode_all ps)
        ≡ record { mask = (apply_all ps m s).0; sample = (apply_all ps m s).1; buf = [] }
  unfolding drain apply_decoded
  drain-encode_all [] m s h = refl
  drain-encode_all (p ∷ ps) m s h =
      drain-encode p.code p.value (encode_all ps) m s
      ∙ rw (decode-encode p.code p.value (encode_all ps) h.0)
          (drain-encode_all ps (bit_or m (apply_packet p s).0) (apply_packet p s).1 h.1)

  -- A stream of encoded packets is read as these packets, in their order, with no byte left over.
  pub feed-encode_all :
      (ps : List Packet) (s : TelemetrySample R)
      → All (λ p. p.value < 2 ^ 16) ps
      → feed [] (encode_all ps) s
        ≡ record { mask = (apply_all ps 0 s).0; sample = (apply_all ps 0 s).1; buf = [] }
  unfolding feed
  feed-encode_all ps s h = drain-encode_all ps 0 s h
