-- ===== src/Tests/Protocol.antt =====
-- Packets of the motor controller and lines of a stream.
use pypilot_cxx.Tests.Sample.{whole_numbers}
use pypilot_cxx.Prelude.{
  ◌≤◌, ◌≡◌, refl, none, some, List, [], ◌∷◌, ◌++◌, map, arith, length, set, All,
}
use pypilot_cxx.Prelude.Text.{codes}
use pypilot_cxx.Prelude.Int.{ℤ, pos}
use pypilot_cxx.ServoProtocol.{
  Packet, TelemetrySample, encode, decode, feed, crc8, crc8_from, crc8_update, crc8_loop,
  crc8_shift,
}
use pypilot_cxx.ServoProtocol.Packets.{decode-encode, decode-set}
use pypilot_cxx.ServoProtocol.Stream.{encode_all, apply_all, joined, feed-encode_all, feed-append}
use pypilot_cxx.LineReader.{LineProtocolReader, default_options, no_stats, emitted, poll}
use pypilot_cxx.LineReader.Framing.{Fits, stream, poll-Fits, poll-stream, poll-overflow}

decode-encode_example :
    decode (encode 0xc7 1000 ++ []) ≡ some (record { code = 0xc7; value = 1000 })
decode-encode_example = decode-encode 0xc7 1000 [] (omega arith)

-- The packet of a command in the middle of its range.
encode_centre : encode 0xc7 1000 ≡ 0xc7 ∷ 0xe8 ∷ 0x03 ∷ 0x9d ∷ []
unfolding encode crc8 crc8_from crc8_update crc8_loop crc8_shift
encode_centre = refl

decode_centre :
    decode (0xc7 ∷ 0xe8 ∷ 0x03 ∷ 0x9d ∷ []) ≡ some (record { code = 0xc7; value = 1000 })
unfolding decode crc8 crc8_from crc8_update crc8_loop crc8_shift
decode_centre = refl

decode-set_example : decode (set (0xc7 ∷ 0xe8 ∷ 0x03 ∷ 0x9d ∷ []) 1 0xe9) ≡ none
decode-set_example =
    decode-set 0xc7 0xe8 0x03 0x9d [] 1 0xe9
      (omega arith, (omega arith, (omega arith, (omega arith, tt)))) (omega arith) (omega arith)
      (ground arith) decode_centre

-- A voltage of 12 and then flags.
abbrev two_packets : List Packet
two_packets = record { code = 0xb3; value = 1200 } ∷ record { code = 0x8f; value = 9 } ∷ []

abbrev sample : TelemetrySample ℤ
sample = record {
  mask = 0;
  current = pos 0;
  voltage = pos 0;
  controller_temp = pos 0;
  motor_temp = pos 0;
  rudder = pos 0;
  flags = 0;
}

feed-encode_all_example : feed [] (encode_all two_packets) sample ≡ record {
  mask = (apply_all two_packets 0 sample).0;
  sample = (apply_all two_packets 0 sample).1;
  buf = [];
}
feed-encode_all_example = feed-encode_all two_packets sample (omega arith, (omega arith, tt))

feed-append_example :
    feed (0xc7 ∷ []) ((0xe8 ∷ []) ++ (0x03 ∷ 0x9d ∷ 0x8f ∷ [])) sample
    ≡ joined (feed (0xc7 ∷ []) (0xe8 ∷ []) sample).mask (
        feed
          (feed (0xc7 ∷ []) (0xe8 ∷ []) sample).buf
          (0x03 ∷ 0x9d ∷ 0x8f ∷ [])
          (feed (0xc7 ∷ []) (0xe8 ∷ []) sample).sample)
feed-append_example = feed-append (0xc7 ∷ []) (0xe8 ∷ []) (0x03 ∷ 0x9d ∷ 0x8f ∷ []) sample

abbrev reader : LineProtocolReader
reader = record { options = default_options; buffer = []; stats = no_stats }

poll-Fits_example :
    Fits 4 (poll 4 (codes "abcdefg") reader).1
    × All (λ line. length line ≤ 4) (poll 4 (codes "abcdefg") reader).0
poll-Fits_example = poll-Fits 4 (codes "abcdefg") reader (omega arith)

poll-stream_example :
    (poll 4 (stream 4 default_options (codes "ab\r" ∷ codes "c" ∷ [])) reader).0
    ≡ map (emitted default_options) (codes "ab\r" ∷ codes "c" ∷ [])
unfolding codes
poll-stream_example =
    poll-stream 4 default_options (codes "ab\r" ∷ codes "c" ∷ []) reader (search arith) (refl, refl)

poll-overflow_example :
    (poll 4 (codes "abcd" ++ b'e' ∷ (codes "fg" ++ 10 ∷ [])) reader).0
    ≡ emitted default_options (codes "fg") ∷ []
unfolding codes
poll-overflow_example =
    poll-overflow 4 default_options (codes "abcd") b'e' (codes "fg") reader refl (search arith) refl
      (ground arith) (search arith) (omega arith) (refl, refl)
