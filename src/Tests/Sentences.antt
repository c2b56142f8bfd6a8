-- ===== src/Tests/Sentences.antt =====
-- NMEA sentences.
use pypilot_cxx.Tests.Sample.{whole_numbers}
use pypilot_cxx.Prelude.{◌≡◌, refl, true, false, some, [], ◌∷◌, ◌++◌, arith, set}
use pypilot_cxx.Prelude.Text.{codes}
use pypilot_cxx.Prelude.Int.{ℤ, pos}
use pypilot_cxx.DataModel.{initial, SensorSource}
use pypilot_cxx.Values.Access.{until_nul}
use pypilot_cxx.Nmea.{
  Sentence, checks, checksum_body, checksum_from, hex_value, parse_line, parse_field, feed_line,
  is_line_end,
}
use pypilot_cxx.Nmea.Parsed.{parse_line-print, IsPrintable}
use pypilot_cxx.Nmea.Printed.{print}
use pypilot_cxx.Nmea.Checksum.{checks-set}
use pypilot_cxx.Nmea.Applied.{Outcome, feed_line-digits, feed_line-Outcome, feed_line-heading}

abbrev heading_sentence : Sentence
heading_sentence = record {
  talker = codes "HC";
  type = codes "HDT";
  fields = codes "90" ∷ codes "T" ∷ [];
  checksum_ok = true;
}

heading_sentence-IsPrintable : IsPrintable heading_sentence
unfolding codes
heading_sentence-IsPrintable = record {
  talker_plain = search arith;
  type_plain = search arith;
  fields_plain = search arith;
}

parse_line-print_example :
    parse_line (print heading_sentence (13 ∷ 10 ∷ [])) ≡ some heading_sentence
unfolding is_line_end codes
parse_line-print_example =
    parse_line-print heading_sentence (13 ∷ 10 ∷ []) refl heading_sentence-IsPrintable
      (refl, (refl, tt))

-- The checksum of the sentence, in its two digits.
heading_checksum : checks (codes "HCHDT,90,T") (codes "0E") ≡ true
unfolding checks checksum_body checksum_from hex_value codes
heading_checksum = refl

checks-set_example : checks (set (codes "HCHDT,90,T") 6 b'8') (codes "0E") ≡ false
unfolding codes
checks-set_example =
    checks-set (codes "HCHDT,90,T") (codes "0E") 6 b'8' (omega arith) (ground arith)
      heading_checksum

feed_line-digits_example :
    feed_line (b'$' ∷ (codes "HCHDT,90,T" ++ b'*' ∷ b'0' ∷ b'E' ∷ [])) SensorSource.serial 7 initial
    ≡ feed_line {R = ℤ}
        (b'$' ∷ (codes "HCHDT,90,T" ++ b'*' ∷ b'0' ∷ b'0' ∷ []))
        SensorSource.serial
        7
        initial
unfolding codes is_line_end
feed_line-digits_example =
    feed_line-digits (codes "HCHDT,90,T") b'0' b'E' b'0' b'0' SensorSource.serial 7 initial
      (search arith) refl refl

feed_line-Outcome_example :
    Outcome {R = ℤ} initial (feed_line (codes "$HCHDT,90,T") SensorSource.serial 7 initial)
feed_line-Outcome_example = feed_line-Outcome (codes "$HCHDT,90,T") SensorSource.serial 7 initial

feed_line-heading_example : feed_line (print heading_sentence []) SensorSource.serial 7 initial ≡ (
  true,
  record initial { imu = record initial.imu { heading = pos 90; valid = true; timestamp_us = 7 } },
)
unfolding parse_field until_nul codes
feed_line-heading_example =
    feed_line-heading heading_sentence [] (codes "90") (codes "T" ∷ []) (pos 90) SensorSource.serial
      7 initial refl refl refl heading_sentence-IsPrintable tt
