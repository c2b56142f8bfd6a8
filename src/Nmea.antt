-- ===== src/Nmea.antt =====
-- src/pypilot/syslib/nmea0183.hpp and src/pypilot/nmea.cpp: NMEA 0183 sentences, and what they set in
-- the shared state.
pub mod Printed
pub mod Parsed
pub mod Checksum
pub mod Applied
use pypilot_cxx.Prelude.{
  ℕ, ◌+◌, ◌-◌, ◌*◌, ◌%◌, ◌^◌, Bool, true, false, not, ◌&&◌, ◌||◌, Option, none, some, List, [], ◌∷◌,
  ltb, leb, ◌==◌, if◌then◌else◌, length, take, drop,
}
use Prim.Native.Nat.{bit_or, bit_xor}
use pypilot_cxx.Prelude.Text.{Text, codes, text_eq, split_at, starts_with, is_empty, tail}
use pypilot_cxx.Float.{Float}
use pypilot_cxx.DataModel.{DataModel, SourceStamped, SensorSource}
use pypilot_cxx.Values.Access.{until_nul}

pub record Sentence : Type 0 where
  pub talker : Text
  pub type : Text
  pub fields : List Text
  pub checksum_ok : Bool

-- The loop of `checksum_body`, from a value of `checksum` on.
unfoldable pub checksum_from : ℕ → Text → ℕ
checksum_from checksum [] = checksum
checksum_from checksum (c ∷ body) = checksum_from (bit_xor checksum c) body

unfoldable pub checksum_body : Text → ℕ
checksum_body body = checksum_from 0 body

-- none is the result -1.
unfoldable pub hex_value : ℕ → Option ℕ
hex_value c =
    if leb b'0' c && leb c b'9'
    then some (c - b'0')
    else if leb b'A' c && leb c b'F'
    then some (c - b'A' + 10)
    else if leb b'a' c && leb c b'f'
    then some (c - b'a' + 10)
    else none

-- A byte in front of the first field.
abbrev pub extend : ℕ → List Text → List Text
extend c [] = (c ∷ []) ∷ []
extend c (field ∷ fields) = (c ∷ field) ∷ fields

-- The parts between the commas, byte by byte where the source calls `find(',')`: a body without
-- commas, an empty one too, is one field.
unfoldable pub split_fields : Text → List Text
split_fields [] = [] ∷ []
split_fields (c ∷ body) =
    let rest = split_fields body in if c == b',' then [] ∷ rest else extend c rest

unfoldable pub is_line_end : ℕ → Bool
is_line_end c = c == b'\r' || c == b'\n'

-- `while (!line.empty() && ...) line.remove_suffix(1);`: a byte stays if it ends no line or if
-- something behind it stays.
abbrev pub keep_byte : ℕ → Text → Text
keep_byte c [] = if is_line_end c then [] else c ∷ []
keep_byte c (d ∷ line) = c ∷ d ∷ line

unfoldable pub strip_line_end : Text → Text
strip_line_end [] = []
strip_line_end (c ∷ line) = keep_byte c (strip_line_end line)

-- `hi >= 0 && lo >= 0 && checksum_body(body) == ...`.
abbrev pub digits_match : ℕ → Option ℕ → Option ℕ → Bool
digits_match checksum (some hi) (some lo) = checksum == bit_or (hi * 2 ^ 4) lo % 2 ^ 8
digits_match checksum _ _ = false

-- `behind` is what follows the star.
unfoldable pub checks : Text → Text → Bool
checks body (hi ∷ lo ∷ behind) = digits_match (checksum_body body) (hex_value hi) (hex_value lo)
checks body _ = false

-- The last lines of `parse_line`, from the parts.
unfoldable pub read_parts : Bool → List Text → Option Sentence
read_parts ok [] = none
read_parts ok (header ∷ fields) =
    if ltb (length header) 3
    then none
    else some (record {
      talker = take (length header - 3) header;
      type = drop (length header - 3) header;
      fields = fields;
      checksum_ok = ok;
    })

-- The body and what follows the star, from the line without its dollar sign.
unfoldable pub read_body : Text → Option Sentence
read_body text = elim (split_at b'*' text) [
  | none ↦ read_parts false (split_fields text)
  | some (body, behind) ↦ read_parts (checks body behind) (split_fields body)
]

-- none is the result false, where the callers drop the sentence.
unfoldable pub parse_line : Text → Option Sentence
parse_line line =
    if not (starts_with b'$' line) then none else read_body (tail (strip_line_end line))

module _ {R : Type 0} ⦃fl : Float R⦄ where
  -- `parse_real` of nmea0183.hpp: the whole field goes to `strtof`, which stops at a NUL.
  unfoldable pub parse_field : Text → Option R
  parse_field field = if is_empty field then none else fl.strtof (until_nul field)

  abbrev pub stamped : R → ℕ → SensorSource → SourceStamped R
  stamped value now_us source = record {
    value = value;
    timestamp_us = now_us;
    source = source;
    valid = true;
  }

  -- Each `if` of `apply_sentence`: none where the code goes on behind it.
  abbrev pub set_heading : Option R → ℕ → DataModel R → Option (DataModel R)
  set_heading none now_us model = none
  set_heading (some heading) now_us model = some (record model {
    imu = record model.imu { heading = heading; valid = true; timestamp_us = now_us };
  })

  unfoldable pub apply_heading : List Text → ℕ → DataModel R → Option (DataModel R)
  apply_heading [] now_us model = none
  apply_heading (field ∷ fields) now_us model = set_heading (parse_field field) now_us model

  abbrev pub set_wind : Option R → Option R → ℕ → SensorSource → DataModel R → Option (DataModel R)
  set_wind (some angle) (some speed) now_us source model = some (record model {
    wind = record model.wind {
      apparent_direction = stamped angle now_us source;
      apparent_speed = stamped speed now_us source;
    };
  })
  set_wind _ _ now_us source model = none

  unfoldable pub apply_wind : List Text → ℕ → SensorSource → DataModel R → Option (DataModel R)
  apply_wind (f0 ∷ f1 ∷ f2 ∷ f3 ∷ fields) now_us source model =
      set_wind (parse_field f0) (parse_field f2) now_us source model
  apply_wind _ now_us source model = none

  abbrev pub set_rudder : Option R → ℕ → SensorSource → DataModel R → Option (DataModel R)
  set_rudder none now_us source model = none
  set_rudder (some angle) now_us source model = some (record model {
    rudder = record model.rudder { angle = stamped (fl.neg angle) now_us source };
  })

  unfoldable pub apply_rudder : List Text → ℕ → SensorSource → DataModel R → Option (DataModel R)
  apply_rudder [] now_us source model = none
  apply_rudder (field ∷ fields) now_us source model =
      set_rudder (parse_field field) now_us source model

  abbrev pub set_sender : Text → DataModel R → DataModel R
  set_sender talker model = record model {
    navigation = record model.navigation {
      apb = record model.navigation.apb { sender_id = talker; mode_hint = true };
    };
  }

  -- none is the result false, which leaves the model as it was. The types exclude one another, so
  -- that a type whose fields do not parse fails all later tests.
  unfoldable pub apply_sentence : Sentence → ℕ → SensorSource → DataModel R → Option (DataModel R)
  apply_sentence sentence now_us source model =
      if text_eq sentence.type (codes "HDT") || text_eq sentence.type (codes "HDM")
      then apply_heading sentence.fields now_us model
      else if text_eq sentence.type (codes "MWV")
      then apply_wind sentence.fields now_us source model
      else if text_eq sentence.type (codes "RSA")
      then apply_rudder sentence.fields now_us source model
      else if text_eq sentence.type (codes "APB")
      then some (set_sender sentence.talker model)
      else none

  abbrev pub applied : DataModel R → Option (DataModel R) → Bool × DataModel R
  applied model none = (false, model)
  applied model (some model') = (true, model')

  -- `Nmea::feed_line`, with the event loop's clock as `now_us`.
  unfoldable pub feed_line : Text → SensorSource → ℕ → DataModel R → Bool × DataModel R
  feed_line line source now_us model = elim (parse_line line) [
    | none ↦ (false, model)
    | some sentence ↦ applied model (apply_sentence sentence now_us source model)
  ]
