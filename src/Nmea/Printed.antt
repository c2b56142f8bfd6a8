-- ===== src/Nmea/Printed.antt =====
-- Sentences as text: a printer, and what `checks`, `split_fields` and `strip_line_end` of
-- src/pypilot/syslib/nmea0183.hpp make of what it prints.
use pypilot_cxx.Prelude.{
  ℕ, ◌+◌, ◌-◌, ◌*◌, ◌/◌, ◌%◌, ◌^◌, ◌<◌, ◌≡◌, refl, ap, ◌∙◌, ◌≢◌, true, false, some, List, [], ◌∷◌,
  ◌++◌, arith, ltb, if◌then◌else◌, ==_refl, All, All-append,
}
use Prim.Native.Nat.{bit_or, bit_xor}
use pypilot_cxx.Prelude.Text.{Text}
use pypilot_cxx.Prelude.Bits.{agree_below, agree_below→eq, xor_lt}
use pypilot_cxx.Nmea.{
  checks, Sentence, checksum_from, checksum_body, hex_value, split_fields, is_line_end,
  strip_line_end,
}

-- A hexadecimal digit, in capitals.
abbrev pub hex_digit : ℕ → ℕ
hex_digit n = if ltb n 10 then n + b'0' else n - 10 + b'A'

-- The fields with commas between them.
abbrev join : Text → List Text → Text
join field [] = field
join field (next ∷ fields) = field ++ b',' ∷ join next fields

abbrev pub body_of : Sentence → Text
body_of s = join (s.talker ++ s.type) s.fields

-- A sentence as a line with its checksum, and what ends the line.
abbrev pub print : Sentence → Text → Text
print s ending =
    b'$'
    ∷ (body_of s
        ++ b'*'
          ∷ hex_digit (checksum_body (body_of s) / 16)
          ∷ hex_digit (checksum_body (body_of s) % 16)
          ∷ ending)

abbrev pub IsPlain : ℕ → Type 0
IsPlain c = (c ≢ b',') × (c ≢ b'*') × (c < 256)

pub checksum_from-lt :
    (acc : ℕ) (s : Text) → acc < 256 → All (λ c. c < 256) s → checksum_from acc s < 256
unfolding checksum_from
checksum_from-lt acc [] h hs = h
checksum_from-lt acc (c ∷ s) h (hc, hs) =
    checksum_from-lt (bit_xor acc c) s (xor_lt 8 acc c h hc) hs

hex_value-digit : (n : ℕ) → n < 16 → hex_value (hex_digit n) ≡ some n
unfolding hex_value
hex_value-digit n h = ground arith

split_fields-plain : (s : Text) → All (λ c. c ≢ b',') s → split_fields s ≡ s ∷ []
unfolding split_fields
split_fields-plain [] h = refl
split_fields-plain (c ∷ s) (hc, hs) = rw (split_fields-plain s hs) (ground arith)

split_fields-comma :
    (s rest : Text)
    → All (λ c. c ≢ b',') s
    → split_fields (s ++ b',' ∷ rest) ≡ s ∷ split_fields rest
unfolding split_fields
split_fields-comma [] rest h = refl
split_fields-comma (c ∷ s) rest (hc, hs) = rw (split_fields-comma s rest hs) (ground arith)

pub split_fields-join :
    (field : Text) (fields : List Text)
    → All (λ c. c ≢ b',') field
    → All (λ f. All (λ c. c ≢ b',') f) fields
    → split_fields (join field fields) ≡ field ∷ fields
split_fields-join field [] h hs = split_fields-plain field h
split_fields-join field (next ∷ fields) h (hn, hs) =
    split_fields-comma field (join next fields) h
    ∙ ap (λ (t : List Text). field ∷ t) (split_fields-join next fields hn hs)

-- What is stripped off a line whose last byte ends no line.
strip_line_end-ending :
    (ending : Text) → All (λ c. is_line_end c ≡ true) ending → strip_line_end ending ≡ []
unfolding strip_line_end
strip_line_end-ending [] h = refl
strip_line_end-ending (c ∷ ending) (hc, hs) = rw (strip_line_end-ending ending hs, hc)

pub strip_line_end-append :
    (s : Text) (c : ℕ) (ending : Text)
    → is_line_end c ≡ false
    → All (λ c. is_line_end c ≡ true) ending
    → strip_line_end (s ++ c ∷ ending) ≡ s ++ c ∷ []
unfolding strip_line_end
strip_line_end-append [] c ending hc he = rw (strip_line_end-ending ending he, hc)
strip_line_end-append (x ∷ []) c ending hc he = rw (strip_line_end-append [] c ending hc he)
strip_line_end-append (x ∷ y ∷ s) c ending hc he = rw (strip_line_end-append (y ∷ s) c ending hc he)

pub hex_digit-inside : (n : ℕ) → n < 16 → is_line_end (hex_digit n) ≡ false
unfolding is_line_end
hex_digit-inside n h = ground arith

pub join-All :
    (P : ℕ → Type 0) (field : Text) (fields : List Text)
    → P b','
    → All P field
    → All (All P) fields
    → All P (join field fields)
join-All P field [] comma h hs = h
join-All P field (next ∷ fields) comma h (hn, hs) =
    All-append P field (b',' ∷ join next fields) h (comma, join-All P next fields comma hn hs)

pub All-weaken {κ} : {P Q : ℕ → Type κ} (s : Text) → ((c : ℕ) → P c → Q c) → All P s → All Q s
All-weaken [] f h = tt
All-weaken (c ∷ s) f (hc, hs) = (f c hc, All-weaken s f hs)

pub All-weaken_fields {κ} :
    {P Q : ℕ → Type κ} (fields : List Text)
    → ((c : ℕ) → P c → Q c)
    → All (All P) fields
    → All (All Q) fields
All-weaken_fields [] f h = tt
All-weaken_fields (s ∷ fields) f (hs, hf) = (All-weaken s f hs, All-weaken_fields fields f hf)

rejoin_digits : (c : ℕ) → c < 256 → bit_or (c / 16 * 2 ^ 4) (c % 16) % 2 ^ 8 ≡ c
unfolding agree_below
rejoin_digits = agree_below→eq 256 (λ c. bit_or (c / 16 * 2 ^ 4) (c % 16) % 2 ^ 8) (λ c. c) refl

pub checks-printed :
    (body ending : Text)
    → checksum_body body < 256
    → checks body
        (hex_digit (checksum_body body / 16) ∷ hex_digit (checksum_body body % 16) ∷ ending)
      ≡ true
unfolding checks
checks-printed body ending h =
    let c = checksum_body body in
    rw
      (
        hex_value-digit (c / 16) (omega arith),
        hex_value-digit (c % 16) (omega arith),
        rejoin_digits c h,
      )
      (==_refl c)
