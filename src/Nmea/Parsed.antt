-- ===== src/Nmea/Parsed.antt =====
-- `parse_line` of nmea0183.hpp against a printer of sentences.
use pypilot_cxx.Prelude.{
  ℕ, ◌-◌, ◌/◌, ◌%◌, ◌<◌, ◌≡◌, refl, sym, ap, ◌∙◌, ◌≢◌, Bool, true, false, some, List, [], ◌∷◌, ◌++◌,
  arith, ltb, length, take, drop, All, length-append, All-append,
}
use pypilot_cxx.Prelude.Text.{split_at-append, tail, Text}
use mathlib.Core.List.{append_assoc}
use pypilot_cxx.Nmea.{
  split_at, read_parts, read_body, parse_line, checks, Sentence, checksum_body, split_fields,
  is_line_end, strip_line_end,
}
use pypilot_cxx.Nmea.Printed.{
  hex_digit, body_of, print, IsPlain, checksum_from-lt, split_fields-join, strip_line_end-append,
  hex_digit-inside, join-All, All-weaken, All-weaken_fields, checks-printed,
}

take-append : (s t : Text) → take (length s) (s ++ t) ≡ s
take-append [] t = refl
take-append (c ∷ s) t = ap (λ (r : Text). c ∷ r) (take-append s t)

drop-append : (s t : Text) → drop (length s) (s ++ t) ≡ t
drop-append [] t = refl
drop-append (c ∷ s) t = drop-append s t

read_parts-header :
    (ok : Bool) (talker type : Text) (fields : List Text)
    → length type ≡ 3
    → read_parts ok ((talker ++ type) ∷ fields)
      ≡ some (record { talker = talker; type = type; fields = fields; checksum_ok = ok })
unfolding read_parts
read_parts-header ok talker type fields h =
    let total = length-append talker type in
    let long : ltb (length (talker ++ type)) 3 ≡ false = ground (arith, total) in
    let front : length (talker ++ type) - 3 ≡ length talker = omega (arith, total) in
    rw (long, front, take-append talker type, drop-append talker type) refl

-- The bytes of a sentence: none is a comma, a star or no byte.
pub record IsPrintable (s : Sentence) : Type 0 where
  pub talker_plain : All IsPlain s.talker
  pub type_plain : All IsPlain s.type
  pub fields_plain : All (All IsPlain) s.fields

body_of-All :
    {P : ℕ → Type 0} (s : Sentence)
    → ((c : ℕ) → IsPlain c → P c)
    → P b','
    → IsPrintable s
    → All P (body_of s)
body_of-All {P} s f comma h =
    join-All P (s.talker ++ s.type) s.fields comma
      (All-append P s.talker s.type (All-weaken s.talker f h.talker_plain)
        (All-weaken s.type f h.type_plain))
      (All-weaken_fields s.fields f h.fields_plain)

split_fields-body_of :
    (s : Sentence) → IsPrintable s → split_fields (body_of s) ≡ (s.talker ++ s.type) ∷ s.fields
split_fields-body_of s h =
    split_fields-join (s.talker ++ s.type) s.fields
      (All-append (λ c. c ≢ b',') s.talker s.type (All-weaken s.talker (λ c p. p.0) h.talker_plain)
        (All-weaken s.type (λ c p. p.0) h.type_plain))
      (All-weaken_fields s.fields (λ c p. p.0) h.fields_plain)

strip_line_end-print :
    (s : Sentence) (ending : Text)
    → All (λ c. is_line_end c ≡ true) ending
    → strip_line_end (print s ending) ≡ print s []
strip_line_end-print s ending h =
    let c = checksum_body (body_of s) in
    let hi = hex_digit (c / 16) in
    let lo = hex_digit (c % 16) in
    ap (λ (t : Text). strip_line_end (b'$' ∷ t))
      (sym (append_assoc (body_of s) (b'*' ∷ hi ∷ []) (lo ∷ ending)))
    ∙ strip_line_end-append (b'$' ∷ (body_of s ++ b'*' ∷ hi ∷ [])) lo ending
        (hex_digit-inside (c % 16) (omega arith)) h
    ∙ ap (λ (t : Text). b'$' ∷ t) (append_assoc (body_of s) (b'*' ∷ hi ∷ []) (lo ∷ []))

pub read_body-split :
    (text body behind : Text)
    → split_at b'*' text ≡ some (body, behind)
    → read_body text ≡ read_parts (checks body behind) (split_fields body)
unfolding read_body
read_body-split text body behind e = rw (e, read_body)

checksum_body-lt : (s : Text) → All (λ c. c < 256) s → checksum_body s < 256
unfolding checksum_body
checksum_body-lt s h = checksum_from-lt 0 s (omega arith) h

read_body-print :
    (s : Sentence)
    → length s.type ≡ 3
    → IsPrintable s
    → read_body (tail (print s [])) ≡ some (record s { checksum_ok = true })
read_body-print s three h =
    let body = body_of s in
    let c = checksum_body body in
    let behind = hex_digit (c / 16) ∷ hex_digit (c % 16) ∷ [] in
    read_body-split (body ++ b'*' ∷ behind) body behind
      (split_at-append b'*' body behind (body_of-All s (λ c p. p.1) (omega arith) h))
    ∙ ap (λ (ok : Bool). read_parts ok (split_fields body))
        (checks-printed body []
          (checksum_body-lt body (body_of-All s (λ c p. p.2) (omega arith) h)))
    ∙ ap (λ (parts : List Text). read_parts true parts) (split_fields-body_of s h)
    ∙ read_parts-header true s.talker s.type s.fields three

-- A sentence of a three-letter type whose parts hold no comma, no star and bytes only, printed with
-- its checksum and ended by any carriage returns and newlines, is read back with the checksum found
-- right.
pub parse_line-print :
    (s : Sentence) (ending : Text)
    → length s.type ≡ 3
    → IsPrintable s
    → All (λ c. is_line_end c ≡ true) ending
    → parse_line (print s ending) ≡ some (record s { checksum_ok = true })
unfolding parse_line
parse_line-print s ending three h he =
    rw (strip_line_end-print s ending he) (read_body-print s three h)
