-- ===== src/Nmea/Checksum.antt =====
-- The checksum of nmea0183.hpp.
use pypilot_cxx.Prelude.{
  ℕ, zero, suc, ◌<◌, ◌≡◌, refl, sym, ap, ◌∙◌, ◌≢◌, true, false, Option, none, some, [], ◌∷◌, ◌++◌,
  arith, length, get_elem?, set, All,
}
use Prim.Native.Nat.{bit_xor}
use mathlib.Core.List.{append_assoc}
use pypilot_cxx.Prelude.Text.{Text, split_at-append, tail}
use pypilot_cxx.Prelude.Bits.{xor_injective_left, xor_injective_right}
use pypilot_cxx.Nmea.{
  checksum_from, checksum_body, hex_value, split_fields, is_line_end, strip_line_end, digits_match,
  checks, read_parts, read_body, parse_line,
}
use pypilot_cxx.Nmea.Parsed.{read_body-split}
use pypilot_cxx.Nmea.Printed.{strip_line_end-append}

checksum_from-injective : (a b : ℕ) (s : Text) → checksum_from a s ≡ checksum_from b s → a ≡ b
unfolding checksum_from
checksum_from-injective a b [] e = e
checksum_from-injective a b (c ∷ s) e =
    xor_injective_left a b c (checksum_from-injective (bit_xor a c) (bit_xor b c) s e)

checksum_from-set :
    (acc : ℕ) (s : Text) (i x : ℕ)
    → i < length s
    → get_elem? s i ≢ some x
    → checksum_from acc (set s i x) ≢ checksum_from acc s
unfolding checksum_from
checksum_from-set acc [] i x h ne e = absurd (omega arith)
checksum_from-set acc (c ∷ s) zero x h ne e = ne (
    ap some (
      sym (
        xor_injective_right x c acc (checksum_from-injective (bit_xor acc x) (bit_xor acc c) s e))))
checksum_from-set acc (c ∷ s) (suc i) x h ne e =
    checksum_from-set (bit_xor acc c) s i x (omega arith) ne e

digits_match-differs :
    (a b : ℕ) (hi lo : Option ℕ)
    → digits_match a hi lo ≡ true
    → b ≢ a
    → digits_match b hi lo ≡ false
digits_match-differs a b none lo h ne = refl
digits_match-differs a b (some hi) none h ne = refl
digits_match-differs a b (some hi) (some lo) h ne = ground arith

-- Once a body agrees with its checksum, changing any one of its bytes to another makes it disagree.
pub checks-set :
    (body behind : Text) (i x : ℕ)
    → i < length body
    → get_elem? body i ≢ some x
    → checks body behind ≡ true
    → checks (set body i x) behind ≡ false
unfolding checks checksum_body
checks-set body [] i x h ne e = refl
checks-set body (hi ∷ []) i x h ne e = refl
checks-set body (hi ∷ lo ∷ behind) i x h ne e =
    digits_match-differs (checksum_body body) (checksum_body (set body i x)) (hex_value hi)
      (hex_value lo) e (checksum_from-set 0 body i x h ne)

pub parse_line-star :
    (body : Text) (hi lo : ℕ)
    → All (λ c. c ≢ b'*') body
    → is_line_end lo ≡ false
    → parse_line (b'$' ∷ (body ++ b'*' ∷ hi ∷ lo ∷ []))
      ≡ read_parts (checks body (hi ∷ lo ∷ [])) (split_fields body)
unfolding parse_line
parse_line-star body hi lo h inside =
    let whole = append_assoc body (b'*' ∷ hi ∷ []) (lo ∷ []) in
    ap (λ (t : Text). read_body (tail (strip_line_end (b'$' ∷ t)))) (sym whole)
    ∙ ap (λ (t : Text). read_body (tail t))
        (strip_line_end-append (b'$' ∷ (body ++ b'*' ∷ hi ∷ [])) lo [] inside tt)
    ∙ ap read_body whole
    ∙ read_body-split (body ++ b'*' ∷ hi ∷ lo ∷ []) body (hi ∷ lo ∷ [])
        (split_at-append b'*' body (hi ∷ lo ∷ []) h)
