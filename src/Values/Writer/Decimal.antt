-- ===== src/Values/Writer/Decimal.antt =====
-- The text of `write_u32`: reading the digits gives the number again.
use pypilot_cxx.Prelude.{
  ℕ, zero, suc, ◌+◌, ◌-◌, ◌*◌, ◌/◌, ◌%◌, ◌^◌, ◌≤◌, ◌<◌, ◌≡◌, refl, ap, ◌∙◌, inl, inr, Bool, false,
  [], ◌∷◌, ◌++◌, arith, ◌==◌, if◌then◌else◌, Bool-cases, length, length-append,
}
use pypilot_cxx.Prelude.Text.{Text}
use pypilot_cxx.Values.Writer.{ValueWriter, succeed, decimal, write_u32}

-- The number that digits stand for, behind those of `n`.
abbrev pub read_digits : ℕ → Text → ℕ
read_digits n [] = n
read_digits n (c ∷ text) = read_digits (n * 10 + (c - b'0')) text

read_digits-append :
    (n : ℕ) (text : Text) (c : ℕ)
    → read_digits n (text ++ c ∷ []) ≡ read_digits n text * 10 + (c - b'0')
read_digits-append n [] c = refl
read_digits-append n (x ∷ text) c = read_digits-append (n * 10 + (x - b'0')) text c

-- The digits in front of the last one, of which a number below ten has none.
abbrev leading : ℕ → ℕ → Text
leading fuel q = if q == 0 then [] else decimal fuel q

leading-read :
    (fuel q : ℕ) → read_digits 0 (decimal fuel q) ≡ q → read_digits 0 (leading fuel q) ≡ q
leading-read fuel q h = elim (Bool-cases (q == 0)) [
  | inl zero_left ↦ rw zero_left (ground (arith, zero_left))
  | inr more ↦ rw more h
]

leading-length : (fuel q : ℕ) → length (decimal fuel q) ≤ fuel → length (leading fuel q) ≤ fuel
leading-length fuel q h = elim (Bool-cases (q == 0)) [
  | inl none_left ↦ rw none_left (omega arith)
  | inr more ↦ rw more h
]

pub read_digits-decimal : (fuel n : ℕ) → n < 10 ^ fuel → read_digits 0 (decimal fuel n) ≡ n
unfolding decimal
read_digits-decimal zero n h = omega (arith, h)
read_digits-decimal (suc fuel) n h =
    let read : read_digits 0 (leading fuel (n / 10)) ≡ n / 10 =
      leading-read fuel (n / 10) (read_digits-decimal fuel (n / 10) (omega (arith, h))) in
    read_digits-append 0 (leading fuel (n / 10)) (b'0' + n % 10) ∙ omega (arith, read)

pub length-decimal : (fuel n : ℕ) → length (decimal fuel n) ≤ fuel
unfolding decimal
length-decimal zero n = omega arith
length-decimal (suc fuel) n =
    let short = leading-length fuel (n / 10) (length-decimal fuel (n / 10)) in
    omega (arith, short, length-append (leading fuel (n / 10)) ((b'0' + n % 10) ∷ []))

decimal-any : (fuel n : ℕ) → (length (decimal (suc fuel) n) == 0) ≡ false
unfolding decimal
decimal-any fuel n =
    let sum = length-append (leading fuel (n / 10)) ((b'0' + n % 10) ∷ []) in ground (arith, sum)

module _ {W : Type 0} ⦃writer : ValueWriter W⦄ where
  -- A `uint32_t` is written as at most ten bytes, which read back as the number.
  pub write_u32-digits :
      (value : ℕ) (out : W)
      → value < 2 ^ 32
      → (text : Text) × (write_u32 value out ≡ writer.write text out)
        × (read_digits 0 text ≡ value)
        × (length text ≤ 10)
  unfolding write_u32
  write_u32-digits value out h = (
    decimal 10 value,
    ap (λ (b : Bool). (if b then succeed false else writer.write (decimal 10 value)) out)
        (decimal-any 9 value),
    read_digits-decimal 10 value (omega (arith, h)),
    length-decimal 10 value,
  )
