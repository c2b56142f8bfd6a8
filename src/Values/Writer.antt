-- ===== src/Values/Writer.antt =====
-- `ValueWriter` and `StringValueWriter` of src/pypilot/pypilot.hpp, with the methods in values.cpp.
pub mod Decimal
use pypilot_cxx.Prelude.{
  ℕ, zero, suc, ◌+◌, ◌-◌, ◌/◌, ◌%◌, Bool, true, false, ◌||◌, [], ◌∷◌, ◌++◌, ltb, ◌==◌,
  if◌then◌else◌, length, take,
}
use pypilot_cxx.Prelude.Text.{Text, codes}
use pypilot_cxx.Float.{Float}

-- The virtual `write`: whether it succeeds, and the writer after it.
pub record ValueWriter (W : Type 0) : Type 0 where
  pub write : Text → W → Bool × W

-- `StringValueWriter`: the text that was written so far.
instance abbrev pub string_writer : ValueWriter Text
string_writer = record { write = λ text out. (true, out ++ text) }

-- `%lu`: the decimal digits of a number below `10 ^ fuel`.
unfoldable pub decimal : ℕ → ℕ → Text
decimal zero n = []
decimal (suc fuel) n =
    let rest = decimal fuel (n / 10) in (if n / 10 == 0 then [] else rest) ++ (b'0' + n % 10) ∷ []

-- An action on a writer that may fail.
abbrev pub Emit : Type 0 → Type 0
Emit W = W → Bool × W

abbrev pub succeed : {W : Type 0} → Bool → Emit W
succeed b out = (b, out)

-- `a && b`: the second runs only if the first succeeds.
infixr 35 ◌&&>◌
abbrev pub ◌&&>◌ : {W : Type 0} → Emit W → Emit W → Emit W
◌&&>◌ m k out = let (done, out') = m out in if done then k out' else (false, out')

module _ {W : Type 0} ⦃writer : ValueWriter W⦄ where
  open writer use {write}

  abbrev pub write_char : ℕ → Emit W
  write_char c = write (c ∷ [])

  unfoldable pub write_bool : Bool → Emit W
  write_bool value = write (if value then codes "true" else codes "false")

  -- `char buf[32]` holds 31 characters and the NUL. The view takes as many characters as
  -- `snprintf` reports, which is the length before the cut.
  unfoldable pub write_real : {R : Type 0} ⦃fl : Float R⦄ → R → Emit W
  write_real ⦃fl⦄ value =
      let text = fl.fixed4 value in
      let n = length text in
      if n == 0
      then succeed false
      else if ltb n 32
      then write text
      else write (take 31 text ++ 0 ∷ fl.behind (n - 32))

  -- A `uint32_t` has at most ten digits, which `char buf[16]` holds.
  unfoldable pub write_u32 : ℕ → Emit W
  write_u32 value =
      let text = decimal 10 value in if length text == 0 then succeed false else write text

  -- The loop of `write_json_string` and the quote behind it.
  unfoldable pub write_escaped : Text → Emit W
  write_escaped [] = write_char b'"'
  write_escaped (c ∷ text) =
      (if c == b'"' || c == b'\\' then write_char b'\\' else succeed true)
      &&> write_char c
      &&> write_escaped text

  unfoldable pub write_json_string : Text → Emit W
  write_json_string text = write_char b'"' &&> write_escaped text
