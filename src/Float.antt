-- ===== src/Float.antt =====
-- `Real` is `float` in the sources. The type, its arithmetic and the C library's conversions are
-- not code of this repository: they are an instance argument `Float R` of the definitions that use
-- them, and a theorem that needs more states what it needs as a hypothesis.
use pypilot_cxx.Prelude.{ℕ, Bool, Option, if◌then◌else◌}
use pypilot_cxx.Prelude.Text.{Text}

pub record Float (R : Type 0) : Type 0 where
  -- The value nearest to `n / d`, for the literals of the sources.
  pub ratio : ℕ → ℕ → R
  -- `static_cast<Real>` of an unsigned integer.
  pub of_nat : ℕ → R
  pub quiet_nan : R
  pub add : R → R → R
  pub sub : R → R → R
  pub mul : R → R → R
  pub div : R → R → R
  pub fmod : R → R → R
  pub neg : R → R
  pub fabs : R → R
  pub round : R → R
  pub lt : R → R → Bool
  pub le : R → R → Bool
  pub eq : R → R → Bool
  pub is_nan : R → Bool
  -- `static_cast<uint16_t>` and `static_cast<uint64_t>`.
  pub to_u16 : R → ℕ
  pub to_u64 : R → ℕ
  -- `std::strtof` on a text without NUL: none where it consumes no character.
  pub strtof : Text → Option R
  -- What `%.4f` and `%.6f` of `std::snprintf` format, before any cut to the buffer's size.
  pub fixed4 : R → Text
  pub fixed6 : R → Text
  -- The `n` bytes of memory behind the buffer of `ValueWriter::write_real`.
  pub behind : ℕ → Text

module _ {R : Type 0} ⦃fl : Float R⦄ where
  -- An integer literal.
  abbrev pub whole : ℕ → R
  whole n = fl.ratio n 1

  -- `std::clamp(v, lo, hi)`.
  unfoldable pub clamp : R → R → R → R
  clamp v lo hi = if fl.lt v lo then lo else if fl.lt hi v then hi else v
