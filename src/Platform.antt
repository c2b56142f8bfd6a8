-- ===== src/Platform.antt =====
-- src/pypilot/platform.hpp: the conversions between seconds and the microseconds of the clock.
use pypilot_cxx.Prelude.{ℕ, if◌then◌else◌}
use pypilot_cxx.Float.{Float, whole}

module _ {R : Type 0} ⦃fl : Float R⦄ where
  -- The reading of the loop's clock is an argument.
  unfoldable pub monotonic_seconds : ℕ → R
  monotonic_seconds now_us = fl.div (fl.of_nat now_us) (whole 1000000)

  unfoldable pub seconds_to_us : R → ℕ
  seconds_to_us seconds =
      if fl.le seconds (whole 0) then 0 else fl.to_u64 (fl.mul seconds (whole 1000000))

  unfoldable pub us_to_seconds : ℕ → R
  us_to_seconds us = fl.div (fl.of_nat us) (whole 1000000)
