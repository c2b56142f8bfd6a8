-- ===== src/Rudder.antt =====
-- src/pypilot/rudder.cpp: `Rudder`, whose methods work on the rudder's part of the shared state.
pub mod Readings
use pypilot_cxx.Prelude.{ℕ, Bool, true, false, not, if◌then◌else◌}
use pypilot_cxx.Prelude.Text.{Text, codes, text_eq, is_empty}
use pypilot_cxx.Float.{Float, whole, clamp}
use pypilot_cxx.DataModel.{Rudder, SensorSource}

module _ {R : Type 0} ⦃fl : Float R⦄ where
  open fl use {add, sub, mul, div, neg, fabs, round, lt, ratio, is_nan}

  -- The swap at the end of `update_minmax`.
  abbrev order : Rudder R → Rudder R
  order r =
      if lt r.max_raw r.min_raw then record r { min_raw = r.max_raw; max_raw = r.min_raw } else r

  abbrev half_range : R → R
  half_range x = clamp x (neg (ratio 1 2)) (ratio 1 2)

  unfoldable pub update_minmax : Rudder R → Rudder R
  update_minmax r =
      let s = if lt (fabs r.scale) (ratio 1 100) then whole 100 else r.scale in
      order (record r {
        min_raw = half_range (div (sub (neg r.range) r.offset) s);
        max_raw = half_range (div (sub r.range r.offset) s);
      })

  unfoldable pub invalid : Rudder R → Bool
  invalid r = not r.angle.valid

  unfoldable pub reset : Rudder R → Rudder R
  reset r = record r {
    angle = record r.angle { valid = false };
    speed = record r.speed { valid = false };
    raw_valid = false;
  }

  -- `r.scale*raw+r.offset+r.nonlinearity*(r.min_raw-raw)*(r.max_raw-raw)`.
  unfoldable pub angle_of : Rudder R → R → R
  angle_of r raw =
      add (add (mul r.scale raw) r.offset)
        (mul (mul r.nonlinearity (sub r.min_raw raw)) (sub r.max_raw raw))

  -- The part of `update` behind its two returns.
  unfoldable pub accept : R → ℕ → Rudder R → Rudder R
  accept raw now r =
      let r' = update_minmax (record r { raw = raw; raw_valid = true; raw_timestamp_us = now }) in
      record r' {
        angle = record {
          value = div (round (mul (angle_of r' raw) (whole 100))) (whole 100);
          timestamp_us = now;
          source = SensorSource.servo;
          valid = true;
        };
      }

  unfoldable pub update : R → Text → ℕ → Rudder R → Bool × Rudder R
  update raw device now r =
      if not (text_eq device r.last_device)
      then (false, reset (record r { last_device = device }))
      else if is_nan raw
      then (false, reset r)
      else (true, accept raw now r)

  unfoldable pub poll : ℕ → Rudder R → Rudder R
  poll now r =
      let r' = update_minmax r in
      if r'.raw_valid
      then (update r'.raw (if is_empty r'.last_device then codes "servo" else r'.last_device) now
          r').1
      else r'
