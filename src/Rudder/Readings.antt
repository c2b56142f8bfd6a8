-- ===== src/Rudder/Readings.antt =====
-- What the readings of the rudder do.
use pypilot_cxx.Prelude.{
  ℕ, ◌≡◌, refl, ap, ◌∙◌, inl, inr, Bool, true, false, not, ◌&&◌, if◌then◌else◌, Bool-cases,
}
use pypilot_cxx.Prelude.Text.{Text, text_eq, text_eq_refl}
use pypilot_cxx.Float.{Float}
use pypilot_cxx.DataModel.{Rudder}
use pypilot_cxx.Rudder.{update_minmax, reset, accept, update, invalid}

-- No two numbers are each below the other.
abbrev pub IsAsymmetric : {R : Type 0} → (R → R → Bool) → Type 0
IsAsymmetric {R} below = (a b : R) → below a b ≡ true → below b a ≡ false

module _ {R : Type 0} ⦃fl : Float R⦄ where
  order-ordered :
      (r : Rudder R) (b : Bool)
      → IsAsymmetric fl.lt
      → fl.lt r.max_raw r.min_raw ≡ b
      → let r' = if b then record r { min_raw = r.max_raw; max_raw = r.min_raw } else r in
        fl.lt r'.max_raw r'.min_raw ≡ false
  order-ordered r true asym e = asym r.max_raw r.min_raw e
  order-ordered r false asym e = e

  order-last_device :
      (r : Rudder R) (b : Bool)
      → (if b then record r { min_raw = r.max_raw; max_raw = r.min_raw } else r).last_device
        ≡ r.last_device
  order-last_device r true = refl
  order-last_device r false = refl

  update_minmax-last_device : (r : Rudder R) → (update_minmax r).last_device ≡ r.last_device
  unfolding update_minmax
  update_minmax-last_device r = order-last_device _ _

  -- If no two numbers are each below the other, the limits are never the wrong way round.
  pub update_minmax-ordered :
      (r : Rudder R)
      → IsAsymmetric fl.lt
      → fl.lt (update_minmax r).max_raw (update_minmax r).min_raw ≡ false
  unfolding update_minmax
  update_minmax-ordered r asym = order-ordered _ _ asym refl

  -- The reading of a device that the rudder knows is accepted unless it is not a number; after it the
  -- angle is valid, and it is invalid after every reading that is not accepted. Either way, the next
  -- reading of the device is one of a known device.
  pub update-valid :
      (raw : R) (device : Text) (now : ℕ) (r : Rudder R)
      → let (done, r') = update raw device now r in
        (done ≡ (text_eq device r.last_device && not (fl.is_nan raw)))
        × (invalid r' ≡ not done)
        × (text_eq device r'.last_device ≡ true)
  unfolding update invalid reset accept update_minmax
  update-valid raw device now r = elim (Bool-cases (text_eq device r.last_device)) [
    | inl known ↦ elim (Bool-cases (fl.is_nan raw)) [
      | inl nan ↦ rw (known, nan) (refl, refl, known)
      | inr number ↦
          rw (known, number)
            (
              refl,
              refl,
              ap (text_eq device) (
                    update_minmax-last_device
                      (record r { raw = raw; raw_valid = true; raw_timestamp_us = now }))
                  ∙ known,
            )
    ]
    | inr other ↦ rw other (refl, refl, text_eq_refl device)
  ]
