-- ===== src/Nmea/Applied.antt =====
-- What a line sets in the shared state, and what the checksum has to do with it.
use pypilot_cxx.Prelude.{
  ℕ, ◌≡◌, refl, sym, ap, ◌∙◌, ◌≢◌, ◌⊎◌, inl, inr, Bool, true, false, ◌||◌, Option, none, some, List,
  [], ◌∷◌, ◌++◌, ltb, if◌then◌else◌, Bool-cases, length, All,
}
use pypilot_cxx.Prelude.Text.{Text, codes, text_eq}
use pypilot_cxx.Float.{Float}
use pypilot_cxx.DataModel.{DataModel, SensorSource}
use pypilot_cxx.Nmea.{
  Sentence, split_fields, is_line_end, checks, read_parts, parse_line, parse_field, set_heading,
  apply_heading, set_wind, apply_wind, set_rudder, apply_rudder, set_sender, apply_sentence,
  applied, feed_line,
}
use pypilot_cxx.Nmea.Parsed.{parse_line-print, IsPrintable}
use pypilot_cxx.Nmea.Printed.{print}
use pypilot_cxx.Nmea.Checksum.{parse_line-star}

module _ {R : Type 0} ⦃fl : Float R⦄ where
  -- What `feed_line` does with the result of `parse_line`.
  abbrev fed : Option Sentence → SensorSource → ℕ → DataModel R → Bool × DataModel R
  fed o source now model = elim o [
    | none ↦ (false, model)
    | some sentence ↦ applied model (apply_sentence sentence now source model)
  ]

  feed_line-fed :
      (line : Text) (source : SensorSource) (now : ℕ) (model : DataModel R) (o : Option Sentence)
      → parse_line line ≡ o
      → feed_line line source now model ≡ fed o source now model
  unfolding feed_line
  feed_line-fed line source now model o e = ap (λ (r : Option Sentence). fed r source now model) e

  fed-read_parts :
      (a b : Bool) (parts : List Text) (source : SensorSource) (now : ℕ) (model : DataModel R)
      → fed (read_parts a parts) source now model ≡ fed (read_parts b parts) source now model
  unfolding read_parts apply_sentence
  fed-read_parts a b [] source now model = refl
  fed-read_parts a b (header ∷ fields) source now model =
      elim (Bool-cases (ltb (length header) 3)) [ inl e ↦ rw e refl | inr e ↦ rw e refl ]

  -- A line whose checksum is wrong is applied like the line with the right one: `feed_line` does not
  -- look at the checksum.
  pub feed_line-digits :
      (body : Text) (hi lo hi' lo' : ℕ) (source : SensorSource) (now : ℕ) (model : DataModel R)
      → All (λ c. c ≢ b'*') body
      → is_line_end lo ≡ false
      → is_line_end lo' ≡ false
      → feed_line (b'$' ∷ (body ++ b'*' ∷ hi ∷ lo ∷ [])) source now model
        ≡ feed_line (b'$' ∷ (body ++ b'*' ∷ hi' ∷ lo' ∷ [])) source now model
  feed_line-digits body hi lo hi' lo' source now model h inside inside' =
      let a = checks body (hi ∷ lo ∷ []) in
      let b = checks body (hi' ∷ lo' ∷ []) in
      feed_line-fed _ source now model _ (parse_line-star body hi lo h inside)
      ∙ fed-read_parts a b (split_fields body) source now model
      ∙ sym (feed_line-fed _ source now model _ (parse_line-star body hi' lo' h inside'))

  -- What no sentence changes.
  abbrev pub SameElsewhere : DataModel R → DataModel R → Type 0
  SameElsewhere m m' =
      (m'.server ≡ m.server)
      × (m'.status ≡ m.status)
      × (m'.ap ≡ m.ap)
      × (m'.gps ≡ m.gps)
      × (m'.water ≡ m.water)
      × (m'.servo ≡ m.servo)

  abbrev SameAfter : DataModel R → Option (DataModel R) → Type 0
  SameAfter m none = Unit
  SameAfter m (some m') = SameElsewhere m m'

  SameAfter-if :
      (m : DataModel R) (b : Bool) (s t : Option (DataModel R))
      → SameAfter m s
      → SameAfter m t
      → SameAfter m (if b then s else t)
  SameAfter-if m true s t h k = h
  SameAfter-if m false s t h k = k

  set_heading-same : (o : Option R) (now : ℕ) (m : DataModel R) → SameAfter m (set_heading o now m)
  set_heading-same none now m = tt
  set_heading-same (some x) now m = (refl, refl, refl, refl, refl, refl)

  apply_heading-same :
      (fields : List Text) (now : ℕ) (m : DataModel R) → SameAfter m (apply_heading fields now m)
  unfolding apply_heading
  apply_heading-same [] now m = tt
  apply_heading-same (field ∷ fields) now m = set_heading-same (parse_field field) now m

  set_wind-same :
      (a s : Option R) (now : ℕ) (source : SensorSource) (m : DataModel R)
      → SameAfter m (set_wind a s now source m)
  set_wind-same none s now source m = tt
  set_wind-same (some a) none now source m = tt
  set_wind-same (some a) (some s) now source m = (refl, refl, refl, refl, refl, refl)

  apply_wind-same :
      (fields : List Text) (now : ℕ) (source : SensorSource) (m : DataModel R)
      → SameAfter m (apply_wind fields now source m)
  unfolding apply_wind
  apply_wind-same [] now source m = tt
  apply_wind-same (f0 ∷ []) now source m = tt
  apply_wind-same (f0 ∷ f1 ∷ []) now source m = tt
  apply_wind-same (f0 ∷ f1 ∷ f2 ∷ []) now source m = tt
  apply_wind-same (f0 ∷ f1 ∷ f2 ∷ f3 ∷ fields) now source m =
      set_wind-same (parse_field f0) (parse_field f2) now source m

  set_rudder-same :
      (o : Option R) (now : ℕ) (source : SensorSource) (m : DataModel R)
      → SameAfter m (set_rudder o now source m)
  set_rudder-same none now source m = tt
  set_rudder-same (some x) now source m = (refl, refl, refl, refl, refl, refl)

  apply_rudder-same :
      (fields : List Text) (now : ℕ) (source : SensorSource) (m : DataModel R)
      → SameAfter m (apply_rudder fields now source m)
  unfolding apply_rudder
  apply_rudder-same [] now source m = tt
  apply_rudder-same (field ∷ fields) now source m = set_rudder-same (parse_field field) now source m

  apply_sentence-same :
      (s : Sentence) (now : ℕ) (source : SensorSource) (m : DataModel R)
      → SameAfter m (apply_sentence s now source m)
  unfolding apply_sentence
  apply_sentence-same s now source m =
      SameAfter-if m (text_eq s.type (codes "HDT") || text_eq s.type (codes "HDM")) _ _
        (apply_heading-same s.fields now m)
        (SameAfter-if m (text_eq s.type (codes "MWV")) _ _ (apply_wind-same s.fields now source m) (
          SameAfter-if m (text_eq s.type (codes "RSA")) _ _
            (apply_rudder-same s.fields now source m)
            (SameAfter-if m (text_eq s.type (codes "APB")) (some (set_sender s.talker m)) none
              (refl, refl, refl, refl, refl, refl) tt)))

  -- Either the line is refused and the state is as before, or it is accepted; then nothing but the
  -- IMU, the wind, the rudder and the navigation data changes.
  abbrev pub Outcome : DataModel R → Bool × DataModel R → Type 0
  Outcome m r = (r ≡ (false, m)) ⊎ ((r.0 ≡ true) × SameElsewhere m r.1)

  applied-Outcome :
      (m : DataModel R) (o : Option (DataModel R)) → SameAfter m o → Outcome m (applied m o)
  applied-Outcome m none h = inl refl
  applied-Outcome m (some m') h = inr (refl, h)

  fed-Outcome :
      (o : Option Sentence) (source : SensorSource) (now : ℕ) (m : DataModel R)
      → Outcome m (fed o source now m)
  fed-Outcome none source now m = inl refl
  fed-Outcome (some s) source now m =
      applied-Outcome m (apply_sentence s now source m) (apply_sentence-same s now source m)

  -- Whatever the line, `feed_line` either refuses it and leaves the state as it was, or accepts it
  -- and leaves everything but the IMU, the wind, the rudder and the navigation data as it was.
  pub feed_line-Outcome :
      (line : Text) (source : SensorSource) (now : ℕ) (m : DataModel R)
      → Outcome m (feed_line line source now m)
  feed_line-Outcome line source now m =
      rw (feed_line-fed line source now m (parse_line line) refl)
        (fed-Outcome (parse_line line) source now m)

  -- A printed heading sentence whose first field parses sets the heading, its time and its validity,
  -- and nothing else.
  pub feed_line-heading :
      (s : Sentence) (ending : Text) (field : Text) (fields : List Text) (x : R)
      (source : SensorSource) (now : ℕ) (m : DataModel R)
      → s.type ≡ codes "HDT"
      → s.fields ≡ field ∷ fields
      → parse_field field ≡ some x
      → IsPrintable s
      → All (λ c. is_line_end c ≡ true) ending
      → feed_line (print s ending) source now m
        ≡ (true, record m { imu = record m.imu { heading = x; valid = true; timestamp_us = now } })
  unfolding apply_sentence apply_heading text_eq codes
  feed_line-heading s ending field fields x source now m t f p h e =
      feed_line-fed (print s ending) source now m _ (parse_line-print s ending (ap length t) h e)
      ∙ rw (t, f, p) refl
