-- ===== src/Values/Watches.antt =====
-- The table of watches in values.cpp: adding and taking out a watch, and the output of the changed
-- fields that are watched.
pub mod Table
pub mod Removed
pub mod Changed
use pypilot_cxx.Prelude.{
  ℕ, ◌+◌, ◌%◌, ◌^◌, Bool, true, false, not, ◌&&◌, ◌||◌, Option, none, some, List, [], ◌∷◌,
  if◌then◌else◌,
}
use pypilot_cxx.Prelude.Text.{Text}
use pypilot_cxx.Float.{Float, whole}
use pypilot_cxx.Values.Writer.{ValueWriter}
use pypilot_cxx.Values.Access.{Watch, ValueRegistry}
use pypilot_cxx.Values.Lines.{write_value_line_id}
use pypilot_cxx.Values.Fields.{
  FieldId, server_running, server_port, ap_enabled, ap_mode, ap_pilot, ap_heading,
  ap_heading_command, ap_heading_error, ap_command, rudder_angle, rudder_offset, rudder_range,
  servo_command, servo_current, servo_voltage, servo_engaged, servo_fault, same_id, find,
}

-- `for (auto& w : watches_) if (test(w)) { change(w); return true; }`: none where the loop ends.
unfoldable pub replace_first {ℓ} : {A : Type ℓ} → (A → Bool) → (A → A) → List A → Option (List A)
replace_first test change [] = none
replace_first test change (w ∷ ws) =
    if test w
    then some (change w ∷ ws)
    else elim (replace_first test change ws) [ none ↦ none | some ws' ↦ some (w ∷ ws') ]

unfoldable pub any_of {ℓ} : {A : Type ℓ} → (A → Bool) → List A → Bool
any_of test [] = false
any_of test (w ∷ ws) = test w || any_of test ws

-- The field ids in the order of their indices.
abbrev pub all_ids : List FieldId
all_ids =
    server_running ∷ server_port ∷ ap_enabled ∷ ap_mode ∷ ap_pilot ∷ ap_heading ∷ ap_heading_command
    ∷ ap_heading_error ∷ ap_command ∷ rudder_angle ∷ rudder_offset ∷ rudder_range ∷ servo_command
    ∷ servo_current ∷ servo_voltage ∷ servo_engaged ∷ servo_fault ∷ []

module _ {R : Type 0} ⦃fl : Float R⦄ where
  unfoldable pub period_us : R → ℕ
  period_us seconds =
      if fl.le seconds (whole 0) then 0 else fl.to_u64 (fl.mul seconds (whole 1000000))

  -- `w.active && w.id == id`.
  abbrev pub holds : FieldId → Watch R → Bool
  holds id w = w.active && same_id w.id id

  -- `uint64_t` addition.
  abbrev pub next_due : ℕ → R → ℕ
  next_due now_us period_seconds = (now_us + period_us period_seconds) % 2 ^ 64

  -- The two loops of `watch`: an entry of the field is set anew, or the first free entry is taken.
  unfoldable pub put_watch : FieldId → R → ℕ → List (Watch R) → Option (List (Watch R))
  put_watch id period now_us ws =
      elim (replace_first (holds id)
        (λ w. record w { period_seconds = period; next_due_us = next_due now_us period }) ws) [
          | some ws' ↦ some ws'
          | none ↦
              replace_first (λ w. not w.active)
                (λ w. record {
                  active = true;
                  id = id;
                  period_seconds = period;
                  next_due_us = next_due now_us period;
                })
                ws
        ]

  unfoldable pub put_watches : FieldId → R → ℕ → ValueRegistry R → Bool × ValueRegistry R
  put_watches id period now_us v = elim (put_watch id period now_us v.watches) [
    | none ↦ (false, v)
    | some ws ↦ (true, record v { watches = ws })
  ]

  -- `watch` without a writer for the first line.
  unfoldable pub watch_unwritten : Text → R → ℕ → ValueRegistry R → Bool × ValueRegistry R
  watch_unwritten name period now_us v = elim (find {R = R} name) [
    | none ↦ (false, v)
    | some d ↦ put_watches d.id period now_us v
  ]

  unfoldable pub take_watch : FieldId → List (Watch R) → List (Watch R)
  take_watch id [] = []
  take_watch id (w ∷ ws) =
      (if holds id w then record w { active = false } else w) ∷ take_watch id ws

  unfoldable pub unwatch : Text → ValueRegistry R → Bool × ValueRegistry R
  unwatch name v = elim (find {R = R} name) [
    | none ↦ (false, v)
    | some d ↦ (true, record v { watches = take_watch d.id v.watches })
  ]

  -- `w.active && w.id == id && w.period_seconds == Real{0}`.
  abbrev pub immediate : FieldId → Watch R → Bool
  immediate id w = holds id w && fl.eq w.period_seconds (whole 0)

module _ {R W : Type 0} ⦃fl : Float R⦄ ⦃writer : ValueWriter W⦄ where
  -- `watch` with a writer for the first line, whose result is not looked at.
  unfoldable pub watch : Text → R → ℕ → ValueRegistry R → W → Bool × ValueRegistry R × W
  watch name period now_us v out = elim (find {R = R} name) [
    | none ↦ (false, v, out)
    | some d ↦
        let (done, v') = put_watches d.id period now_us v in
        (done, v', (write_value_line_id d.id v out).1)
  ]

  -- The loop of `emit_changed_watches`: the marks after it, and the writer.
  unfoldable pub emit_marked : ValueRegistry R → List FieldId → List Bool → W → List Bool × W
  emit_marked v [] marks out = (marks, out)
  emit_marked v (id ∷ ids) [] out = ([], out)
  emit_marked v (id ∷ ids) (mark ∷ marks) out =
      let out' =
        if mark && any_of (immediate id) v.watches then (write_value_line_id id v out).1 else out in
      let (marks', out'') = emit_marked v ids marks out' in (false ∷ marks', out'')

  unfoldable pub emit_changed_watches : ValueRegistry R → W → ValueRegistry R × W
  emit_changed_watches v out =
      let (marks, out') = emit_marked v all_ids v.dirty out in (record v { dirty = marks }, out')
