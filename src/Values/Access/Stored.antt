-- ===== src/Values/Access/Stored.antt =====
-- What a write of a field leaves in the registry, and the fields that it leaves as they were.
use pypilot_cxx.Prelude.{◌≡◌, refl, ◌≢◌, Bool, true, false, Option, none, some, if◌then◌else◌}
use pypilot_cxx.Prelude.Text.{Text}
use pypilot_cxx.Float.{Float}
use pypilot_cxx.DataModel.{DataModel}
use pypilot_cxx.Values.Fields.{
  find, Kind, real, boolean, string, FieldId, server_running, server_port, ap_enabled, ap_mode,
  ap_pilot, ap_heading, ap_heading_command, ap_heading_error, ap_command, rudder_angle,
  rudder_offset, rudder_range, servo_command, servo_current, servo_voltage, servo_engaged,
  servo_fault, Descriptor,
}
use pypilot_cxx.Values.Access.{
  with_field, set_real, set_bool, set_string, ValueRegistry, mark_dirty, put_real, put_bool,
  put_string, get_real, get_bool, get_string, store, set_real_id, set_bool_id, set_string_id,
  parse_real, parse_bool, strip_quotes, set_parsed,
}

module _ {R : Type 0} ⦃fl : Float R⦄ where
  -- The two states agree on a field, whichever way it is read.
  abbrev pub Agree : FieldId → DataModel R → DataModel R → Type 0
  Agree id s s' =
      (get_real id s' ≡ get_real id s)
      × (get_bool id s' ≡ get_bool id s)
      × (get_string id s' ≡ get_string id s)

  abbrev AgreeAfter : FieldId → DataModel R → Option (DataModel R) → Type 0
  AgreeAfter id s none = Unit
  AgreeAfter id s (some s') = Agree id s s'

  put_real-AgreeAfter :
      (id j : FieldId) (x : R) (s : DataModel R) → id ≢ j → AgreeAfter j s (put_real id x s)
  unfolding put_real get_real get_bool get_string
  put_real-AgreeAfter server_port server_port x s h = absurd (h refl)
  put_real-AgreeAfter ap_heading ap_heading x s h = absurd (h refl)
  put_real-AgreeAfter ap_heading_command ap_heading_command x s h = absurd (h refl)
  put_real-AgreeAfter ap_heading_error ap_heading_error x s h = absurd (h refl)
  put_real-AgreeAfter ap_command ap_command x s h = absurd (h refl)
  put_real-AgreeAfter rudder_angle rudder_angle x s h = absurd (h refl)
  put_real-AgreeAfter rudder_offset rudder_offset x s h = absurd (h refl)
  put_real-AgreeAfter rudder_range rudder_range x s h = absurd (h refl)
  put_real-AgreeAfter servo_command servo_command x s h = absurd (h refl)
  put_real-AgreeAfter servo_current servo_current x s h = absurd (h refl)
  put_real-AgreeAfter servo_voltage servo_voltage x s h = absurd (h refl)
  put_real-AgreeAfter server_running j x s h = tt
  put_real-AgreeAfter ap_enabled j x s h = tt
  put_real-AgreeAfter ap_mode j x s h = tt
  put_real-AgreeAfter ap_pilot j x s h = tt
  put_real-AgreeAfter servo_engaged j x s h = tt
  put_real-AgreeAfter servo_fault j x s h = tt
  put_real-AgreeAfter _ _ x s h = (refl, refl, refl)

  put_bool-AgreeAfter :
      (id j : FieldId) (b : Bool) (s : DataModel R) → id ≢ j → AgreeAfter j s (put_bool id b s)
  unfolding put_bool get_real get_bool get_string
  put_bool-AgreeAfter server_running server_running b s h = absurd (h refl)
  put_bool-AgreeAfter ap_enabled ap_enabled b s h = absurd (h refl)
  put_bool-AgreeAfter servo_engaged servo_engaged b s h = absurd (h refl)
  put_bool-AgreeAfter servo_fault servo_fault b s h = absurd (h refl)
  put_bool-AgreeAfter server_running _ b s h = (refl, refl, refl)
  put_bool-AgreeAfter ap_enabled _ b s h = (refl, refl, refl)
  put_bool-AgreeAfter servo_engaged _ b s h = (refl, refl, refl)
  put_bool-AgreeAfter servo_fault _ b s h = (refl, refl, refl)
  put_bool-AgreeAfter _ _ b s h = tt

  put_string-AgreeAfter :
      (id j : FieldId) (t : Text) (s : DataModel R) → id ≢ j → AgreeAfter j s (put_string id t s)
  unfolding put_string get_real get_bool get_string
  put_string-AgreeAfter ap_mode ap_mode t s h = absurd (h refl)
  put_string-AgreeAfter ap_pilot ap_pilot t s h = absurd (h refl)
  put_string-AgreeAfter ap_mode _ t s h = (refl, refl, refl)
  put_string-AgreeAfter ap_pilot _ t s h = (refl, refl, refl)
  put_string-AgreeAfter _ _ t s h = tt

  -- What a write to the field `id` leaves: the registry, or one with a new state, in which the other
  -- fields read as before, and a mark on the field.
  pub data Stored (id : FieldId) (v : ValueRegistry R) : ValueRegistry R → Type 0 where
    left : Stored id v v
    put :
        (s : DataModel R)
        → ((j : FieldId) → id ≢ j → Agree j v.state s)
        → Stored id v (mark_dirty id (record v { state = s }))

  store-Stored :
      (id : FieldId) (o : Option (DataModel R)) (v : ValueRegistry R)
      → ((j : FieldId) → id ≢ j → AgreeAfter j v.state o)
      → Stored id v (store id o v).1
  unfolding store
  store-Stored id none v h = left
  store-Stored id (some s) v h = go v.attached
    where
      go :
          (b : Bool)
          → Stored id v
              (if◌then◌else◌ {A = Bool × ValueRegistry R} b
                (true, mark_dirty id (record v { state = s }))
                (false, v)).1
      go true = put s h
      go false = left

  pub set_parsed-Stored :
      (d : Descriptor R) (value : Text) (v : ValueRegistry R)
      → Stored d.id v (set_parsed d value v).1
  unfolding set_parsed set_real_id set_bool_id set_string_id
  set_parsed-Stored d value v = go d.kind (parse_real value) (parse_bool value)
    where
      go :
          (k : Kind) (x : Option R) (b : Option Bool)
          → let r : Bool × ValueRegistry R = elim k [
            | real ↦ elim x [ none ↦ (false, v) | some x ↦ set_real_id d.id x v ]
            | boolean ↦ elim b [ none ↦ (false, v) | some b ↦ set_bool_id d.id b v ]
            | string ↦ set_string_id d.id (strip_quotes value) v
          ] in
            Stored d.id v r.1
      go real none b = left
      go real (some x) b = store-Stored d.id _ v (λ j. put_real-AgreeAfter d.id j x v.state)
      go boolean x none = left
      go boolean x (some b) = store-Stored d.id _ v (λ j. put_bool-AgreeAfter d.id j b v.state)
      go string x b =
          store-Stored d.id _ v (λ j. put_string-AgreeAfter d.id j (strip_quotes value) v.state)

  found-Stored :
      (name : Text) (act : FieldId → ValueRegistry R → Bool × ValueRegistry R) (v : ValueRegistry R)
      → ((id : FieldId) → Stored id v (act id v).1)
      → (id : FieldId) × Stored id v (with_field name act v).1
  found-Stored name act v h = go (find {R = R} name)
    where
      go :
          (o : Option (Descriptor R))
          → (id : FieldId) × Stored id v
              (elim o as (λ _. Bool × ValueRegistry R) [
                | none ↦ (false, v)
                | some d ↦ act d.id v
              ]).1
      go none = (server_running, left)
      go (some d) = (d.id, h d.id)

  pub set_real-Stored :
      (name : Text) (x : R) (v : ValueRegistry R)
      → (id : FieldId) × Stored id v (set_real name x v).1
  unfolding set_real set_real_id
  set_real-Stored name x v =
      found-Stored name (λ id. set_real_id id x) v
        (λ id. store-Stored id _ v (λ j. put_real-AgreeAfter id j x v.state))

  pub set_bool-Stored :
      (name : Text) (b : Bool) (v : ValueRegistry R)
      → (id : FieldId) × Stored id v (set_bool name b v).1
  unfolding set_bool set_bool_id
  set_bool-Stored name b v =
      found-Stored name (λ id. set_bool_id id b) v
        (λ id. store-Stored id _ v (λ j. put_bool-AgreeAfter id j b v.state))

  pub set_string-Stored :
      (name t : Text) (v : ValueRegistry R) → (id : FieldId) × Stored id v (set_string name t v).1
  unfolding set_string set_string_id
  set_string-Stored name t v =
      found-Stored name (λ id. set_string_id id t) v
        (λ id. store-Stored id _ v (λ j. put_string-AgreeAfter id j t v.state))
