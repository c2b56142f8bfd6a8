-- ===== src/Values/Rows.antt =====
-- What every row of the descriptor table satisfies, and so whatever a look-up returns.
use pypilot_cxx.Prelude.{
  ℕ, zero, suc, ◌≡◌, refl, sym, ap, ◌∙◌, inl, inr, Bool, true, false, some, List, [], ◌∷◌, arith,
  ==_iff, Bool-cases, All,
}
use pypilot_cxx.Prelude.Text.{Text, codes, text_eq, text_eq_iff}
use pypilot_cxx.Float.{Float}
use pypilot_cxx.Values.Fields.{
  servo_voltage, servo_current, rudder_angle, ap_command, ap_heading_error, same_id, ap_heading,
  server_port, index, Kind, real, boolean, string, FieldId, server_running, ap_enabled, ap_mode,
  ap_pilot, ap_heading_command, rudder_offset, rudder_range, servo_command, servo_engaged,
  servo_fault, Descriptor, fields, find_in, find, descriptor_in, descriptor,
}

-- How the switch statements treat a field: the kind that its row must have.
abbrev pub kind_of : FieldId → Kind
kind_of server_running = boolean
kind_of ap_enabled = boolean
kind_of servo_engaged = boolean
kind_of servo_fault = boolean
kind_of ap_mode = string
kind_of ap_pilot = string
kind_of _ = real

-- The fields that clients may write.
abbrev pub is_writable : FieldId → Bool
is_writable ap_enabled = true
is_writable ap_mode = true
is_writable ap_pilot = true
is_writable ap_heading_command = true
is_writable rudder_offset = true
is_writable rudder_range = true
is_writable servo_command = true
is_writable _ = false

-- The field that has an index.
pub field_at : ℕ → FieldId
field_at zero = server_running
field_at (suc zero) = server_port
field_at (suc (suc zero)) = ap_enabled
field_at (suc (suc (suc zero))) = ap_mode
field_at (suc (suc (suc (suc zero)))) = ap_pilot
field_at (suc (suc (suc (suc (suc zero))))) = ap_heading
field_at (suc (suc (suc (suc (suc (suc zero)))))) = ap_heading_command
field_at (suc (suc (suc (suc (suc (suc (suc zero))))))) = ap_heading_error
field_at (suc (suc (suc (suc (suc (suc (suc (suc zero)))))))) = ap_command
field_at (suc (suc (suc (suc (suc (suc (suc (suc (suc zero))))))))) = rudder_angle
field_at (suc (suc (suc (suc (suc (suc (suc (suc (suc (suc zero)))))))))) = rudder_offset
field_at (suc (suc (suc (suc (suc (suc (suc (suc (suc (suc (suc zero))))))))))) = rudder_range
field_at (suc (suc (suc (suc (suc (suc (suc (suc (suc (suc (suc (suc zero)))))))))))) =
    servo_command
field_at (suc (suc (suc (suc (suc (suc (suc (suc (suc (suc (suc (suc (suc zero))))))))))))) =
    servo_current
field_at (suc (suc (suc (suc (suc (suc (suc (suc (suc (suc (suc (suc (suc (suc zero)))))))))))))) =
    servo_voltage
field_at
      (suc
        (suc (suc (suc (suc (suc (suc (suc (suc (suc (suc (suc (suc (suc (suc zero))))))))))))))) =
    servo_engaged
field_at _ = servo_fault

pub field_at-index : (id : FieldId) → field_at (index id) ≡ id
unfolding field_at
field_at-index server_running = refl
field_at-index _ = refl

pub index_injective : (a b : FieldId) → index a ≡ index b → a ≡ b
index_injective a b e = sym (field_at-index a) ∙ ap field_at e ∙ field_at-index b

module _ {R : Type 0} ⦃fl : Float R⦄ where
  -- What every row of the table satisfies: its kind and its writability are those of its field, and
  -- looking up its name and its id both find it.
  pub record Row (d : Descriptor R) : Type 0 where
    pub kind_right : d.kind ≡ kind_of d.id
    pub writable_right : d.info.writable ≡ is_writable d.id
    pub by_name : find d.name ≡ some d
    pub by_id : descriptor d.id ≡ some d

module _ (R : Type 0) ⦃fl : Float R⦄ where
  rows : All (Row {R = R}) fields
  unfolding fields find find_in descriptor descriptor_in text_eq codes
  rows = search

module _ {R : Type 0} ⦃fl : Float R⦄ where
  pub find_in-All {κ} :
      (P : Descriptor R → Type κ) (name : Text) (ds : List (Descriptor R)) (d : Descriptor R)
      → All P ds
      → find_in name ds ≡ some d
      → P d × (d.name ≡ name)
  unfolding find_in
  find_in-All P name [] d h e = cc
  find_in-All P name (x ∷ ds) d h e = elim (Bool-cases (text_eq name x.name)) [
    | inl same ↦
        let e' : x ≡ d = ground arith in rw (← e') (h.0, sym ((text_eq_iff name x.name).0 same))
    | inr other ↦ find_in-All P name ds d h.1 (rw other at e)
  ]

  -- A descriptor that `find` returns is a row of the table, and has the name that was looked up.
  pub find-Row : (name : Text) (d : Descriptor R) → find name ≡ some d → Row d × (d.name ≡ name)
  unfolding find
  find-Row name d e = find_in-All Row name fields d (rows R) e

  descriptor_in-All {κ} :
      (P : Descriptor R → Type κ) (id : FieldId) (ds : List (Descriptor R)) (d : Descriptor R)
      → All P ds
      → descriptor_in id ds ≡ some d
      → P d × (index d.id ≡ index id)
  unfolding descriptor_in
  descriptor_in-All P id [] d h e = cc
  descriptor_in-All P id (x ∷ ds) d h e = elim (Bool-cases (same_id x.id id)) [
    | inl same ↦
        let e' : x ≡ d = ground arith in rw (← e') (h.0, (==_iff (index x.id) (index id)).0 same)
    | inr other ↦ descriptor_in-All P id ds d h.1 (rw other at e)
  ]

  pub descriptor-some : (id : FieldId) → (d : Descriptor R) × (descriptor id ≡ some d)
  unfolding descriptor descriptor_in fields
  descriptor-some server_running = (_, refl)
  descriptor-some _ = (_, refl)

  -- The row that a field id finds, and that every field id finds one.
  pub descriptor-Row :
      (id : FieldId) (d : Descriptor R) → descriptor id ≡ some d → Row d × (d.id ≡ id)
  unfolding descriptor
  descriptor-Row id d e =
      let (row, same) = descriptor_in-All Row id fields d (rows R) e in
      (row, index_injective d.id id same)
