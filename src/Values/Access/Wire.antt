-- ===== src/Values/Access/Wire.antt =====
-- What a client may change through `set_from_wire`, and what it reads back.
use pypilot_cxx.Prelude.{
  ◌≡◌, refl, ap, ◌∙◌, inl, inr, Bool, true, false, not, Option, none, some, Option-cases,
}
use pypilot_cxx.Prelude.Text.{Text}
use pypilot_cxx.Float.{Float}
use pypilot_cxx.Values.Fields.{real, FieldId, Descriptor, find, Kind}
use pypilot_cxx.Values.Rows.{Row, kind_of, is_writable, find-Row}
use pypilot_cxx.Values.Access.Frame.{set_from_wire-allowed}
use pypilot_cxx.Values.Access.{
  strip_quotes, read_string, read_bool, parse_bool, read_string_id, read_real_id, read_real,
  read_bool_id, set_string_id, set_real_id, set_parsed, set_bool_id, parse_real, string, boolean,
  ValueRegistry, set_from_wire,
}
use pypilot_cxx.Values.Access.Held.{stored, set_real_id-read, set_bool_id-read, set_string_id-read}

module _ {R : Type 0} ⦃fl : Float R⦄ where
  -- A write from outside by an unknown name, or by the name of a field that clients may not write,
  -- fails and changes nothing.
  pub set_from_wire-refused :
      (name value : Text) (v : ValueRegistry R)
      → ((d : Descriptor R) → find name ≡ some d → is_writable d.id ≡ false)
      → set_from_wire name value true v ≡ (false, v)
  unfolding set_from_wire
  set_from_wire-refused name value v h = elim (Option-cases (find {R = R} name)) [
    | inl e ↦ rw (e, set_from_wire)
    | inr (d, e) ↦ rw (e, set_from_wire, (find-Row name d e).0.writable_right, h d e)
  ]

  -- What a write leaves to be read: by the field's kind and the results of the two parsers, with the
  -- text without quotes; `reads` are the three reads after it, and `done` is its result.
  abbrev pub ReadsAs :
      Kind
      → Option R
      → Option Bool
      → Text
      → FieldId
      → Option R × Option Bool × Option Text
      → Bool
      → Type 0
  ReadsAs real none b t id reads done = done ≡ false
  ReadsAs real (some x) b t id reads done = (done ≡ true) × (reads.0 ≡ some (stored id x))
  ReadsAs boolean x none t id reads done = done ≡ false
  ReadsAs boolean x (some b) t id reads done = (done ≡ true) × (reads.1 ≡ some b)
  ReadsAs string x b t id reads done = (done ≡ true) × (reads.2 ≡ some t)

  abbrev pub ReadsBack : Descriptor R → Text → Bool × ValueRegistry R → Type 0
  ReadsBack d value (done, v) =
      ReadsAs (kind_of d.id) (parse_real value) (parse_bool value) (strip_quotes value) d.id
        (read_real d.name v, read_bool d.name v, read_string d.name v) done

  abbrev write_as :
      Kind → Option R → Option Bool → Text → FieldId → ValueRegistry R → Bool × ValueRegistry R
  write_as k x b t id v = elim k [
    | real ↦ elim x [ none ↦ (false, v) | some x ↦ set_real_id id x v ]
    | boolean ↦ elim b [ none ↦ (false, v) | some b ↦ set_bool_id id b v ]
    | string ↦ set_string_id id t v
  ]

  write_as-ReadsAs :
      (k : Kind) (x : Option R) (b : Option Bool) (t : Text) (id : FieldId) (v : ValueRegistry R)
      → v.attached ≡ true
      → kind_of id ≡ k
      → let (done, v') = write_as k x b t id v in
        ReadsAs k x b t id (read_real_id id v', read_bool_id id v', read_string_id id v') done
  write_as-ReadsAs real none b t id v on k = refl
  write_as-ReadsAs real (some x) b t id v on k = set_real_id-read id x v on k
  write_as-ReadsAs boolean x none t id v on k = refl
  write_as-ReadsAs boolean x (some b) t id v on k = set_bool_id-read id b v on k
  write_as-ReadsAs string x b t id v on k = set_string_id-read id t v on k

  set_parsed-write_as :
      (d : Descriptor R) (value : Text) (v : ValueRegistry R) (k : Kind)
      → d.kind ≡ k
      → set_parsed d value v
        ≡ write_as k (parse_real value) (parse_bool value) (strip_quotes value) d.id v
  unfolding set_parsed
  set_parsed-write_as d value v k e =
      ap
        (λ (k' : Kind).
          write_as k' (parse_real value) (parse_bool value) (strip_quotes value) d.id v)
        e

  module _ (d : Descriptor R) (found : find d.name ≡ some d) (v : ValueRegistry R) where
    read_real-found : read_real d.name v ≡ read_real_id d.id v
    unfolding read_real
    read_real-found = rw (found, read_real)

    pub read_bool-found : read_bool d.name v ≡ read_bool_id d.id v
    unfolding read_bool
    read_bool-found = rw (found, read_bool)

    pub read_string-found : read_string d.name v ≡ read_string_id d.id v
    unfolding read_string
    read_string-found = rw (found, read_string)

  pub set_parsed-ReadsBack :
      (d : Descriptor R) (value : Text) (v : ValueRegistry R)
      → v.attached ≡ true
      → Row d
      → ReadsBack d value (set_parsed d value v)
  set_parsed-ReadsBack d value v on r =
      let v' =
        (write_as (kind_of d.id) (parse_real value) (parse_bool value) (strip_quotes value) d.id
          v).1 in
      rw
        (
          set_parsed-write_as d value v (kind_of d.id) r.kind_right,
          read_real-found d r.by_name v',
          read_bool-found d r.by_name v',
          read_string-found d r.by_name v',
        )
        (write_as-ReadsAs (kind_of d.id) (parse_real value) (parse_bool value) (strip_quotes value)
          d.id v on refl)

  -- A client's write to a field that it may write succeeds exactly when the text parses at the
  -- field's kind, and then the field reads back as the parsed value: a string without its quotes.
  pub set_from_wire-ReadsBack :
      (name value : Text) (v : ValueRegistry R) (d : Descriptor R)
      → v.attached ≡ true
      → find name ≡ some d
      → is_writable d.id ≡ true
      → ReadsBack d value (set_from_wire name value true v)
  set_from_wire-ReadsBack name value v d on e w =
      let r = (find-Row name d e).0 in
      rw (set_from_wire-allowed name value true v d e (ap not (r.writable_right ∙ w)))
        (set_parsed-ReadsBack d value v on r)
