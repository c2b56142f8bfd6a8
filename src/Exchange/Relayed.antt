-- ===== src/Exchange/Relayed.antt =====
-- What a client reads of a Boolean or a string once it has handled the field's line.
use pypilot_cxx.Prelude.{
  Option, ◌⊎◌, ◌≡◌, refl, sym, ap, ◌∙◌, ◌≢◌, inl, inr, Bool, true, false, none, some, [],
  if◌then◌else◌,
}
use pypilot_cxx.Prelude.Text.{Text}
use pypilot_cxx.Float.{Float}
use pypilot_cxx.Values.Fields.{
  boolean, FieldId, Descriptor, server_running, ap_enabled, servo_engaged, servo_fault, descriptor,
  Kind, real, string, ap_mode, ap_pilot,
}
use pypilot_cxx.Values.Rows.{kind_of, descriptor-some, descriptor-Row}
use pypilot_cxx.Values.Writer.{string_writer}
use pypilot_cxx.Values.Access.{
  ValueRegistry, read_bool, read_bool_id, get_bool, read_string, read_string_id, get_string,
}
use pypilot_cxx.Values.Access.Wire.{read_bool-found, read_string-found}
use pypilot_cxx.Values.Lines.{write_value_line, write_value_line_id}
use pypilot_cxx.Values.Lines.Appended.{line_of}
use pypilot_cxx.Client.Callbacks.{handle_line}
use pypilot_cxx.Exchange.Set.{record_line}
use pypilot_cxx.Exchange.Toggle.{json_bool}
use pypilot_cxx.Values.Lines.Json.{escape}
use pypilot_cxx.Exchange.Quoted.{quoted, write_value_line-string, handle_line-string}
use pypilot_cxx.Exchange.Mirror.{write_value_line-bool, handle_line-bool}

abbrev pub escaped : Option Text → Option Text
escaped none = none
escaped (some s) = some (escape s)

kind-cases : (k : Kind) → k ≢ real → (k ≡ boolean) ⊎ (k ≡ string)
kind-cases real other = absurd (other refl)
kind-cases boolean other = inl refl
kind-cases string other = inr refl

none_either : {A : Type 0} (b : Bool) → ◌≡◌ {A = Option A} (if b then none else none) none
none_either true = refl
none_either false = refl

module _ {R : Type 0} ⦃fl : Float R⦄ where
  boolean-some :
      (j : FieldId) (v : ValueRegistry R)
      → kind_of j ≡ boolean
      → v.attached ≡ true
      → (b : Bool) × (read_bool_id j v ≡ some b)
  unfolding read_bool_id get_bool
  boolean-some server_running v k on = (v.state.server.running, rw on refl)
  boolean-some ap_enabled v k on = (v.state.ap.enabled, rw on refl)
  boolean-some servo_engaged v k on = (v.state.servo.engaged, rw on refl)
  boolean-some servo_fault v k on = (v.state.servo.fault, rw on refl)
  boolean-some _ v k on = cc

  string-some :
      (j : FieldId) (v : ValueRegistry R)
      → kind_of j ≡ string
      → v.attached ≡ true
      → (s : Text) × (read_string_id j v ≡ some s)
  unfolding read_string_id get_string
  string-some ap_mode v k on = (v.state.ap.mode, rw on refl)
  string-some ap_pilot v k on = (v.state.ap.pilot, rw on refl)
  string-some _ v k on = cc

  line_of-bool :
      (j : FieldId) (d : Descriptor R) (v : ValueRegistry R) (b : Bool)
      → descriptor j ≡ some d
      → kind_of j ≡ boolean
      → read_bool_id j v ≡ some b
      → line_of v j ≡ record_line d.name (json_bool b)
  unfolding write_value_line
  line_of-bool j d v b e k r =
      let (row, same) = descriptor-Row j d e in
      let read = read_bool-found d row.by_name v ∙ ap (λ i. read_bool_id i v) same ∙ r in
      let written = write_value_line-bool d v b [] row (ap kind_of same ∙ k) read in
      let found : write_value_line d.name v [] ≡ write_value_line_id {W = Text} d.id v [] =
        rw (row.by_name, write_value_line) refl in
      ap (λ id. (write_value_line_id id v []).1) (sym same)
      ∙ ap (λ (x : Bool × Text). x.1) (sym found ∙ written)

  line_of-string :
      (j : FieldId) (d : Descriptor R) (v : ValueRegistry R) (s : Text)
      → descriptor j ≡ some d
      → kind_of j ≡ string
      → read_string_id j v ≡ some s
      → line_of v j ≡ record_line d.name (quoted s)
  unfolding write_value_line
  line_of-string j d v s e k r =
      let (row, same) = descriptor-Row j d e in
      let read = read_string-found d row.by_name v ∙ ap (λ i. read_string_id i v) same ∙ r in
      let written = write_value_line-string d v s [] row (ap kind_of same ∙ k) read in
      let found : write_value_line d.name v [] ≡ write_value_line_id {W = Text} d.id v [] =
        rw (row.by_name, write_value_line) refl in
      ap (λ id. (write_value_line_id id v []).1) (sym same)
      ∙ ap (λ (x : Bool × Text). x.1) (sym found ∙ written)

  -- A field of one kind has no value of another.
  no_string : (j : FieldId) (v : ValueRegistry R) → kind_of j ≡ boolean → read_string_id j v ≡ none
  unfolding read_string_id get_string
  no_string ap_mode v k = cc
  no_string ap_pilot v k = cc
  no_string _ v k = none_either v.attached

  no_bool : (j : FieldId) (v : ValueRegistry R) → kind_of j ≡ string → read_bool_id j v ≡ none
  unfolding read_bool_id get_bool
  no_bool server_running v k = cc
  no_bool ap_enabled v k = cc
  no_bool servo_engaged v k = cc
  no_bool servo_fault v k = cc
  no_bool _ v k = none_either v.attached

  -- What a registry has of a Boolean or a string, and what a client is to have of it: a Boolean as it
  -- is, a string with a backslash before each quote and each backslash.
  abbrev pub reads : FieldId → ValueRegistry R → Option Bool × Option Text
  reads j m = (read_bool_id j m, read_string_id j m)

  abbrev pub relays : FieldId → ValueRegistry R → Option Bool × Option Text
  relays j v = (read_bool_id j v, escaped (read_string_id j v))

  own_bool :
      (v : ValueRegistry R) (j : FieldId) (m : ValueRegistry R)
      → kind_of j ≡ boolean
      → v.attached ≡ true
      → m.attached ≡ true
      → reads j (handle_line (line_of v j) m) ≡ relays j v
  own_bool v j m k on h =
      let (d, e) = descriptor-some j in
      let (row, same) = descriptor-Row j d e in
      let (b, r) = boolean-some j v k on in
      let m' = handle_line (line_of v j) m in
      let copied =
        ap (λ i. read_bool_id i m') (sym same)
        ∙ sym (read_bool-found d row.by_name m')
        ∙ ap (λ t. read_bool d.name (handle_line t m)) (line_of-bool j d v b e k r)
        ∙ handle_line-bool d b m row (ap kind_of same ∙ k) h
        ∙ sym r in
      λ i. (copied i, (no_string j m' k ∙ ap escaped (sym (no_string j v k))) i)

  own_string :
      (v : ValueRegistry R) (j : FieldId) (m : ValueRegistry R)
      → kind_of j ≡ string
      → v.attached ≡ true
      → m.attached ≡ true
      → reads j (handle_line (line_of v j) m) ≡ relays j v
  own_string v j m k on h =
      let (d, e) = descriptor-some j in
      let (row, same) = descriptor-Row j d e in
      let (s, r) = string-some j v k on in
      let m' = handle_line (line_of v j) m in
      let copied =
        ap (λ i. read_string_id i m') (sym same)
        ∙ sym (read_string-found d row.by_name m')
        ∙ ap (λ t. read_string d.name (handle_line t m)) (line_of-string j d v s e k r)
        ∙ handle_line-string d s m row (ap kind_of same ∙ k) h
        ∙ ap escaped (sym r) in
      λ i. ((no_bool j m' k ∙ sym (no_bool j v k)) i, copied i)

  -- A client that handles the line of a field reads what the server relays of it.
  pub own_line-relays :
      (v : ValueRegistry R) (j : FieldId) (m : ValueRegistry R)
      → kind_of j ≢ real
      → v.attached ≡ true
      → m.attached ≡ true
      → reads j (handle_line (line_of v j) m) ≡ relays j v
  own_line-relays v j m right on h = elim (kind-cases (kind_of j) right) [
    | inl k ↦ own_bool v j m k on h
    | inr k ↦ own_string v j m k on h
  ]
