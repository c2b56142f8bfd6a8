-- ===== src/Exchange/InStep.antt =====
-- A client that handles the lines of a server's fields reads a Boolean or a string as the server relays
-- it, once the field's own line is among them.
use pypilot_cxx.Prelude.{
  ◌≡◌, sym, ap, ◌∙◌, ◌≢◌, inl, inr, Bool, true, false, none, List, [], ◌∷◌, ◌++◌, map, arith, ◌==◌,
  if◌then◌else◌, ==_iff, Bool-cases,
}
use mathlib.Core.Path.{subst}
use pypilot_cxx.Prelude.Text.{Text}
use pypilot_cxx.Float.{Float}
use pypilot_cxx.Trim.{trim_view}
use pypilot_cxx.Values.Fields.{FieldId, index, real}
use pypilot_cxx.Values.Rows.{kind_of, descriptor-some, descriptor-Row, index_injective}
use pypilot_cxx.Values.Writer.{string_writer}
use pypilot_cxx.Values.Access.{ValueRegistry, read_bool_id, set_from_wire, read_string_id}
use pypilot_cxx.Values.Access.Frame.{Kept, set_from_wire-Kept}
use pypilot_cxx.Values.Lines.Appended.{line-Appends, line_of}
use pypilot_cxx.Client.Callbacks.{handle_line, handle_lines}
use pypilot_cxx.Exchange.Words.{find-IsName}
use pypilot_cxx.Exchange.Assign.{handle_line-mirror}
use pypilot_cxx.Exchange.Relayed.{reads, relays, own_line-relays}

module _ {R : Type 0} ⦃fl : Float R⦄ where
  -- The line of a field changes no other field of the client's registry.
  line_of-Kept :
      (v : ValueRegistry R) (id : FieldId) (m : ValueRegistry R)
      → Kept id m (handle_line (line_of v id) m)
  line_of-Kept v id m =
      let (d, e) = descriptor-some id in
      let (row, same) = descriptor-Row id d e in
      let (done, rest, appends) = line-Appends id d v e row.by_name in
      let line = ap (λ (x : Bool × Text). x.1) (appends []) in
      let handled = handle_line-mirror d.name rest (find-IsName d.name d row.by_name) m in
      let kept = set_from_wire-Kept d.name (trim_view rest) false m d row.by_name in
      subst (λ t. Kept id m (handle_line t m)) (sym line)
        (subst (Kept id m) (sym handled)
          (subst (λ i. Kept i m (set_from_wire d.name (trim_view rest) false m).1) same kept))

  module _ (v : ValueRegistry R) (j : FieldId) (on : v.attached ≡ true)
      (right : kind_of j ≢ real) where
    -- The client has a state, and reads what the server relays of the field.
    abbrev pub InStep : ValueRegistry R → Type 0
    InStep m = (m.attached ≡ true) × (reads j m ≡ relays j v)

    line_of-attached :
        (id : FieldId) (m : ValueRegistry R)
        → m.attached ≡ true
        → (handle_line (line_of v id) m).attached ≡ true
    line_of-attached id m h = (line_of-Kept v id m).same_attached ∙ h

    own_line-InStep :
        (m : ValueRegistry R) → m.attached ≡ true → InStep (handle_line (line_of v j) m)
    own_line-InStep m h = (line_of-attached j m h, own_line-relays v j m right on h)

    line-InStep :
        (id : FieldId) (m : ValueRegistry R) → InStep m → InStep (handle_line (line_of v id) m)
    unfolding read_bool_id read_string_id
    line-InStep id m (h, r) = elim (Bool-cases (index id == index j)) [
      | inl same ↦
          let here = index_injective id j ((==_iff (index id) (index j)).0 same) in
          rw here (own_line-InStep m h)
      | inr other ↦
          let apart : id ≢ j = λ e. ground (arith, ap index e) in
          let kept = line_of-Kept v id m in
          (
            kept.same_attached ∙ h,
            (λ i. (
              if kept.same_attached i then (kept.others j apart).1 i else none,
              if kept.same_attached i then (kept.others j apart).2 i else none,
            ))
                ∙ r,
          )
    ]

    pub lines-InStep :
        (ids : List FieldId) (m : ValueRegistry R)
        → InStep m
        → InStep (handle_lines (map (line_of v) ids) m)
    unfolding handle_lines
    lines-InStep [] m h = h
    lines-InStep (id ∷ ids) m h =
        lines-InStep ids (handle_line (line_of v id) m) (line-InStep id m h)

    -- Lines among which is the field's bring the client in step.
    pub shown-InStep :
        (before after : List FieldId) (m : ValueRegistry R)
        → m.attached ≡ true
        → InStep (handle_lines (map (line_of v) (before ++ j ∷ after)) m)
    unfolding handle_lines
    shown-InStep [] after m h =
        lines-InStep after (handle_line (line_of v j) m) (own_line-InStep m h)
    shown-InStep (id ∷ before) after m h =
        shown-InStep before after (handle_line (line_of v id) m) (line_of-attached id m h)
