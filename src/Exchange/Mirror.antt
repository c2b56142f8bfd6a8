-- ===== src/Exchange/Mirror.antt =====
-- The lines in which the server writes Booleans, as the client reads them, and the way of a Boolean
-- from one client through the server to another.
use pypilot_cxx.Prelude.{ℕ, ◌≡◌, refl, sym, ap, ◌∙◌, Bool, true, false, some, [], ◌∷◌, ◌++◌}
use mathlib.Core.List.{append_assoc}
use pypilot_cxx.Prelude.Text.{Text}
use pypilot_cxx.Float.{Float}
use pypilot_cxx.Exchange.Toggle.{json_bool, parse_bool-json, trim_view-json, set_bool-Received}
use pypilot_cxx.Values.Access.Wire.{set_parsed-ReadsBack, read_bool-found}
use pypilot_cxx.Exchange.Assign.{handle_line-mirror}
use pypilot_cxx.Exchange.Words.{find-IsName}
use pypilot_cxx.Exchange.Set.{record_line, Sends, trim_view-newline}
use pypilot_cxx.Client.Session.{Tcp, PypilotClient, set_bool}
use pypilot_cxx.Server
use pypilot_cxx.Values.Access.Frame.{set_from_wire-allowed}
use pypilot_cxx.Values.Lines.Partial.{line-found}
use pypilot_cxx.Values.Lines.{write_found, write_value_line}
use pypilot_cxx.Values.Rows.{Row, kind_of, is_writable, find-Row}
use pypilot_cxx.Values.Fields.{boolean, Descriptor, find}
use pypilot_cxx.Values.Access.{set_from_wire, read_bool, ValueRegistry, read_bool_id}
use pypilot_cxx.Values.Writer.{Emit, ◌&&>◌, write_char, string_writer, write_bool}
use pypilot_cxx.Client.Callbacks.{handle_line}

pub line_parts :
    (out name json : Text)
    → (((out ++ name) ++ b'=' ∷ []) ++ json) ++ b'\n' ∷ [] ≡ out ++ record_line name json
line_parts out name json = simp append_assoc refl

module _ {R : Type 0} ⦃fl : Float R⦄ where
  write_found-bool :
      (d : Descriptor R) (v : ValueRegistry R) (b : Bool)
      → d.kind ≡ boolean
      → read_bool_id d.id v ≡ some b
      → write_found {W = Text} d v ≡ write_bool b
  unfolding write_found
  write_found-bool d v b k e = simp (k, write_found, e) refl

  -- The line of a Boolean.
  pub write_value_line-bool :
      (d : Descriptor R) (v : ValueRegistry R) (b : Bool) (out : Text)
      → Row d
      → kind_of d.id ≡ boolean
      → read_bool d.name v ≡ some b
      → write_value_line d.name v out ≡ (true, out ++ record_line d.name (json_bool b))
  unfolding write_value_line write_bool
  write_value_line-bool d v b out r k e =
      let found =
        write_found-bool d v b (r.kind_right ∙ k) (sym (read_bool-found d r.by_name v) ∙ e) in
      simp (r.by_name, write_value_line)
        (line-found d.id d v out r.by_id r.by_name
          ∙ ap (λ (m : Emit Text). (m &&> write_char b'\n') ((out ++ d.name) ++ b'=' ∷ [])) found
          ∙ ap (λ (t : Text). (true, t)) (line_parts out d.name (json_bool b)))

  -- A client that gets the line of a Boolean reads it.
  pub handle_line-bool :
      (d : Descriptor R) (b : Bool) (v : ValueRegistry R)
      → Row d
      → kind_of d.id ≡ boolean
      → v.attached ≡ true
      → read_bool d.name (handle_line (record_line d.name (json_bool b)) v) ≡ some b
  handle_line-bool d b v r k on =
      let reads = set_parsed-ReadsBack d (json_bool b) v on r in
      let value = trim_view-newline (json_bool b) ∙ trim_view-json b in
      let plain = json_bool b ++ b'\n' ∷ [] in
      let written =
        handle_line-mirror d.name plain (find-IsName d.name d r.by_name) v
        ∙ ap (λ (t : Text). (set_from_wire d.name t false v).1) value
        ∙ ap (λ (x : Bool × ValueRegistry R). x.1)
            (set_from_wire-allowed d.name (json_bool b) false v d r.by_name refl) in
      let back = rw (k, parse_bool-json b) at reads in ap (read_bool d.name) written ∙ back.1

module _ {R C N : Type 0} ⦃fl : Float R⦄ ⦃tcp : Tcp N⦄ where
  -- Where a client sets a Boolean field that clients may write, the server handles its line with no
  -- answer, then writes a line of the field, and a client that handles this line reads the same
  -- Boolean. Both registries have a state attached.
  pub set_bool-Relayed :
      (c : PypilotClient R C) (n : N) (name : Text) (b : Bool) (d : Descriptor R) (now_us : ℕ)
      (v mirror : ValueRegistry R)
      → v.attached ≡ true
      → mirror.attached ≡ true
      → find name ≡ some d
      → is_writable d.id ≡ true
      → kind_of d.id ≡ boolean
      → (line : Text) × Sends line c n (set_bool name b c n)
        × (v' : ValueRegistry R) × (Server.handle_line {W = Text} line now_us v []
            ≡ some (true, v', []))
        × (line' : Text) × (write_value_line name v' [] ≡ (true, line'))
        × (read_bool name (handle_line line' mirror) ≡ some b)
  set_bool-Relayed c n name b d now_us v mirror on on' e w k =
      let (line, sent, v', handled, reads) = set_bool-Received c n name b d now_us v [] on e w k in
      let (row, same) = find-Row name d e in
      let written =
        write_value_line-bool d v' b [] row k (ap (λ (t : Text). read_bool t v') same ∙ reads) in
      (
        line,
        sent,
        v',
        handled,
        record_line name (json_bool b),
        ap (λ (t : Text). write_value_line t v' []) (sym same)
            ∙ written
            ∙ ap (λ (t : Text). (true, record_line t (json_bool b))) same,
        ap (λ (t : Text). read_bool t (handle_line (record_line t (json_bool b)) mirror)) (sym same)
            ∙ handle_line-bool d b mirror row k on',
      )
