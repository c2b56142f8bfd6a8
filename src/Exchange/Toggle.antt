-- ===== src/Exchange/Toggle.antt =====
-- What the server does with the line of `set_bool` of the client.
use pypilot_cxx.Prelude.{
  ℕ, ◌<◌, ◌≡◌, refl, ap, ◌∙◌, ◌≢◌, Bool, true, false, some, arith, if◌then◌else◌, length, All,
}
use pypilot_cxx.Prelude.Text.{Text, codes, text_eq}
use pypilot_cxx.Exchange.Words.{has_no_nul-All, find-IsName}
use pypilot_cxx.Float.{Float}
use pypilot_cxx.Trim.{trim_view, trim_front, trim_back, is_space}
use pypilot_cxx.Values.Fields.{boolean, Descriptor, find}
use pypilot_cxx.Values.Rows.{kind_of, is_writable, find-Row}
use pypilot_cxx.Values.Writer.{ValueWriter}
use pypilot_cxx.Values.Access.{ValueRegistry, set_from_wire, parse_bool, read_bool}
use pypilot_cxx.Values.Access.Wire.{set_from_wire-ReadsBack}
use pypilot_cxx.Server
use pypilot_cxx.Server.{handle_assignment}
use pypilot_cxx.Client.Session.{Tcp, PypilotClient, set_bool}
use pypilot_cxx.Exchange.Set.{record_line, Sends, set_value-Received, send_record-Sends}

abbrev pub json_bool : Bool → Text
json_bool b = if b then codes "true" else codes "false"

pub parse_bool-json : (b : Bool) → parse_bool (json_bool b) ≡ some b
unfolding parse_bool text_eq codes
parse_bool-json true = refl
parse_bool-json false = refl

pub trim_view-json : (b : Bool) → trim_view (json_bool b) ≡ json_bool b
unfolding trim_view trim_front trim_back is_space codes
trim_view-json true = refl
trim_view-json false = refl

no_nul-json : (b : Bool) → All (λ c. c ≢ 0) (json_bool b)
unfolding codes
no_nul-json true = has_no_nul-All (codes "true") refl
no_nul-json false = has_no_nul-All (codes "false") refl

length-json : (b : Bool) → length (json_bool b) < 171
unfolding codes
length-json true = omega arith
length-json false = omega arith

module _ {R : Type 0} ⦃fl : Float R⦄ where
  -- A write that succeeds is answered with nothing.
  handle_assignment-done :
      {W : Type 0} ⦃writer : ValueWriter W⦄ (name value : Text) (v : ValueRegistry R) (out : W)
      → (set_from_wire name value true v).0 ≡ true
      → handle_assignment name value v out ≡ (true, (set_from_wire name value true v).1, out)
  unfolding handle_assignment
  handle_assignment-done name value v out h = rw h refl

  bool-ReadsBack :
      (name : Text) (b : Bool) (d : Descriptor R) (v : ValueRegistry R)
      → v.attached ≡ true
      → find name ≡ some d
      → is_writable d.id ≡ true
      → kind_of d.id ≡ boolean
      → let (done, v') = set_from_wire name (json_bool b) true v in
        (done ≡ true) × (read_bool name v' ≡ some b)
  bool-ReadsBack name b d v on e w k =
      let r = set_from_wire-ReadsBack name (json_bool b) v d on e w in
      rw (k, parse_bool-json b, (find-Row name d e).1) at r

module _ {R C N : Type 0} ⦃fl : Float R⦄ ⦃tcp : Tcp N⦄ (c : PypilotClient R C) (n : N) where
  -- A Boolean that a client sets.
  pub set_bool-Received :
      {W : Type 0} ⦃writer : ValueWriter W⦄ (name : Text) (b : Bool) (d : Descriptor R) (now_us : ℕ)
      (v : ValueRegistry R) (out : W)
      → v.attached ≡ true
      → find name ≡ some d
      → is_writable d.id ≡ true
      → kind_of d.id ≡ boolean
      → (line : Text) × Sends line c n (set_bool name b c n)
        × (v' : ValueRegistry R) × (Server.handle_line line now_us v out ≡ some (true, v', out))
        × (read_bool name v' ≡ some b)
  unfolding set_bool
  set_bool-Received name b d now_us v out on e w k =
      let (done, reads) = bool-ReadsBack name b d v on e w k in
      let (sent, handled) =
        set_value-Received c n name (json_bool b) d now_us v out e (no_nul-json b)
          (length-json b) in
      let made =
        send_record-Sends c n name (json_bool b) (find-IsName name d e) (no_nul-json b)
          (length-json b) in
      (
        record_line name (json_bool b),
        made,
        (set_from_wire name (json_bool b) true v).1,
        handled
            ∙ ap some (
                ap (λ t. handle_assignment name t v out) (trim_view-json b)
                ∙ handle_assignment-done name (json_bool b) v out done),
        reads,
      )
