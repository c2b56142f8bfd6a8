-- ===== src/Values/Lines/Appended.antt =====
-- A line written to a string is appended to it, whatever the string.
use pypilot_cxx.Prelude.{
  ◌-◌, ◌≡◌, refl, sym, ap, ◌∙◌, Bool, true, false, ◌||◌, Option, none, some, List, [], ◌∷◌, ◌++◌,
  map, ltb, ◌==◌, if◌then◌else◌, length, take,
}
use mathlib.Core.List.{append_assoc, append-nil}
use mathlib.Core.Path.{subst}
use pypilot_cxx.Prelude.Text.{Text, codes}
use pypilot_cxx.Float.{Float}
use pypilot_cxx.Values.Fields.{Kind, real, boolean, string, FieldId, Descriptor, find, descriptor}
use pypilot_cxx.Values.Rows.{descriptor-some, descriptor-Row}
use pypilot_cxx.Values.Writer.{
  string_writer, Emit, succeed, ◌&&>◌, write_bool, write_real, write_escaped, write_json_string,
}
use pypilot_cxx.Values.Access.{ValueRegistry, read_real_id, read_bool_id, read_string_id}
use pypilot_cxx.Values.Lines.{write_value_line_id}
use pypilot_cxx.Values.Lines.Steady.{write_lines, written, write_found-written, line-parts}

pub record Appends (m : Emit Text) : Type 0 where
  pub done : Bool
  pub text : Text
  pub appends : (out : Text) → m out ≡ (done, out ++ text)

succeed-Appends : (b : Bool) → Appends (succeed b)
succeed-Appends b = record { done = b; text = []; appends = λ out. rw append-nil refl }

write-Appends : (t : Text) → Appends (string_writer.write t)
write-Appends t = record { done = true; text = t; appends = λ out. refl }

then-Appends : {m k : Emit Text} → Appends m → Appends k → Appends (m &&> k)
then-Appends {m} {k} h g = go h.done h.text h.appends
  where
    go : (b : Bool) (t : Text) → ((out : Text) → m out ≡ (b, out ++ t)) → Appends (m &&> k)
    go true t e = record {
      done = g.done;
      text = t ++ g.text;
      appends = λ out. rw (e out) (g.appends (out ++ t) ∙ rw append_assoc refl);
    }
    go false t e = record { done = false; text = t; appends = λ out. rw (e out) refl }

if-Appends : {m k : Emit Text} (b : Bool) → Appends m → Appends k → Appends (if b then m else k)
if-Appends true h g = h
if-Appends false h g = g

write_escaped-Appends : (t : Text) → Appends (write_escaped t)
unfolding write_escaped
write_escaped-Appends [] = write-Appends (b'"' ∷ [])
write_escaped-Appends (c ∷ t) =
    then-Appends
      (if-Appends (c == b'"' || c == b'\\') (write-Appends (b'\\' ∷ [])) (succeed-Appends true))
      (then-Appends (write-Appends (c ∷ [])) (write_escaped-Appends t))

write_json_string-Appends : (t : Text) → Appends (write_json_string t)
unfolding write_json_string
write_json_string-Appends t = then-Appends (write-Appends (b'"' ∷ [])) (write_escaped-Appends t)

abbrev pub joined : List Text → Text
joined [] = []
joined (t ∷ ts) = t ++ joined ts

module _ {R : Type 0} ⦃fl : Float R⦄ where
  write_real-Appends : (x : R) → Appends (write_real x)
  unfolding write_real
  write_real-Appends x =
      let text = fl.fixed4 x in
      if-Appends (length text == 0) (succeed-Appends false) (
        if-Appends (ltb (length text) 32) (write-Appends text)
          (write-Appends (take 31 text ++ 0 ∷ fl.behind (length text - 32))))

  written-Appends :
      (k : Kind) (x : Option R) (b : Option Bool) (s : Option Text) → Appends (written k x b s)
  unfolding write_bool
  written-Appends real none b s = succeed-Appends false
  written-Appends real (some x) b s = write_real-Appends x
  written-Appends boolean x none s = succeed-Appends false
  written-Appends boolean x (some b) s = write-Appends (if b then codes "true" else codes "false")
  written-Appends string x b none = succeed-Appends false
  written-Appends string x b (some s) = write_json_string-Appends s

  -- Whatever the field and its value, its line begins with its name and an equals sign.
  pub line-Appends :
      (id : FieldId) (d : Descriptor R) (v : ValueRegistry R)
      → descriptor id ≡ some d
      → find d.name ≡ some d
      → (done : Bool) × (rest : Text) × ((out : Text)
          → write_value_line_id id v out ≡ (done, out ++ (d.name ++ b'=' ∷ rest)))
  line-Appends id d v e f =
      let value = subst Appends (sym (write_found-written d v)) (
        written-Appends d.kind (read_real_id d.id v) (read_bool_id d.id v)
          (read_string_id d.id v)) in
      let behind = then-Appends value (write-Appends (b'\n' ∷ [])) in
      (
        behind.done,
        behind.text,
        λ out.
            ap (λ (m : Emit Text). m out) (line-parts id d v e f)
            ∙ behind.appends ((out ++ d.name) ++ b'=' ∷ [])
            ∙ ap (λ (t : Text). (behind.done, t)) (simp append_assoc refl),
      )

  -- The line of a field.
  abbrev pub line_of : ValueRegistry R → FieldId → Text
  line_of v id = (write_value_line_id id v []).1

  pub line_of-lem :
      (v : ValueRegistry R) (id : FieldId) (out : Text)
      → (write_value_line_id id v out).1 ≡ out ++ line_of v id
  line_of-lem v id out =
      let (d, e) = descriptor-some id in
      let (done, rest, appends) = line-Appends id d v e (descriptor-Row id d e).0.by_name in
      ap (λ (x : Bool × Text). x.1) (appends out)
      ∙ ap (λ (x : Bool × Text). out ++ x.1) (sym (appends []))

  -- Lines one behind the other.
  pub write_lines-joined :
      (v : ValueRegistry R) (ids : List FieldId) (out : Text)
      → write_lines v ids out ≡ out ++ joined (map (line_of v) ids)
  write_lines-joined v [] out = rw append-nil refl
  write_lines-joined v (id ∷ ids) out =
      write_lines-joined v ids (write_value_line_id id v out).1
      ∙ ap (λ (t : Text). t ++ joined (map (line_of v) ids)) (line_of-lem v id out)
      ∙ append_assoc out (line_of v id) (joined (map (line_of v) ids))
