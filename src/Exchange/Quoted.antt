-- ===== src/Exchange/Quoted.antt =====
-- The lines in which the server writes strings, as the client reads them: `write_json_string` puts
-- backslashes before quotes and backslashes, and `strip_quotes` takes off the two outer quotes.
use pypilot_cxx.Prelude.{
  ℕ, ◌+◌, ◌≡◌, refl, sym, ap, ◌∙◌, ◌↔◌, inl, inr, Bool, true, false, ◌||◌, some, [], ◌∷◌, ◌++◌,
  arith, leb, ◌==◌, if◌then◌else◌, Bool-cases, length, length-append,
}
use mathlib.Core.List.{append_assoc}
use pypilot_cxx.Prelude.Text.{Text, ends_with, init}
use pypilot_cxx.Float.{Float}
use pypilot_cxx.Trim.{is_space, trim_view, trim_front, trim_back}
use pypilot_cxx.Trim.Ends.{trim_back-append}
use pypilot_cxx.Values.Fields.{string, Descriptor, find}
use pypilot_cxx.Values.Rows.{Row, kind_of, find-Row}
use pypilot_cxx.Values.Writer.{string_writer, Emit, ◌&&>◌, write_char, write_json_string}
use pypilot_cxx.Values.Access.{
  ValueRegistry, read_string, read_string_id, set_from_wire, strip_quotes,
}
use pypilot_cxx.Values.Access.Wire.{set_parsed-ReadsBack, read_string-found}
use pypilot_cxx.Values.Access.Frame.{set_from_wire-allowed}
use pypilot_cxx.Values.Lines.{write_found, write_value_line}
use pypilot_cxx.Values.Lines.Json.{escape, write_escaped-escape}
use pypilot_cxx.Values.Lines.Partial.{line-found}
use pypilot_cxx.Client.Callbacks.{handle_line}
use pypilot_cxx.Exchange.Words.{find-IsName}
use pypilot_cxx.Exchange.Assign.{handle_line-mirror}
use pypilot_cxx.Exchange.Set.{record_line, trim_view-newline}
use pypilot_cxx.Exchange.Mirror.{line_parts}

-- The quotes and backslashes of a text.
abbrev pub specials : Text → ℕ
specials [] = 0
specials (c ∷ s) = (if c == b'"' || c == b'\\' then 1 else 0) + specials s

length-escape : (s : Text) → length (escape s) ≡ specials s + length s
length-escape [] = refl
length-escape (c ∷ s) = elim (Bool-cases (c == b'"' || c == b'\\')) [
  | inl special ↦ rw special (omega (arith, length-escape s))
  | inr plain ↦ rw plain (omega (arith, length-escape s))
]

escape-plain : (s : Text) → specials s ≡ 0 → escape s ≡ s
escape-plain [] h = refl
escape-plain (c ∷ s) h = elim (Bool-cases (c == b'"' || c == b'\\')) [
  | inl special ↦
      let none = ap (λ (b : Bool). (if b then 1 else 0) + specials s) (sym special) ∙ h in
      absurd (omega (arith, none))
  | inr plain ↦
      let none = ap (λ (b : Bool). (if b then 1 else 0) + specials s) (sym plain) ∙ h in
      rw plain (ap (λ t. c ∷ t) (escape-plain s (omega (arith, none))))
]

abbrev pub quoted : Text → Text
quoted s = b'"' ∷ (escape s ++ b'"' ∷ [])

ends_with-last : (c : ℕ) (s : Text) → ends_with c (s ++ c ∷ []) ≡ true
unfolding ends_with
ends_with-last c [] = ground arith
ends_with-last c (x ∷ []) = ground arith
ends_with-last c (x ∷ y ∷ s) = ends_with-last c (y ∷ s)

init-last : (c : ℕ) (s : Text) → init (s ++ c ∷ []) ≡ s
unfolding init
init-last c [] = refl
init-last c (x ∷ []) = refl
init-last c (x ∷ y ∷ s) = ap (λ t. x ∷ t) (init-last c (y ∷ s))

strip_quotes-quoted : (s : Text) → strip_quotes (quoted s) ≡ escape s
unfolding strip_quotes
strip_quotes-quoted s =
    let fits : leb 2 (length (quoted s)) ≡ true =
      ground (arith, length-append (escape s) (b'"' ∷ [])) in
    rw (fits, ends_with-last b'"' (b'"' ∷ escape s)) (init-last b'"' (escape s))

trim_view-quoted : (s : Text) → trim_view (quoted s) ≡ quoted s
unfolding trim_view trim_front is_space trim_back
trim_view-quoted s = trim_back-append (b'"' ∷ escape s) b'"' [] refl

-- A text is escaped to itself exactly if it has no quotes and no backslashes.
escape-fixed : (s : Text) → (escape s ≡ s) ↔ (specials s ≡ 0)
escape-fixed s =
    (λ same. omega (arith, ap (λ (t : Text). length t) same, length-escape s), escape-plain s)

write_json_string-quoted : (s out : Text) → write_json_string s out ≡ (true, out ++ quoted s)
unfolding write_json_string
write_json_string-quoted s out = write_escaped-escape s (out ++ b'"' ∷ []) ∙ simp append_assoc

module _ {R : Type 0} ⦃fl : Float R⦄ where
  write_found-string :
      (d : Descriptor R) (v : ValueRegistry R) (s : Text)
      → d.kind ≡ string
      → read_string_id d.id v ≡ some s
      → write_found {W = Text} d v ≡ write_json_string s
  unfolding write_found
  write_found-string d v s k e = simp (k, write_found, e) refl

  pub write_value_line-string :
      (d : Descriptor R) (v : ValueRegistry R) (s out : Text)
      → Row d
      → kind_of d.id ≡ string
      → read_string d.name v ≡ some s
      → write_value_line d.name v out ≡ (true, out ++ record_line d.name (quoted s))
  unfolding write_value_line
  write_value_line-string d v s out r k e =
      let found =
        write_found-string d v s (r.kind_right ∙ k) (sym (read_string-found d r.by_name v) ∙ e) in
      simp (r.by_name, write_value_line)
        (line-found d.id d v out r.by_id r.by_name
          ∙ ap (λ (m : Emit Text). (m &&> write_char b'\n') ((out ++ d.name) ++ b'=' ∷ [])) found
          ∙ ap (λ (x : Bool × Text). if x.0 then write_char b'\n' x.1 else (false, x.1))
              (write_json_string-quoted s ((out ++ d.name) ++ b'=' ∷ []))
          ∙ ap (λ (t : Text). (true, t)) (line_parts out d.name (quoted s)))

  pub handle_line-string :
      (d : Descriptor R) (s : Text) (m : ValueRegistry R)
      → Row d
      → kind_of d.id ≡ string
      → m.attached ≡ true
      → read_string d.name (handle_line (record_line d.name (quoted s)) m) ≡ some (escape s)
  handle_line-string d s m r k on =
      let reads = set_parsed-ReadsBack d (quoted s) m on r in
      let value = trim_view-newline (quoted s) ∙ trim_view-quoted s in
      let written =
        handle_line-mirror d.name (quoted s ++ b'\n' ∷ []) (find-IsName d.name d r.by_name) m
        ∙ ap (λ (t : Text). (set_from_wire d.name t false m).1) value
        ∙ ap (λ (x : Bool × ValueRegistry R). x.1)
            (set_from_wire-allowed d.name (quoted s) false m d r.by_name refl) in
      let back = rw (k, strip_quotes-quoted s) at reads in ap (read_string d.name) written ∙ back.1

  -- The server writes the line of a string whatever its bytes; a client that handles the line reads
  -- the string with a backslash before each quote and each backslash, which is the server's string
  -- exactly if it has none of them. The client has a state attached.
  pub write_value_line-Escaped :
      (name : Text) (d : Descriptor R) (v m : ValueRegistry R) (s : Text)
      → find name ≡ some d
      → kind_of d.id ≡ string
      → read_string name v ≡ some s
      → m.attached ≡ true
      → (line : Text) × (write_value_line name v [] ≡ (true, line))
        × (read_string name (handle_line line m) ≡ some (escape s))
        × ((escape s ≡ s) ↔ (specials s ≡ 0))
  write_value_line-Escaped name d v m s e k r on =
      let (row, same) = find-Row name d e in
      (
        record_line name (quoted s),
        ap (λ t. write_value_line t v []) (sym same)
            ∙ write_value_line-string d v s [] row k (ap (λ t. read_string t v) same ∙ r)
            ∙ ap (λ t. (true, record_line t (quoted s))) same,
        ap (λ t. read_string t (handle_line (record_line t (quoted s)) m)) (sym same)
            ∙ handle_line-string d s m row k on,
        escape-fixed s,
      )
