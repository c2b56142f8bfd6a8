-- ===== src/Exchange/Whole.antt =====
-- A text that is whole lines, through the client's line reader: `consume` of
-- src/async_event_loop/protocol_reader.hpp and `handle_line` of src/pypilot/client.cpp.
use pypilot_cxx.Prelude.{
  ℕ, ◌≤◌, ◌≡◌, ◌≢◌, refl, sym, ap, ◌∙◌, inl, inr, true, none, some, List, [], ◌∷◌, ◌++◌, map,
  length, All, Bool-cases, ==_iff,
}
use mathlib.Core.List.{append_assoc}
use mathlib.Core.Path.{subst}
use pypilot_cxx.Prelude.Text.{Text, ends_with, init}
use pypilot_cxx.Float.{Float}
use pypilot_cxx.Trim.{is_space, trim_view}
use pypilot_cxx.Trim.Ends.{trim_back-space, trim_view-trim_back}
use pypilot_cxx.LineReader
use pypilot_cxx.LineReader.{default_options, emitted, LineProtocolReader}
use pypilot_cxx.LineReader.Framing.{Holds, stream, poll-stream, poll-append}
use pypilot_cxx.LineReader.Emptied.{poll-empties}
use pypilot_cxx.Values.Fields.{FieldId}
use pypilot_cxx.Values.Access.{ValueRegistry}
use pypilot_cxx.Values.Lines.Appended.{line_of, joined}
use pypilot_cxx.Values.Writer.{string_writer}
use pypilot_cxx.Client.Pending.{max_line_size}
use pypilot_cxx.Client.Records.{parse_record-trimmed}
use pypilot_cxx.Client.Callbacks.{mirror, handle_line, handle_lines}

ends_with-init : (c : ℕ) (s : Text) → ends_with c s ≡ true → s ≡ init s ++ c ∷ []
unfolding ends_with init
ends_with-init c [] h = cc
ends_with-init c (x ∷ []) h = ap (λ (y : ℕ). y ∷ []) ((==_iff x c).0 h)
ends_with-init c (x ∷ y ∷ s) h = ap (λ t. x ∷ t) (ends_with-init c (y ∷ s) h)

trim_view-space : (s : Text) (c : ℕ) → is_space c ≡ true → trim_view (s ++ c ∷ []) ≡ trim_view s
trim_view-space s c h =
    sym (trim_view-trim_back (s ++ c ∷ []))
    ∙ ap trim_view (trim_back-space s c h)
    ∙ trim_view-trim_back s

-- The carriage return that the reader takes off does not show.
trim_view-emitted : (s : Text) → trim_view (emitted default_options s) ≡ trim_view s
unfolding emitted is_space
trim_view-emitted s = elim (Bool-cases (ends_with 13 s)) [
  | inl cut ↦
      rw cut (sym (trim_view-space (init s) 13 refl) ∙ ap trim_view (sym (ends_with-init 13 s cut)))
  | inr whole ↦ rw whole refl
]

-- A line with its line feed, which the client's buffer holds.
abbrev pub IsWhole : Text → Type 0
IsWhole line =
    (body : Text) × (line ≡ body ++ b'\n' ∷ [])
    × All (λ c. c ≢ b'\n') body
    × (length body ≤ max_line_size)

module _ {R : Type 0} ⦃fl : Float R⦄ where
  handle_line-trimmed :
      (s t : Text) (m : ValueRegistry R)
      → trim_view s ≡ trim_view t
      → handle_line s m ≡ handle_line t m
  unfolding handle_line
  handle_line-trimmed s t m e =
      ap (λ o. elim o as (λ _. ValueRegistry R) [ none ↦ m | some r ↦ mirror r m ])
        (parse_record-trimmed s t e)

  handle_line-emitted :
      (s : Text) (m : ValueRegistry R)
      → handle_line (emitted default_options s) m ≡ handle_line (s ++ b'\n' ∷ []) m
  unfolding is_space
  handle_line-emitted s m =
      handle_line-trimmed (emitted default_options s) (s ++ b'\n' ∷ []) m
        (trim_view-emitted s ∙ sym (trim_view-space s b'\n' refl))

  pub handle_lines-append :
      (xs ys : List Text) (m : ValueRegistry R)
      → handle_lines (xs ++ ys) m ≡ handle_lines ys (handle_lines xs m)
  unfolding handle_lines
  handle_lines-append [] ys m = refl
  handle_lines-append (x ∷ xs) ys m = handle_lines-append xs ys (handle_line x m)

  abbrev Bodies : ValueRegistry R → List FieldId → List Text → Type 0
  Bodies v fields bodies =
      (joined (map (line_of v) fields) ≡ stream max_line_size default_options bodies)
      × All (λ body. All (λ c. c ≢ b'\n') body × (length body ≤ max_line_size)) bodies
      × ((m : ValueRegistry R)
          → handle_lines (map (emitted default_options) bodies) m
            ≡ handle_lines (map (line_of v) fields) m)

  line_of-Bodies :
      (v : ValueRegistry R) (fields : List FieldId)
      → All (λ id. IsWhole (line_of v id)) fields
      → (bodies : List Text) × Bodies v fields bodies
  unfolding handle_lines
  line_of-Bodies v [] h = ([], (refl, tt, λ m. refl))
  line_of-Bodies v (id ∷ fields) ((body, ends, clean, fits), h) =
      let (bodies, (joins, all, handled)) = line_of-Bodies v fields h in
      (
        body ∷ bodies,
        (
          ap (λ t. t ++ joined (map (line_of v) fields)) ends
              ∙ append_assoc body (b'\n' ∷ []) (joined (map (line_of v) fields))
              ∙ ap (λ t. body ++ b'\n' ∷ t) joins,
          ((clean, fits), all),
          λ m.
              handled (handle_line (emitted default_options body) m)
              ∙ ap (handle_lines (map (line_of v) fields))
                  (handle_line-emitted body m ∙ ap (λ t. handle_line t m) (sym ends)),
        ),
      )

  -- The reader hands out whole lines, and the client does with them what it does with the lines as
  -- they were written.
  pub whole_lines :
      (fields : List FieldId) (v m : ValueRegistry R) (r : LineProtocolReader)
      → All (λ id. IsWhole (line_of v id)) fields
      → Holds max_line_size default_options [] r
      → handle_lines (LineReader.poll max_line_size (joined (map (line_of v) fields)) r).0 m
        ≡ handle_lines (map (line_of v) fields) m
  whole_lines fields v m r h held =
      let (bodies, (joins, all, handled)) = line_of-Bodies v fields h in
      ap (λ t. handle_lines (LineReader.poll max_line_size t r).0 m) joins
      ∙ ap (λ ts. handle_lines ts m) (poll-stream max_line_size default_options bodies r all held)
      ∙ handled m

  -- Whole lines leave the buffer empty.
  pub whole_lines-empties :
      (fields : List FieldId) (v : ValueRegistry R) (r : LineProtocolReader)
      → All (λ id. IsWhole (line_of v id)) fields
      → Holds max_line_size default_options [] r
      → Holds max_line_size default_options []
          (LineReader.poll max_line_size (joined (map (line_of v) fields)) r).1
  unfolding LineReader.poll
  whole_lines-empties [] v r h held = held
  whole_lines-empties (id ∷ fields) v r ((body, ends, clean, fits), h) held =
      let line = line_of v id in
      let first =
        subst (λ t. Holds max_line_size default_options [] (LineReader.poll max_line_size t r).1)
          (sym ends) (poll-empties max_line_size body r default_options held.1) in
      subst (λ (x : List Text × LineProtocolReader). Holds max_line_size default_options [] x.1)
        (sym (poll-append max_line_size line (joined (map (line_of v) fields)) r))
        (whole_lines-empties fields v (LineReader.poll max_line_size line r).1 h first)
