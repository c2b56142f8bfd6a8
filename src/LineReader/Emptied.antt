-- ===== src/LineReader/Emptied.antt =====
-- What the line reader holds behind a delimiter.
use pypilot_cxx.Prelude.{
  ℕ, ◌≡◌, refl, sym, ◌∙◌, inl, inr, List, [], ◌∷◌, ◌++◌, ◌==◌, leb, length, Bool-cases,
}
use mathlib.Core.Path.{subst}
use pypilot_cxx.Prelude.Text.{Text}
use pypilot_cxx.LineReader.{
  LineProtocolOptions, LineProtocolReader, consume, count_byte, emit_line, poll,
}
use pypilot_cxx.LineReader.Framing.{Holds, poll-append, consume-delimiter}

consume-options : (size c : ℕ) (r : LineProtocolReader) → (consume size c r).1.options ≡ r.options
unfolding consume emit_line
consume-options size c r = elim (Bool-cases (c == r.options.delimiter)) [
  | inl ends ↦ rw ends refl
  | inr other ↦ elim (Bool-cases (leb size (length r.buffer))) [
    | inl full ↦ rw (other, full) refl
    | inr room ↦ rw (other, room) refl
  ]
]

poll-options :
    (size : ℕ) (cs : Text) (r : LineProtocolReader) → (poll size cs r).1.options ≡ r.options
unfolding poll
poll-options size [] r = refl
poll-options size (c ∷ cs) r =
    poll-options size cs (consume size c (count_byte r)).1 ∙ consume-options size c (count_byte r)

-- A stream that ends with the delimiter leaves the buffer empty.
pub poll-empties :
    (size : ℕ) (cs : Text) (r : LineProtocolReader) (o : LineProtocolOptions)
    → r.options ≡ o
    → Holds size o [] (poll size (cs ++ o.delimiter ∷ []) r).1
unfolding poll
poll-empties size cs r o e =
    let r' = count_byte (poll size cs r).1 in
    let same : r'.options ≡ o = poll-options size cs r ∙ e in
    subst (λ (x : List Text × LineProtocolReader). Holds size o [] x.1)
      (sym (poll-append size cs (o.delimiter ∷ []) r))
      (consume-delimiter size o r'.buffer r' (refl, same)).1
