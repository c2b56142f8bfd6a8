-- ===== src/LineReader/Framing.antt =====
-- What the line reader emits: the lines of the stream, while they fit the buffer.
use pypilot_cxx.Prelude.{
  ℕ, ◌+◌, ◌≤◌, ◌<◌, ◌≡◌, refl, ap, ◌∙◌, ◌≢◌, true, Option, none, some, List, [], ◌∷◌, ◌++◌, map,
  arith, ==_refl, length, All, length-append,
}
use mathlib.Core.List.{append_assoc, append-nil}
use pypilot_cxx.Prelude.Text.{Text, length-init}
use pypilot_cxx.LineReader.{
  LineProtocolOptions, LineProtocolReader, emitted, emit_line, consume, emit, count_byte, poll,
}

-- The buffer never holds more than its array.
abbrev pub Fits : ℕ → LineProtocolReader → Type 0
Fits size r = length r.buffer ≤ size

consume-Fits : (size c : ℕ) (r : LineProtocolReader) → Fits size r → Fits size (consume size c r).1
unfolding consume emit_line
consume-Fits size c r h = ground (arith, length-append r.buffer (c ∷ []))

length-emitted : (o : LineProtocolOptions) (line : Text) → length (emitted o line) ≤ length line
unfolding emitted
length-emitted o line = ground (arith, length-init line)

consume-emits :
    (size c : ℕ) (r : LineProtocolReader) (line : Text)
    → Fits size r
    → (consume size c r).0 ≡ some line
    → length line ≤ size
unfolding consume emit_line
consume-emits size c r line h e = ground (arith, length-emitted r.options r.buffer)

emit-All :
    (size : ℕ) (o : Option Text) (lines : List Text)
    → ((line : Text) → o ≡ some line → length line ≤ size)
    → All (λ line. length line ≤ size) lines
    → All (λ line. length line ≤ size) (emit o lines)
emit-All size none lines h k = k
emit-All size (some line) lines h k = (h line refl, k)

-- Whatever the stream hands out, the buffer stays within its array and no line that is emitted is
-- longer than it.
pub poll-Fits :
    (size : ℕ) (cs : Text) (r : LineProtocolReader)
    → Fits size r
    → Fits size (poll size cs r).1 × All (λ line. length line ≤ size) (poll size cs r).0
unfolding poll
poll-Fits size [] r h = (h, tt)
poll-Fits size (c ∷ cs) r h =
    let r' = count_byte r in
    let (kept, lines) = poll-Fits size cs (consume size c r').1 (consume-Fits size c r' h) in
    (kept, emit-All size (consume size c r').0 _ (λ line. consume-emits size c r' line h) lines)

emit-append : (o : Option Text) (xs ys : List Text) → emit o (xs ++ ys) ≡ emit o xs ++ ys
emit-append none xs ys = refl
emit-append (some line) xs ys = refl

-- Reading a stream in two goes emits the lines that one go emits, and leaves the same reader.
pub poll-append :
    (size : ℕ) (xs ys : Text) (r : LineProtocolReader)
    → poll size (xs ++ ys) r ≡ (
      (poll size xs r).0 ++ (poll size ys (poll size xs r).1).0,
      (poll size ys (poll size xs r).1).1,
    )
unfolding poll
poll-append size [] ys r = refl
poll-append size (c ∷ cs) ys r =
    let (line, r') = consume size c (count_byte r) in
    rw (poll-append size cs ys r') (
      ap (λ (t : List Text). (t, (poll size ys (poll size cs r').1).1))
        (emit-append line (poll size cs r').0 (poll size ys (poll size cs r').1).0))

module _ (size : ℕ) (o : LineProtocolOptions) where
  -- A reader with these options that holds `text`.
  abbrev pub Holds : Text → LineProtocolReader → Type 0
  Holds text r = (r.buffer ≡ text) × (r.options ≡ o)

  consume-other :
      (c : ℕ) (text : Text) (r : LineProtocolReader)
      → c ≢ o.delimiter
      → length text < size
      → Holds text r
      → ((consume size c r).0 ≡ none) × Holds (text ++ c ∷ []) (consume size c r).1
  unfolding consume
  consume-other c text r ne room (e, f) = rw (f, e) (ground arith)

  -- The bytes of a line that fits are stored, and nothing is emitted.
  poll-stores :
      (cs rest text : Text) (r : LineProtocolReader)
      → All (λ c. c ≢ o.delimiter) cs
      → length text + length cs ≤ size
      → Holds text r
      → (r' : LineProtocolReader) × Holds (text ++ cs) r'
        × ((poll size (cs ++ rest) r).0 ≡ (poll size rest r').0)
  unfolding poll
  poll-stores [] rest text r h room held = (r, rw append-nil held, refl)
  poll-stores (c ∷ cs) rest text r h room held =
      let (silent, held') = consume-other c text (count_byte r) h.0 (omega arith) held in
      let fits = length-append text (c ∷ []) in
      let (r', stored, same) =
        poll-stores cs rest (text ++ c ∷ []) (consume size c (count_byte r)).1 h.1 (omega arith)
          held' in
      (r', rw (append_assoc) at stored, rw silent same)

  pub consume-delimiter :
      (text : Text) (r : LineProtocolReader)
      → Holds text r
      → ((consume size o.delimiter r).0 ≡ some (emitted o text))
        × Holds [] (consume size o.delimiter r).1
  unfolding consume emit_line
  consume-delimiter text r (e, f) = rw (f, e, ==_refl o.delimiter) (refl, (refl, refl))

  -- A line that fits, with its delimiter, is emitted, and the rest is read with an empty buffer.
  poll-line :
      (line rest : Text) (r : LineProtocolReader)
      → All (λ c. c ≢ o.delimiter) line
      → length line ≤ size
      → Holds [] r
      → (r' : LineProtocolReader) × Holds [] r'
        × ((poll size (line ++ o.delimiter ∷ rest) r).0 ≡ emitted o line ∷ (poll size rest r').0)
  unfolding poll
  poll-line line rest r h room held =
      let (r', stored, same) = poll-stores line (o.delimiter ∷ rest) [] r h (omega arith) held in
      let (out, empty) = consume-delimiter line (count_byte r') stored in
      ((consume size o.delimiter (count_byte r')).1, empty, rw (same, out))

  -- The stream of some lines, each with its delimiter.
  abbrev pub stream : List Text → Text
  stream [] = []
  stream (line ∷ lines) = line ++ o.delimiter ∷ stream lines

  -- A stream of lines that fit the buffer is emitted line by line, in order, each with one carriage
  -- return taken off its end where the options ask for that.
  pub poll-stream :
      (lines : List Text) (r : LineProtocolReader)
      → All (λ line. All (λ c. c ≢ o.delimiter) line × (length line ≤ size)) lines
      → Holds [] r
      → (poll size (stream lines) r).0 ≡ map (emitted o) lines
  unfolding poll
  poll-stream [] r h held = refl
  poll-stream (line ∷ lines) r h held =
      let (r', empty, same) = poll-line line (stream lines) r h.0.0 h.0.1 held in
      same ∙ ap (λ (t : List Text). emitted o line ∷ t) (poll-stream lines r' h.1 empty)

  consume-overflow :
      (c : ℕ) (text : Text) (r : LineProtocolReader)
      → c ≢ o.delimiter
      → o.drop_overflow ≡ true
      → length text ≡ size
      → Holds text r
      → ((consume size c r).0 ≡ none) × Holds [] (consume size c r).1
  unfolding consume
  consume-overflow c text r ne dropped full (e, f) = rw (f, e, dropped) (ground arith)

  -- A line too long for the buffer is not dropped up to its delimiter: what stands behind the byte
  -- that did not fit is emitted as a line of its own.
  pub poll-overflow :
      (head : Text) (c : ℕ) (tail : Text) (r : LineProtocolReader)
      → o.drop_overflow ≡ true
      → All (λ x. x ≢ o.delimiter) head
      → length head ≡ size
      → c ≢ o.delimiter
      → All (λ x. x ≢ o.delimiter) tail
      → length tail ≤ size
      → Holds [] r
      → (poll size (head ++ c ∷ (tail ++ o.delimiter ∷ [])) r).0 ≡ emitted o tail ∷ []
  unfolding poll
  poll-overflow head c tail r dropped h full ne k room held =
      let (r', stored, same) =
        poll-stores head (c ∷ (tail ++ o.delimiter ∷ [])) [] r h (omega arith) held in
      let (silent, empty) = consume-overflow c head (count_byte r') ne dropped full stored in
      let (r'', _, last) = poll-line tail [] (consume size c (count_byte r')).1 k room empty in
      same ∙ (rw silent last)
