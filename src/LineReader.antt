-- ===== src/LineReader.antt =====
-- src/async_event_loop/protocol_reader.hpp: lines out of a stream of bytes. The stream is a parameter
-- of `poll`; the callback's calls are the list of lines that a run emits, in order.
pub mod Framing
pub mod Emptied
use pypilot_cxx.Prelude.Text.{Text, ends_with, init}
use pypilot_cxx.Prelude.{
  ℕ, ◌+◌, ◌%◌, ◌^◌, Bool, true, ◌&&◌, Option, none, some, List, [], ◌∷◌, ◌++◌, leb, ◌==◌,
  if◌then◌else◌, length,
}

pub record LineProtocolOptions : Type 0 where
  pub delimiter : ℕ
  pub strip_cr : Bool
  pub drop_overflow : Bool

abbrev pub default_options : LineProtocolOptions
default_options = record { delimiter = 10; strip_cr = true; drop_overflow = true }

-- `uint32_t` counters wrap.
pub record ProtocolReaderStats : Type 0 where
  pub messages : ℕ
  pub bytes : ℕ
  pub overflows : ℕ

abbrev pub increment : ℕ → ℕ
increment n = (n + 1) % 2 ^ 32

-- `buffer` is `buffer_[0 .. size_)`. The array's bytes from `size_` on are never read.
pub record LineProtocolReader : Type 0 where
  pub options : LineProtocolOptions
  pub buffer : Text
  pub stats : ProtocolReaderStats

abbrev pub no_stats : ProtocolReaderStats
no_stats = record { messages = 0; bytes = 0; overflows = 0 }

unfoldable pub reset : LineProtocolReader → LineProtocolReader
reset r = record r { buffer = []; stats = no_stats }

-- `if (strip_cr && len > 0 && buffer_[len - 1] == '\r') --len;`
unfoldable pub emitted : LineProtocolOptions → Text → Text
emitted o line = if o.strip_cr && ends_with 13 line then init line else line

-- `emit_line`: the line that the callback gets, beside the reader after the call.
unfoldable pub emit_line : LineProtocolReader → Text × LineProtocolReader
emit_line r = (
  emitted r.options r.buffer,
  record r { buffer = []; stats = record r.stats { messages = increment r.stats.messages } },
)

-- `consume(c)` with `BufferSize` = `size`: the line that it emits, if any.
unfoldable pub consume : ℕ → ℕ → LineProtocolReader → Option Text × LineProtocolReader
consume size c r =
    if c == r.options.delimiter
    then (some (emit_line r).0, (emit_line r).1)
    else if leb size (length r.buffer)
    then (
      none,
      record r {
        buffer = if r.options.drop_overflow then [] else r.buffer;
        stats = record r.stats { overflows = increment r.stats.overflows };
      },
    )
    else (none, record r { buffer = r.buffer ++ c ∷ [] })

abbrev pub emit : Option Text → List Text → List Text
emit none lines = lines
emit (some line) lines = line ∷ lines

abbrev pub count_byte : LineProtocolReader → LineProtocolReader
count_byte r = record r { stats = record r.stats { bytes = increment r.stats.bytes } }

-- The loop of `poll` over the bytes that the stream hands out one at a time until it has none or
-- fails: the lines emitted, and the reader at the end.
unfoldable pub poll : ℕ → Text → LineProtocolReader → List Text × LineProtocolReader
poll size [] r = ([], r)
poll size (c ∷ cs) r =
    let (line, r') = consume size c (count_byte r) in
    let (lines, r'') = poll size cs r' in (emit line lines, r'')
