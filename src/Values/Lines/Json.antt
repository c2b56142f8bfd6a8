-- ===== src/Values/Lines/Json.antt =====
-- Strings in the protocol's output: a reader of quoted strings gets back what was written.
use pypilot_cxx.Prelude.{
  ℕ, ◌≡◌, refl, ◌∙◌, inl, inr, Bool, true, false, ◌||◌, Option, none, some, [], ◌∷◌, ◌++◌, arith,
  ◌==◌, if◌then◌else◌, Bool-cases,
}
use mathlib.Core.List.{append_assoc}
use pypilot_cxx.Prelude.Text.{Text}
use pypilot_cxx.Values.Writer.{string_writer, write_escaped, write_json_string}

-- A reader of a quoted string behind its first quote: a backslash stands for the byte behind it, and
-- the first other quote ends the string. The string, and what follows it.
abbrev read_more : ℕ → Option (Text × Text) → Option (Text × Text)
read_more c none = none
read_more c (some (s, rest)) = some (c ∷ s, rest)

-- The flag says that the byte before was a backslash that stands for nothing itself.
read_from : Bool → Text → Option (Text × Text)
read_from escaped [] = none
read_from true (c ∷ s) = read_more c (read_from false s)
read_from false (c ∷ s) =
    let behind = read_from true s in
    let plain = read_more c (read_from false s) in
    if c == b'"' then some ([], s) else if c == b'\\' then behind else plain

pub read_quoted : Text → Option (Text × Text)
read_quoted s = read_from false s

-- What the writer puts between the quotes.
abbrev pub escape : Text → Text
escape [] = []
escape (c ∷ s) = if c == b'"' || c == b'\\' then b'\\' ∷ c ∷ escape s else c ∷ escape s

pub write_escaped-escape :
    (s out : Text) → write_escaped s out ≡ (true, out ++ (escape s ++ b'"' ∷ []))
unfolding write_escaped
write_escaped-escape [] out = refl
write_escaped-escape (c ∷ s) out = elim (Bool-cases (c == b'"' || c == b'\\')) [
  | inl special ↦
      rw special (write_escaped-escape s ((out ++ b'\\' ∷ []) ++ c ∷ []) ∙ simp append_assoc)
  | inr plain ↦ rw plain (write_escaped-escape s (out ++ c ∷ []) ∙ simp append_assoc)
]

read_from-escape : (s rest : Text) → read_from false (escape s ++ b'"' ∷ rest) ≡ some (s, rest)
unfolding read_from
read_from-escape [] rest = refl
read_from-escape (c ∷ s) rest = elim (Bool-cases (c == b'"' || c == b'\\')) [
  | inl special ↦ rw (special, read_from-escape s rest)
  | inr plain ↦ rw (plain, read_from-escape s rest) (ground arith)
]

-- Whatever bytes a string has, the text that is written for it reads back as the string, and what
-- is written behind it is left to be read.
pub write_json_string-read_quoted :
    (s out rest : Text)
    → (text : Text) × (write_json_string s out ≡ (true, out ++ b'"' ∷ text))
      × (read_quoted (text ++ rest) ≡ some (s, rest))
unfolding write_json_string read_quoted
write_json_string-read_quoted s out rest = (
  escape s ++ b'"' ∷ [],
  write_escaped-escape s (out ++ b'"' ∷ []) ∙ simp append_assoc,
  rw append_assoc (read_from-escape s rest),
)
