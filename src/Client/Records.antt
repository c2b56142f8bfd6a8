-- ===== src/Client/Records.antt =====
-- The records of src/pypilot/client.cpp: lines that are built in arrays of fixed size, and the
-- reading of a line. An array is the text before its NUL; `capacity` is its size.
pub mod Built
use pypilot_cxx.Prelude.{
  ℕ, ◌+◌, ◌≡◌, ap, true, ◌&&◌, ◌||◌, Option, none, some, [], ◌∷◌, ◌++◌, ltb, leb, ◌==◌,
  if◌then◌else◌, length, take,
}
use pypilot_cxx.Prelude.Text.{Text, codes, split_at, is_empty}
use pypilot_cxx.Float.{Float, whole}
use pypilot_cxx.Trim.{trim_view}
use pypilot_cxx.Values.Access.{until_nul}

pub record PypilotRecordView : Type 0 where
  pub name : Text
  pub json : Text

-- `!out.name.empty()` of the parts on the two sides of the equals sign.
abbrev named : Text → Text → Option PypilotRecordView
named name json = if is_empty name then none else some (record { name = name; json = json })

-- none is the result false.
unfoldable pub parse_record : Text → Option PypilotRecordView
parse_record line = elim (split_at b'=' (trim_view line)) [
  | none ↦ none
  | some (name, json) ↦ if is_empty name then none else named (trim_view name) (trim_view json)
]

-- A record depends on the line between its spaces.
pub parse_record-trimmed :
    (s t : Text) → trim_view s ≡ trim_view t → parse_record s ≡ parse_record t
unfolding parse_record
parse_record-trimmed s t e =
    ap
      (λ line. elim (split_at b'=' line) as (λ _. Option PypilotRecordView) [
        | none ↦ none
        | some (name, json) ↦
            if is_empty name then none else named (trim_view name) (trim_view json)
      ])
      e

-- `append_raw`: the bytes that still fit are appended, with room left for the NUL. `pos` is the
-- length of the text.
unfoldable pub append_raw : ℕ → Text → Text → Text
append_raw capacity out [] = out
append_raw capacity out (c ∷ s) =
    let rest = append_raw capacity (out ++ c ∷ []) s in
    if leb capacity (length out + 1) then out else rest

-- `while (*first == ' ') ++first;`
unfoldable pub skip_blanks : Text → Text
skip_blanks [] = []
skip_blanks (c ∷ s) = if c == b' ' then skip_blanks s else c ∷ s

-- `while (end > s && end[-1] == '0') --end;`: a digit stays if it is not 0 or if something behind it
-- stays.
abbrev keep_digit : ℕ → Text → Text
keep_digit c [] = if c == b'0' then [] else c ∷ []
keep_digit c (d ∷ s) = c ∷ d ∷ s

unfoldable pub drop_zeros : Text → Text
drop_zeros [] = []
drop_zeros (c ∷ s) = keep_digit c (drop_zeros s)

-- `if (end > s && end[-1] == '.') --end;`
unfoldable pub drop_point : Text → Text
drop_point [] = []
drop_point (c ∷ []) = if c == b'.' then [] else c ∷ []
drop_point (c ∷ d ∷ s) = c ∷ drop_point (d ∷ s)

-- The last test: nothing, or a sign only, gets a zero.
abbrev add_zero : Text → Text
add_zero [] = b'0' ∷ []
add_zero (c ∷ []) = if c == b'-' then c ∷ b'0' ∷ [] else c ∷ []
add_zero (c ∷ d ∷ s) = c ∷ d ∷ s

unfoldable pub trim_number : Text → Text
trim_number s = add_zero (drop_point (drop_zeros (skip_blanks s)))

-- `char number[32]` holds at most 31 of the bytes that `snprintf` formats.
unfoldable pub append_real : {R : Type 0} ⦃fl : Float R⦄ → ℕ → Text → R → Text
append_real ⦃fl⦄ capacity out value =
    append_raw capacity out (trim_number (take 31 (fl.fixed6 value)))

-- What the loop of `append_json_string` appends for one byte, call by call.
unfoldable pub append_escaped : ℕ → Text → ℕ → Text
append_escaped capacity out c =
    if c == b'"' || c == b'\\'
    then append_raw capacity (append_raw capacity out (b'\\' ∷ [])) (c ∷ [])
    else if c == b'\n'
    then append_raw capacity out (codes "\\n")
    else if c == b'\r'
    then append_raw capacity out (codes "\\r")
    else if c == b'\t'
    then append_raw capacity out (codes "\\t")
    else append_raw capacity out (c ∷ [])

unfoldable pub append_each : ℕ → Text → Text → Text
append_each capacity out [] = out
append_each capacity out (c ∷ s) = append_each capacity (append_escaped capacity out c) s

unfoldable pub append_json_string : ℕ → Text → Text → Text
append_json_string capacity out s =
    let opened = append_raw capacity out (codes "\"") in
    append_raw capacity (append_each capacity opened s) (codes "\"")

-- `return pos > 0 && pos + 1 < cap;`, beside the array.
abbrev complete : ℕ → Text → Option Text
complete capacity out =
    if ltb 0 (length out) && ltb (length out + 1) capacity then some out else none

unfoldable pub make_record_raw : ℕ → Text → Text → Option Text
make_record_raw capacity name json =
    let out = append_raw capacity (append_raw capacity [] name) (codes "=") in
    complete capacity (append_raw capacity (append_raw capacity out json) (codes "\n"))

unfoldable pub make_watch : ℕ → Text → Text → Option Text
make_watch capacity name period_json =
    let out = append_raw capacity (append_raw capacity [] (codes "watch={\"")) name in
    let out' = append_raw capacity (append_raw capacity out (codes "\":")) period_json in
    complete capacity (append_raw capacity out' (codes "}\n"))

-- `char period[32]` is read up to its NUL.
unfoldable pub make_watch_period : {R : Type 0} ⦃fl : Float R⦄ → ℕ → Text → R → Option Text
make_watch_period ⦃fl⦄ capacity name period_seconds =
    if fl.le period_seconds (whole 0)
    then make_watch capacity name (codes "true")
    else make_watch capacity name (until_nul (append_real 32 [] period_seconds))
