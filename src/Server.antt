-- ===== src/Server.antt =====
-- src/pypilot/server.cpp: `PypilotServer`, which reads the lines of clients and answers them through
-- the registry of values. The event loop's clock is an argument `now_us` of each call.
pub mod Total
pub mod Updates
pub mod Safety
pub mod Session
pub mod Marks
pub mod Preserved
use pypilot_cxx.Prelude.{
  ℕ, zero, suc, Bool, true, false, not, ◌||◌, Option, none, some, [], ltb, if◌then◌else◌, length,
  set,
}
use pypilot_cxx.Prelude.Text.{
  Text, codes, text_eq, split_at, starts_with, ends_with, is_empty, tail, init,
}
use pypilot_cxx.Trim.{trim_view}
use pypilot_cxx.Float.{Float, whole}
use pypilot_cxx.DataModel.{DataModel}
use pypilot_cxx.Values.Writer.{string_writer, ValueWriter, Emit, ◌&&>◌, write_char}
use pypilot_cxx.Values.Access.{ValueRegistry, attach, parse_real, set_from_wire, set_real, set_bool}
use pypilot_cxx.Values.Lines.{write_values_json}
use pypilot_cxx.Values.Watches.{watch, unwatch, emit_changed_watches}
use pypilot_cxx.Values.Due.{emit_due_watches}

-- `state_` is the object that `values` is attached to.
pub record PypilotServer (R : Type 0) : Type 0 where
  pub values : ValueRegistry R
  pub running : Bool

-- What the watch expression holds next, as far as `handle_watch` reads it before it acts.
pub data Entry : Type 0 where
  finished : Entry
  comma : Text → Entry
  malformed : Text → Entry
  item : Text → Text → Text → Entry

-- What is left of the expression behind an entry.
abbrev pub rest_of : Entry → Text
rest_of finished = []
rest_of (comma rest) = rest
rest_of (malformed message) = []
rest_of (item key value rest) = rest

-- Behind the colon: the value up to the next comma, and what follows that.
unfoldable pub read_value : Text → Text → Entry
read_value key expression = elim (split_at b',' expression) [
  | none ↦ item key (trim_view expression) []
  | some (value, rest) ↦ item key (trim_view value) rest
]

unfoldable pub read_separator : Text → Text → Entry
read_separator key expression =
    if not (starts_with b':' expression)
    then malformed (codes "invalid watch separator")
    else read_value key (trim_view (tail expression))

unfoldable pub read_key : Text → Entry
read_key expression =
    if not (starts_with b'"' expression)
    then malformed (codes "invalid watch key")
    else elim (split_at b'"' (tail expression)) [
      | none ↦ malformed (codes "invalid watch key")
      | some (key, rest) ↦ read_separator key (trim_view rest)
    ]

unfoldable pub next_entry : Text → Entry
next_entry expression =
    let trimmed = trim_view expression in
    if is_empty expression
    then finished
    else if starts_with b',' trimmed
    then comma (tail trimmed)
    else if is_empty (trim_view trimmed)
    then finished
    else read_key (trim_view trimmed)

-- What a function of the server leaves: its result, the registry and the writer.
abbrev pub Reply : Type 0 → Type 0 → Type 0
Reply R W = Bool × ValueRegistry R × W

-- What a turn of the loop of `handle_watch` does: `continue`, or a return.
pub data Turn (R W : Type 0) : Type 0 where
  go_on : ValueRegistry R → W → Turn R W
  return : Reply R W → Turn R W

unfoldable pub error : {W : Type 0} ⦃writer : ValueWriter W⦄ → Text → Emit W
error ⦃writer⦄ message = writer.write (codes "error=") &&> writer.write message &&> write_char b'\n'

-- `value != "true" && !parse_real(value, period)`; the server's `parse_real` trims before it parses.
unfoldable pub parse_period : {R : Type 0} ⦃fl : Float R⦄ → Text → Option R
parse_period value =
    if text_eq value (codes "true") then some (whole 0) else parse_real (trim_view value)

module _ {R W : Type 0} ⦃fl : Float R⦄ ⦃writer : ValueWriter W⦄ where
  open writer use {write}

  -- `return error(out, message);`
  abbrev pub fail : Text → ValueRegistry R → W → Reply R W
  fail message v out = let (done, out') = error message out in (done, v, out')

  unfoldable pub add_watch : Text → R → ℕ → ValueRegistry R → W → Turn R W
  add_watch key period now_us v out =
      let (done, v', out') = watch key period now_us v out in
      if done then go_on v' out' else return (fail (codes "invalid unknown value") v' out')

  unfoldable pub list_values : ValueRegistry R → W → Turn R W
  list_values v out =
      let (done, out') =
        (write (codes "values=") &&> write_values_json R &&> write_char b'\n') out in
      if done then go_on v out' else return (false, v, out')

  -- One key with its value.
  unfoldable pub handle_item : Text → Text → ℕ → ValueRegistry R → W → Turn R W
  handle_item key value now_us v out =
      if text_eq key (codes "values")
      then (if text_eq value (codes "false") then go_on v out else list_values v out)
      else if text_eq value (codes "false")
      then go_on (unwatch key v).1 out
      else elim (parse_period value) [
        | none ↦ return (fail (codes "invalid watch period") v out)
        | some period ↦ add_watch key period now_us v out
      ]

  unfoldable pub take_turn : Entry → ℕ → ValueRegistry R → W → Turn R W
  take_turn finished now_us v out = return (true, v, out)
  take_turn (comma rest) now_us v out = go_on v out
  take_turn (malformed message) now_us v out = return (fail message v out)
  take_turn (item key value rest) now_us v out = handle_item key value now_us v out

  -- The loop of `handle_watch`, with fuel for its turns; none means that it ran out.
  unfoldable pub watch_loop : ℕ → ℕ → Text → ValueRegistry R → W → Option (Reply R W)
  watch_loop zero now_us expression v out = none
  watch_loop (suc fuel) now_us expression v out =
      let entry = next_entry expression in
      elim (take_turn entry now_us v out) [
        | return reply ↦ some reply
        | go_on v' out' ↦ watch_loop fuel now_us (rest_of entry) v' out'
      ]

  unfoldable pub handle_watch : Text → ℕ → ValueRegistry R → W → Option (Reply R W)
  handle_watch expression now_us v out =
      let trimmed = trim_view expression in
      if ltb (length trimmed) 2 || not (starts_with b'{' trimmed) || not (ends_with b'}' trimmed)
      then some (fail (codes "invalid watch request") v out)
      else watch_loop (suc (length trimmed)) now_us (init (tail trimmed)) v out

  unfoldable pub handle_assignment : Text → Text → ValueRegistry R → W → Reply R W
  handle_assignment name value v out =
      let (done, v') = set_from_wire name value true v in
      if done then (true, v', out) else fail (codes "invalid set") v' out

  -- `handle_line` behind the equals sign: the trimmed name and value.
  unfoldable pub handle_request : Text → Text → ℕ → ValueRegistry R → W → Option (Reply R W)
  handle_request name value now_us v out =
      if text_eq name (codes "watch")
      then handle_watch value now_us v out
      else if text_eq name (codes "values")
      then some (fail (codes "remote value registration not implemented") v out)
      else if text_eq name (codes "udp_port")
      then some (true, v, out)
      else some (handle_assignment name value v out)

  unfoldable pub handle_line : Text → ℕ → ValueRegistry R → W → Option (Reply R W)
  handle_line line now_us v out =
      let trimmed = trim_view line in
      if is_empty trimmed then some (true, v, out) else elim (split_at b'=' trimmed) [
        | none ↦ some (fail (codes "invalid request: missing '='") v out)
        | some (name, value) ↦ handle_request (trim_view name) (trim_view value) now_us v out
      ]

  -- `poll(out)` behind `poll()`, whose event loop runs callbacks that are not the server's: they
  -- leave the registry `v`. The fuel is that of `emit_due_watches`.
  unfoldable pub poll : ℕ → ℕ → ValueRegistry R → W → Option (ValueRegistry R × W)
  poll fuel now_us v out =
      let (v', out') = emit_changed_watches v out in emit_due_watches fuel now_us v' out'

module _ {R : Type 0} ⦃fl : Float R⦄ where
  -- The constructor: the registry is attached, and the state says that the server runs.
  unfoldable pub start : DataModel R → ValueRegistry R → PypilotServer R
  start state values =
      let attached =
        attach (record state { server = record state.server { running = true } }) values in
      let flagged = (set_bool (codes "server.running") true attached).1 in
      let port = fl.of_nat state.server.port in
      record { values = (set_real (codes "server.port") port flagged).1; running = true }

module _ {R : Type 0} ⦃fl : Float R⦄ where
  -- The overload of `handle_line` that returns the answer as a string: the result is not looked at.
  unfoldable pub answer_line : Text → ℕ → ValueRegistry R → Option (Text × ValueRegistry R)
  answer_line line now_us v = elim (handle_line {W = Text} line now_us v []) [
    | none ↦ none
    | some (done, v', out) ↦ some (out, v')
  ]

  unfoldable pub collect_output : ℕ → ℕ → ValueRegistry R → Option (Text × ValueRegistry R)
  collect_output fuel now_us v = elim (poll {W = Text} fuel now_us v []) [
    | none ↦ none
    | some (v', out) ↦ some (out, v')
  ]
