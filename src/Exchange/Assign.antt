-- ===== src/Exchange/Assign.antt =====
-- A line of a field's name, an equals sign and any value, as the server and the client handle it.
use pypilot_cxx.Prelude.{ℕ, ◌≡◌, refl, false, some, ◌∷◌, ◌++◌}
use pypilot_cxx.Prelude.Text.{Text}
use pypilot_cxx.Float.{Float}
use pypilot_cxx.Trim.{trim_view}
use pypilot_cxx.Trim.Ends.{trim_view-trim_back}
use pypilot_cxx.Values.Writer.{ValueWriter}
use pypilot_cxx.Values.Access.{ValueRegistry, set_from_wire}
use pypilot_cxx.Server
use pypilot_cxx.Server.{handle_assignment}
use pypilot_cxx.Client.Records.{parse_record}
use pypilot_cxx.Client.Callbacks
use pypilot_cxx.Client.Callbacks.{mirror}
use pypilot_cxx.Exchange.Words.{
  IsName, trim_view-line, split_at-line, is_empty-line, trim_view-name,
}

module _ (name value : Text) (h : IsName name) where
  pub parse_record-line :
      parse_record (name ++ b'=' ∷ value) ≡ some (record { name = name; json = trim_view value })
  unfolding parse_record
  parse_record-line = rw (
    trim_view-line name value h.word,
    parse_record,
    split_at-line name value h.word,
    h.word.filled,
    trim_view-name name h.word,
    h.word.filled,
    trim_view-trim_back value,
  )

  -- The server takes the line as an assignment.
  pub handle_line-assignment :
      {R W : Type 0} ⦃fl : Float R⦄ ⦃writer : ValueWriter W⦄ (now_us : ℕ) (v : ValueRegistry R)
      (out : W)
      → Server.handle_line (name ++ b'=' ∷ value) now_us v out
        ≡ some (handle_assignment name (trim_view value) v out)
  unfolding Server.handle_line Server.handle_request
  handle_line-assignment now_us v out =
      rw
        (
          trim_view-line name value h.word,
          is_empty-line name value h.word,
          split_at-line name value h.word,
          trim_view-name name h.word,
          trim_view-trim_back value,
          h.no_watch,
          h.no_values,
          h.no_port,
        )
        refl

  -- The client writes the value into its own registry.
  pub handle_line-mirror :
      {R : Type 0} ⦃fl : Float R⦄ (v : ValueRegistry R)
      → Callbacks.handle_line (name ++ b'=' ∷ value) v
        ≡ (set_from_wire name (trim_view value) false v).1
  unfolding Callbacks.handle_line mirror
  handle_line-mirror v = rw (parse_record-line, Callbacks.handle_line, h.no_values)
