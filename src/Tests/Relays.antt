-- ===== src/Tests/Relays.antt =====
-- Lines between clients and the server.
use pypilot_cxx.Prelude.Int.{ℤ, pos}
use pypilot_cxx.Client.Watches.{ClientWatch}
use pypilot_cxx.Client.Watches.Remembered.{Remembered}
use pypilot_cxx.Client.Session.{watch, set_value, set_bool}
use pypilot_cxx.Exchange.Watching.{watch_line, watched}
use pypilot_cxx.Exchange.Watch.{watch-Received}
use pypilot_cxx.Values.Lines.Json.{escape}
use pypilot_cxx.Exchange.Quoted.{specials, write_value_line-Escaped}
use pypilot_cxx.Prelude.{List, ◌≡◌, ◌↔◌, [], ◌∷◌, refl, true, some, arith}
use pypilot_cxx.Prelude.Text.{Text, codes, text_eq}
use pypilot_cxx.Trim.{trim_view}
use pypilot_cxx.Values.Fields.{find, find_in, fields}
use pypilot_cxx.Values.Writer.{string_writer}
use pypilot_cxx.Values.Access.{ValueRegistry, read_bool, read_string, read_string_id, get_string}
use pypilot_cxx.Values.Lines.{write_value_line}
use pypilot_cxx.Server
use pypilot_cxx.Server.{handle_assignment}
use pypilot_cxx.Client.Callbacks.{handle_line}
use pypilot_cxx.Exchange.Set.{record_line, Sends, set_value-Received}
use pypilot_cxx.Exchange.Mirror.{set_bool-Relayed}
use pypilot_cxx.Tests.Sample.{whole_numbers, registry}
use pypilot_cxx.Tests.Clients.{keeps_lines, client, no_lines}

abbrev name : Text
name = codes "rudder.range"

set_value-Received_example :
    Sends
      (record_line name (codes "30"))
      client
      no_lines
      (set_value name (codes "30") client no_lines)
    × (Server.handle_line (record_line name (codes "30")) 3 registry (codes "")
        ≡ some (handle_assignment name (trim_view (codes "30")) registry (codes "")))
unfolding find find_in fields text_eq codes
set_value-Received_example =
    set_value-Received client no_lines name (codes "30") _ 3 registry (codes "") refl
      ((λ e. omega (arith, e)), ((λ e. omega (arith, e)), tt)) (omega arith)

abbrev enabled : Text
enabled = codes "ap.enabled"

set_bool-Relayed_example :
    (line : Text) × Sends line client no_lines (set_bool enabled true client no_lines)
    × (v' : ValueRegistry ℤ) × (Server.handle_line {W = Text} line 3 registry (codes "")
        ≡ some (true, v', codes ""))
    × (line' : Text) × (write_value_line enabled v' (codes "") ≡ (true, line'))
    × (read_bool enabled (handle_line line' registry) ≡ some true)
unfolding find find_in fields text_eq codes
set_bool-Relayed_example =
    set_bool-Relayed client no_lines enabled true _ 3 registry registry refl refl refl refl refl

watch-Received_example :
    (ws : List (ClientWatch ℤ)) × Remembered enabled (pos 0) client.watches ws
    × Sends
        (watch_line enabled)
        (record client { watches = ws })
        no_lines
        (watch enabled (pos 0) client no_lines)
    × (Server.handle_line (watch_line enabled) 3 registry (codes "")
        ≡ some (watched enabled 3 registry (codes "")))
unfolding find find_in fields text_eq codes
watch-Received_example =
    watch-Received client no_lines enabled (pos 0) _ 3 registry (codes "") refl refl

-- A server whose mode has a quote in it.
abbrev odd_mode : Text
odd_mode = b'a' ∷ b'"' ∷ b'b' ∷ []

abbrev odd_registry : ValueRegistry ℤ
odd_registry = record registry {
  state = record registry.state { ap = record registry.state.ap { mode = odd_mode } };
}

write_value_line-Escaped_example :
    (line : Text) × (write_value_line (codes "ap.mode") odd_registry (codes "") ≡ (true, line))
    × (read_string (codes "ap.mode") (handle_line line registry) ≡ some (escape odd_mode))
    × ((escape odd_mode ≡ odd_mode) ↔ (specials odd_mode ≡ 0))
unfolding find find_in fields text_eq codes read_string read_string_id get_string
write_value_line-Escaped_example =
    write_value_line-Escaped (codes "ap.mode") _ odd_registry registry odd_mode refl refl refl refl
