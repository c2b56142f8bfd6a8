-- ===== src/Client/Callbacks.antt =====
-- What `PypilotClient` of src/pypilot/client.cpp does when its connection calls back: it connects,
-- gets bytes, is closed or fails. `call_reader` is the callback that it registers with the event
-- loop.
use pypilot_cxx.Prelude.{ℕ, Bool, false, ◌&&◌, none, some, List, [], ◌∷◌, ltb, ◌==◌, if◌then◌else◌}
use pypilot_cxx.Prelude.Text.{Text, codes, text_eq}
use pypilot_cxx.Prelude.Int.{ℤ}
use pypilot_cxx.Float.{Float}
use pypilot_cxx.EventLoop.{cancel, on_bytes_ready, if_bytes_ready}
use pypilot_cxx.LineReader
use pypilot_cxx.LineReader.{reset}
use pypilot_cxx.Values.Access.{ValueRegistry, set_from_wire}
use pypilot_cxx.Client.Records.{PypilotRecordView, parse_record}
use pypilot_cxx.Client.Pending.{max_line_size}
use pypilot_cxx.Client.Session.{
  Tcp, PypilotClient, drop_event, detach, flush_pending, replay_watches,
}

module _ {R : Type 0} ⦃fl : Float R⦄ where
  -- A record that `handle_line` has read.
  unfoldable pub mirror : PypilotRecordView → ValueRegistry R → ValueRegistry R
  mirror r v =
      if text_eq r.name (codes "values") then v else (set_from_wire r.name r.json false v).1

  -- `handle_line`, which touches the registry only.
  unfoldable pub handle_line : Text → ValueRegistry R → ValueRegistry R
  handle_line line v = elim (parse_record line) [ none ↦ v | some r ↦ mirror r v ]

  -- `on_line_ready`, for each line that the reader emits.
  unfoldable pub handle_lines : List Text → ValueRegistry R → ValueRegistry R
  handle_lines [] v = v
  handle_lines (line ∷ lines) v = handle_lines lines (handle_line line v)

module _ {R C : Type 0} ⦃fl : Float R⦄ where
  -- The bytes of a stream, through the reader to `on_line_ready`.
  unfoldable pub receive_bytes : Text → PypilotClient R C → PypilotClient R C
  receive_bytes input c =
      let (lines, reader) = LineReader.poll max_line_size input c.line_reader in
      record c { line_reader = reader; values = handle_lines lines c.values }

module _ {R C N : Type 0} ⦃tcp : Tcp N⦄ where
  -- `tcp_stream_.valid()`.
  unfoldable pub stream_valid : PypilotClient R C → N → Bool
  stream_valid c n = elim c.tcp_stream [ none ↦ false | some k ↦ tcp.valid k n ]

  -- `tcp_stream_.readable()`.
  unfoldable pub stream_readable : PypilotClient R C → N → Bool
  stream_readable c n = elim c.tcp_stream [
    | none ↦ false
    | some k ↦ tcp.valid k n && ltb 0 (tcp.input_size k n)
  ]

module _ {R C N : Type 0} ⦃fl : Float R⦄ ⦃tcp : Tcp N⦄ where
  unfoldable pub poll_line_reader : PypilotClient R C → N → PypilotClient R C × N
  poll_line_reader c n = elim c.tcp_stream [
    | none ↦ (c, n)
    | some k ↦
        let (input, n') = tcp.take_input k n in
        if stream_readable c n then (receive_bytes input c, n') else (c, n)
  ]

  -- The callback that `on_connect` registers, as `on_bytes_ready` wraps it.
  unfoldable pub on_bytes : PypilotClient R C → N → PypilotClient R C × N
  on_bytes c n =
      if_bytes_ready (λ s. stream_valid s.0 s.1) (λ s. stream_readable s.0 s.1)
        (λ s. poll_line_reader s.0 s.1) (c, n)

  -- Which connection has data is not looked at.
  unfoldable pub on_data : ℕ → PypilotClient R C → N → PypilotClient R C × N
  on_data k c n = poll_line_reader c n

module _ {R C : Type 0} where
  -- The part of `on_connect` before lines are sent.
  unfoldable pub attach_connection : C → ℕ → PypilotClient R C → PypilotClient R C
  attach_connection call_reader k c =
      let loop = if c.line_event == 0 then c.loop else cancel c.line_event c.loop in
      let (handle, loop') = on_bytes_ready call_reader loop in
      record c {
        connection = some k;
        tcp_stream = some k;
        line_reader = reset c.line_reader;
        line_event = handle;
        loop = loop';
      }

  unfoldable pub on_close : ℕ → PypilotClient R C → PypilotClient R C
  on_close k c = elim c.connection [
    | none ↦ c
    | some held ↦ if k == held then detach (drop_event c) else c
  ]

  unfoldable pub on_error : ℤ → PypilotClient R C → PypilotClient R C
  on_error code c = detach (drop_event (record c { last_error = code }))

module _ {R C N : Type 0} ⦃fl : Float R⦄ ⦃tcp : Tcp N⦄ where
  unfoldable pub on_connect : C → ℕ → PypilotClient R C → N → PypilotClient R C × N
  on_connect call_reader k c n =
      let (c', n') = flush_pending (attach_connection call_reader k c) n in replay_watches c' n'
