-- ===== src/Client/Session.antt =====
-- `PypilotClient` of src/pypilot/client.cpp: its state, and the calls that send lines. A connection is
-- the address of an object of async_event_loop/tcp.hpp, whose class is not in the repository: an
-- instance of `Tcp` says what its methods do to a network of type `N`.
pub mod Sent
use pypilot_cxx.Prelude.{
  ℕ, Bool, true, false, Option, none, some, List, [], ◌∷◌, ◌==◌, if◌then◌else◌, length, replicate,
}
use pypilot_cxx.Prelude.Text.{Text, codes}
use pypilot_cxx.Prelude.Int.{ℤ, pos, negsuc}
use pypilot_cxx.Float.{Float, whole}
use pypilot_cxx.DataModel.{DataModel}
use pypilot_cxx.EventLoop.{EventLoop, cancel}
use pypilot_cxx.LineReader.{LineProtocolReader, default_options, no_stats, reset}
use pypilot_cxx.Values.Access.{ValueRegistry, attach, until_nul}
use pypilot_cxx.Client.Records.{
  append_real, append_json_string, make_record_raw, make_watch, make_watch_period,
}
use pypilot_cxx.Client.Watches.{ClientWatch, max_client_watches, remember_watch, forget_watch}
use pypilot_cxx.Client.Pending.{
  PendingLine, max_pending_lines, max_line_size, queue_line, pop_outgoing, flush_lines,
}

pub record Tcp (N : Type 0) : Type 0 where
  pub valid : ℕ → N → Bool
  pub input_size : ℕ → N → ℕ
  pub write : ℕ → Text → N → ℤ × N
  pub close : ℕ → N → N
  -- The bytes that reads of one byte hand out until there is none.
  pub take_input : ℕ → N → Text × N

-- `tcp_stream` is the connection of the `TcpConnectionStream`; none is a null pointer.
pub record PypilotClient (R C : Type 0) : Type 0 where
  pub loop : EventLoop C
  pub values : ValueRegistry R
  pub connection : Option ℕ
  pub tcp_stream : Option ℕ
  pub line_reader : LineProtocolReader
  pub line_event : ℕ
  pub watches : List (ClientWatch R)
  pub pending : List PendingLine
  pub last_error : ℤ

module _ {R C : Type 0} where
  -- `if (line_event_) { loop_.cancel(line_event_); line_event_ = 0; }`
  unfoldable pub drop_event : PypilotClient R C → PypilotClient R C
  drop_event c =
      if c.line_event == 0
      then c
      else record c { loop = cancel c.line_event c.loop; line_event = 0 }

  -- What `close`, `on_close` and `on_error` do behind that.
  unfoldable pub detach : PypilotClient R C → PypilotClient R C
  detach c = record c { connection = none; tcp_stream = none; line_reader = reset c.line_reader }

  -- `pop_outgoing` of the client.
  unfoldable pub pop_line : PypilotClient R C → Option Text × PypilotClient R C
  pop_line c = let (line, ps) = pop_outgoing c.pending in (line, record c { pending = ps })

module _ {R C : Type 0} ⦃fl : Float R⦄ where
  unfoldable pub start : EventLoop C → DataModel R → ValueRegistry R → PypilotClient R C
  start loop state values = record {
    loop = loop;
    values = attach state values;
    connection = none;
    tcp_stream = none;
    line_reader = record { options = default_options; buffer = []; stats = no_stats };
    line_event = 0;
    watches =
        replicate max_client_watches
          (record { active = false; name = []; period_seconds = whole 0 });
    pending = replicate max_pending_lines (record { active = false; bytes = [] });
    last_error = pos 0;
  }

-- `n == static_cast<int>(size)`.
abbrev all_written : ℤ → ℕ → Bool
all_written (pos n) size = n == size
all_written (negsuc n) size = false

module _ {N : Type 0} ⦃tcp : Tcp N⦄ where
  -- `connection_->write(...) == size`.
  unfoldable pub write_all : ℕ → Text → N → Bool × N
  write_all k line n =
      let (written, n') = tcp.write k line n in (all_written written (length line), n')

  -- `connected()` and the write in `queue_or_write`.
  unfoldable pub try_write : Text → Option ℕ → N → Bool × N
  try_write line none n = (false, n)
  try_write line (some k) n = if tcp.valid k n then write_all k line n else (false, n)

module _ {R C N : Type 0} ⦃tcp : Tcp N⦄ where
  unfoldable pub connected : PypilotClient R C → N → Bool
  connected c n = elim c.connection [ none ↦ false | some k ↦ tcp.valid k n ]

  unfoldable pub close : PypilotClient R C → N → PypilotClient R C × N
  close c n = (detach (drop_event c), elim c.connection [ none ↦ n | some k ↦ tcp.close k n ])

  unfoldable pub queue_or_write : Text → PypilotClient R C → N → Bool × PypilotClient R C × N
  queue_or_write line c n =
      let (sent, n') = try_write line c.connection n in
      let (queued, ps) = queue_line line c.pending in
      if sent then (true, c, n') else (queued, record c { pending = ps }, n')

  unfoldable pub flush_pending : PypilotClient R C → N → PypilotClient R C × N
  flush_pending c n = elim c.connection [
    | none ↦ (c, n)
    | some k ↦
        let (ps, n') = flush_lines (write_all k) c.pending n in
        if tcp.valid k n then (record c { pending = ps }, n') else (c, n)
  ]

  -- `make_...(line, ...) && queue_or_write(line)`: the array is read up to its NUL.
  unfoldable pub send_made : Option Text → PypilotClient R C → N → Bool × PypilotClient R C × N
  send_made none c n = (false, c, n)
  send_made (some line) c n = queue_or_write (until_nul line) c n

  abbrev pub send_record : Text → Text → PypilotClient R C → N → PypilotClient R C × N
  send_record name json c n =
      let (done, c', n') = send_made (make_record_raw max_line_size name json) c n in (c', n')

  unfoldable pub set_value : Text → Text → PypilotClient R C → N → PypilotClient R C × N
  set_value name wire_value c n = send_record name wire_value c n

  unfoldable pub set_bool : Text → Bool → PypilotClient R C → N → PypilotClient R C × N
  set_bool name value c n = send_record name (if value then codes "true" else codes "false") c n

  -- `char json[128]`.
  unfoldable pub set_string : Text → Text → PypilotClient R C → N → PypilotClient R C × N
  set_string name value c n = send_record name (until_nul (append_json_string 128 [] value)) c n

  unfoldable pub send_raw : Text → PypilotClient R C → N → Bool × PypilotClient R C × N
  send_raw line c n = queue_or_write line c n

  unfoldable pub unwatch : Text → PypilotClient R C → N → PypilotClient R C × N
  unwatch name c n =
      let forgotten = record c { watches = forget_watch name c.watches } in
      let (done, c', n') = send_made (make_watch max_line_size name (codes "false")) forgotten n in
      (c', n')

module _ {R C N : Type 0} ⦃fl : Float R⦄ ⦃tcp : Tcp N⦄ where
  -- `char json[32]`.
  unfoldable pub set_real : Text → R → PypilotClient R C → N → PypilotClient R C × N
  set_real name value c n = send_record name (until_nul (append_real 32 [] value)) c n

  unfoldable pub write_watch_line : Text → R → PypilotClient R C → N → Bool × PypilotClient R C × N
  write_watch_line name period c n = send_made (make_watch_period max_line_size name period) c n

  unfoldable pub watch : Text → R → PypilotClient R C → N → PypilotClient R C × N
  watch name period c n =
      let remembered = record c { watches = remember_watch name period c.watches } in
      let (done, c', n') = write_watch_line name period remembered n in (c', n')

  -- The loop of `replay_watches`, which leaves the watches as they are.
  unfoldable pub replay : List (ClientWatch R) → PypilotClient R C → N → PypilotClient R C × N
  replay [] c n = (c, n)
  replay (w ∷ ws) c n =
      let (done, c', n') = write_watch_line w.name w.period_seconds c n in
      if w.active then replay ws c' n' else replay ws c n

  unfoldable pub replay_watches : PypilotClient R C → N → PypilotClient R C × N
  replay_watches c n = replay c.watches c n
