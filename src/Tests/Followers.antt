-- ===== src/Tests/Followers.antt =====
-- A client that follows a server through requests, a poll and bytes that arrive in pieces.
use pypilot_cxx.Prelude.{
  take, drop, ℕ, suc, zero, ◌≡◌, refl, ◌⊎◌, inl, inr, true, false, some, [], ◌∷◌, map, arith,
  replicate, All, length,
}
use pypilot_cxx.Prelude.Text.{Text, codes, split_at, text_eq}
use pypilot_cxx.Prelude.Int.{ℤ, pos}
use pypilot_cxx.Trim.{trim_view, trim_back, trim_front, is_space}
use pypilot_cxx.Values.Fields.{
  server_running, ap_enabled, fields, find, find_in, descriptor, descriptor_in,
}
use pypilot_cxx.Values.Writer.{
  string_writer, write_bool, write_escaped, write_json_string, write_real,
}
use pypilot_cxx.Values.Access.{
  ValueRegistry, set_from_wire, set_parsed, set_bool_id, put_bool, store, get_real, get_string,
  read_real_id, read_string_id, mark_dirty, parse_bool, attach, get_bool, read_bool_id,
}
use pypilot_cxx.Values.Lines.{write_value_line_id, write_value, write_found}
use pypilot_cxx.Values.Lines.Appended.{line_of}
use pypilot_cxx.Values.Watches.{emit_changed_watches, emit_marked, period_us, any_of}
use pypilot_cxx.Values.Due.{emit_all_due, emit_due, catch_up, emit_due_watches}
use pypilot_cxx.Values.Due.Schedule.{Bounded}
use pypilot_cxx.Server.{handle_line, handle_request, handle_assignment, poll, collect_output}
use pypilot_cxx.Server.Session.{here, after}
use pypilot_cxx.Server.Updates.{handle_lines}
use pypilot_cxx.Client.Session.{PypilotClient, Tcp}
use pypilot_cxx.Client.Session
use pypilot_cxx.Client.Polls.{Task}
use pypilot_cxx.Client.Callbacks.{receive_bytes}
use pypilot_cxx.Exchange.Whole.{IsWhole}
use pypilot_cxx.Exchange.Streamed.{cut, receive_pieces, received-Synced}
use pypilot_cxx.Values.Due.Written.{OffOr}
use pypilot_cxx.Tests.Sample.{whole_numbers, watch_at}
use pypilot_cxx.Tests.Clients.{keeps_lines}
use pypilot_cxx.Client.Polls
use pypilot_cxx.Client.Callbacks
use pypilot_cxx.Client.Polls.Read.{poll-Reads}
use pypilot_cxx.Client.Pending.{max_line_size}
use pypilot_cxx.LineReader.{default_options, emitted}
use pypilot_cxx.LineReader.Framing.{stream}
use pypilot_cxx.EventLoop.Turns.{Served}
use mathlib.Core.List.{List, Forall₂}
use pypilot_cxx.Tests.Sessions.{shared_loop, watched, enabled, follower}
use pypilot_cxx.Exchange.Following.{
  Following, IsFollowing, Reaches, here, after, asks, polls, arrives,
}
use pypilot_cxx.Exchange.Relayed.{reads, relays}
use pypilot_cxx.Exchange.Flow.{reachable-UpToDate}
use pypilot_cxx.Server.Marks.{is_marked}

enabled-handled :
    handle_lines ((codes "ap.enabled=true", 4) ∷ []) watched (codes "") ≡ some (enabled, codes "")
unfolding handle_line trim_view trim_back trim_front codes is_space split_at handle_request text_eq
    handle_assignment set_from_wire find find_in fields set_parsed parse_bool set_bool_id put_bool
    store mark_dirty
enabled-handled = refl

requested :
    handle_line (codes "ap.enabled=true") 4 watched (codes "") ≡ some (true, enabled, codes "")
unfolding handle_line trim_view trim_back trim_front codes is_space split_at handle_request text_eq
    handle_assignment set_from_wire find find_in fields set_parsed parse_bool set_bool_id put_bool
    store mark_dirty
requested = refl

abbrev shown : ValueRegistry ℤ
shown = record enabled { dirty = map (λ _. false) enabled.dirty }

collected : collect_output 6 5 enabled ≡ some (codes "ap.enabled=true\n", shown)
unfolding collect_output poll emit_due_watches emit_all_due emit_changed_watches emit_due codes
    emit_marked any_of write_value_line_id descriptor descriptor_in fields write_value find find_in
    text_eq write_found get_bool get_real get_string read_bool_id read_real_id read_string_id
    catch_up period_us write_bool write_escaped write_json_string write_real
collected = refl

enabled-Bounded : All (Bounded 5) enabled.watches
enabled-Bounded = (inl refl, idle 63)
  where
    idle : (n : ℕ) → All (Bounded 5) (replicate n (watch_at false server_running 0 0))
    idle zero = tt
    idle (suc n) = (inl refl, idle n)

enabled-IsWhole : All (OffOr (λ id. IsWhole (line_of enabled id))) enabled.watches
unfolding write_value_line_id write_value codes descriptor descriptor_in fields find find_in text_eq
    write_found get_bool read_bool_id write_bool
enabled-IsWhole = (inr (codes "ap.enabled=true", refl, search arith, omega arith), silent 63)
  where
    silent :
        (n : ℕ)
        → All
            (OffOr (λ id. IsWhole (line_of enabled id)))
            (replicate n (watch_at false server_running 0 0))
    silent zero = tt
    silent (suc n) = (inl refl, silent n)

received-Synced_example :
    (bytes : Text) × (v'' : ValueRegistry ℤ) × (collect_output 6 5 enabled ≡ some (bytes, v''))
    × (reads ap_enabled (receive_pieces (cut (3 ∷ 0 ∷ 8 ∷ []) bytes) follower).values
        ≡ relays ap_enabled v'')
unfolding any_of Session.start attach read_bool_id get_bool read_string_id get_string
received-Synced_example =
    received-Synced ((codes "ap.enabled=true", 4) ∷ []) watched enabled (codes "") (codes "") 5
      (3 ∷ 0 ∷ 8 ∷ []) follower ap_enabled refl refl refl (λ e. cc) refl enabled-handled refl
      enabled-Bounded enabled-IsWhole (refl, refl)

-- Five bytes have arrived, in the middle of a name.
abbrev cut_short : Following ℤ (Task Text)
cut_short = record {
  server = shown;
  in_flight = drop 5 (codes "ap.enabled=true\n");
  client = receive_bytes (take 5 (codes "ap.enabled=true\n")) follower;
}

abbrev at_first : Following ℤ (Task Text)
at_first = record { server = watched; in_flight = []; client = follower }

at_first-IsFollowing : IsFollowing ap_enabled watched follower
unfolding Session.start attach read_bool_id get_bool read_string_id get_string
at_first-IsFollowing = record {
  a_mark_each = refl;
  on = refl;
  on_client = refl;
  empty_buffer = (refl, refl);
  up_to_date = inr refl;
}

reached : Reaches ap_enabled at_first cut_short
unfolding any_of
reached =
    after
      (after
        (after here
          (asks (codes "ap.enabled=true") 4 (codes "") (true, enabled, codes "") requested))
        (polls 5 (codes "ap.enabled=true\n") shown refl enabled-Bounded enabled-IsWhole collected))
      (arrives 5)

reachable-UpToDate_example :
    (is_marked ap_enabled cut_short.server ≡ true)
    ⊎ (reads ap_enabled (receive_pieces (cut (1 ∷ []) cut_short.in_flight) cut_short.client).values
        ≡ relays ap_enabled cut_short.server)
reachable-UpToDate_example =
    reachable-UpToDate ap_enabled at_first cut_short (1 ∷ []) (λ e. cc) at_first-IsFollowing refl
      reached

-- A network of one connection, which has the bytes of a text for the client.
abbrev has_input : Tcp Text
has_input = record {
  valid = λ k n. true;
  input_size = λ k n. length n;
  write = λ k line n. (pos (length line), n);
  close = λ k n. n;
  take_input = λ k n. (n, []);
}

abbrev connected : PypilotClient ℤ (Task Text)
connected = record follower { connection = some 1; tcp_stream = some 1 }

abbrev ignore : Text → Text → Text
ignore t n = n

abbrev waiting : List Text
waiting = codes "ap.enabled=true\r" ∷ codes "ap.mode=\"gps\"" ∷ []

poll-Reads_example :
    (c' : PypilotClient ℤ (Task Text)) × (Polls.poll ⦃tcp = has_input⦄ ignore 6 5 connected
        (stream max_line_size default_options waiting)
      ≡ some (c', []))
    × (c'.values ≡ Callbacks.handle_lines (map (emitted default_options) waiting) connected.values)
    × Forall₂ (Served 5) shared_loop.slots c'.loop.slots
    × (c' ≡ record connected {
      values = c'.values;
      line_reader = c'.line_reader;
      loop = record shared_loop { slots = c'.loop.slots };
    })
unfolding Session.start codes
poll-Reads_example =
    poll-Reads ⦃tcp = has_input⦄ ignore 5 1 connected (stream max_line_size default_options waiting)
      [] waiting (omega arith, (omega arith, tt)) refl refl refl refl refl
      ((search arith, omega arith), ((search arith, omega arith), tt)) (refl, refl)
