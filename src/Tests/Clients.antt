-- ===== src/Tests/Clients.antt =====
-- A client and its connection.
use pypilot_cxx.Prelude.{
  ℕ, ◌+◌, ◌≡◌, true, false, ◌&&◌, none, some, List, [], ◌∷◌, arith, ltb, if◌then◌else◌, length,
}
use pypilot_cxx.Prelude.Text.{Text, codes, text_eq}
use pypilot_cxx.Prelude.Int.{ℤ, pos}
use pypilot_cxx.DataModel.{initial}
use pypilot_cxx.EventLoop.Handles.{one_if}
use pypilot_cxx.EventLoop.Busy.{busy}
use pypilot_cxx.Client.Records.{make_record_raw}
use pypilot_cxx.Client.Records.Built.{make_record_raw-line}
use pypilot_cxx.Client.Pending.{PendingLine, queue_line, pop_outgoing}
use pypilot_cxx.Client.Pending.Bag.{Queued, Popped, pending-LineBag}
use pypilot_cxx.Client.Session.{Tcp, PypilotClient, start, write_all, queue_or_write, flush_pending}
use pypilot_cxx.Client.Session.Sent.{Counts, known, lines-known}
use pypilot_cxx.Client.Link.{here, after, connects, fails, IsLinked}
use pypilot_cxx.Client.Link.Held.{reachable-IsLinked}
use pypilot_cxx.Client.Callbacks.{on_connect, on_error}
use pypilot_cxx.Tests.Sample.{whole_numbers, registry}
use pypilot_cxx.Tests.Timers.{loop, loop-IsLoop}

-- A network that takes every line and keeps it.
instance abbrev pub keeps_lines : Tcp (List Text)
keeps_lines = record {
  valid = λ k n. true;
  input_size = λ k n. 0;
  write = λ k line n. (pos (length line), line ∷ n);
  close = λ k n. n;
  take_input = λ k n. ([], n);
}

abbrev pub no_lines : List Text
no_lines = []

abbrev pub client : PypilotClient ℤ ℕ
client = start loop initial registry

abbrev waiting : List PendingLine
waiting =
    record { active = true; bytes = codes "ap.enabled=true\n" }
    ∷ record { active = false; bytes = [] }
    ∷ []

make_record_raw-line_example :
    make_record_raw 12 (codes "ap.mode") (codes "gps")
    ≡ (if ltb (length (codes "ap.mode=gps\n") + 1) 12 then some (codes "ap.mode=gps\n") else none)
unfolding codes
make_record_raw-line_example = make_record_raw-line 12 (codes "ap.mode") (codes "gps")

pending-LineBag_example :
    Queued (codes "a=1\n") waiting (queue_line (codes "a=1\n") waiting)
    × Popped waiting (pop_outgoing waiting)
pending-LineBag_example = pending-LineBag (codes "a=1\n") waiting

-- How often a line was kept.
abbrev sent : Text → List Text → ℕ
sent a [] = 0
sent a (line ∷ n) = one_if (text_eq a line) + sent a n

sent-Counts : Counts sent
unfolding write_all
sent-Counts a k line n = ground arith

abbrev line : Text
line = codes "ap.mode=gps\n"

lines-known_example :
    (let (done, c', n') = queue_or_write line client no_lines in
      known sent line c' n' ≡ one_if (done && text_eq line line) + known sent line client no_lines)
    × (let (c', n') = flush_pending client no_lines in
        known sent line c' n' ≡ known sent line client no_lines)
lines-known_example = lines-known sent sent-Counts line line client no_lines

-- The client connects, loses its connection and connects again.
abbrev lost : PypilotClient ℤ ℕ × List Text
lost = (on_error (pos 5) (on_connect 9 3 client no_lines).0, (on_connect 9 3 client no_lines).1)

reachable-IsLinked_example : IsLinked (busy loop.slots) (on_connect 9 4 lost.0 lost.1).0
reachable-IsLinked_example =
    reachable-IsLinked 9 loop initial registry no_lines (on_connect 9 4 lost.0 lost.1) loop-IsLoop
      (λ e. omega (arith, e)) (after (after (after here (connects 3)) (fails (pos 5))) (connects 4))
