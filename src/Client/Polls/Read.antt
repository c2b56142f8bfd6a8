-- ===== src/Client/Polls/Read.antt =====
-- A poll of the client whose connection has brought whole lines.
use pypilot_cxx.Prelude.{
  ℕ, suc, ◌≤◌, ◌≡◌, ◌≢◌, refl, ap, ◌∙◌, Bool, true, false, Option, none, some, List, [], ◌∷◌, ◌&&◌,
  map, ltb, length, All, if◌then◌else◌,
}
use mathlib.Core.List.{Forall₂}
use pypilot_cxx.Prelude.Text.{Text}
use pypilot_cxx.Float.{Float}
use pypilot_cxx.EventLoop.Turns.{Bounded, Served, all_called}
use pypilot_cxx.EventLoop.Run.{run_callbacks}
use pypilot_cxx.LineReader.{default_options, emitted}
use pypilot_cxx.LineReader.Framing.{Holds, stream, poll-stream}
use pypilot_cxx.Client.Pending.{max_line_size}
use pypilot_cxx.Client.Session.{Tcp, PypilotClient}
use pypilot_cxx.Client.Callbacks.{
  handle_lines, receive_bytes, stream_valid, stream_readable, poll_line_reader, on_bytes,
}
use pypilot_cxx.Client.Polls.{Task, read_lines, act, poll, poll-Served}

module _ {R C N : Type 0} ⦃fl : Float R⦄ ⦃tcp : Tcp N⦄ where
  -- The callback where the connection has input.
  on_bytes-input :
      (c : PypilotClient R C) (n n' : N) (k : ℕ) (input : Text)
      → c.tcp_stream ≡ some k
      → tcp.valid k n ≡ true
      → ltb 0 (tcp.input_size k n) ≡ true
      → tcp.take_input k n ≡ (input, n')
      → on_bytes c n ≡ (receive_bytes input c, n')
  unfolding on_bytes poll_line_reader stream_valid stream_readable
  on_bytes-input c n n' k input held valid filled taken =
      let is_valid : stream_valid c n ≡ true =
        ap (λ (o : Option ℕ). elim o as (λ _. Bool) [ none ↦ false | some k ↦ tcp.valid k n ]) held
        ∙ valid in
      let is_readable : stream_readable c n ≡ true =
        ap
          (λ (o : Option ℕ). elim o as (λ _. Bool) [
            | none ↦ false
            | some k ↦ tcp.valid k n && ltb 0 (tcp.input_size k n)
          ])
          held
        ∙ (λ i. valid i && filled i) in
      let (input', n'') = tcp.take_input k n in
      (λ i. if is_valid i && is_readable i then poll_line_reader c n else (c, n))
      ∙ ap
          (λ (o : Option ℕ). elim o as (λ _. PypilotClient R C × N) [
            | none ↦ (c, n)
            | some k ↦
                let (input, n') = tcp.take_input k n in
                if stream_readable c n then (receive_bytes input c, n') else (c, n)
          ])
          held
      ∙ ap (λ (b : Bool). if b then (receive_bytes input' c, n'') else (c, n)) is_readable
      ∙ ap (λ (x : Text × N). (receive_bytes x.0 c, x.1)) taken

module _ {R D N : Type 0} ⦃fl : Float R⦄ ⦃tcp : Tcp N⦄ (others : D → N → N) where
  -- No period reaches over the end of the clock, the client's callback is the only one that is ready,
  -- the connection is valid and has whole lines that fit the buffer, and the buffer is empty. Then a
  -- poll ends with the input taken; the client has handled these lines in their order, each less one
  -- carriage return at its end; the slots are due as after any run of the loop; and but for the reader
  -- nothing else of the client is changed.
  pub poll-Reads :
      (now k : ℕ) (c : PypilotClient R (Task D)) (n n' : N) (lines : List Text)
      → All (Bounded now) c.loop.slots
      → all_called now c.loop.slots ≡ read_lines ∷ []
      → c.tcp_stream ≡ some k
      → tcp.valid k n ≡ true
      → ltb 0 (tcp.input_size k n) ≡ true
      → tcp.take_input k n ≡ (stream max_line_size default_options lines, n')
      → All (λ line. All (λ b. b ≢ b'\n') line × (length line ≤ max_line_size)) lines
      → Holds max_line_size default_options [] c.line_reader
      → (c' : PypilotClient R (Task D)) × (poll others (suc now) now c n ≡ some (c', n'))
        × (c'.values ≡ handle_lines (map (emitted default_options) lines) c.values)
        × Forall₂ (Served now) c.loop.slots c'.loop.slots
        × (c' ≡ record c {
          values = c'.values;
          line_reader = c'.line_reader;
          loop = record c.loop { slots = c'.loop.slots };
        })
  unfolding receive_bytes
  poll-Reads now k c n n' lines b only held valid filled taken fit empty =
      let (slots, served, went) = poll-Served others now c n b in
      let input = stream max_line_size default_options lines in
      let read = on_bytes-input c n n' k input held valid filled taken in
      let ran = ap (λ ts. run_callbacks (act others) ts (c, n)) only ∙ read in
      (
        record (receive_bytes input c) { loop = record c.loop { slots = slots } },
        went ∙ ap (λ x. some (record x.0 { loop = record c.loop { slots = slots } }, x.1)) ran,
        ap (λ ts. handle_lines ts c.values)
            (poll-stream max_line_size default_options lines c.line_reader fit empty),
        served,
        refl,
      )
