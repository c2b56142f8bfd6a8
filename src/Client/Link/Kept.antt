-- ===== src/Client/Link/Kept.antt =====
-- The calls that leave the tie between the client and the event loop alone.
use pypilot_cxx.Prelude.{
  ℕ, refl, Bool, true, false, ◌&&◌, Option, none, some, List, [], ◌∷◌, if◌then◌else◌,
}
use pypilot_cxx.Prelude.Text.{Text}
use pypilot_cxx.Float.{Float}
use pypilot_cxx.Values.Access.{ValueRegistry}
use pypilot_cxx.LineReader.{LineProtocolReader}
use pypilot_cxx.Client.Session.{
  write_all, Tcp, PypilotClient, try_write, queue_or_write, flush_pending, send_made, send_record,
  pop_line, write_watch_line, watch, unwatch, replay,
}
use pypilot_cxx.Client.Pending.{flush_lines, PendingLine, max_line_size}
use pypilot_cxx.Client.Watches.{ClientWatch}
use pypilot_cxx.Client.Records.{make_record_raw}
use pypilot_cxx.Client.Callbacks.{
  stream_readable, stream_valid, receive_bytes, poll_line_reader, on_bytes,
}
use pypilot_cxx.Client.Link.{SameLink, SameLink-refl, SameLink-trans}

module _ {R C : Type 0} where
  -- Other members may change.
  changed-SameLink :
      (c : PypilotClient R C) (values : ValueRegistry R) (line_reader : LineProtocolReader)
      (watches : List (ClientWatch R)) (pending : List PendingLine)
      → SameLink c (record c {
        values = values;
        line_reader = line_reader;
        watches = watches;
        pending = pending;
      })
  changed-SameLink c values line_reader watches pending = record {
    same_loop = refl;
    same_connection = refl;
    same_tcp_stream = refl;
    same_event = refl;
  }

  pub pop_line-SameLink : (c : PypilotClient R C) → SameLink c (pop_line c).1
  unfolding pop_line
  pop_line-SameLink c = changed-SameLink c _ _ _ _

  if-SameLink :
      {A : Type 0} (c : PypilotClient R C) (b : Bool) (x y : A) (pick : A → PypilotClient R C)
      → SameLink c (pick x)
      → SameLink c (pick y)
      → SameLink c (pick (if b then x else y))
  if-SameLink c true x y pick h k = h
  if-SameLink c false x y pick h k = k

module _ {R C N : Type 0} ⦃tcp : Tcp N⦄ where
  pub queue_or_write-SameLink :
      (line : Text) (c : PypilotClient R C) (n : N) → SameLink c (queue_or_write line c n).1
  unfolding queue_or_write
  queue_or_write-SameLink line c n =
      if-SameLink c (try_write line c.connection n).0 _ _
        (λ (r : Bool × PypilotClient R C × N). r.1) (SameLink-refl c) (changed-SameLink c _ _ _ _)

  send_made-SameLink :
      (made : Option Text) (c : PypilotClient R C) (n : N) → SameLink c (send_made made c n).1
  unfolding send_made
  send_made-SameLink none c n = SameLink-refl c
  send_made-SameLink (some line) c n = queue_or_write-SameLink _ c n

  pub send_record-SameLink :
      (name json : Text) (c : PypilotClient R C) (n : N) → SameLink c (send_record name json c n).0
  send_record-SameLink name json c n =
      send_made-SameLink (make_record_raw max_line_size name json) c n

  pub unwatch-SameLink :
      (name : Text) (c : PypilotClient R C) (n : N) → SameLink c (unwatch name c n).0
  unfolding unwatch
  unwatch-SameLink name c n =
      SameLink-trans c _ _ (changed-SameLink c _ _ _ _) (send_made-SameLink _ _ n)

  pub flush_pending-SameLink : (c : PypilotClient R C) (n : N) → SameLink c (flush_pending c n).0
  unfolding flush_pending
  flush_pending-SameLink c n = flush-SameLink c.connection
    where
      flush-SameLink :
          (o : Option ℕ)
          → SameLink c
              (elim o as (λ _. PypilotClient R C × N) [
                | none ↦ (c, n)
                | some k ↦
                    let (ps, n') = flush_lines (write_all k) c.pending n in
                    if tcp.valid k n then (record c { pending = ps }, n') else (c, n)
              ]).0
      flush-SameLink none = SameLink-refl c
      flush-SameLink (some k) =
          if-SameLink c (tcp.valid k n) _ _ (λ (r : PypilotClient R C × N). r.0)
            (changed-SameLink c _ _ _ _) (SameLink-refl c)

module _ {R C : Type 0} ⦃fl : Float R⦄ where
  receive_bytes-SameLink :
      (input : Text) (c : PypilotClient R C) → SameLink c (receive_bytes input c)
  unfolding receive_bytes
  receive_bytes-SameLink input c = changed-SameLink c _ _ _ _

module _ {R C N : Type 0} ⦃fl : Float R⦄ ⦃tcp : Tcp N⦄ where
  write_watch_line-SameLink :
      (name : Text) (x : R) (c : PypilotClient R C) (n : N)
      → SameLink c (write_watch_line name x c n).1
  unfolding write_watch_line
  write_watch_line-SameLink name x c n = send_made-SameLink _ c n

  pub watch-SameLink :
      (name : Text) (x : R) (c : PypilotClient R C) (n : N) → SameLink c (watch name x c n).0
  unfolding watch
  watch-SameLink name x c n =
      SameLink-trans c _ _ (changed-SameLink c _ _ _ _) (write_watch_line-SameLink name x _ n)

  pub replay-SameLink :
      (ws : List (ClientWatch R)) (c : PypilotClient R C) (n : N) → SameLink c (replay ws c n).0
  unfolding replay
  replay-SameLink [] c n = SameLink-refl c
  replay-SameLink (w ∷ ws) c n =
      let one = write_watch_line-SameLink w.name w.period_seconds c n in
      if-SameLink c w.active _ _ (λ (r : PypilotClient R C × N). r.0)
        (SameLink-trans c _ _ one (replay-SameLink ws _ _)) (replay-SameLink ws c n)

  pub poll_line_reader-SameLink :
      (c : PypilotClient R C) (n : N) → SameLink c (poll_line_reader c n).0
  unfolding poll_line_reader
  poll_line_reader-SameLink c n = poll-SameLink c.tcp_stream
    where
      poll-SameLink :
          (o : Option ℕ)
          → SameLink c
              (elim o as (λ _. PypilotClient R C × N) [
                | none ↦ (c, n)
                | some k ↦
                    let (input, n') = tcp.take_input k n in
                    if stream_readable c n then (receive_bytes input c, n') else (c, n)
              ]).0
      poll-SameLink none = SameLink-refl c
      poll-SameLink (some k) =
          if-SameLink c (stream_readable c n) _ _ (λ (r : PypilotClient R C × N). r.0)
            (receive_bytes-SameLink _ c) (SameLink-refl c)

  pub on_bytes-SameLink : (c : PypilotClient R C) (n : N) → SameLink c (on_bytes c n).0
  unfolding on_bytes
  on_bytes-SameLink c n =
      if-SameLink c (stream_valid c n && stream_readable c n) _ _
        (λ (r : PypilotClient R C × N). r.0) (poll_line_reader-SameLink c n) (SameLink-refl c)
