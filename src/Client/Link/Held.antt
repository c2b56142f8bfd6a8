-- ===== src/Client/Link/Held.antt =====
-- The client's event through connecting and closing, and the tie to the event loop in every state
-- that the client can reach.
use pypilot_cxx.Prelude.{ℕ, refl, ◌≢◌, inl, arith}
use pypilot_cxx.EventLoop.{EventLoop}
use pypilot_cxx.EventLoop.Handles.{IsLoop}
use pypilot_cxx.EventLoop.Busy.{busy}
use pypilot_cxx.Float.{Float}
use pypilot_cxx.DataModel.{DataModel}
use pypilot_cxx.Values.Access.{ValueRegistry}
use pypilot_cxx.Client.Session.{
  Tcp, start, PypilotClient, replay_watches, close, set_value, set_bool, set_real, set_string,
  send_raw,
}
use pypilot_cxx.Client.Callbacks.{on_data, on_connect}
use pypilot_cxx.Client.Link.{
  Step, connects, polls, gets, closes, fails, shuts, sets, sets_bool, sets_real, sets_string, sends,
  pops, watches, unwatches, waits, Reaches, here, after, IsLinked, SameLink, SameLink-IsLinked,
}
use pypilot_cxx.Client.Link.Kept.{
  pop_line-SameLink, queue_or_write-SameLink, send_record-SameLink, unwatch-SameLink,
  flush_pending-SameLink, watch-SameLink, replay-SameLink, poll_line_reader-SameLink,
  on_bytes-SameLink,
}
use pypilot_cxx.Client.Link.Freed.{
  detach-drop_event, attach_connection-IsLinked, on_close-IsLinked, on_error-IsLinked,
}

module _ {R C : Type 0} (others : ℕ) where
  same_link : {c c' : PypilotClient R C} → SameLink c c' → IsLinked others c → IsLinked others c'
  same_link s h = SameLink-IsLinked others _ _ s h

module _ {R C N : Type 0} ⦃fl : Float R⦄ ⦃tcp : Tcp N⦄ (call_reader : C) (others : ℕ) where
  Step-IsLinked :
      {s t : PypilotClient R C × N}
      → Step call_reader s t
      → IsLinked others s.0
      → IsLinked others t.0
  unfolding on_connect on_data replay_watches close set_value set_bool set_real set_string send_raw
  Step-IsLinked (connects k) h =
      let a = attach_connection-IsLinked others call_reader k _ h in
      same_link others (replay-SameLink _ _ _) (same_link others (flush_pending-SameLink _ _) a)
  Step-IsLinked polls h = same_link others (on_bytes-SameLink _ _) h
  Step-IsLinked (gets k) h = same_link others (poll_line_reader-SameLink _ _) h
  Step-IsLinked (closes k) h = on_close-IsLinked others k _ h
  Step-IsLinked (fails code) h = on_error-IsLinked others code _ h
  Step-IsLinked shuts h = detach-drop_event others _ h
  Step-IsLinked (sets name json) h = same_link others (send_record-SameLink _ _ _ _) h
  Step-IsLinked (sets_bool name b) h = same_link others (send_record-SameLink _ _ _ _) h
  Step-IsLinked (sets_real name x) h = same_link others (send_record-SameLink _ _ _ _) h
  Step-IsLinked (sets_string name s) h = same_link others (send_record-SameLink _ _ _ _) h
  Step-IsLinked (sends line) h = same_link others (queue_or_write-SameLink _ _ _) h
  Step-IsLinked pops h = same_link others (pop_line-SameLink _) h
  Step-IsLinked (watches name x) h = same_link others (watch-SameLink _ _ _ _) h
  Step-IsLinked (unwatches name) h = same_link others (unwatch-SameLink _ _ _) h
  Step-IsLinked waits h = h

  Reaches-IsLinked :
      {s t : PypilotClient R C × N}
      → Reaches call_reader s t
      → IsLinked others s.0
      → IsLinked others t.0
  Reaches-IsLinked here h = h
  Reaches-IsLinked (after steps step) h = Step-IsLinked step (Reaches-IsLinked steps h)

module _ {R C N : Type 0} ⦃fl : Float R⦄ ⦃tcp : Tcp N⦄ (call_reader : C) where
  -- A new client is given a loop whose handles are apart and whose next handle is not 0, and
  -- nothing else uses the loop from then on; handles do not run over. The client connects, is
  -- closed, fails, shuts the connection, gets data, has its callback run by the loop, sends
  -- records and lines, watches, unwatches and pops a line, in any order, while the network goes
  -- on. Then it reads from the connection that it writes to; it has no event while it has no
  -- connection; its event is in use; and the loop has the slots in use that it had, and one more
  -- exactly if the client has an event: connecting again leaks no slot.
  pub reachable-IsLinked :
      (loop : EventLoop C) (state : DataModel R) (values : ValueRegistry R) (n : N)
      (t : PypilotClient R C × N)
      → IsLoop loop
      → loop.next_id ≢ 0
      → Reaches call_reader (start loop state values, n) t
      → IsLinked (busy loop.slots) t.0
  unfolding start
  reachable-IsLinked loop state values n t apart positive steps =
      Reaches-IsLinked call_reader (busy loop.slots) steps (record {
        loop_apart = apart;
        next_positive = positive;
        same_stream = refl;
        quiet = λ _. refl;
        in_use = inl refl;
        counted = omega arith;
      })
