-- ===== src/Client/Link/Freed.antt =====
-- The client's event through connecting and closing: the event that the client had is freed in the
-- loop before the client forgets it.
use pypilot_cxx.Prelude.{
  ℕ, ◌+◌, ◌≡◌, refl, sym, ap, ◌∙◌, ◌≢◌, ◌⊎◌, inl, inr, Bool, true, false, not, Option, none, some,
  arith, ◌==◌, if◌then◌else◌, ==_iff, Bool-cases,
}
use pypilot_cxx.LineReader.{reset}
use pypilot_cxx.EventLoop.{EventLoop, cancel, add_poll, on_bytes_ready}
use pypilot_cxx.EventLoop.Handles.{one_if, holders, IsLoop, Added, add_poll-Added}
use pypilot_cxx.EventLoop.Busy.{
  cancel-next_id, cancel-IsLoop, cancel-busy, busy, add_poll-busy, add_poll-IsLoop,
}
use pypilot_cxx.Prelude.Int.{ℤ}
use pypilot_cxx.Client.Session.{PypilotClient, drop_event, detach}
use pypilot_cxx.Client.Callbacks.{on_error, on_close, attach_connection}
use pypilot_cxx.Client.Link.{IsLinked}

module _ {C : Type 0} where
  -- `if (line_event_) loop_.cancel(line_event_);`.
  abbrev free_event : ℕ → EventLoop C → EventLoop C
  free_event e l = if e == 0 then l else cancel e l

module _ {C : Type 0} (others : ℕ) where
  -- What the loop is once the client has no event in it.
  record IsFreed (l : EventLoop C) : Type 0 where
    apart : IsLoop l
    positive : l.next_id ≢ 0
    all_others : busy l.slots ≡ others

  free_event-IsFreed :
      (e : ℕ) (l : EventLoop C)
      → IsLoop l
      → l.next_id ≢ 0
      → (e ≡ 0) ⊎ (holders e l.slots ≡ 1)
      → busy l.slots ≡ one_if (not (e == 0)) + others
      → IsFreed (free_event e l)
  free_event-IsFreed e l apart positive held count = elim (Bool-cases (e == 0)) [
    | inl unused ↦ rw unused (record {
      apart = apart;
      positive = positive;
      all_others = omega (arith, count, ap (λ (b : Bool). one_if (not b)) unused);
    })
    | inr used ↦
        let nonzero : e ≢ 0 = ground (arith, used) in
        let one : holders e l.slots ≡ 1 = elim held [
          | inl z ↦ absurd (nonzero z)
          | inr one ↦ one
        ] in
        let fewer = cancel-busy e l nonzero one in
        rw used (record {
          apart = cancel-IsLoop e l nonzero apart;
          positive = λ z. positive (sym (cancel-next_id e l) ∙ z);
          all_others = omega (arith, fewer, count, ap (λ (b : Bool). one_if (not b)) used);
        })
  ]

module _ {R C : Type 0} (others : ℕ) where
  -- The loop that is left then.
  abbrev freed_loop : PypilotClient R C → EventLoop C
  freed_loop c = free_event c.line_event c.loop

  freed_loop-IsFreed : (c : PypilotClient R C) → IsLinked others c → IsFreed others (freed_loop c)
  freed_loop-IsFreed c h =
      free_event-IsFreed others c.line_event c.loop h.loop_apart h.next_positive h.in_use h.counted

  -- A client that loses its connection.
  detach-if :
      (c : PypilotClient R C) (b : Bool)
      → (c.line_event == 0) ≡ b
      → IsFreed others (if b then c.loop else cancel c.line_event c.loop)
      → IsLinked others
          (detach (if b then c else record c { loop = cancel c.line_event c.loop; line_event = 0 }))
  unfolding detach
  detach-if c true e h =
      let unused = (==_iff c.line_event 0).0 e in
      record {
        loop_apart = h.apart;
        next_positive = h.positive;
        same_stream = refl;
        quiet = λ _. unused;
        in_use = inl unused;
        counted = omega (arith, h.all_others, ap (λ (b : Bool). one_if (not b)) e);
      }
  detach-if c false e h = record {
    loop_apart = h.apart;
    next_positive = h.positive;
    same_stream = refl;
    quiet = λ _. refl;
    in_use = inl refl;
    counted = omega (arith, h.all_others);
  }

  pub detach-drop_event :
      (c : PypilotClient R C) → IsLinked others c → IsLinked others (detach (drop_event c))
  unfolding drop_event
  detach-drop_event c h = detach-if c (c.line_event == 0) refl (freed_loop-IsFreed c h)

  -- A connection that is attached.
  attached-IsLinked :
      (c : PypilotClient R C) (k : ℕ) (l : EventLoop C) (r : ℕ × EventLoop C)
      → IsFreed others l
      → Added l r
      → IsLoop r.1
      → busy r.1.slots ≡ one_if (not (r.0 == 0)) + busy l.slots
      → IsLinked others (record c {
        connection = some k;
        tcp_stream = some k;
        line_reader = reset c.line_reader;
        line_event = r.0;
        loop = r.1;
      })
  attached-IsLinked c k l r h a apart count = record {
    loop_apart = apart;
    next_positive = elim a [
      | inl (e, same) ↦ rw same h.positive
      | inr (e, next, size, held) ↦ λ z. absurd (omega (arith, next, z))
    ];
    same_stream = refl;
    quiet = λ e. cc;
    in_use = elim a [
      | inl (e, same) ↦ inl e
      | inr (e, next, size, held) ↦
          let new = held r.0 in
          let none_yet = h.apart.fresh 0 in
          let shift : l.next_id + 0 ≡ r.0 = omega (arith, e) in
          let same : (l.next_id == r.0) ≡ true = ground (arith, e) in
          inr
            (omega (arith, new, none_yet, ap (λ (i : ℕ). holders i l.slots) shift, ap one_if same))
    ];
    counted = count ∙ ap (λ (x : ℕ). one_if (not (r.0 == 0)) + x) h.all_others;
  }

  pub attach_connection-IsLinked :
      (call_reader : C) (k : ℕ) (c : PypilotClient R C)
      → IsLinked others c
      → IsLinked others (attach_connection call_reader k c)
  unfolding attach_connection on_bytes_ready
  attach_connection-IsLinked call_reader k c h =
      let f = freed_loop-IsFreed c h in
      let l = freed_loop c in
      attached-IsLinked c k l (add_poll call_reader l) f (add_poll-Added call_reader l)
        (add_poll-IsLoop call_reader l f.apart) (add_poll-busy call_reader l f.positive)

  pub on_close-IsLinked :
      (k : ℕ) (c : PypilotClient R C) → IsLinked others c → IsLinked others (on_close k c)
  unfolding on_close
  on_close-IsLinked k c h = closed c.connection
    where
      closed :
          (o : Option ℕ)
          → IsLinked others (elim o as (λ _. PypilotClient R C) [
            | none ↦ c
            | some held ↦ if k == held then detach (drop_event c) else c
          ])
      closed none = h
      closed (some held) = elim (Bool-cases (k == held)) [
        | inl same ↦ rw same (detach-drop_event c h)
        | inr other ↦ rw other h
      ]

  pub on_error-IsLinked :
      (code : ℤ) (c : PypilotClient R C) → IsLinked others c → IsLinked others (on_error code c)
  unfolding on_error
  on_error-IsLinked code c h =
      detach-drop_event (record c { last_error = code })
        (record {
          loop_apart = h.loop_apart;
          next_positive = h.next_positive;
          same_stream = h.same_stream;
          quiet = h.quiet;
          in_use = h.in_use;
          counted = h.counted;
        })
