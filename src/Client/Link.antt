-- ===== src/Client/Link.antt =====
-- What the client does with its event, as steps: its calls but `poll` and `receive`, which run the
-- event loop for others as well, the callback that the loop runs for it, and the callbacks of its
-- connections; and how the client is tied to the event loop.
pub mod Kept
pub mod Freed
pub mod Held
use pypilot_cxx.Prelude.{ℕ, ◌+◌, ◌≡◌, refl, sym, ◌∙◌, ◌≢◌, ◌⊎◌, Bool, not, none, ◌==◌}
use pypilot_cxx.Prelude.Text.{Text}
use pypilot_cxx.Prelude.Int.{ℤ}
use pypilot_cxx.Float.{Float}
use pypilot_cxx.EventLoop.Handles.{one_if, holders, IsLoop}
use pypilot_cxx.EventLoop.Busy.{busy}
use pypilot_cxx.Client.Session.{
  Tcp, PypilotClient, close, set_value, set_bool, set_real, set_string, send_raw, pop_line, watch,
  unwatch,
}
use pypilot_cxx.Client.Callbacks.{on_bytes, on_data, on_connect, on_close, on_error}

module _ {R C N : Type 0} ⦃fl : Float R⦄ ⦃tcp : Tcp N⦄ (call_reader : C) where
  pub data Step : PypilotClient R C × N → PypilotClient R C × N → Type 0 where
    connects : {c : PypilotClient R C} {n : N} (k : ℕ) → Step (c, n) (on_connect call_reader k c n)
    -- The loop runs the client's callback.
    polls : {c : PypilotClient R C} {n : N} → Step (c, n) (on_bytes c n)
    gets : {c : PypilotClient R C} {n : N} (k : ℕ) → Step (c, n) (on_data k c n)
    closes : {c : PypilotClient R C} {n : N} (k : ℕ) → Step (c, n) (on_close k c, n)
    fails : {c : PypilotClient R C} {n : N} (code : ℤ) → Step (c, n) (on_error code c, n)
    shuts : {c : PypilotClient R C} {n : N} → Step (c, n) (close c n)
    sets :
        {c : PypilotClient R C} {n : N} (name json : Text) → Step (c, n) (set_value name json c n)
    sets_bool :
        {c : PypilotClient R C} {n : N} (name : Text) (b : Bool) → Step (c, n) (set_bool name b c n)
    sets_real :
        {c : PypilotClient R C} {n : N} (name : Text) (x : R) → Step (c, n) (set_real name x c n)
    sets_string :
        {c : PypilotClient R C} {n : N} (name s : Text) → Step (c, n) (set_string name s c n)
    sends :
        {c : PypilotClient R C} {n : N} (line : Text)
        → Step (c, n) ((send_raw line c n).1, (send_raw line c n).2)
    pops : {c : PypilotClient R C} {n : N} → Step (c, n) ((pop_line c).1, n)
    watches : {c : PypilotClient R C} {n : N} (name : Text) (x : R) → Step (c, n) (watch name x c n)
    unwatches : {c : PypilotClient R C} {n : N} (name : Text) → Step (c, n) (unwatch name c n)
    -- The network goes on by itself.
    waits : {c : PypilotClient R C} {n n' : N} → Step (c, n) (c, n')

  pub data Reaches : PypilotClient R C × N → PypilotClient R C × N → Type 0 where
    here : {s : PypilotClient R C × N} → Reaches s s
    after : {s t u : PypilotClient R C × N} → Reaches s t → Step t u → Reaches s u

module _ {R C : Type 0} where
  -- The client reads from the connection that it writes to; while it has none, it has no event; its
  -- event is in use; and apart from the `others` that were in use before, it takes at most that slot.
  pub record IsLinked (others : ℕ) (c : PypilotClient R C) : Type 0 where
    pub loop_apart : IsLoop c.loop
    pub next_positive : c.loop.next_id ≢ 0
    pub same_stream : c.tcp_stream ≡ c.connection
    pub quiet : c.connection ≡ none → c.line_event ≡ 0
    pub in_use : (c.line_event ≡ 0) ⊎ (holders c.line_event c.loop.slots ≡ 1)
    pub counted : busy c.loop.slots ≡ one_if (not (c.line_event == 0)) + others

  -- What most calls leave as it is.
  pub record SameLink (c c' : PypilotClient R C) : Type 0 where
    pub same_loop : c'.loop ≡ c.loop
    pub same_connection : c'.connection ≡ c.connection
    pub same_tcp_stream : c'.tcp_stream ≡ c.tcp_stream
    pub same_event : c'.line_event ≡ c.line_event

  pub SameLink-refl : (c : PypilotClient R C) → SameLink c c
  SameLink-refl c = record {
    same_loop = refl;
    same_connection = refl;
    same_tcp_stream = refl;
    same_event = refl;
  }

  pub SameLink-trans : (a b c : PypilotClient R C) → SameLink a b → SameLink b c → SameLink a c
  SameLink-trans a b c h k = record {
    same_loop = k.same_loop ∙ h.same_loop;
    same_connection = k.same_connection ∙ h.same_connection;
    same_tcp_stream = k.same_tcp_stream ∙ h.same_tcp_stream;
    same_event = k.same_event ∙ h.same_event;
  }

  pub SameLink-IsLinked :
      (others : ℕ) (c c' : PypilotClient R C)
      → SameLink c c'
      → IsLinked others c
      → IsLinked others c'
  SameLink-IsLinked others c c' s h = record {
    loop_apart = rw s.same_loop h.loop_apart;
    next_positive = rw s.same_loop h.next_positive;
    same_stream = s.same_tcp_stream ∙ h.same_stream ∙ sym s.same_connection;
    quiet = λ e. s.same_event ∙ h.quiet (sym s.same_connection ∙ e);
    in_use = rw (s.same_event, s.same_loop) h.in_use;
    counted = rw (s.same_event, s.same_loop) h.counted;
  }
