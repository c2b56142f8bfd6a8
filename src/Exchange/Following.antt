-- ===== src/Exchange/Following.antt =====
-- The steps of a server, a client that follows it and the bytes between them, with src/pypilot/server.cpp
-- on one side and src/pypilot/client.cpp on the other.
use pypilot_cxx.Prelude.{ℕ, suc, ◌≡◌, Bool, true, some, [], ◌++◌, length, take, drop, All}
use pypilot_cxx.Prelude.Text.{Text}
use pypilot_cxx.Float.{Float}
use pypilot_cxx.DataModel.{DataModel}
use pypilot_cxx.LineReader.{default_options}
use pypilot_cxx.LineReader.Framing.{Holds}
use pypilot_cxx.Values.Fields.{FieldId, field_count}
use pypilot_cxx.Values.Writer.{string_writer}
use pypilot_cxx.Values.Access.{ValueRegistry, set_real, set_bool, set_string}
use pypilot_cxx.Values.Access.Stored.{Agree}
use pypilot_cxx.Values.Lines.Appended.{line_of}
use pypilot_cxx.Values.Watches.{any_of, immediate}
use pypilot_cxx.Values.Due.Schedule.{Bounded}
use pypilot_cxx.Values.Due.Written.{OffOr}
use pypilot_cxx.Server.{Reply, handle_line, collect_output}
use pypilot_cxx.Client.Pending.{max_line_size}
use pypilot_cxx.Client.Session.{PypilotClient}
use pypilot_cxx.Client.Callbacks.{receive_bytes}
use pypilot_cxx.Exchange.Whole.{IsWhole}
use pypilot_cxx.Exchange.Polled.{UpToDate}

pub record Following (R C : Type 0) : Type 0 where
  pub server : ValueRegistry R
  pub in_flight : Text
  pub client : PypilotClient R C

module _ {R C : Type 0} ⦃fl : Float R⦄ where
  -- The client when all that is in flight has arrived.
  abbrev pub arrived : Following R C → PypilotClient R C
  arrived x = receive_bytes x.in_flight x.client

module _ {R C : Type 0} ⦃fl : Float R⦄ (j : FieldId) where
  -- A step with regard to a field: the server's answers go to other clients; what changes the state
  -- behind the registry leaves the field alone; and a poll finds the field watched with the period 0, no
  -- due watch whose period overruns the clock, and whole lines of the fields with an active watch.
  pub data Step : Following R C → Following R C → Type 0 where
    asks :
        {x : Following R C} (line : Text) (now_us : ℕ) (out : Text) (r : Reply R Text)
        → handle_line line now_us x.server out ≡ some r
        → Step x (record x { server = r.1 })
    sets_real :
        {x : Following R C} (name : Text) (value : R)
        → Step x (record x { server = (set_real name value x.server).1 })
    sets_bool :
        {x : Following R C} (name : Text) (value : Bool)
        → Step x (record x { server = (set_bool name value x.server).1 })
    sets_string :
        {x : Following R C} (name value : Text)
        → Step x (record x { server = (set_string name value x.server).1 })
    moves :
        {x : Following R C} (s : DataModel R)
        → Agree j x.server.state s
        → Step x (record x { server = record x.server { state = s } })
    polls :
        {x : Following R C} (now_us : ℕ) (bytes : Text) (v : ValueRegistry R)
        → any_of (immediate j) x.server.watches ≡ true
        → All (Bounded now_us) x.server.watches
        → All (OffOr (λ id. IsWhole (line_of x.server id))) x.server.watches
        → collect_output (suc now_us) now_us x.server ≡ some (bytes, v)
        → Step x (record x { server = v; in_flight = x.in_flight ++ bytes })
    arrives :
        {x : Following R C} (n : ℕ)
        → Step x (record x {
          in_flight = drop n x.in_flight;
          client = receive_bytes (take n x.in_flight) x.client;
        })

  pub data Reaches (x : Following R C) : Following R C → Type 0 where
    here : Reaches x x
    after : {y z : Following R C} → Reaches x y → Step y z → Reaches x z

  -- The server and the client have a state, the server has a mark per field, the client's buffer is
  -- empty, and the field is marked or the client reads it as the server relays it.
  pub record IsFollowing (v : ValueRegistry R) (c : PypilotClient R C) : Type 0 where
    pub a_mark_each : length v.dirty ≡ field_count
    pub on : v.attached ≡ true
    pub on_client : c.values.attached ≡ true
    pub empty_buffer : Holds max_line_size default_options [] c.line_reader
    pub up_to_date : UpToDate j v c.values
