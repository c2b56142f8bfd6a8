-- ===== src/Exchange/Flow.antt =====
-- What a client that follows a server reads, when requests, writes, polls and bytes that arrive come in
-- any order.
use pypilot_cxx.Prelude.{
  ◌≢◌, ℕ, suc, ◌≡◌, refl, sym, ap, ◌∙◌, ◌⊎◌, inl, inr, true, some, List, [], map, length, take,
  drop, All,
}
use mathlib.Core.Path.{subst}
use pypilot_cxx.Prelude.Text.{Text}
use pypilot_cxx.Float.{Float}
use pypilot_cxx.DataModel.{DataModel}
use pypilot_cxx.Values.Fields.{FieldId, real}
use pypilot_cxx.Values.Rows.{kind_of}
use pypilot_cxx.Values.Writer.{string_writer}
use pypilot_cxx.Values.Access.{ValueRegistry}
use pypilot_cxx.Values.Access.Stored.{Agree, set_real-Stored, set_bool-Stored, set_string-Stored}
use pypilot_cxx.Values.Lines.Appended.{line_of, joined}
use pypilot_cxx.Values.Watches.{any_of, immediate}
use pypilot_cxx.Values.Watches.Changed.{length-map-false}
use pypilot_cxx.Values.Due.Schedule.{Bounded}
use pypilot_cxx.Values.Due.Written.{OffOr}
use pypilot_cxx.Server.{collect_output}
use pypilot_cxx.Server.Preserved.{handle_line-Kept}
use pypilot_cxx.Server.Marks.{is_marked, Follows, Follows-IsKept, Stored-Follows}
use pypilot_cxx.Client.Session.{PypilotClient}
use pypilot_cxx.Client.Callbacks.{receive_bytes}
use pypilot_cxx.Exchange.Whole.{IsWhole, whole_lines, whole_lines-empties}
use pypilot_cxx.Exchange.Relayed.{reads, relays}
use pypilot_cxx.Exchange.Polled.{relays-Agree, Follows-UpToDate, UpToDate, poll-InStep}
use pypilot_cxx.Exchange.Streamed.{
  cut, joined-cut, receive_pieces, receive_pieces-joined, polled-collected, take-drop,
  receive_bytes-append,
}
use pypilot_cxx.Exchange.Following.{
  Following, Step, asks, sets_real, sets_bool, sets_string, moves, polls, arrives, Reaches, here,
  after, arrived, IsFollowing,
}

module _ {R C : Type 0} ⦃fl : Float R⦄ (j : FieldId) where
  Follows-IsFollowing :
      {v v' : ValueRegistry R} {c : PypilotClient R C}
      → Follows v v'
      → IsFollowing j v c
      → IsFollowing j v' c
  Follows-IsFollowing {v} {v'} {c} later h = record {
    a_mark_each = later.same_size ∙ h.a_mark_each;
    on = later.same_attached ∙ h.on;
    on_client = h.on_client;
    empty_buffer = h.empty_buffer;
    up_to_date = Follows-UpToDate j v v' c.values later h.a_mark_each h.up_to_date;
  }

  moved-IsFollowing :
      (v : ValueRegistry R) (c : PypilotClient R C) (s : DataModel R)
      → Agree j v.state s
      → IsFollowing j v c
      → IsFollowing j (record v { state = s }) c
  moved-IsFollowing v c s same h = record {
    a_mark_each = h.a_mark_each;
    on = h.on;
    on_client = h.on_client;
    empty_buffer = h.empty_buffer;
    up_to_date = elim h.up_to_date [
      | inl marked ↦ inl marked
      | inr current ↦ inr (current ∙ relays-Agree v (record v { state = s }) j refl same)
    ];
  }

  poll-IsFollowing :
      (right : kind_of j ≢ real) (v v' : ValueRegistry R) (c : PypilotClient R C) (now_us : ℕ)
      (bytes : Text)
      → any_of (immediate j) v.watches ≡ true
      → All (Bounded now_us) v.watches
      → All (OffOr (λ id. IsWhole (line_of v id))) v.watches
      → collect_output (suc now_us) now_us v ≡ some (bytes, v')
      → IsFollowing j v c
      → IsFollowing j v' (receive_bytes bytes c)
  unfolding receive_bytes
  poll-IsFollowing right v v' c now_us bytes watched bounded whole went h =
      let (v'', ids, all, polled, same, on', copied) =
        poll-InStep (λ id. IsWhole (line_of v id)) v [] now_us c.values j h.a_mark_each h.on
          h.on_client right h.up_to_date watched bounded whole in
      let collected = sym went ∙ polled-collected (suc now_us) now_us v v'' _ polled in
      let same_bytes : bytes ≡ joined (map (line_of v) ids) = cc in
      let same_registry : v' ≡ v'' = cc in
      rw (same_bytes, same_registry)
        (record {
          a_mark_each = ap (λ u. length u.dirty) same ∙ length-map-false v.dirty ∙ h.a_mark_each;
          on = ap (λ u. u.attached) same ∙ h.on;
          on_client =
              ap (λ m. m.attached) (whole_lines ids v c.values c.line_reader all h.empty_buffer)
              ∙ on';
          empty_buffer = whole_lines-empties ids v c.line_reader all h.empty_buffer;
          up_to_date =
              inr (
                ap (reads j) (whole_lines ids v c.values c.line_reader all h.empty_buffer)
                ∙ copied);
        })

  Step-IsFollowing :
      (right : kind_of j ≢ real) {x y : Following R C}
      → Step j x y
      → IsFollowing j x.server (arrived x)
      → IsFollowing j y.server (arrived y)
  Step-IsFollowing right {x} (asks line now_us out r e) h =
      Follows-IsFollowing (handle_line-Kept Follows Follows-IsKept line now_us x.server out r e) h
  Step-IsFollowing right (sets_real name value) h =
      Follows-IsFollowing (Stored-Follows _ _ _ (set_real-Stored name value _).1) h
  Step-IsFollowing right (sets_bool name value) h =
      Follows-IsFollowing (Stored-Follows _ _ _ (set_bool-Stored name value _).1) h
  Step-IsFollowing right (sets_string name value) h =
      Follows-IsFollowing (Stored-Follows _ _ _ (set_string-Stored name value _).1) h
  Step-IsFollowing right {x} (moves s same) h = moved-IsFollowing x.server (arrived x) s same h
  Step-IsFollowing right {x} (polls now_us bytes v watched bounded whole went) h =
      rw (receive_bytes-append x.in_flight bytes x.client)
        (poll-IsFollowing right x.server v (arrived x) now_us bytes watched bounded whole went h)
  Step-IsFollowing right {x} (arrives n) h =
      let cut =
        sym (receive_bytes-append (take n x.in_flight) (drop n x.in_flight) x.client)
        ∙ ap (λ t. receive_bytes t x.client) (take-drop n x.in_flight) in
      subst (IsFollowing j x.server) (sym cut) h

  Reaches-IsFollowing :
      (right : kind_of j ≢ real) {x y : Following R C}
      → Reaches j x y
      → IsFollowing j x.server (arrived x)
      → IsFollowing j y.server (arrived y)
  Reaches-IsFollowing right here h = h
  Reaches-IsFollowing right (after earlier step) h =
      Step-IsFollowing right step (Reaches-IsFollowing right earlier h)

-- A server with a mark per field and a client start with a state each, nothing in flight and an empty
-- buffer, and the client reads a field that is no number as the server relays it, unless it is marked:
-- a Boolean is relayed as it is, a string with a backslash before each quote and each backslash. Then
-- the server answers other clients, the program sets fields through the registry, what changes the
-- state behind the registry leaves the field alone, the server polls while the field is watched with
-- the period 0, no period of a due watch overruns the clock and the fields with an active watch have
-- whole lines, and bytes arrive at the client, any number at a time: all that in any order. Then the
-- field is marked at the server, or the client, when it has got what is in flight in pieces of any
-- sizes, reads it as the server relays it.
pub reachable-UpToDate :
    {R C : Type 0} ⦃fl : Float R⦄ (j : FieldId) (x y : Following R C) (sizes : List ℕ)
    → kind_of j ≢ real
    → IsFollowing j x.server x.client
    → x.in_flight ≡ []
    → Reaches j x y
    → (is_marked j y.server ≡ true)
      ⊎ (reads j (receive_pieces (cut sizes y.in_flight) y.client).values ≡ relays j y.server)
reachable-UpToDate j x y sizes right start none_yet reached =
    let nothing = ap (λ t. receive_bytes t x.client) none_yet in
    let now = Reaches-IsFollowing j right reached (
      subst (IsFollowing j x.server) (sym (nothing ∙ sym (receive_pieces-joined [] x.client)))
        start) in
    let whole =
      receive_pieces-joined (cut sizes y.in_flight) y.client
      ∙ ap (λ t. receive_bytes t y.client) (joined-cut sizes y.in_flight) in
    subst (λ (c : PypilotClient _ _). UpToDate j y.server c.values) (sym whole) now.up_to_date
