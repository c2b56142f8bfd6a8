-- ===== src/Exchange/Streamed.antt =====
-- The bytes that a server hands out for its clients, read by a client's line reader in whatever pieces
-- they come: `collect_output` of src/pypilot/server.cpp and `on_line_ready` of src/pypilot/client.cpp.
use pypilot_cxx.Prelude.{
  ◌≢◌, inr, take, drop, zero, ℕ, suc, ◌≡◌, refl, sym, ap, ◌∙◌, true, Option, none, some, List, [],
  ◌∷◌, ◌++◌, map, length, All,
}
use mathlib.Core.List.{append-nil}
use pypilot_cxx.Prelude.Text.{Text}
use pypilot_cxx.Float.{Float}
use pypilot_cxx.LineReader
use pypilot_cxx.LineReader.{default_options, emitted, LineProtocolReader}
use pypilot_cxx.LineReader.Framing.{Holds, poll-append}
use pypilot_cxx.Values.Fields.{FieldId, field_count, real}
use pypilot_cxx.Values.Rows.{kind_of}
use pypilot_cxx.Values.Access.{ValueRegistry}
use pypilot_cxx.Values.Lines.Appended.{line_of, joined}
use pypilot_cxx.Values.Watches.{any_of, immediate}
use pypilot_cxx.Values.Due.Schedule.{Bounded}
use pypilot_cxx.Values.Due.Written.{OffOr}
use pypilot_cxx.Values.Writer.{string_writer}
use pypilot_cxx.Server.{poll, collect_output}
use pypilot_cxx.Server.Updates
use pypilot_cxx.Client.Pending.{max_line_size}
use pypilot_cxx.Client.Session.{PypilotClient}
use pypilot_cxx.Client.Callbacks.{handle_lines, receive_bytes}
use pypilot_cxx.Exchange.Whole.{IsWhole, handle_lines-append, whole_lines}
use pypilot_cxx.Exchange.Relayed.{reads, relays}
use pypilot_cxx.Exchange.Polled.{Follows-UpToDate, poll-InStep}

pub take-drop : (n : ℕ) (t : Text) → take n t ++ drop n t ≡ t
take-drop zero t = refl
take-drop (suc n) [] = refl
take-drop (suc n) (c ∷ t) = ap (λ s. c ∷ s) (take-drop n t)

-- The pieces of a text that have these sizes, and what is left behind them.
abbrev pub cut : List ℕ → Text → List Text
cut [] t = t ∷ []
cut (n ∷ sizes) t = take n t ∷ cut sizes (drop n t)

pub joined-cut : (sizes : List ℕ) (t : Text) → joined (cut sizes t) ≡ t
joined-cut [] t = append-nil t
joined-cut (n ∷ sizes) t = ap (λ s. take n t ++ s) (joined-cut sizes (drop n t)) ∙ take-drop n t

module _ {R : Type 0} ⦃fl : Float R⦄ where
  pub polled-collected :
      (fuel now_us : ℕ) (v v' : ValueRegistry R) (out : Text)
      → poll {W = Text} fuel now_us v [] ≡ some (v', out)
      → collect_output fuel now_us v ≡ some (out, v')
  unfolding collect_output
  polled-collected fuel now_us v v' out e =
      ap
        (λ (o : Option (ValueRegistry R × Text)). elim o as (λ _. Option (Text × ValueRegistry R)) [
          | none ↦ none
          | some (v', out) ↦ some (out, v')
        ])
        e

module _ {R C : Type 0} ⦃fl : Float R⦄ where
  -- The bytes in pieces, as the connection brings them.
  abbrev pub receive_pieces : List Text → PypilotClient R C → PypilotClient R C
  receive_pieces [] c = c
  receive_pieces (piece ∷ pieces) c = receive_pieces pieces (receive_bytes piece c)

  pub receive_bytes-append :
      (xs ys : Text) (c : PypilotClient R C)
      → receive_bytes (xs ++ ys) c ≡ receive_bytes ys (receive_bytes xs c)
  unfolding receive_bytes
  receive_bytes-append xs ys c =
      let two = poll-append max_line_size xs ys c.line_reader in
      let (first, r) = LineReader.poll max_line_size xs c.line_reader in
      λ i. record c {
        line_reader = (two i).1;
        values =
            (ap (λ x. handle_lines x.0 c.values) two
                ∙ handle_lines-append first (LineReader.poll max_line_size ys r).0 c.values)
              i;
      }

  -- Where the pieces are cut makes no difference.
  pub receive_pieces-joined :
      (pieces : List Text) (c : PypilotClient R C)
      → receive_pieces pieces c ≡ receive_bytes (joined pieces) c
  unfolding receive_bytes LineReader.poll handle_lines
  receive_pieces-joined [] c = refl
  receive_pieces-joined (piece ∷ pieces) c =
      receive_pieces-joined pieces (receive_bytes piece c)
      ∙ sym (receive_bytes-append piece (joined pieces) c)

  -- A server with a mark per field and a client have a state each, the client reads a field that is no
  -- number as the server relays it, and its buffer is empty: a Boolean is relayed as it is, a string
  -- with a backslash before each quote and each backslash. Then clients make requests, which are
  -- handled to an end, the field is watched with the period 0, and the server collects its output; no
  -- period of a due watch overruns the clock, and the line of any field that has an active watch is
  -- whole. The server's call ends, and the client, getting these bytes in pieces of any sizes, reads the
  -- field as the server relays it.
  pub received-Synced :
      (lines : List (Text × ℕ)) (v v' : ValueRegistry R) (asked answered : Text) (now_us : ℕ)
      (sizes : List ℕ) (c : PypilotClient R C) (j : FieldId)
      → length v.dirty ≡ field_count
      → v.attached ≡ true
      → c.values.attached ≡ true
      → kind_of j ≢ real
      → reads j c.values ≡ relays j v
      → Updates.handle_lines lines v asked ≡ some (v', answered)
      → any_of (immediate j) v'.watches ≡ true
      → All (Bounded now_us) v'.watches
      → All (OffOr (λ id. IsWhole (line_of v' id))) v'.watches
      → Holds max_line_size default_options [] c.line_reader
      → (bytes : Text) × (v'' : ValueRegistry R) × (collect_output (suc now_us) now_us v'
          ≡ some (bytes, v''))
        × (reads j (receive_pieces (cut sizes bytes) c).values ≡ relays j v'')
  unfolding receive_bytes
  received-Synced lines v v' asked answered now_us sizes c j sized on on' right step went watched
        bounded whole held =
      let later = Updates.handled-Follows lines v v' asked answered went in
      let (v'', ids, all, polled, same, on'', copied) =
        poll-InStep (λ id. IsWhole (line_of v' id)) v' [] now_us c.values j
          (later.same_size ∙ sized) (later.same_attached ∙ on) on' right
          (Follows-UpToDate j v v' c.values later sized (inr step)) watched bounded whole in
      let bytes = joined (map (line_of v') ids) in
      (
        bytes,
        v'',
        polled-collected (suc now_us) now_us v' v'' bytes polled,
        ap (λ d. reads j d.values)
              (receive_pieces-joined (cut sizes bytes) c
                ∙ ap (λ t. receive_bytes t c) (joined-cut sizes bytes))
            ∙ ap (reads j) (whole_lines ids v' c.values c.line_reader all held)
            ∙ copied,
      )
