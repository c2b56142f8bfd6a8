-- ===== src/Exchange/Set.antt =====
-- What the server does with the lines of `set`, `set_bool` and the other setters of the client.
use pypilot_cxx.Prelude.{
  ℕ, ◌+◌, ◌<◌, ◌≡◌, refl, sym, ap, ◌∙◌, ◌≢◌, true, false, some, [], ◌∷◌, ◌++◌, arith, ltb, ◌==◌,
  length, All, length-append, All-append,
}
use pypilot_cxx.Prelude.Text.{Text}
use pypilot_cxx.Float.{Float}
use pypilot_cxx.Exchange.Assign.{handle_line-assignment}
use pypilot_cxx.Trim.{trim_view, is_space}
use pypilot_cxx.Values.Fields.{Descriptor, find}
use pypilot_cxx.Values.Writer.{ValueWriter}
use pypilot_cxx.Values.Access.{ValueRegistry, until_nul}
use pypilot_cxx.Client.Records.{make_record_raw}
use pypilot_cxx.Client.Records.Built.{make_record_raw-line}
use pypilot_cxx.Client.Pending.{max_line_size}
use pypilot_cxx.Server
use pypilot_cxx.Server.{handle_assignment}
use pypilot_cxx.Trim.Ends.{trim_view-trim_back, trim_back-space}
use pypilot_cxx.Client.Session.{
  Tcp, PypilotClient, queue_or_write, send_made, send_record, set_value,
}
use pypilot_cxx.Exchange.Words.{find-IsName, no_nul, IsName}

-- The line of a record.
abbrev pub record_line : Text → Text → Text
record_line name json = name ++ b'=' ∷ (json ++ b'\n' ∷ [])

pub trim_view-newline : (s : Text) → trim_view (s ++ b'\n' ∷ []) ≡ trim_view s
unfolding is_space
trim_view-newline s =
    sym (trim_view-trim_back (s ++ b'\n' ∷ []))
    ∙ ap trim_view (trim_back-space s b'\n' refl)
    ∙ trim_view-trim_back s

pub until_nul-plain : (s : Text) → All (λ c. c ≢ 0) s → until_nul s ≡ s
unfolding until_nul
until_nul-plain [] h = refl
until_nul-plain (c ∷ s) h =
    let other : (c == 0) ≡ false = ground (arith, h.0) in rw (other, until_nul-plain s h.1)

until_nul-line :
    (name json : Text)
    → IsName name
    → All (λ c. c ≢ 0) json
    → until_nul (record_line name json) ≡ record_line name json
until_nul-line name json h plain = until_nul-plain (record_line name json) (
    All-append (λ c. c ≢ 0) name (b'=' ∷ (json ++ b'\n' ∷ [])) (no_nul name h.word)
      (
        (λ e. omega (arith, e)),
        All-append (λ c. c ≢ 0) json (b'\n' ∷ []) plain ((λ e. omega (arith, e)), tt),
      ))

made_line :
    (name json : Text)
    → IsName name
    → length json < 171
    → make_record_raw max_line_size name json ≡ some (record_line name json)
made_line name json h short =
    let size = length-append name (b'=' ∷ (json ++ b'\n' ∷ [])) in
    let size' = length-append json (b'\n' ∷ []) in
    let fits : ltb (length (record_line name json) + 1) 192 ≡ true =
      ground (arith, size, size', h.short) in
    make_record_raw-line 192 name json ∙ rw fits

-- What a call of the client leaves when it sends a line.
abbrev pub Sends :
    {R C N : Type 0} ⦃tcp : Tcp N⦄ → Text → PypilotClient R C → N → PypilotClient R C × N → Type 0
Sends line c n result = result ≡ ((queue_or_write line c n).1, (queue_or_write line c n).2)

module _ {R C N : Type 0} ⦃fl : Float R⦄ ⦃tcp : Tcp N⦄ (c : PypilotClient R C) (n : N) where
  pub send_record-Sends :
      (name json : Text)
      → IsName name
      → All (λ c. c ≢ 0) json
      → length json < 171
      → Sends (record_line name json) c n (send_record name json c n)
  unfolding send_made
  send_record-Sends name json h plain short =
      rw (made_line name json h short, until_nul-line name json h plain) refl

  -- A call of `set` with the name of a field and a value of at most 170 bytes without a NUL hands the
  -- line of the name and the value to the connection or the pending lines, and the server handles this
  -- line as an assignment of the trimmed value to the field.
  pub set_value-Received :
      {W : Type 0} ⦃writer : ValueWriter W⦄ (name json : Text) (d : Descriptor R) (now_us : ℕ)
      (v : ValueRegistry R) (out : W)
      → find name ≡ some d
      → All (λ c. c ≢ 0) json
      → length json < 171
      → Sends (record_line name json) c n (set_value name json c n)
        × (Server.handle_line (record_line name json) now_us v out
            ≡ some (handle_assignment name (trim_view json) v out))
  unfolding set_value
  set_value-Received name json d now_us v out e plain short =
      let h = find-IsName name d e in
      (
        send_record-Sends name json h plain short,
        handle_line-assignment name (json ++ b'\n' ∷ []) h now_us v out
            ∙ ap (λ (t : Text). some (handle_assignment name t v out)) (trim_view-newline json),
      )
