-- ===== src/Exchange/Watch.antt =====
-- A watch that a client asks of the server, for every change of a field.
use pypilot_cxx.Prelude.{
  List, ℕ, ◌+◌, ◌≡◌, refl, sym, ap, ◌∙◌, ◌≢◌, true, some, ◌++◌, arith, ltb, length, length-append,
  All-append,
}
use mathlib.Core.List.{append_assoc}
use pypilot_cxx.Prelude.Text.{Text, codes}
use pypilot_cxx.Float.{Float, whole}
use pypilot_cxx.Values.Fields.{Descriptor, find}
use pypilot_cxx.Values.Writer.{ValueWriter}
use pypilot_cxx.Values.Access.{ValueRegistry, until_nul}
use pypilot_cxx.Server
use pypilot_cxx.Client.Records.{make_watch, make_watch_period}
use pypilot_cxx.Client.Records.Built.{make_watch-line}
use pypilot_cxx.Client.Watches.{ClientWatch, remember_watch}
use pypilot_cxx.Client.Watches.Remembered.{Remembered, remember_watch-Remembered, copy_name-short}
use pypilot_cxx.Client.Pending.{max_line_size}
use pypilot_cxx.Client.Session.{Tcp, PypilotClient, send_made, write_watch_line, watch}
use pypilot_cxx.Exchange.Words.{IsName, find-IsName, no_nul, has_no_nul-All}
use pypilot_cxx.Exchange.Set.{Sends, until_nul-plain}
use pypilot_cxx.Exchange.Watching.{watch_line, watched, handle_line-watch}

abbrev watch_tail : Text
watch_tail = codes "\":true}\n"

watch_line-parts : (name : Text) → watch_line name ≡ codes "watch={\"" ++ (name ++ watch_tail)
unfolding codes
watch_line-parts name = simp append_assoc refl

until_nul-watch : (name : Text) → IsName name → until_nul (watch_line name) ≡ watch_line name
unfolding codes
until_nul-watch name h =
    ap until_nul (watch_line-parts name)
    ∙ until_nul-plain (codes "watch={\"" ++ (name ++ watch_tail)) (
        All-append (λ c. c ≢ 0) (codes "watch={\"") (name ++ watch_tail)
          (has_no_nul-All (codes "watch={\"") refl)
          (All-append (λ c. c ≢ 0) name watch_tail (no_nul name h.word)
            (has_no_nul-All watch_tail refl)))
    ∙ sym (watch_line-parts name)

made_watch :
    (name : Text)
    → IsName name
    → make_watch max_line_size name (codes "true") ≡ some (watch_line name)
unfolding codes
made_watch name h =
    let size = length-append name watch_tail in
    let fits : ltb (length (codes "watch={\"" ++ (name ++ watch_tail)) + 1) 192 ≡ true =
      ground (arith, size, h.short) in
    make_watch-line 192 name (codes "true") ∙ (rw fits refl) ∙ ap some (sym (watch_line-parts name))

module _ {R C N : Type 0} ⦃fl : Float R⦄ ⦃tcp : Tcp N⦄ where
  -- Where a client watches a field with a period that is not positive, one entry of its table is the
  -- watch of the field with the period and the others are as before; where all entries are in use for
  -- other names, the table stays as it was. Nothing else of the client changes but that it hands the
  -- line of the watch to the connection or the pending lines. The server handles this line by one call
  -- of `watch` for the field with the period 0; it answers with an error if this call fails, and with
  -- no more than what the call writes otherwise.
  pub watch-Received :
      {W : Type 0} ⦃writer : ValueWriter W⦄ (c : PypilotClient R C) (n : N) (name : Text)
      (period : R) (d : Descriptor R) (now_us : ℕ) (v : ValueRegistry R) (out : W)
      → find name ≡ some d
      → fl.le period (whole 0) ≡ true
      → (ws : List (ClientWatch R)) × Remembered name period c.watches ws
        × Sends (watch_line name) (record c { watches = ws }) n (watch name period c n)
        × (Server.handle_line (watch_line name) now_us v out ≡ some (watched name now_us v out))
  unfolding watch write_watch_line make_watch_period send_made
  watch-Received c n name period d now_us v out e at_once =
      let h = find-IsName name d e in
      let copied =
        copy_name-short name (ground (arith, h.short))
          (until_nul-plain name (no_nul name h.word)) in
      (
        remember_watch name period c.watches,
        remember_watch-Remembered name period c.watches copied,
        rw (at_once, made_watch name h, until_nul-watch name h) refl,
        handle_line-watch name h now_us v out,
      )
