-- ===== src/Exchange/Watching.antt =====
-- What the server does with the line of `watch` of the client, where the client asks for every change.
use pypilot_cxx.Prelude.{
  ℕ, suc, ◌≡◌, refl, sym, ap, ◌∙◌, inl, inr, true, false, some, [], ◌∷◌, ◌++◌, arith, ltb,
  if◌then◌else◌, ==_refl, Bool-cases, length,
}
use mathlib.Core.List.{append_assoc}
use pypilot_cxx.Prelude.Text.{
  text_eq_refl, text_eq, Text, codes, split_at, split_at-append, ends_with, init,
}
use pypilot_cxx.Trim.{is_space, trim_front, trim_back, trim_view}
use pypilot_cxx.Trim.Ends.{trim_back-append}
use pypilot_cxx.Float.{Float, whole}
use pypilot_cxx.Values.Writer.{ValueWriter}
use pypilot_cxx.Values.Access.{ValueRegistry}
use pypilot_cxx.Values.Watches
use pypilot_cxx.Server
use pypilot_cxx.Server.{
  Reply, item, finished, next_entry, read_key, read_separator, read_value, handle_item, take_turn,
  watch_loop, handle_watch, handle_request, add_watch, parse_period, fail,
}
use pypilot_cxx.Exchange.Words.{
  IsWord, trim_view-line, split_at-line, is_empty-line, trim_view-name, IsName, no_quote,
}

-- The expression of a watch, without its braces.
abbrev expression : Text → Text
expression name = b'"' ∷ (name ++ codes "\":true")

abbrev braced : Text → Text
braced name = b'{' ∷ (expression name ++ b'}' ∷ [])

-- The line of a watch of every change.
abbrev pub watch_line : Text → Text
watch_line name = codes "watch" ++ b'=' ∷ (braced name ++ b'\n' ∷ [])

ends_with-append : (s : Text) (c : ℕ) → ends_with c (s ++ c ∷ []) ≡ true
unfolding ends_with
ends_with-append [] c = ==_refl c
ends_with-append (a ∷ []) c = ==_refl c
ends_with-append (a ∷ b ∷ s) c = ends_with-append (b ∷ s) c

init-append : (s : Text) (c : ℕ) → init (s ++ c ∷ []) ≡ s
unfolding init
init-append [] c = refl
init-append (a ∷ []) c = refl
init-append (a ∷ b ∷ s) c = ap (λ t. a ∷ t) (init-append (b ∷ s) c)

-- A text that starts and ends with no space is left as it is.
trim_view-ends :
    (a : ℕ) (s : Text) (c : ℕ)
    → is_space a ≡ false
    → is_space c ≡ false
    → trim_view (a ∷ (s ++ c ∷ [])) ≡ a ∷ (s ++ c ∷ [])
unfolding trim_view trim_front trim_back
trim_view-ends a s c h k = rw h (trim_back-append (a ∷ s) c [] k)

trim_back-braced : (name : Text) → trim_back (braced name ++ b'\n' ∷ []) ≡ braced name
unfolding trim_back is_space
trim_back-braced name =
    ap trim_back (append_assoc (b'{' ∷ expression name) (b'}' ∷ []) (b'\n' ∷ []))
    ∙ trim_back-append (b'{' ∷ expression name) b'}' (b'\n' ∷ []) refl

trim_view-braced : (name : Text) → trim_view (braced name) ≡ braced name
unfolding is_space
trim_view-braced name = trim_view-ends b'{' (expression name) b'}' refl refl

trim_view-expression : (name : Text) → trim_view (expression name) ≡ expression name
unfolding is_space codes
trim_view-expression name =
    let shape = append_assoc name (codes "\":tru") (b'e' ∷ []) in
    ap (λ t. trim_view (b'"' ∷ t)) (sym shape)
    ∙ trim_view-ends b'"' (name ++ codes "\":tru") b'e' refl refl
    ∙ ap (λ t. b'"' ∷ t) shape

watch-IsWord : IsWord (codes "watch")
unfolding codes is_space
watch-IsWord = record { filled = refl; bytes = refl }

next_entry-empty : next_entry [] ≡ finished
unfolding next_entry
next_entry-empty = refl

module _ (name : Text) (h : IsName name) where
  read_key-expression : read_key (expression name) ≡ item name (codes "true") []
  unfolding read_key read_separator read_value codes trim_view trim_front trim_back is_space
      split_at
  read_key-expression = rw (split_at-append b'"' name (codes ":true") (no_quote name h.word)) refl

  next_entry-expression : next_entry (expression name) ≡ item name (codes "true") []
  unfolding next_entry
  next_entry-expression =
      rw (trim_view-expression name, trim_view-expression name) (read_key-expression)

module _ {R W : Type 0} ⦃fl : Float R⦄ ⦃writer : ValueWriter W⦄ where
  -- The answer to a watch of every change.
  abbrev pub watched : Text → ℕ → ValueRegistry R → W → Reply R W
  watched name now_us v out =
      let (done, v', out') = Watches.watch name (whole 0) now_us v out in
      if done then (true, v', out') else fail (codes "invalid unknown value") v' out'

  module _ (name : Text) (h : IsName name) (now_us : ℕ) (v : ValueRegistry R) (out : W) where
    handle_item-watch :
        handle_item name (codes "true") now_us v out ≡ add_watch name (whole 0) now_us v out
    unfolding handle_item parse_period text_eq codes
    handle_item-watch = rw h.no_values refl

    -- The turn that adds the watch, and the one that finds nothing more.
    watch_loop-expression :
        (fuel : ℕ)
        → watch_loop (suc (suc fuel)) now_us (expression name) v out
          ≡ some (watched name now_us v out)
    unfolding watch_loop take_turn add_watch
    watch_loop-expression fuel = elim (Bool-cases (Watches.watch name (whole 0) now_us v out).0) [
      | inl done ↦
          rw
            (
              next_entry-expression name h,
              watch_loop,
              handle_item-watch,
              done,
              next_entry-expression name h,
              next_entry-empty,
            )
            refl
      | inr refused ↦ rw (next_entry-expression name h, watch_loop, handle_item-watch, refused) refl
    ]

    handle_watch-braced : handle_watch (braced name) now_us v out ≡ some (watched name now_us v out)
    unfolding handle_watch
    handle_watch-braced =
        let long : ltb (length (braced name)) 2 ≡ false = ground arith in
        rw
          (
            trim_view-braced name,
            long,
            ends_with-append (b'{' ∷ expression name) b'}',
            init-append (expression name) b'}',
          )
          (watch_loop-expression (suc (length ((name ++ codes "\":true") ++ b'}' ∷ []))))

    pub handle_line-watch :
        Server.handle_line (watch_line name) now_us v out ≡ some (watched name now_us v out)
    unfolding Server.handle_line handle_request
    handle_line-watch =
        let value = braced name ++ b'\n' ∷ [] in
        rw
          (
            trim_view-line (codes "watch") value watch-IsWord,
            is_empty-line (codes "watch") value watch-IsWord,
            split_at-line (codes "watch") value watch-IsWord,
            trim_view-name (codes "watch") watch-IsWord,
            trim_back-braced name,
            trim_view-braced name,
            text_eq_refl (codes "watch"),
          )
          handle_watch-braced
