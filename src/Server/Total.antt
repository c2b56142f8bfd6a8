-- ===== src/Server/Total.antt =====
-- Every line of a client is handled to its end.
use pypilot_cxx.Prelude.{
  ℕ, zero, suc, ◌≤◌, ◌<◌, ◌≡◌, refl, inl, inr, true, not, ◌||◌, Option, none, some, [], ◌∷◌, arith,
  ltb, ◌==◌, Bool-cases, length,
}
use pypilot_cxx.Prelude.Text.{
  length-init, init, text_eq, ends_with, is_empty, codes, Text, split_at, Splits, split_at-Splits,
  starts_with, tail, length-tail,
}
use pypilot_cxx.Trim.{trim_view, length-trim_view}
use pypilot_cxx.Server.{
  rest_of, take_turn, handle_watch, handle_request, handle_line, Turn, Reply, ValueRegistry,
  watch_loop, ValueWriter, read_key, next_entry, Float, return, go_on, handle_item, fail, Entry,
  finished, comma, malformed, item, read_value, read_separator,
}

-- An entry that the loop goes on behind leaves less than a text of length `n`.
abbrev Shorter : ℕ → Entry → Type 0
Shorter n finished = Unit
Shorter n (comma rest) = length rest < n
Shorter n (malformed message) = Unit
Shorter n (item key value rest) = length rest < n

read_value-Shorter :
    (key expression : Text) (n : ℕ) → length expression < n → Shorter n (read_value key expression)
unfolding read_value
read_value-Shorter key expression n h =
    go (split_at b',' expression) (split_at-Splits b',' expression)
  where
    go :
        (r : Option (Text × Text))
        → Splits b',' expression r
        → Shorter n (elim r [
          | none ↦ item key (trim_view expression) []
          | some (value, rest) ↦ item key (trim_view value) rest
        ])
    go none s = omega arith
    go (some (value, rest)) (e, l, s) = omega arith

read_separator-Shorter :
    (key expression : Text) (n : ℕ)
    → length expression < n
    → Shorter n (read_separator key expression)
unfolding read_separator
read_separator-Shorter key expression n h = elim (Bool-cases (starts_with b':' expression)) [
  | inl colon ↦ rw colon (
      read_value-Shorter key (trim_view (tail expression)) n
        (omega (arith, length-trim_view (tail expression), length-tail expression)))
  | inr other ↦ rw other tt
]

read_key-Shorter :
    (expression : Text) (n : ℕ) → length expression ≤ n → Shorter n (read_key expression)
unfolding read_key
read_key-Shorter [] n h = tt
read_key-Shorter (c ∷ s) n h = elim (Bool-cases (c == b'"')) [
  | inl quote ↦ rw quote (go (split_at b'"' s) (split_at-Splits b'"' s))
  | inr other ↦ rw other tt
]
  where
    go :
        (r : Option (Text × Text))
        → Splits b'"' s r
        → Shorter n (elim r [
          | none ↦ malformed (codes "invalid watch key")
          | some (key, rest) ↦ read_separator key (trim_view rest)
        ])
    go none p = tt
    go (some (key, rest)) (e, l, size) =
        read_separator-Shorter key (trim_view rest) n (omega (arith, length-trim_view rest))

starts_with-tail : (c : ℕ) (s : Text) → starts_with c s ≡ true → length (tail s) < length s
starts_with-tail c [] h = cc
starts_with-tail c (x ∷ s) h = omega arith

next_entry-Shorter : (expression : Text) → Shorter (length expression) (next_entry expression)
unfolding next_entry
next_entry-Shorter [] = tt
next_entry-Shorter (c ∷ s) =
    let trimmed = trim_view (c ∷ s) in
    elim (Bool-cases (starts_with b',' trimmed)) [
      | inl is_comma ↦
          rw is_comma
            (omega (arith, starts_with-tail b',' trimmed is_comma, length-trim_view (c ∷ s)))
      | inr other ↦ rw other (elim (Bool-cases (is_empty (trim_view trimmed))) [
        | inl blank ↦ rw blank tt
        | inr more ↦ rw more (
            read_key-Shorter (trim_view trimmed) (suc (length s))
              (omega (arith, length-trim_view trimmed, length-trim_view (c ∷ s))))
      ])
    ]

module _ {R W : Type 0} ⦃fl : Float R⦄ ⦃writer : ValueWriter W⦄ where
  abbrev Returns : Option (Reply R W) → Type 0
  Returns o = (r : Reply R W) × (o ≡ some r)

  -- What the loop does with the result of a turn, where `next` is the rest of the loop.
  abbrev resume : Turn R W → (ValueRegistry R → W → Option (Reply R W)) → Option (Reply R W)
  resume (return reply) next = some reply
  resume (go_on v out) next = next v out

  resume-Returns :
      (t : Turn R W) (next : ValueRegistry R → W → Option (Reply R W))
      → ((v : ValueRegistry R) (out : W) → Returns (next v out))
      → Returns (resume t next)
  resume-Returns (return reply) next h = (reply, refl)
  resume-Returns (go_on v out) next h = h v out

  watch_loop-resume :
      (fuel now : ℕ) (expression : Text) (v : ValueRegistry R) (out : W)
      → watch_loop (suc fuel) now expression v out
        ≡ resume
            (take_turn (next_entry expression) now v out)
            (watch_loop fuel now (rest_of (next_entry expression)))
  unfolding watch_loop
  watch_loop-resume fuel now expression v out = go (take_turn (next_entry expression) now v out)
    where
      go :
          (t : Turn R W)
          → ◌≡◌ {A = Option (Reply R W)}
              (elim t [
                | return reply ↦ some reply
                | go_on v' out' ↦ watch_loop fuel now (rest_of (next_entry expression)) v' out'
              ])
              (resume t (watch_loop fuel now (rest_of (next_entry expression))))
      go (return reply) = refl
      go (go_on v' out') = refl

  turn-Returns :
      (entry : Entry) (size fuel now : ℕ) (v : ValueRegistry R) (out : W)
      → Shorter size entry
      → size ≤ fuel
      → ((rest : Text) (v' : ValueRegistry R) (out' : W)
          → length rest < fuel
          → Returns (watch_loop fuel now rest v' out'))
      → Returns (resume (take_turn entry now v out) (watch_loop fuel now (rest_of entry)))
  unfolding take_turn
  turn-Returns finished size fuel now v out s h ih = (_, refl)
  turn-Returns (malformed message) size fuel now v out s h ih = (_, refl)
  turn-Returns (comma rest) size fuel now v out s h ih = ih rest v out (omega arith)
  turn-Returns (item key value rest) size fuel now v out s h ih =
      resume-Returns (handle_item key value now v out) (watch_loop fuel now rest)
        (λ v' out'. ih rest v' out' (omega arith))

  -- Each turn takes a byte or more off the expression, so that fuel for its bytes is enough.
  watch_loop-Returns :
      (fuel now : ℕ) (expression : Text) (v : ValueRegistry R) (out : W)
      → length expression < fuel
      → Returns (watch_loop fuel now expression v out)
  watch_loop-Returns zero now expression v out h = absurd (omega arith)
  watch_loop-Returns (suc fuel) now expression v out h =
      rw (watch_loop-resume fuel now expression v out) (
        turn-Returns (next_entry expression) (length expression) fuel now v out
          (next_entry-Shorter expression) (omega arith)
          (λ rest v' out' k. watch_loop-Returns fuel now rest v' out' k))

  handle_watch-Returns :
      (expression : Text) (now : ℕ) (v : ValueRegistry R) (out : W)
      → Returns (handle_watch expression now v out)
  unfolding handle_watch
  handle_watch-Returns expression now v out =
      let trimmed = trim_view expression in
      let refused =
        ltb (length trimmed) 2 || not (starts_with b'{' trimmed) || not (ends_with b'}' trimmed) in
      elim (Bool-cases refused) [
        | inl e ↦ rw e (_, refl)
        | inr e ↦ rw e (
            watch_loop-Returns (suc (length trimmed)) now (init (tail trimmed)) v out
              (omega (arith, length-init (tail trimmed), length-tail trimmed)))
      ]

  handle_request-Returns :
      (name value : Text) (now : ℕ) (v : ValueRegistry R) (out : W)
      → Returns (handle_request name value now v out)
  unfolding handle_request
  handle_request-Returns name value now v out = elim (Bool-cases (text_eq name (codes "watch"))) [
    | inl e ↦ rw e (handle_watch-Returns value now v out)
    | inr e ↦ rw e (elim (Bool-cases (text_eq name (codes "values"))) [
      | inl e' ↦ rw e' (_, refl)
      | inr e' ↦ rw e' (elim (Bool-cases (text_eq name (codes "udp_port"))) [
        | inl e'' ↦ rw e'' (_, refl)
        | inr e'' ↦ rw e'' (_, refl)
      ])
    ])
  ]

  -- Every line of a client, whatever its bytes, is handled to an end: the loop over a watch
  -- expression takes a byte or more off it in each turn.
  pub handle_line-Returns :
      (line : Text) (now : ℕ) (v : ValueRegistry R) (out : W)
      → (r : Reply R W) × (handle_line line now v out ≡ some r)
  unfolding handle_line
  handle_line-Returns line now v out = elim (Bool-cases (is_empty (trim_view line))) [
    | inl e ↦ rw e (_, refl)
    | inr e ↦ rw e (go (split_at b'=' (trim_view line)))
  ]
    where
      go :
          (o : Option (Text × Text))
          → Returns (elim o [
            | none ↦ some (fail (codes "invalid request: missing '='") v out)
            | some (name, value) ↦ handle_request (trim_view name) (trim_view value) now v out
          ])
      go none = (_, refl)
      go (some (name, value)) = handle_request-Returns (trim_view name) (trim_view value) now v out
