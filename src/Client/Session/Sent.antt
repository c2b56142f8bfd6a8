-- ===== src/Client/Session/Sent.antt =====
-- Where the lines go that the client is given: each is sent once, waits, or is refused.
use pypilot_cxx.Prelude.{
  ℕ, ◌+◌, ◌≡◌, refl, ap, inl, inr, Bool, true, false, ◌&&◌, Option, none, some, List, [], ◌∷◌,
  arith, leb, if◌then◌else◌, Bool-cases, Option-cases, length,
}
use pypilot_cxx.Prelude.Text.{Text, text_eq}
use pypilot_cxx.EventLoop.Handles.{one_if}
use pypilot_cxx.Client.Pending.{clear_line, PendingLine, max_line_size, queue_line, flush_lines}
use pypilot_cxx.Client.Pending.Bag.{lines, times, Takes, replace_first-Takes}
use pypilot_cxx.Client.Session.{
  Tcp, PypilotClient, write_all, try_write, queue_or_write, flush_pending,
}

-- How queueing changes the number of copies of a line `a` that wait.
queue_line-times :
    (a line : Text) (ps : List PendingLine)
    → times a (lines (queue_line line ps).1)
      ≡ one_if ((queue_line line ps).0 && text_eq a line) + times a (lines ps)
unfolding queue_line
queue_line-times a line ps = elim (Bool-cases (leb max_line_size (length line))) [
  | inl long ↦ rw long (omega arith)
  | inr short ↦ rw short (Takes-times a line ps _ (replace_first-Takes line ps))
]
  where
    Takes-times :
        (a line : Text) (ps : List PendingLine) (r : Option (List PendingLine))
        → Takes line ps r
        → let (done, ps') = elim r as (λ _. Bool × List PendingLine) [
          | none ↦ (false, ps)
          | some ps' ↦ (true, ps')
        ] in
          times a (lines ps') ≡ one_if (done && text_eq a line) + times a (lines ps)
    Takes-times a line ps none h = omega arith
    Takes-times a line ps (some ps') (free, size, same) = same a

times-cons :
    (a : Text) (p : PendingLine) (ps : List PendingLine)
    → times a (lines (p ∷ ps)) ≡ one_if (p.active && text_eq a p.bytes) + times a (lines ps)
times-cons a p ps = ground arith

-- A slot before and after a line of it was sent, or was not.
slot-times :
    (a : Text) (p : PendingLine) (done : Bool) (ps : List PendingLine)
    → (done ≡ true → p.active ≡ true)
    → times a (lines ((if done then clear_line p else p) ∷ ps)) + one_if (done && text_eq a p.bytes)
      ≡ one_if (p.active && text_eq a p.bytes) + times a (lines ps)
slot-times a p true ps h =
    let on = ap (λ (b : Bool). one_if (b && text_eq a p.bytes)) (h refl) in omega (arith, on)
slot-times a p false ps h = omega (arith, times-cons a p ps)

-- A count of the lines that were sent: a write that takes a whole line counts it, and a write that
-- does not leaves the count as it is.
abbrev pub Counts : {N : Type 0} ⦃tcp : Tcp N⦄ → (Text → N → ℕ) → Type 0
Counts {N} sent =
    (a : Text) (k : ℕ) (line : Text) (n : N)
    → let (done, n') = write_all k line n in sent a n' ≡ one_if (done && text_eq a line) + sent a n

-- The copies of a line that were sent or wait.
abbrev pub known : {N R C : Type 0} → (Text → N → ℕ) → Text → PypilotClient R C → N → ℕ
known sent a c n = times a (lines c.pending) + sent a n

module _ {N : Type 0} ⦃tcp : Tcp N⦄ (sent : Text → N → ℕ) (counts : Counts sent) where
  try_write-sent :
      (a line : Text) (k : Option ℕ) (n : N)
      → let (done, n') = try_write line k n in
        sent a n' ≡ one_if (done && text_eq a line) + sent a n
  unfolding try_write
  try_write-sent a line none n = omega arith
  try_write-sent a line (some k) n = elim (Bool-cases (tcp.valid k n)) [
    | inl on ↦ rw on (counts a k line n)
    | inr off ↦ rw off (omega arith)
  ]

  -- What the loop does with one slot.
  abbrev attempt : ℕ → PendingLine → N → Bool × N
  attempt k p n = if p.active then write_all k p.bytes n else (false, n)

  attempt-sent :
      (a : Text) (k : ℕ) (p : PendingLine) (n : N)
      → ((attempt k p n).0 ≡ true → p.active ≡ true)
        × (sent a (attempt k p n).1 ≡ one_if ((attempt k p n).0 && text_eq a p.bytes) + sent a n)
  attempt-sent a k p n = elim (Bool-cases p.active) [
    | inl on ↦ simp on ((λ e. refl), counts a k p.bytes n)
    | inr off ↦ simp off ((λ e. e), omega arith)
  ]

  flush_lines-sent :
      (a : Text) (k : ℕ) (ps : List PendingLine) (n : N)
      → let (ps', n') = flush_lines (write_all k) ps n in
        times a (lines ps') + sent a n' ≡ times a (lines ps) + sent a n
  unfolding flush_lines
  flush_lines-sent a k [] n = refl
  flush_lines-sent a k (p ∷ ps) n =
      let (active, one) = attempt-sent a k p n in
      let rest = flush_lines-sent a k ps (attempt k p n).1 in
      let ps' = (flush_lines (write_all k) ps (attempt k p n).1).0 in
      omega (arith, slot-times a p (attempt k p n).0 ps' active, times-cons a p ps, one, rest)

  module _ {R C : Type 0} (a : Text) (c : PypilotClient R C) (n : N) where
    queue_or_write-known :
        (line : Text)
        → let (done, c', n') = queue_or_write line c n in
          known sent a c' n' ≡ one_if (done && text_eq a line) + known sent a c n
    unfolding queue_or_write
    queue_or_write-known line =
        let one = try_write-sent a line c.connection n in
        let more = queue_line-times a line c.pending in
        elim (Bool-cases (try_write line c.connection n).0) [
          | inl done ↦
              simp done (omega (arith, one, ap (λ (b : Bool). one_if (b && text_eq a line)) done))
          | inr failed ↦
              simp failed
                (omega (arith, one, more, ap (λ (b : Bool). one_if (b && text_eq a line)) failed))
        ]

    flush_pending-known : let (c', n') = flush_pending c n in known sent a c' n' ≡ known sent a c n
    unfolding flush_pending
    flush_pending-known = elim (Option-cases c.connection) [
      | inl e ↦ simp (e, flush_pending) refl
      | inr (k, e) ↦ elim (Bool-cases (tcp.valid k n)) [
        | inl on ↦ simp (e, flush_pending, on) (flush_lines-sent a k c.pending n)
        | inr off ↦ simp (e, flush_pending, off) refl
      ]
    ]

  -- Count the copies of a line that the connection took in full or that wait. A call of
  -- `queue_or_write` adds one to those of its line if its result is true, and changes no count
  -- otherwise; `flush_pending` changes no count. So no line is lost, and none is sent twice.
  pub lines-known :
      {R C : Type 0} (a line : Text) (c : PypilotClient R C) (n : N)
      → (let (done, c', n') = queue_or_write line c n in
          known sent a c' n' ≡ one_if (done && text_eq a line) + known sent a c n)
        × (let (c', n') = flush_pending c n in known sent a c' n' ≡ known sent a c n)
  lines-known a line c n = (queue_or_write-known a c n line, flush_pending-known a c n)
