-- ===== src/Client/Pending/Bag.antt =====
-- The pending lines as a bag: what the table promises, its slots and their order forgotten.
use pypilot_cxx.Prelude.{
  ℕ, ◌+◌, ◌≤◌, ◌<◌, ◌≡◌, refl, ap, ◌∙◌, inl, inr, Bool, true, false, not, ◌&&◌, Option, none, some,
  List, [], ◌∷◌, arith, ltb, leb, if◌then◌else◌, Bool-cases, length,
}
use mathlib.Core.Quot
use mathlib.Core.Quot.{Quot, Quot-set}
use pypilot_cxx.Prelude.Text.{Text, text_eq}
use pypilot_cxx.EventLoop.Handles.{one_if}
use pypilot_cxx.Values.Watches.{replace_first}
use pypilot_cxx.Client.Pending.{queue_line, pop_outgoing, max_line_size, clear_line, PendingLine}

-- The lines that wait, in the order of the slots.
abbrev pub lines : List PendingLine → List Text
lines [] = []
lines (p ∷ ps) = if p.active then p.bytes ∷ lines ps else lines ps

-- How often a text is among some.
abbrev pub times : Text → List Text → ℕ
times a [] = 0
times a (line ∷ ls) = one_if (text_eq a line) + times a ls

length-lines : (ps : List PendingLine) → length (lines ps) ≤ length ps
length-lines [] = omega arith
length-lines (p ∷ ps) = ground (arith, length-lines ps)

abbrev pub SameLines : List Text → List Text → Type 0
SameLines ls ls' = (a : Text) → times a ls ≡ times a ls'

abbrev pub LineBag : Type 0
LineBag = Quot SameLines

unfoldable pub add_line : Text → LineBag → LineBag
add_line line =
    Quot.lift Quot-set (λ ls. Quot.mk (line ∷ ls))
      (λ ls ls' h. Quot.sound (λ a. omega (arith, h a)))

-- The bag that a table stands for.
abbrev pub view : List PendingLine → LineBag
view ps = Quot.mk (lines ps)

-- What filling the first free slot does to the lines.
abbrev pub Takes : Text → List PendingLine → Option (List PendingLine) → Type 0
Takes line ps none = length (lines ps) ≡ length ps
Takes line ps (some ps') =
    (length (lines ps) < length ps)
    × (length ps' ≡ length ps)
    × SameLines (lines ps') (line ∷ lines ps)

abbrev continue : PendingLine → Option (List PendingLine) → Option (List PendingLine)
continue p r = elim r [ none ↦ none | some ps ↦ some (p ∷ ps) ]

Takes-if :
    (line : Text) (p : PendingLine) (ps : List PendingLine) (b : Bool)
    (r : Option (List PendingLine))
    → p.active ≡ b
    → Takes line ps r
    → Takes line
        (p ∷ ps)
        (if not b then some (record { active = true; bytes = line } ∷ ps) else continue p r)
Takes-if line p ps true none on h =
    let more = ap (λ (b : Bool). length (if b then p.bytes ∷ lines ps else lines ps)) on in
    omega (arith, more, h)
Takes-if line p ps true (some ps') on (free, size, same) =
    let more = ap (λ (b : Bool). length (if b then p.bytes ∷ lines ps else lines ps)) on in
    (
      omega (arith, more, free),
      omega (arith, size),
      λ a.
          let before = ap (λ (b : Bool). times a (if b then p.bytes ∷ lines ps else lines ps)) on in
          let after =
            ap (λ (b : Bool). times a (if b then p.bytes ∷ lines ps' else lines ps')) on in
          omega (arith, before, after, same a),
    )
Takes-if line p ps false r off h =
    let rest = length-lines ps in
    let more = ap (λ (b : Bool). length (if b then p.bytes ∷ lines ps else lines ps)) off in
    (
      omega (arith, more, rest),
      refl,
      λ a.
          let before =
            ap (λ (b : Bool). times a (if b then p.bytes ∷ lines ps else lines ps)) off in
          omega (arith, before),
    )

pub replace_first-Takes :
    (line : Text) (ps : List PendingLine)
    → Takes line ps
        (replace_first (λ p. not p.active) (λ p. record { active = true; bytes = line }) ps)
unfolding replace_first
replace_first-Takes line [] = refl
replace_first-Takes line (p ∷ ps) =
    Takes-if line p ps p.active
      (replace_first (λ p. not p.active) (λ p. record { active = true; bytes = line }) ps) refl
      (replace_first-Takes line ps)

-- What a table does with a line: it is taken exactly if it is short and a slot is free, and then it
-- is one more line of the bag; the number of slots stays.
abbrev pub Queued : Text → List PendingLine → Bool × List PendingLine → Type 0
Queued line ps (done, ps') =
    (done ≡ (ltb (length line) max_line_size && ltb (length (lines ps)) (length ps)))
    × (length ps' ≡ length ps)
    × (view ps' ≡ (if done then add_line line (view ps) else view ps))

Takes-Queued :
    (line : Text) (ps : List PendingLine) (r : Option (List PendingLine))
    → leb max_line_size (length line) ≡ false
    → Takes line ps r
    → Queued line ps (elim r [ none ↦ (false, ps) | some ps' ↦ (true, ps') ])
unfolding add_line
Takes-Queued line ps none short h = (ground (arith, h), refl, refl)
Takes-Queued line ps (some ps') short (free, size, same) =
    (ground (arith, free), size, Quot.sound same)

queue_line-Queued : (line : Text) (ps : List PendingLine) → Queued line ps (queue_line line ps)
unfolding queue_line
queue_line-Queued line ps = elim (Bool-cases (leb max_line_size (length line))) [
  | inl long ↦ rw long (ground arith, refl, refl)
  | inr short ↦ rw short (Takes-Queued line ps _ short (replace_first-Takes line ps))
]

-- What a table hands out: a line of its bag, which it gives up, or nothing if the bag is empty.
abbrev pub Popped : List PendingLine → Option Text × List PendingLine → Type 0
Popped ps (none, ps') = (view ps ≡ Quot.mk []) × (ps' ≡ ps)
Popped ps (some line, ps') = (view ps ≡ add_line line (view ps')) × (length ps' ≡ length ps)

-- The same of the lists of lines.
abbrev Gives : List PendingLine → Option Text × List PendingLine → Type 0
Gives ps (none, ps') = (lines ps ≡ []) × (ps' ≡ ps)
Gives ps (some line, ps') = SameLines (lines ps) (line ∷ lines ps') × (length ps' ≡ length ps)

Gives-if :
    (p : PendingLine) (ps : List PendingLine) (b : Bool) (r : Option Text × List PendingLine)
    → p.active ≡ b
    → Gives ps r
    → Gives (p ∷ ps) (if b then (some p.bytes, clear_line p ∷ ps) else (r.0, p ∷ r.1))
Gives-if p ps true r on h = (
  (λ a.
      let before = ap (λ (b : Bool). times a (if b then p.bytes ∷ lines ps else lines ps)) on in
      omega (arith, before)),
  refl,
)
Gives-if p ps false (none, ps') off (empty, same) = (
  ap (λ (b : Bool). if b then p.bytes ∷ lines ps else lines ps) off ∙ empty,
  ap (λ t. p ∷ t) same,
)
Gives-if p ps false (some line, ps') off (same, size) = (
  (λ a.
      let before = ap (λ (b : Bool). times a (if b then p.bytes ∷ lines ps else lines ps)) off in
      let after = ap (λ (b : Bool). times a (if b then p.bytes ∷ lines ps' else lines ps')) off in
      omega (arith, before, after, same a)),
  omega (arith, size),
)

pop_outgoing-Gives : (ps : List PendingLine) → Gives ps (pop_outgoing ps)
unfolding pop_outgoing
pop_outgoing-Gives [] = (refl, refl)
pop_outgoing-Gives (p ∷ ps) = Gives-if p ps p.active (pop_outgoing ps) refl (pop_outgoing-Gives ps)

Gives-Popped :
    (ps : List PendingLine) (r : Option Text × List PendingLine) → Gives ps r → Popped ps r
unfolding add_line
Gives-Popped ps (none, ps') (empty, same) = (ap Quot.mk empty, same)
Gives-Popped ps (some line, ps') (same, size) = (Quot.sound same, size)

-- The table of pending lines implements a bag of bounded size. A line is taken exactly if it is
-- shorter than 192 bytes and fewer lines wait than there are slots; the bag then has it once more, and
-- else stays as it is. A line that is popped was in the bag, which then has it once less, and nothing
-- is popped exactly from an empty bag. The number of slots stays.
pub pending-LineBag :
    (line : Text) (ps : List PendingLine)
    → Queued line ps (queue_line line ps) × Popped ps (pop_outgoing ps)
pending-LineBag line ps =
    (queue_line-Queued line ps, Gives-Popped ps (pop_outgoing ps) (pop_outgoing-Gives ps))
