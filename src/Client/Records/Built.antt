-- ===== src/Client/Records/Built.antt =====
-- What the array functions build: the text that was meant, cut where the array ends.
use pypilot_cxx.Prelude.{
  take-full, take-fits, ℕ, ◌+◌, ◌-◌, ◌≤◌, ◌<◌, ◌≡◌, refl, sym, ap, ◌∙◌, inl, inr, none, some, List,
  [], ◌∷◌, ◌++◌, arith, ltb, leb, if◌then◌else◌, Bool-cases, length, take, length-append,
  length-take,
}
use mathlib.Core.List.{append_assoc, append-nil}
use pypilot_cxx.Prelude.Text.{Text, codes}
use pypilot_cxx.Client.Records.{make_watch, append_raw, complete, make_record_raw}

module _ (capacity : ℕ) where
  -- What the array holds of a text.
  abbrev cut : Text → Text
  cut s = take (capacity - 1) s

  append_raw-full : (out s : Text) → capacity ≤ length out + 1 → append_raw capacity out s ≡ out
  unfolding append_raw
  append_raw-full out [] h = refl
  append_raw-full out (c ∷ s) h = ground arith

  -- Appending to what an array holds of a text gives what it holds of the longer text.
  append_raw-cut : (a b : Text) → append_raw capacity (cut a) b ≡ cut (a ++ b)
  unfolding append_raw
  append_raw-cut a [] = ap cut (sym (append-nil a))
  append_raw-cut a (c ∷ s) = elim (Bool-cases (leb capacity (length a + 1))) [
    | inl full ↦
        let size = length-take (capacity - 1) a in
        append_raw-full (cut a) (c ∷ s) (ground (arith, size))
        ∙ sym (take-full (capacity - 1) a (c ∷ s) (ground arith))
    | inr more ↦
        let size = length-append a (c ∷ []) in
        let here : cut a ≡ a = take-fits (capacity - 1) a (ground arith) in
        let next : cut (a ++ c ∷ []) ≡ a ++ c ∷ [] =
          take-fits (capacity - 1) (a ++ c ∷ []) (ground (arith, size)) in
        rw (here, more)
          (ap (λ t. append_raw capacity t s) (sym next)
            ∙ append_raw-cut (a ++ c ∷ []) s
            ∙ ap cut (append_assoc a (c ∷ []) s))
  ]

  -- A line of at least one byte is there exactly if it fits with its NUL and a byte to spare.
  complete-cut :
      (s : Text)
      → 0 < length s
      → complete capacity (cut s) ≡ (if ltb (length s + 1) capacity then some s else none)
  complete-cut s h = elim (Bool-cases (ltb (length s + 1) capacity)) [
    | inl fits ↦ rw (take-fits (capacity - 1) s (ground arith), fits) (ground arith)
    | inr long ↦ rw long (ground (arith, length-take (capacity - 1) s))
  ]

  -- The parts of a line, appended one after the other, and put together.
  abbrev append_parts : Text → List Text → Text
  append_parts out [] = out
  append_parts out (s ∷ parts) = append_parts (append_raw capacity out s) parts

  abbrev joined : List Text → Text
  joined [] = []
  joined (s ∷ parts) = s ++ joined parts

  append_parts-cut :
      (a : Text) (parts : List Text) → append_parts (cut a) parts ≡ cut (a ++ joined parts)
  append_parts-cut a [] = ap cut (sym (append-nil a))
  append_parts-cut a (s ∷ parts) =
      ap (λ t. append_parts t parts) (append_raw-cut a s)
      ∙ append_parts-cut (a ++ s) parts
      ∙ ap cut (append_assoc a s (joined parts))

  complete-parts :
      (parts : List Text)
      → 0 < length (joined parts)
      → complete capacity (append_parts [] parts)
        ≡ (if ltb (length (joined parts) + 1) capacity then some (joined parts) else none)
  complete-parts parts h =
      let start : cut [] ≡ [] = take-fits (capacity - 1) [] (omega arith) in
      ap (λ t. complete capacity (append_parts t parts)) (sym start)
      ∙ ap (complete capacity) (append_parts-cut [] parts)
      ∙ complete-cut (joined parts) h

  -- Whatever the size of the array, the line of a record is its name, an equals sign, its value and a
  -- newline, or there is none: exactly where the line does not fit with its NUL and a byte to spare.
  pub make_record_raw-line :
      (name json : Text)
      → let line = name ++ b'=' ∷ (json ++ b'\n' ∷ []) in
        make_record_raw capacity name json
        ≡ (if ltb (length line + 1) capacity then some line else none)
  unfolding make_record_raw codes
  make_record_raw-line name json =
      let size = length-append name (b'=' ∷ (json ++ b'\n' ∷ [])) in
      complete-parts (name ∷ codes "=" ∷ json ∷ codes "\n" ∷ []) (omega (arith, size))

  -- The same for the line of a watch.
  pub make_watch-line :
      (name period : Text)
      → let line = codes "watch={\"" ++ (name ++ (codes "\":" ++ (period ++ codes "}\n"))) in
        make_watch capacity name period
        ≡ (if ltb (length line + 1) capacity then some line else none)
  unfolding make_watch codes
  make_watch-line name period =
      complete-parts (codes "watch={\"" ∷ name ∷ codes "\":" ∷ period ∷ codes "}\n" ∷ [])
        (omega arith)
