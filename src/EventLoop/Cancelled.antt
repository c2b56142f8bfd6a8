-- ===== src/EventLoop/Cancelled.antt =====
-- What cancelling a handle does to the handles in use.
use pypilot_cxx.Prelude.{
  ℕ, ◌+◌, ◌≡◌, refl, sym, ap, ◌∙◌, ◌≢◌, inl, inr, Bool, true, false, Option, none, some, List, [],
  ◌∷◌, arith, ◌==◌, if◌then◌else◌, ==_iff, Bool-cases,
}
use pypilot_cxx.Values.Watches.{replace_first}
use pypilot_cxx.EventLoop.{Slot, EventLoop, has_handle, cancel}
use pypilot_cxx.EventLoop.Handles.{one_if, holders, IsLoop, continue_with}

module _ {C : Type 0} where
  -- What clearing the first slot with a handle does to the slots with the handle `k`.
  abbrev Clears : ℕ → ℕ → List (Slot C) → Option (List (Slot C)) → Type 0
  Clears handle k slots none = holders handle slots ≡ 0
  Clears handle k slots (some slots') = holders k slots' + one_if (handle == k) ≡ holders k slots

  has_handle-same :
      (handle k : ℕ) (s : Slot C) → has_handle handle s ≡ true → has_handle k s ≡ (handle == k)
  has_handle-same handle k s h = ground arith

  Clears-next :
      (handle k : ℕ) (s : Slot C) (slots : List (Slot C)) (r : Option (List (Slot C)))
      → has_handle handle s ≡ false
      → Clears handle k slots r
      → Clears handle k (s ∷ slots) (continue_with s r)
  Clears-next handle k s slots none e h = omega (arith, ap one_if e, h)
  Clears-next handle k s slots (some slots') e h = omega (arith, h)

  Clears-if :
      (handle k : ℕ) (s : Slot C) (slots : List (Slot C)) (b : Bool) (r : Option (List (Slot C)))
      → has_handle handle s ≡ b
      → Clears handle k slots r
      → Clears handle k
          (s ∷ slots)
          (if b then some (record s { active = false; cb = none } ∷ slots) else continue_with s r)
  Clears-if handle k s slots true r e h = omega (arith, ap one_if (has_handle-same handle k s e))
  Clears-if handle k s slots false r e h = Clears-next handle k s slots r e h

  replace_first-Clears :
      (handle k : ℕ) (slots : List (Slot C))
      → Clears handle k slots
          (replace_first (has_handle handle) (λ s. record s { active = false; cb = none }) slots)
  unfolding replace_first
  replace_first-Clears handle k [] = refl
  replace_first-Clears handle k (s ∷ slots) =
      Clears-if handle k s slots (has_handle handle s)
        (replace_first (has_handle handle) (λ s. record s { active = false; cb = none }) slots) refl
        (replace_first-Clears handle k slots)

  Clears-holders :
      (handle k : ℕ) (l : EventLoop C) (r : Option (List (Slot C)))
      → IsLoop l
      → Clears handle k l.slots r
      → holders k
          (elim r as (λ _. EventLoop C) [
            | none ↦ l
            | some slots ↦ record l { slots = slots }
          ]).slots
        ≡ (if handle == k then 0 else holders k l.slots)
  Clears-holders handle k l none h c = elim (Bool-cases (handle == k)) [
    | inl same ↦ rw same (ap (λ (i : ℕ). holders i l.slots) (sym ((==_iff handle k).0 same)) ∙ c)
    | inr other ↦ rw other refl
  ]
  Clears-holders handle k l (some slots) h c = elim (Bool-cases (handle == k)) [
    | inl same ↦ rw same (omega (arith, c, ap one_if same, h.single k))
    | inr other ↦ rw other (omega (arith, c, ap one_if other))
  ]

  -- In a loop whose handles are apart, cancelling a handle frees its slot, and the slots of all other
  -- handles stay in use.
  pub cancel-holders :
      (handle k : ℕ) (l : EventLoop C)
      → handle ≢ 0
      → IsLoop l
      → holders k (cancel handle l).slots ≡ (if handle == k then 0 else holders k l.slots)
  unfolding cancel
  cancel-holders handle k l positive h =
      let nonzero : (handle == 0) ≡ false = ground arith in
      rw nonzero (
        Clears-holders handle k l
          (replace_first (has_handle handle) (λ s. record s { active = false; cb = none }) l.slots)
          h (replace_first-Clears handle k l.slots))
