-- ===== src/EventLoop/Busy.antt =====
-- How many slots of the loop are in use.
use pypilot_cxx.Prelude.{
  ℕ, ◌+◌, ◌≤◌, ◌≡◌, refl, ap, ◌∙◌, ◌≢◌, inl, inr, Bool, true, false, not, Option, none, some, List,
  [], ◌∷◌, arith, ◌==◌, if◌then◌else◌, Bool-cases,
}
use pypilot_cxx.Values.Watches.{replace_first}
use pypilot_cxx.EventLoop.{Slot, EventLoop, has_handle, add_poll, cancel}
use pypilot_cxx.EventLoop.Cancelled.{cancel-holders}
use pypilot_cxx.EventLoop.Handles.{
  one_if, holders, IsLoop, continue_with, add_poll-Added, Added-IsLoop,
}

module _ {C : Type 0} where
  abbrev pub busy : List (Slot C) → ℕ
  busy [] = 0
  busy (s ∷ slots) = one_if s.active + busy slots

  abbrev Occupies : List (Slot C) → Option (List (Slot C)) → Type 0
  Occupies slots none = Unit
  Occupies slots (some slots') = busy slots' ≡ 1 + busy slots

  Occupies-if :
      (s s' : Slot C) (slots : List (Slot C)) (b : Bool) (r : Option (List (Slot C)))
      → s.active ≡ b
      → s'.active ≡ true
      → Occupies slots r
      → Occupies (s ∷ slots) (if not b then some (s' ∷ slots) else continue_with s r)
  Occupies-if s s' slots true none on on' h = tt
  Occupies-if s s' slots true (some slots') on on' h = omega (arith, h)
  Occupies-if s s' slots false r off on' h = omega (arith, ap one_if off, ap one_if on')

  replace_first-Occupies :
      (fill : Slot C → Slot C) (slots : List (Slot C))
      → ((s : Slot C) → (fill s).active ≡ true)
      → Occupies slots (replace_first (λ s. not s.active) fill slots)
  unfolding replace_first
  replace_first-Occupies fill [] h = tt
  replace_first-Occupies fill (s ∷ slots) h =
      Occupies-if s (fill s) slots s.active (replace_first (λ s. not s.active) fill slots) refl
        (h s) (replace_first-Occupies fill slots h)

  abbrev Frees : ℕ → List (Slot C) → Option (List (Slot C)) → Type 0
  Frees handle slots none = holders handle slots ≡ 0
  Frees handle slots (some slots') = busy slots' + 1 ≡ busy slots

  Frees-if :
      (handle : ℕ) (s : Slot C) (slots : List (Slot C)) (b : Bool) (r : Option (List (Slot C)))
      → has_handle handle s ≡ b
      → Frees handle slots r
      → Frees handle
          (s ∷ slots)
          (if b then some (record s { active = false; cb = none } ∷ slots) else continue_with s r)
  Frees-if handle s slots true r e h =
      let on : s.active ≡ true = ground arith in omega (arith, ap one_if on)
  Frees-if handle s slots false none e h = omega (arith, ap one_if e, h)
  Frees-if handle s slots false (some slots') e h = omega (arith, h)

  replace_first-Frees :
      (handle : ℕ) (slots : List (Slot C))
      → Frees handle slots
          (replace_first (has_handle handle) (λ s. record s { active = false; cb = none }) slots)
  unfolding replace_first
  replace_first-Frees handle [] = refl
  replace_first-Frees handle (s ∷ slots) =
      Frees-if handle s slots (has_handle handle s)
        (replace_first (has_handle handle) (λ s. record s { active = false; cb = none }) slots) refl
        (replace_first-Frees handle slots)

  Frees-loop :
      (handle : ℕ) (l : EventLoop C) (r : Option (List (Slot C)))
      → holders handle l.slots ≡ 1
      → Frees handle l.slots r
      → busy
            (elim r as (λ _. EventLoop C) [
              | none ↦ l
              | some slots ↦ record l { slots = slots }
            ]).slots
          + 1
        ≡ busy l.slots
  Frees-loop handle l none one h = absurd (omega (arith, one, h))
  Frees-loop handle l (some slots) one h = h

  -- Cancelling a handle that is in use frees a slot.
  pub cancel-busy :
      (handle : ℕ) (l : EventLoop C)
      → handle ≢ 0
      → holders handle l.slots ≡ 1
      → busy (cancel handle l).slots + 1 ≡ busy l.slots
  unfolding cancel
  cancel-busy handle l positive one =
      let nonzero : (handle == 0) ≡ false = ground arith in
      rw nonzero (Frees-loop handle l _ one (replace_first-Frees handle l.slots))

  Occupies-loop :
      (l : EventLoop C) (r : Option (List (Slot C)))
      → l.next_id ≢ 0
      → Occupies l.slots r
      → let (handle, l') = elim r as (λ _. ℕ × EventLoop C) [
        | none ↦ (0, l)
        | some slots ↦ (l.next_id, record { slots = slots; next_id = l.next_id + 1 })
      ] in
        busy l'.slots ≡ one_if (not (handle == 0)) + busy l.slots
  Occupies-loop l none positive h = omega arith
  Occupies-loop l (some slots) positive h =
      let nonzero : (l.next_id == 0) ≡ false = ground arith in
      omega (arith, h, ap (λ (b : Bool). one_if (not b)) nonzero)

  -- Adding a poll takes a slot if it returns a handle.
  pub add_poll-busy :
      (cb : C) (l : EventLoop C)
      → l.next_id ≢ 0
      → let (handle, l') = add_poll cb l in
        busy l'.slots ≡ one_if (not (handle == 0)) + busy l.slots
  unfolding add_poll
  add_poll-busy cb l positive =
      Occupies-loop l _ positive (replace_first-Occupies _ l.slots (λ s. refl))

  next_id-kept :
      (b : Bool) (l : EventLoop C) (r : Option (List (Slot C)))
      → (if b then l else elim r as (λ _. EventLoop C) [
        | none ↦ l
        | some slots ↦ record l { slots = slots }
      ]).next_id
        ≡ l.next_id
  next_id-kept true l r = refl
  next_id-kept false l none = refl
  next_id-kept false l (some slots) = refl

  pub cancel-next_id : (handle : ℕ) (l : EventLoop C) → (cancel handle l).next_id ≡ l.next_id
  unfolding cancel
  cancel-next_id handle l =
      next_id-kept (handle == 0) l
        (replace_first (has_handle handle) (λ s. record s { active = false; cb = none }) l.slots)

  cancel-fewer :
      (handle k : ℕ) (l : EventLoop C)
      → handle ≢ 0
      → IsLoop l
      → holders k (cancel handle l).slots ≤ holders k l.slots
  cancel-fewer handle k l positive h =
      let e = cancel-holders handle k l positive h in
      elim (Bool-cases (handle == k)) [
        | inl same ↦ omega (arith, e ∙ ap (λ (b : Bool). if b then 0 else holders k l.slots) same)
        | inr other ↦ omega (arith, e ∙ ap (λ (b : Bool). if b then 0 else holders k l.slots) other)
      ]

  -- Cancelling keeps the handles apart.
  pub cancel-IsLoop :
      (handle : ℕ) (l : EventLoop C) → handle ≢ 0 → IsLoop l → IsLoop (cancel handle l)
  cancel-IsLoop handle l positive h = record {
    fresh = λ k.
        let shift =
          ap (λ (i : ℕ). holders (i + k) (cancel handle l).slots) (cancel-next_id handle l) in
        omega (arith, shift, cancel-fewer handle (l.next_id + k) l positive h, h.fresh k);
    single = λ k. omega (arith, cancel-fewer handle k l positive h, h.single k);
  }

  pub add_poll-IsLoop : (cb : C) (l : EventLoop C) → IsLoop l → IsLoop (add_poll cb l).1
  add_poll-IsLoop cb l h = Added-IsLoop l (add_poll cb l) (add_poll-Added cb l) h
