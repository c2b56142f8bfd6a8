-- ===== src/EventLoop/Handles.antt =====
-- The handles that the loop gives out: no two active slots share one.
use pypilot_cxx.Prelude.{
  ℕ, ◌+◌, ◌≤◌, ◌≡◌, refl, ap, ◌⊎◌, inl, inr, Bool, true, false, not, ◌&&◌, Option, none, some, List,
  [], ◌∷◌, arith, ◌==◌, if◌then◌else◌, Bool-cases, length,
}
use pypilot_cxx.Values.Watches.{replace_first}
use pypilot_cxx.EventLoop.{Slot, EventLoop, has_handle, add_timer, add_poll}

-- 1 for true.
abbrev pub one_if : Bool → ℕ
one_if true = 1
one_if false = 0

module _ {C : Type 0} where
  -- How many active slots have a handle.
  abbrev pub holders : ℕ → List (Slot C) → ℕ
  holders handle [] = 0
  holders handle (s ∷ slots) = one_if (has_handle handle s) + holders handle slots

  -- The handles from `next_id` on are not in use, and no handle is in use twice.
  pub record IsLoop (l : EventLoop C) : Type 0 where
    pub fresh : (k : ℕ) → holders (l.next_id + k) l.slots ≡ 0
    pub single : (handle : ℕ) → holders handle l.slots ≤ 1

  -- What filling the first free slot with the handle `id` does to the handles.
  abbrev Fills : ℕ → ℕ → List (Slot C) → Option (List (Slot C)) → Type 0
  Fills id handle slots none = Unit
  Fills id handle slots (some slots') =
      (holders handle slots' ≡ one_if (id == handle) + holders handle slots)
      × (length slots' ≡ length slots)

  abbrev pub continue_with : Slot C → Option (List (Slot C)) → Option (List (Slot C))
  continue_with s r = elim r [ none ↦ none | some slots ↦ some (s ∷ slots) ]

  Fills-next :
      (id handle : ℕ) (s : Slot C) (slots : List (Slot C)) (r : Option (List (Slot C)))
      → Fills id handle slots r
      → Fills id handle (s ∷ slots) (continue_with s r)
  Fills-next id handle s slots none h = tt
  Fills-next id handle s slots (some slots') (e, n) = (omega (arith, e), omega (arith, n))

  Fills-if :
      (id handle : ℕ) (s s' : Slot C) (slots : List (Slot C)) (b : Bool)
      (r : Option (List (Slot C)))
      → s.active ≡ b
      → has_handle handle s' ≡ (id == handle)
      → Fills id handle slots r
      → Fills id handle (s ∷ slots) (if not b then some (s' ∷ slots) else continue_with s r)
  Fills-if id handle s s' slots true r on h rest = Fills-next id handle s slots r rest
  Fills-if id handle s s' slots false r off h rest =
      let free = ap (λ (t : Bool). one_if (t && s.id == handle)) off in
      let taken = ap one_if h in (omega (arith, free, taken), refl)

  replace_first-Fills :
      (id handle : ℕ) (fill : Slot C → Slot C) (slots : List (Slot C))
      → ((s : Slot C) → has_handle handle (fill s) ≡ (id == handle))
      → Fills id handle slots (replace_first (λ s. not s.active) fill slots)
  unfolding replace_first
  replace_first-Fills id handle fill [] h = tt
  replace_first-Fills id handle fill (s ∷ slots) h =
      Fills-if id handle s (fill s) slots s.active (replace_first (λ s. not s.active) fill slots)
        refl (h s) (replace_first-Fills id handle fill slots h)

  -- The two outcomes of filling a slot: none is free and nothing changes; or the slots' handles are
  -- those of before and the one returned.
  abbrev pub Added : EventLoop C → ℕ × EventLoop C → Type 0
  Added l (handle, l') =
      ((handle ≡ 0) × (l' ≡ l))
      ⊎ ((handle ≡ l.next_id)
          × (l'.next_id ≡ l.next_id + 1)
          × (length l'.slots ≡ length l.slots)
          × ((k : ℕ) → holders k l'.slots ≡ one_if (l.next_id == k) + holders k l.slots))

  Fills-Added :
      (l : EventLoop C) (r : Option (List (Slot C)))
      → ((k : ℕ) → Fills l.next_id k l.slots r)
      → Added l (elim r [
        | none ↦ (0, l)
        | some slots ↦ (l.next_id, record { slots = slots; next_id = l.next_id + 1 })
      ])
  Fills-Added l none h = inl (refl, refl)
  Fills-Added l (some slots) h = inr (refl, refl, (h 0).1, λ k. (h k).0)

  -- `on_delay_us` and `on_repeat_us` either find no free slot, return 0 and change nothing, or return
  -- the next handle, which then has one more active slot than before, and no other handle has.
  add_timer-Added :
      (now delay period : ℕ) (cb : C) (l : EventLoop C) → Added l (add_timer now delay period cb l)
  unfolding add_timer
  add_timer-Added now delay period cb l =
      Fills-Added l _ λ k. replace_first-Fills l.next_id k _ l.slots (λ s. refl)

  -- The same of `add_poll`.
  pub add_poll-Added : (cb : C) (l : EventLoop C) → Added l (add_poll cb l)
  unfolding add_poll
  add_poll-Added cb l = Fills-Added l _ λ k. replace_first-Fills l.next_id k _ l.slots (λ s. refl)

  pub Added-IsLoop : (l : EventLoop C) (r : ℕ × EventLoop C) → Added l r → IsLoop l → IsLoop r.1
  Added-IsLoop l (handle, l') (inl (e, same)) h = rw same h
  Added-IsLoop l (handle, l') (inr (e, next, size, count)) h = record {
    fresh = λ k.
        let used = h.fresh (k + 1) in
        let shift : l'.next_id + k ≡ l.next_id + (k + 1) = omega (arith, next) in
        let other : (l.next_id == l'.next_id + k) ≡ false = ground (arith, next) in
        let known = ap (λ (i : ℕ). holders i l.slots) shift in
        omega (arith, count (l'.next_id + k), ap one_if other, known, used);
    single = λ k. elim (Bool-cases (l.next_id == k)) [
      | inl new ↦
          let none_yet = h.fresh 0 in
          let same : l.next_id + 0 ≡ k = ground arith in
          let known = ap (λ (i : ℕ). holders i l.slots) same in
          omega (arith, count k, ap one_if new, known, none_yet)
      | inr old ↦ omega (arith, count k, ap one_if old, h.single k)
    ];
  }

  -- A timer that is added keeps the loop's handles apart: none is in use twice, and those from the
  -- next one on are not in use.
  add_timer-IsLoop :
      (now delay period : ℕ) (cb : C) (l : EventLoop C)
      → IsLoop l
      → IsLoop (add_timer now delay period cb l).1
  add_timer-IsLoop now delay period cb l h =
      Added-IsLoop l (add_timer now delay period cb l) (add_timer-Added now delay period cb l) h
