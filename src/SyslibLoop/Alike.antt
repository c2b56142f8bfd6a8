-- ===== src/SyslibLoop/Alike.antt =====
-- The two event loops of the repository do the same with timers.
use pypilot_cxx.Prelude.{
  ℕ, zero, suc, ◌+◌, ◌≡◌, refl, ap, ◌∙◌, ◌≢◌, inl, inr, Bool, true, false, not, Option, none, some,
  List, [], ◌∷◌, map, arith, ◌==◌, Bool-cases, length, get_elem?, set, All,
}
use pypilot_cxx.Prelude.Int.{ℤ, pos, negsuc}
use pypilot_cxx.EventLoop
use pypilot_cxx.EventLoop.{Slot, EventLoop, advance}
use pypilot_cxx.SyslibLoop.{Timer, TimerLoop, add_timer, has_id, cancel, retire}
use pypilot_cxx.Values.Watches.{replace_first}

module _ {A B : Type 0} (f : A → B) where
  abbrev pub map_some : Option A → Option B
  map_some none = none
  map_some (some x) = some (f x)

  pub get_elem?-map : (xs : List A) (i : ℕ) → get_elem? (map f xs) i ≡ map_some (get_elem? xs i)
  get_elem?-map [] i = refl
  get_elem?-map (x ∷ xs) zero = refl
  get_elem?-map (x ∷ xs) (suc i) = get_elem?-map xs i

  pub set-map : (xs : List A) (i : ℕ) (x : A) → map f (set xs i x) ≡ set (map f xs) i (f x)
  set-map [] i x = refl
  set-map (y ∷ xs) zero x = refl
  set-map (y ∷ xs) (suc i) x = ap (λ t. f y ∷ t) (set-map xs i x)

  pub length-map : (xs : List A) → length (map f xs) ≡ length xs
  length-map [] = refl
  length-map (x ∷ xs) = ap suc (length-map xs)

  abbrev map_all : Option (List A) → Option (List B)
  map_all none = none
  map_all (some xs) = some (map f xs)

  map_all-next :
      (x : A) (o : Option (List A))
      → elim (map_all o) [ none ↦ none | some ys ↦ some (f x ∷ ys) ]
        ≡ map_all (elim o [ none ↦ none | some xs ↦ some (x ∷ xs) ])
  map_all-next x none = refl
  map_all-next x (some xs) = refl

  replace_first-map :
      (test : A → Bool) (change : A → A) (test' : B → Bool) (change' : B → B)
      → ((x : A) → test' (f x) ≡ test x)
      → ((x : A) → change' (f x) ≡ f (change x))
      → (xs : List A)
      → replace_first test' change' (map f xs) ≡ map_all (replace_first test change xs)
  unfolding replace_first
  replace_first-map test change test' change' h k [] = refl
  replace_first-map test change test' change' h k (x ∷ xs) = elim (Bool-cases (test x)) [
    | inl hit ↦ rw (h x, hit, k x) refl
    | inr miss ↦
        rw (h x, miss, replace_first-map test change test' change' h k xs)
          (map_all-next x (replace_first test change xs))
  ]

-- The handle 0 of one loop is the -1 of the other.
abbrev pub to_handle : ℤ → ℕ
to_handle (pos id) = id
to_handle (negsuc n) = 0

module _ {C : Type 0} where
  -- A timer as a slot, and the loop with these slots.
  abbrev pub to_slot : Timer C → Slot C
  to_slot t = record {
    active = t.active;
    periodic_poll = false;
    id = t.id;
    due_us = t.due_us;
    period_us = t.period_us;
    cb = t.callback;
  }

  abbrev pub to_loop : TimerLoop C → EventLoop C
  to_loop l = record { slots = map to_slot l.timers; next_id = l.next_id }

  added-to_loop :
      (l : TimerLoop C) (o : Option (List (Timer C)))
      → elim (map_all to_slot o) as (λ _. ℕ × EventLoop C) [
        | none ↦ (0, to_loop l)
        | some slots ↦ (l.next_id, record { slots = slots; next_id = l.next_id + 1 })
      ]
        ≡ (let (handle, l') = elim o as (λ _. ℤ × TimerLoop C) [
          | none ↦ (negsuc 0, l)
          | some timers ↦ (pos l.next_id, record { timers = timers; next_id = l.next_id + 1 })
        ] in
            (to_handle handle, to_loop l'))
  added-to_loop l none = refl
  added-to_loop l (some timers) = refl

  cancelled-to_loop :
      (l : TimerLoop C) (o : Option (List (Timer C)))
      → elim (map_all to_slot o) as (λ _. EventLoop C) [
        | none ↦ to_loop l
        | some slots ↦ record (to_loop l) { slots = slots }
      ]
        ≡ to_loop
            (elim o as (λ _. TimerLoop C) [ none ↦ l | some timers ↦ record l { timers = timers } ])
  cancelled-to_loop l none = refl
  cancelled-to_loop l (some timers) = refl

  pub add_timer-to_loop :
      (now delay period : ℕ) (cb : C) (l : TimerLoop C)
      → let (handle, l') = add_timer now delay period cb l in
        EventLoop.add_timer now delay period cb (to_loop l) ≡ (to_handle handle, to_loop l')
  unfolding add_timer EventLoop.add_timer
  add_timer-to_loop now delay period cb l =
      ap
        (λ o. elim o as (λ _. ℕ × EventLoop C) [
          | none ↦ (0, to_loop l)
          | some slots ↦ (l.next_id, record { slots = slots; next_id = l.next_id + 1 })
        ])
        (replace_first-map to_slot (λ t. not t.active) _ _ _ (λ t. refl) (λ t. refl) l.timers)
      ∙ added-to_loop l _

  pub cancel-to_loop :
      (id : ℤ) (l : TimerLoop C)
      → to_handle id ≢ 0
      → EventLoop.cancel (to_handle id) (to_loop l) ≡ to_loop (cancel id l)
  unfolding cancel EventLoop.cancel
  cancel-to_loop (negsuc n) l h = absurd (h refl)
  cancel-to_loop (pos id) l h =
      let nonzero : (id == 0) ≡ false = ground arith in
      rw
        (
          nonzero,
          replace_first-map to_slot (has_id (pos id)) _ _ _ (λ t. refl) (λ t. refl) l.timers,
        )
        (cancelled-to_loop l _)

  -- A timer that is in use has a callback.
  abbrev pub HasCallback : Timer C → Type 0
  HasCallback t = t.active ≡ true → (cb : C) × (t.callback ≡ some cb)

  pub All-get :
      (ts : List (Timer C)) (i : ℕ) (t : Timer C)
      → All HasCallback ts
      → get_elem? ts i ≡ some t
      → HasCallback t
  All-get [] i t h e = cc
  All-get (x ∷ ts) zero t h e = let same : x ≡ t = ground arith in rw (← same) h.0
  All-get (x ∷ ts) (suc i) t h e = All-get ts i t h.1 e

  pub All-set :
      (ts : List (Timer C)) (i : ℕ) (t : Timer C)
      → All HasCallback ts
      → HasCallback t
      → All HasCallback (set ts i t)
  All-set [] i t h k = tt
  All-set (x ∷ ts) zero t h k = (k, h.1)
  All-set (x ∷ ts) (suc i) t h k = (h.0, All-set ts i t h.1 k)

  -- Retiring a timer is retiring its slot, and keeps it in order.
  retired-to_slot :
      (t : Timer C) (o : Option ℕ)
      → elim o as (λ _. Option (Slot C)) [
        | none ↦ none
        | some due ↦ some (record (to_slot t) { due_us = due })
      ]
        ≡ map_some to_slot (elim o as (λ _. Option (Timer C)) [
          | none ↦ none
          | some due ↦ some (record t { due_us = due })
        ])
  retired-to_slot t none = refl
  retired-to_slot t (some due) = refl

  pub retire-to_slot :
      (fuel now : ℕ) (t : Timer C)
      → EventLoop.retire fuel now (to_slot t) ≡ map_some to_slot (retire fuel now t)
  unfolding retire EventLoop.retire
  retire-to_slot fuel now t = elim (Bool-cases (t.period_us == 0)) [
    | inl single ↦ rw single refl
    | inr repeats ↦ rw repeats (retired-to_slot t (advance fuel now t.period_us t.due_us))
  ]

  abbrev pub Kept : Option (Timer C) → Type 0
  Kept none = Unit
  Kept (some t) = HasCallback t

  moved-Kept :
      (t : Timer C) (o : Option ℕ)
      → HasCallback t
      → Kept (elim o as (λ _. Option (Timer C)) [
        | none ↦ none
        | some due ↦ some (record t { due_us = due })
      ])
  moved-Kept t none h = tt
  moved-Kept t (some due) h = h

  pub retire-Kept : (fuel now : ℕ) (t : Timer C) → HasCallback t → Kept (retire fuel now t)
  unfolding retire
  retire-Kept fuel now t h = elim (Bool-cases (t.period_us == 0)) [
    | inl single ↦ rw single (λ e. cc)
    | inr repeats ↦ rw repeats (moved-Kept t (advance fuel now t.period_us t.due_us) h)
  ]
