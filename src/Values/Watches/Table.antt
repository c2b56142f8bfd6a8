-- ===== src/Values/Watches/Table.antt =====
-- The watch table holds at most one active entry for each field.
use pypilot_cxx.Prelude.{
  ℕ, ◌+◌, ◌≤◌, ◌≡◌, refl, ap, ◌∙◌, inl, inr, Bool, true, false, not, Option, none, some, List, [],
  ◌∷◌, arith, if◌then◌else◌, ==_iff, ==_refl, Bool-cases, Option-cases, length,
}
use Prim.Native.Nat.{max}
use pypilot_cxx.Values.Rows.{index_injective}
use pypilot_cxx.Values.Access.{max_watches, ValueRegistry, Watch}
use pypilot_cxx.Float.{Float}
use pypilot_cxx.Values.Watches.{
  watch_unwritten, write_value_line_id, put_watches, watch, Text, ValueWriter, next_due, put_watch,
  replace_first, holds,
}
use pypilot_cxx.Values.Fields.{index, find, FieldId, same_id}

module _ {ℓ} {A : Type ℓ} (test : A → Bool) (change : A → A) (w : A) (ws : List A) where
  replace_first-hit : test w ≡ true → replace_first test change (w ∷ ws) ≡ some (change w ∷ ws)
  unfolding replace_first
  replace_first-hit e = rw e

  replace_first-miss :
      test w ≡ false
      → replace_first test change (w ∷ ws)
        ≡ elim (replace_first test change ws) [ none ↦ none | some ws' ↦ some (w ∷ ws') ]
  unfolding replace_first
  replace_first-miss e = rw e

module _ {R : Type 0} ⦃fl : Float R⦄ where
  -- How many active entries a field has, and how many entries are active.
  abbrev pub entries : FieldId → List (Watch R) → ℕ
  entries id [] = 0
  entries id (w ∷ ws) = if holds id w then entries id ws + 1 else entries id ws

  abbrev pub active : List (Watch R) → ℕ
  active [] = 0
  active (w ∷ ws) = if w.active then active ws + 1 else active ws

  -- What `put_watch` does to the numbers of entries.
  abbrev pub Puts : FieldId → List (Watch R) → Option (List (Watch R)) → Type 0
  Puts id ws none = (entries id ws ≡ 0) × (active ws ≡ length ws)
  Puts id ws (some ws') =
      ((j : FieldId) → same_id id j ≡ false → entries j ws' ≡ entries j ws)
      × (length ws' ≡ length ws)
      × (entries id ws' ≡ max 1 (entries id ws))

  -- Replacing the first entry that holds the field keeps every number of entries.
  abbrev Renews : FieldId → List (Watch R) → Option (List (Watch R)) → Type 0
  Renews id ws none = entries id ws ≡ 0
  Renews id ws (some ws') =
      ((j : FieldId) → entries j ws' ≡ entries j ws)
      × (length ws' ≡ length ws)
      × (1 ≤ entries id ws)

  module _ (id : FieldId) (period : R) (due : ℕ) where
    abbrev renew : Watch R → Watch R
    renew w = record w { period_seconds = period; next_due_us = due }

    Renews-cons :
        (w : Watch R) (ws : List (Watch R)) (r : Option (List (Watch R)))
        → holds id w ≡ false
        → Renews id ws r
        → Renews id (w ∷ ws) (elim r [ none ↦ none | some ws' ↦ some (w ∷ ws') ])
    Renews-cons w ws none other h = rw other h
    Renews-cons w ws (some ws') other (h, l, n) =
        (λ j. ground (arith, h j), omega arith, rw other n)

    replace_first-Renews : (ws : List (Watch R)) → Renews id ws (replace_first (holds id) renew ws)
    unfolding replace_first
    replace_first-Renews [] = refl
    replace_first-Renews (w ∷ ws) = elim (Bool-cases (holds id w)) [
      | inl same ↦ rw same ((λ j. refl), refl, ground arith)
      | inr other ↦ rw other (Renews-cons w ws _ other (replace_first-Renews ws))
    ]

    abbrev occupy : Watch R → Watch R
    occupy w = record { active = true; id = id; period_seconds = period; next_due_us = due }

    -- Taking the first free entry: the field has one entry more, and there is none if all are taken.
    abbrev Takes : List (Watch R) → Option (List (Watch R)) → Type 0
    Takes ws none = active ws ≡ length ws
    Takes ws (some ws') =
        ((j : FieldId) → entries j ws' ≡ (if same_id id j then entries j ws + 1 else entries j ws))
        × (length ws' ≡ length ws)

    Takes-cons :
        (w : Watch R) (ws : List (Watch R)) (r : Option (List (Watch R)))
        → w.active ≡ true
        → Takes ws r
        → Takes (w ∷ ws) (elim r [ none ↦ none | some ws' ↦ some (w ∷ ws') ])
    Takes-cons w ws none on h = rw on (omega arith)
    Takes-cons w ws (some ws') on (h, l) = ((λ j. ground (arith, h j)), omega arith)

    abbrev is_free : Watch R → Bool
    is_free w = not w.active

    taken_anew :
        (w : Watch R) (ws : List (Watch R))
        → w.active ≡ false
        → Takes (w ∷ ws) (some (occupy w ∷ ws))
    taken_anew w ws off = ((λ j. ground arith), refl)

    replace_first-Takes : (ws : List (Watch R)) → Takes ws (replace_first is_free occupy ws)
    replace_first-Takes [] = unfold replace_first in refl
    replace_first-Takes (w ∷ ws) = elim (Bool-cases w.active) [
      | inl on ↦
          rw (replace_first-miss is_free occupy w ws (ap not on))
            (Takes-cons w ws _ on (replace_first-Takes ws))
      | inr off ↦ rw (replace_first-hit is_free occupy w ws (ap not off)) (taken_anew w ws off)
    ]

    Puts-renewed : (ws ws' : List (Watch R)) → Renews id ws (some ws') → Puts id ws (some ws')
    Puts-renewed ws ws' (h, l, n) = ((λ j _. h j), l, omega (arith, h id))

    Puts-taken :
        (ws : List (Watch R)) (r : Option (List (Watch R)))
        → entries id ws ≡ 0
        → Takes ws r
        → Puts id ws r
    Puts-taken ws none z h = (z, h)
    Puts-taken ws (some ws') z (h, l) =
        let own : entries id ws' ≡ entries id ws + 1 = h id ∙ rw (==_refl (index id)) in
        ((λ j ne. h j ∙ rw ne), l, omega arith)

  -- What the two loops of `watch` do to the table: it keeps its length, the field has an active entry
  -- and still at most one if it had at most one, and no other field gains or loses one. They fail
  -- only where the field has no entry and every entry is active.
  pub put_watch-Puts :
      (id : FieldId) (period : R) (now : ℕ) (ws : List (Watch R))
      → Puts id ws (put_watch id period now ws)
  unfolding put_watch
  put_watch-Puts id period now ws =
      go (replace_first (holds id) (renew id period due) ws) (replace_first-Renews id period due ws)
    where
      due : ℕ
      due = next_due now period

      go :
          (r : Option (List (Watch R)))
          → Renews id ws r
          → Puts id ws (elim r [
            | some ws' ↦ some ws'
            | none ↦ replace_first (is_free id period due) (occupy id period due) ws
          ])
      go none z = Puts-taken id period due ws _ z (replace_first-Takes id period due ws)
      go (some ws') h = Puts-renewed id period due ws ws' h

  -- No field has two active entries, and the table has its fixed length.
  pub record IsTable (ws : List (Watch R)) : Type 0 where
    pub single : (id : FieldId) → entries id ws ≤ 1
    pub sized : length ws ≡ max_watches

  Puts-IsTable :
      (id : FieldId) (ws ws' : List (Watch R)) → Puts id ws (some ws') → IsTable ws → IsTable ws'
  Puts-IsTable id ws ws' (others, l, own) t = record {
    single = λ j. elim (Bool-cases (same_id id j)) [
      | inl same ↦
          let e = index_injective id j ((==_iff (index id) (index j)).0 same) in
          rw (← e) (omega (arith, t.single id))
      | inr other ↦ omega (arith, others j other, t.single j)
    ];
    sized = omega (arith, t.sized);
  }

module _ {R : Type 0} ⦃fl : Float R⦄ where
  pub put_watches-IsTable :
      (id : FieldId) (period : R) (now : ℕ) (v : ValueRegistry R)
      → IsTable v.watches
      → IsTable (put_watches id period now v).1.watches
  unfolding put_watches
  put_watches-IsTable id period now v t =
      put (put_watch id period now v.watches) (put_watch-Puts id period now v.watches)
    where
      put :
          (r : Option (List (Watch R)))
          → Puts id v.watches r
          → IsTable
              (elim r as (λ _. Bool × ValueRegistry R) [
                | none ↦ (false, v)
                | some ws ↦ (true, record v { watches = ws })
              ]).1.watches
      put none p = t
      put (some ws) p = Puts-IsTable id v.watches ws p t

  watch_unwritten-IsTable :
      (name : Text) (period : R) (now : ℕ) (v : ValueRegistry R)
      → IsTable v.watches
      → IsTable (watch_unwritten name period now v).1.watches
  unfolding watch_unwritten
  watch_unwritten-IsTable name period now v t = elim (Option-cases (find {R = R} name)) [
    | inl e ↦ rw (watch_unwritten, e) t
    | inr (d, e) ↦ rw (watch_unwritten, e) (put_watches-IsTable d.id period now v t)
  ]

module _ {R W : Type 0} ⦃fl : Float R⦄ ⦃writer : ValueWriter W⦄ where
  -- The writer has no part in the table.
  watch-unwritten :
      (name : Text) (period : R) (now : ℕ) (v : ValueRegistry R) (out : W)
      → watch name period now v out ≡ (
        (watch_unwritten name period now v).0,
        (watch_unwritten name period now v).1,
        elim (find {R = R} name) [ none ↦ out | some d ↦ (write_value_line_id d.id v out).1 ],
      )
  unfolding watch watch_unwritten
  watch-unwritten name period now v out = elim (Option-cases (find {R = R} name)) [
    | inl e ↦ rw (watch, watch_unwritten, e) refl
    | inr (d, e) ↦ rw (watch, watch_unwritten, e) refl
  ]

  -- `watch`, whatever its arguments and its result, leaves a table in which no field has two active
  -- entries.
  pub watch-IsTable :
      (name : Text) (period : R) (now : ℕ) (v : ValueRegistry R) (out : W)
      → IsTable v.watches
      → IsTable (watch name period now v out).1.watches
  watch-IsTable name period now v out t =
      rw (watch-unwritten name period now v out) (watch_unwritten-IsTable name period now v t)
