-- ===== src/Values/Watches/Removed.antt =====
-- `unwatch`: what it takes out of the table of watches, and what it leaves.
use pypilot_cxx.Prelude.{
  ℕ, suc, ◌+◌, ◌≤◌, ◌≡◌, refl, sym, ap, ◌∙◌, inl, inr, Bool, true, false, ◌&&◌, some, List, [], ◌∷◌,
  arith, ◌==◌, if◌then◌else◌, Bool-cases, length,
}
use pypilot_cxx.Float.{Float}
use pypilot_cxx.Values.Access.{ValueRegistry, Watch}
use pypilot_cxx.Values.Watches.{Text, unwatch, take_watch, holds}
use pypilot_cxx.Values.Fields.{index, find, Descriptor, FieldId, same_id}
use pypilot_cxx.Values.Watches.Table.{entries, IsTable}

zero_either : (b : Bool) → ◌≡◌ {A = ℕ} 0 (if b then 0 else 0)
zero_either true = refl
zero_either false = refl

at_most : (b : Bool) {n : ℕ} → n ≤ 1 → (if b then 0 else n) ≤ 1
at_most true h = omega arith
at_most false h = h

-- One entry of the table, by the indices of its field, of the field taken out and of the one counted.
module _ (on : Bool) (k i j n n' : ℕ) where
  taken_out :
      (on && k == i) ≡ true
      → n' ≡ (if i == j then 0 else n)
      → n' ≡ (if i == j then 0 else (if on && k == j then n + 1 else n))
  taken_out hit e = ground arith

  left_in :
      (on && k == i) ≡ false
      → n' ≡ (if i == j then 0 else n)
      → (if on && k == j then n' + 1 else n')
        ≡ (if i == j then 0 else (if on && k == j then n + 1 else n))
  left_in miss e = ground arith

module _ {R : Type 0} ⦃fl : Float R⦄ where
  take_watch-entries :
      (id j : FieldId) (ws : List (Watch R))
      → entries j (take_watch id ws) ≡ (if same_id id j then 0 else entries j ws)
  unfolding take_watch
  take_watch-entries id j [] = zero_either (same_id id j)
  take_watch-entries id j (w ∷ ws) =
      let step : Bool → ℕ =
        λ b. entries j ((if b then record w { active = false } else w) ∷ take_watch id ws) in
      let rest = take_watch-entries id j ws in
      elim (Bool-cases (holds id w)) [
        | inl hit ↦ ap step hit ∙ taken_out w.active (index w.id) (index id) (index j) _ _ hit rest
        | inr miss ↦ ap step miss ∙ left_in w.active (index w.id) (index id) (index j) _ _ miss rest
      ]

  take_watch-length : (id : FieldId) (ws : List (Watch R)) → length (take_watch id ws) ≡ length ws
  unfolding take_watch
  take_watch-length id [] = refl
  take_watch-length id (w ∷ ws) = ap suc (take_watch-length id ws)

  pub take_watch-IsTable :
      (id : FieldId) (ws : List (Watch R)) → IsTable ws → IsTable (take_watch id ws)
  take_watch-IsTable id ws t = record {
    single = λ j. omega (arith, take_watch-entries id j ws, at_most (same_id id j) (t.single j));
    sized = omega (arith, take_watch-length id ws, t.sized);
  }

  -- The active entries of a table, and those of them that are of other fields.
  abbrev pub in_use : List (Watch R) → List (Watch R)
  in_use [] = []
  in_use (w ∷ ws) = if w.active then w ∷ in_use ws else in_use ws

  abbrev pub of_others : FieldId → List (Watch R) → List (Watch R)
  of_others id [] = []
  of_others id (w ∷ ws) = if same_id w.id id then of_others id ws else w ∷ of_others id ws

  -- An entry in use, whether it is taken out or stays.
  in_use-turn :
      (id : FieldId) (w : Watch R) (ws taken : List (Watch R))
      → w.active ≡ true
      → in_use taken ≡ of_others id (in_use ws)
      → in_use ((if holds id w then record w { active = false } else w) ∷ taken)
        ≡ of_others id (w ∷ in_use ws)
  in_use-turn id w ws taken on rest = elim (Bool-cases (same_id w.id id)) [
    | inl same ↦
        let hit : holds id w ≡ true = rw (on, same) refl in
        ap (λ (b : Bool). in_use ((if b then record w { active = false } else w) ∷ taken)) hit
        ∙ rest
        ∙ rw same refl
    | inr other ↦
        let miss : holds id w ≡ false = rw (on, other) refl in
        ap (λ (b : Bool). in_use ((if b then record w { active = false } else w) ∷ taken)) miss
        ∙ ap (λ (b : Bool). if b then w ∷ in_use taken else in_use taken) on
        ∙ ap (λ t. w ∷ t) rest
        ∙ rw other refl
  ]

  take_watch-in_use :
      (id : FieldId) (ws : List (Watch R)) → in_use (take_watch id ws) ≡ of_others id (in_use ws)
  unfolding take_watch
  take_watch-in_use id [] = refl
  take_watch-in_use id (w ∷ ws) = elim (Bool-cases w.active) [
    | inl on ↦
        in_use-turn id w ws (take_watch id ws) on (take_watch-in_use id ws)
        ∙ ap (λ (b : Bool). of_others id (if b then w ∷ in_use ws else in_use ws)) (sym on)
    | inr off ↦
        let miss : holds id w ≡ false = rw off refl in
        ap
          (λ (b : Bool). in_use ((if b then record w { active = false } else w) ∷ take_watch id ws))
          miss
        ∙ ap (λ (b : Bool). if b then w ∷ in_use (take_watch id ws) else in_use (take_watch id ws))
            off
        ∙ take_watch-in_use id ws
        ∙ ap (λ (b : Bool). of_others id (if b then w ∷ in_use ws else in_use ws)) (sym off)
  ]

  -- After `unwatch` of a known name the active entries are those that were active before and are of
  -- other fields, each with its period and its time and in the same order; the field has no active
  -- entry; and the table is still one.
  pub unwatch-entries :
      (name : Text) (v : ValueRegistry R) (d : Descriptor R)
      → find name ≡ some d
      → IsTable v.watches
      → let v' = (unwatch name v).1 in
        ((unwatch name v).0 ≡ true)
        × ((j : FieldId)
            → entries j v'.watches ≡ (if same_id d.id j then 0 else entries j v.watches))
        × (in_use v'.watches ≡ of_others d.id (in_use v.watches))
        × IsTable v'.watches
  unfolding unwatch
  unwatch-entries name v d e t =
      rw (e, unwatch)
        (
          refl,
          (λ j. take_watch-entries d.id j v.watches),
          take_watch-in_use d.id v.watches,
          take_watch-IsTable d.id v.watches t,
        )
