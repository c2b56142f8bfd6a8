-- ===== src/Client/Watches/Remembered.antt =====
-- What `remember_watch` of src/pypilot/client.cpp leaves in the client's table of watches.
use pypilot_cxx.Prelude.{
  ℕ, zero, suc, ◌≤◌, ◌≡◌, refl, sym, ap, ◌∙◌, inl, inr, Bool, true, false, not, ◌&&◌, Option, none,
  some, List, [], ◌∷◌, ◌++◌, arith, Bool-cases, length, take, All,
}
use mathlib.Core.Bool.{false≢true}
use mathlib.Core.Path.{subst}
use pypilot_cxx.Prelude.Text.{Text, text_eq, text_eq_iff}
use pypilot_cxx.Values.Access.{until_nul}
use pypilot_cxx.Values.Watches.{replace_first}
use pypilot_cxx.Client.Watches.{ClientWatch, remembers, remember_watch, copy_name, max_name_size}

module _ {A : Type 0} (test : A → Bool) (change : A → A) where
  -- The first element that passes the test is changed, and nothing else; or none passes it.
  data Replaces : List A → Option (List A) → Type 0 where
    changed :
        (before : List A) (w : A) (after : List A)
        → test w ≡ true
        → Replaces (before ++ w ∷ after) (some (before ++ change w ∷ after))
    unchanged : {ws : List A} → All (λ w. test w ≡ false) ws → Replaces ws none

  Replaces-cons :
      (w : A) (ws : List A) (o : Option (List A))
      → test w ≡ false
      → Replaces ws o
      → Replaces (w ∷ ws) (elim o [ none ↦ none | some ws' ↦ some (w ∷ ws') ])
  Replaces-cons w ws _ miss (changed before x after hit) = changed (w ∷ before) x after hit
  Replaces-cons w ws _ miss (unchanged all) = unchanged (miss, all)

  replace_first-Replaces : (ws : List A) → Replaces ws (replace_first test change ws)
  unfolding replace_first
  replace_first-Replaces [] = unchanged tt
  replace_first-Replaces (w ∷ ws) = elim (Bool-cases (test w)) [
    | inl hit ↦ rw hit (changed [] w ws hit)
    | inr miss ↦ rw miss (Replaces-cons w ws _ miss (replace_first-Replaces ws))
  ]

take-all : (n : ℕ) (s : Text) → length s ≤ n → take n s ≡ s
take-all zero [] h = refl
take-all zero (c ∷ s) h = absurd (omega (arith, h))
take-all (suc n) [] h = refl
take-all (suc n) (c ∷ s) h = ap (λ t. c ∷ t) (take-all n s (omega (arith, h)))

-- A short name without a NUL is copied whole.
pub copy_name-short :
    (name : Text) → length name ≤ 63 → until_nul name ≡ name → copy_name max_name_size name ≡ name
unfolding copy_name
copy_name-short name h plain = ap until_nul (take-all 63 name h) ∙ plain

module _ {R : Type 0} (name : Text) (period : R) where
  -- One entry of the table is the watch of the name with the period, and the others are as before. It
  -- was a watch of the name, or it was free and no entry was one. Or all entries are in use for other
  -- names, and the table is as before.
  pub data Remembered : List (ClientWatch R) → List (ClientWatch R) → Type 0 where
    renewed :
        (before : List (ClientWatch R)) (w : ClientWatch R) (after : List (ClientWatch R))
        → w.active ≡ true
        → w.name ≡ name
        → Remembered
            (before ++ w ∷ after)
            (before ++ record { active = true; name = name; period_seconds = period } ∷ after)
    added :
        (before : List (ClientWatch R)) (w : ClientWatch R) (after : List (ClientWatch R))
        → w.active ≡ false
        → All (λ u. remembers name u ≡ false) (before ++ w ∷ after)
        → Remembered
            (before ++ w ∷ after)
            (before ++ record { active = true; name = name; period_seconds = period } ∷ after)
    full :
        {ws : List (ClientWatch R)}
        → All (λ u. not u.active ≡ false) ws
        → All (λ u. remembers name u ≡ false) ws
        → Remembered ws ws

  remembers-parts :
      (w : ClientWatch R) → remembers name w ≡ true → (w.active ≡ true) × (w.name ≡ name)
  remembers-parts w hit = elim (Bool-cases w.active) [
    | inl on ↦
        let same = ap (λ (b : Bool). b && text_eq name w.name) (sym on) ∙ hit in
        (on, sym ((text_eq_iff name w.name).0 same))
    | inr off ↦
        let miss = ap (λ (b : Bool). b && text_eq name w.name) (sym off) ∙ hit in
        absurd (false≢true miss)
  ]

  free_inactive : (b : Bool) → not b ≡ true → b ≡ false
  free_inactive true h = absurd (false≢true h)
  free_inactive false h = refl

  abbrev renew : ClientWatch R → ClientWatch R
  renew w = record w { period_seconds = period }

  abbrev fill : ClientWatch R → ClientWatch R
  fill w = record { active = true; name = copy_name max_name_size name; period_seconds = period }

  after_filling :
      {ws : List (ClientWatch R)} {o : Option (List (ClientWatch R))}
      → copy_name max_name_size name ≡ name
      → All (λ u. remembers name u ≡ false) ws
      → Replaces (λ w. not w.active) fill ws o
      → Remembered ws (elim o as (λ _. List (ClientWatch R)) [ none ↦ ws | some ws' ↦ ws' ])
  after_filling plain none_yet (changed before w after free) =
      subst
        (λ t.
          Remembered (before ++ w ∷ after)
            (before ++ record { active = true; name = t; period_seconds = period } ∷ after))
        (sym plain) (added before w after (free_inactive w.active free) none_yet)
  after_filling plain none_yet (unchanged in_use) = full in_use none_yet

  after_renewing :
      {ws other : List (ClientWatch R)} {o : Option (List (ClientWatch R))}
      → (All (λ u. remembers name u ≡ false) ws → Remembered ws other)
      → Replaces (remembers name) renew ws o
      → Remembered ws (elim o as (λ _. List (ClientWatch R)) [ some ws' ↦ ws' | none ↦ other ])
  after_renewing next (changed before w after hit) =
      let (on, same) = remembers-parts w hit in
      subst (λ (u : ClientWatch R). Remembered (before ++ w ∷ after) (before ++ u ∷ after))
        (λ i. record { active = sym on i; name = sym same i; period_seconds = period })
        (renewed before w after on same)
  after_renewing next (unchanged none_yet) = next none_yet

  -- A name that the array of an entry holds is remembered, unless the table is full.
  pub remember_watch-Remembered :
      (ws : List (ClientWatch R))
      → copy_name max_name_size name ≡ name
      → Remembered ws (remember_watch name period ws)
  unfolding remember_watch
  remember_watch-Remembered ws plain =
      after_renewing
        (λ none_yet.
          after_filling plain none_yet (replace_first-Replaces (λ w. not w.active) fill ws))
        (replace_first-Replaces (remembers name) renew ws)
