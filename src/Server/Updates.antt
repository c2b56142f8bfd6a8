-- ===== src/Server/Updates.antt =====
-- No change is lost: what clients change between two polls, the second poll shows to whoever watches
-- the field at once.
use pypilot_cxx.Prelude.{
  ℕ, suc, ◌+◌, ◌≡◌, refl, sym, ap, ◌∙◌, ◌⊎◌, inl, inr, Bool, true, false, ◌&&◌, ◌||◌, Option, none,
  some, List, [], ◌∷◌, ◌++◌, map, arith, if◌then◌else◌, ==_iff, Bool-cases, length, get_elem?,
}
use mathlib.Core.Path.{subst}
use pypilot_cxx.Prelude.Text.{Text}
use pypilot_cxx.Float.{Float}
use pypilot_cxx.Values.Fields.{FieldId, server_running, index, field_count, same_id}
use pypilot_cxx.Values.Rows.{index_injective}
use pypilot_cxx.Values.Writer.{ValueWriter, Emit}
use pypilot_cxx.Values.Access.{ValueRegistry}
use pypilot_cxx.Values.Lines.Steady.{write_lines, line-Agree}
use pypilot_cxx.Values.Lines.{write_value_line_id}
use pypilot_cxx.Values.Watches.{all_ids, any_of, immediate, emit_changed_watches}
use pypilot_cxx.Values.Watches.Changed.{lines_of, emit_changed_watches-lines}
use pypilot_cxx.Values.Due.{emit_due_watches}
use pypilot_cxx.Server.{handle_line, poll}
use pypilot_cxx.Server.Total.{handle_line-Returns}
use pypilot_cxx.Server.Marks.{read_mark, is_marked, Follows, Follows-IsKept}
use pypilot_cxx.Server.Preserved.{handle_line-Kept}

unfoldable pub chosen {ℓ} : {A : Type ℓ} → (A → Bool) → List A → List A
chosen p [] = []
chosen p (x ∷ xs) = if p x then x ∷ chosen p xs else chosen p xs

-- A chosen field stands in the list.
chosen-split :
    (p : FieldId → Bool) (j : FieldId) (ids : List FieldId)
    → p j ≡ true
    → any_of (same_id j) ids ≡ true
    → (before after : List FieldId) × (chosen p ids ≡ before ++ j ∷ after)
unfolding any_of chosen
chosen-split p j [] h e = cc
chosen-split p j (id ∷ ids) h e = elim (Bool-cases (same_id j id)) [
  | inl same ↦
      let here = index_injective j id ((==_iff (index j) (index id)).0 same) in
      ([], chosen p ids, rw (← here) (rw h refl))
  | inr other ↦
      let rest = ap (λ (b : Bool). b || any_of (same_id j) ids) (sym other) ∙ e in
      let (before, after, split) = chosen-split p j ids h rest in
      elim (Bool-cases (p id)) [
        | inl picked ↦ (id ∷ before, after, rw picked (ap (λ t. id ∷ t) split))
        | inr passed ↦ (before, after, rw passed split)
      ]
]

all_ids-any : (j : FieldId) → any_of (same_id j) all_ids ≡ true
unfolding any_of
all_ids-any server_running = refl
all_ids-any _ = refl

module _ {R W : Type 0} ⦃fl : Float R⦄ ⦃writer : ValueWriter W⦄ where
  -- The requests of clients, each at its time.
  abbrev pub handle_lines : List (Text × ℕ) → ValueRegistry R → W → Option (ValueRegistry R × W)
  handle_lines [] v out = some (v, out)
  handle_lines ((line, now_us) ∷ lines) v out = elim (handle_line line now_us v out) [
    | none ↦ none
    | some (done, v', out') ↦ handle_lines lines v' out'
  ]

  handle_lines-Follows :
      (lines : List (Text × ℕ)) (v : ValueRegistry R) (out : W)
      → (v' : ValueRegistry R) × (out' : W) × (handle_lines lines v out ≡ some (v', out'))
        × Follows v v'
  handle_lines-Follows [] v out = (v, out, refl, Follows-IsKept.refl_at v)
  handle_lines-Follows ((line, now_us) ∷ lines) v out =
      let (r, e) = handle_line-Returns line now_us v out in
      let first = handle_line-Kept Follows Follows-IsKept line now_us v out r e in
      let (v', out', went, later) = handle_lines-Follows lines r.1 r.2 in
      (v', out', rw (handle_lines, e) went, Follows-IsKept.chain v r.1 v' first later)

  pub handled-Follows :
      (lines : List (Text × ℕ)) (v v' : ValueRegistry R) (out out' : W)
      → handle_lines lines v out ≡ some (v', out')
      → Follows v v'
  handled-Follows lines v v' out out' e =
      let (u, o, went, later) = handle_lines-Follows lines v out in
      let same : u ≡ v' = cc in subst (Follows v) same later

module _ {R : Type 0} ⦃fl : Float R⦄ where
  -- The fields that a poll shows.
  abbrev pub is_shown : ValueRegistry R → FieldId → Bool
  is_shown v j = is_marked j v && any_of (immediate j) v.watches

  pub shown-split :
      (v : ValueRegistry R) (j : FieldId)
      → is_marked j v ≡ true
      → any_of (immediate j) v.watches ≡ true
      → (before after : List FieldId) × (chosen (is_shown v) all_ids ≡ before ++ j ∷ after)
  shown-split v j marked watched =
      chosen-split (is_shown v) j all_ids (rw (marked, watched) refl) (all_ids-any j)

-- The fields have consecutive indices from `n` on.
abbrev Counts : ℕ → List FieldId → Type 0
Counts n [] = Unit
Counts n (id ∷ ids) = (index id ≡ n) × Counts (suc n) ids

module _ {R W : Type 0} ⦃fl : Float R⦄ ⦃writer : ValueWriter W⦄ where
  write_lines-chosen :
      (v : ValueRegistry R) (mark watched : Bool) (id : FieldId) (ids : List FieldId) (out : W)
      → write_lines v (if mark && watched then id ∷ ids else ids) out
        ≡ write_lines v ids
            (if mark then (if watched then (write_value_line_id id v out).1 else out) else out)
  write_lines-chosen v false watched id ids out = refl
  write_lines-chosen v true true id ids out = refl
  write_lines-chosen v true false id ids out = refl

  lines_of-chosen :
      (v : ValueRegistry R) (n : ℕ) (ids : List FieldId) (marks : List Bool) (out : W)
      → Counts n ids
      → length marks ≡ length ids
      → ((k : ℕ) → get_elem? v.dirty (k + n) ≡ get_elem? marks k)
      → lines_of v ids marks out ≡ write_lines v (chosen (is_shown v) ids) out
  unfolding chosen
  lines_of-chosen v n [] marks out c l h = refl
  lines_of-chosen v n (id ∷ ids) [] out c l h = absurd (omega (arith, l))
  lines_of-chosen v n (id ∷ ids) (mark ∷ marks) out (e, c) l h =
      let marked : is_marked id v ≡ mark =
        ap (λ (i : ℕ). read_mark (get_elem? v.dirty i)) (omega (arith, e)) ∙ ap read_mark (h 0) in
      let next = lines_of-chosen v (suc n) ids marks in
      let later : (k : ℕ) → get_elem? v.dirty (k + suc n) ≡ get_elem? marks k =
        λ k. ap (get_elem? v.dirty) (omega arith) ∙ h (suc k) in
      let watched = any_of (immediate id) v.watches in
      next _ c (omega (arith, l)) later
      ∙ sym (write_lines-chosen v mark watched id (chosen (is_shown v) ids) out)
      ∙ ap
          (λ (m : Bool).
            write_lines v
              (if m && watched then id ∷ chosen (is_shown v) ids else chosen (is_shown v) ids) out)
          (sym marked)

  pub emit_changed_watches-shown :
      (v : ValueRegistry R) (out : W)
      → length v.dirty ≡ field_count
      → emit_changed_watches v out ≡ (
        record v { dirty = map (λ _. false) v.dirty },
        write_lines v (chosen (is_shown v) all_ids) out,
      )
  emit_changed_watches-shown v out sized =
      let (written, cleared, again) = emit_changed_watches-lines v out out sized in
      let shown =
        lines_of-chosen v 0 all_ids v.dirty out (omega arith) sized
          (λ k. ap (get_elem? v.dirty) (omega arith)) in
      λ i. (cleared i, (written ∙ shown) i)

  -- After any requests of clients, which are handled to an end, a poll writes the lines of the marked
  -- fields that are watched at once, in the order of the fields, and then the due watches. Whatever
  -- the field, it is not watched at once then, or its line is among these, or its line is what it was
  -- before the requests.
  pub poll-Shows :
      (lines : List (Text × ℕ)) (v : ValueRegistry R) (out : W) (fuel now_us : ℕ) (j : FieldId)
      → length v.dirty ≡ field_count
      → (v' : ValueRegistry R) × (out' : W) × (handle_lines lines v out ≡ some (v', out'))
        × (ids : List FieldId) × (ids ≡ chosen (is_shown v') all_ids)
        × (poll fuel now_us v' out'
            ≡ emit_due_watches fuel now_us
                (record v' { dirty = map (λ _. false) v'.dirty })
                (write_lines v' ids out'))
        × ((any_of (immediate j) v'.watches ≡ false)
            ⊎ (((before after : List FieldId) × (ids ≡ before ++ j ∷ after))
                ⊎ ((o : W) → write_value_line_id j v' o ≡ write_value_line_id j v o)))
  unfolding poll
  poll-Shows lines v out fuel now_us j sized =
      let (v', out', went, later) = handle_lines-Follows lines v out in
      let sized' = later.same_size ∙ sized in
      (
        v',
        out',
        went,
        chosen (is_shown v') all_ids,
        refl,
        ap (λ x. emit_due_watches fuel now_us x.0 x.1) (emit_changed_watches-shown v' out' sized'),
        elim (Bool-cases (any_of (immediate j) v'.watches)) [
          | inr unwatched ↦ inl unwatched
          | inl watched ↦ inr elim (later.accounted j sized) [
            | inl marked ↦ inl (shown-split v' j marked watched)
            | inr (same, kept) ↦
                inr λ o. ap (λ (m : Emit W). m o) (line-Agree v v' later.same_attached j same)
          ]
        ],
      )
