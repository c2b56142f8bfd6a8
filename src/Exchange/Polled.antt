-- ===== src/Exchange/Polled.antt =====
-- What a poll of the server writes, and how a client reads it. The fields of the lines have any
-- property that the fields with an active watch have.
use pypilot_cxx.Prelude.{
  ◌≢◌, ℕ, suc, ◌≡◌, refl, sym, ap, ◌∙◌, inl, inr, Bool, true, false, none, some, List, [], ◌∷◌,
  ◌++◌, map, if◌then◌else◌, length, All, ◌⊎◌, All-append, Bool-cases, ◌||◌, ◌&&◌, ==_iff,
}
use mathlib.Core.Path.{subst}
use mathlib.Core.Bool.{false≢true}
use pypilot_cxx.Server.Marks.{is_marked, Follows}
use mathlib.Core.List.{append_assoc}
use pypilot_cxx.Prelude.Text.{Text}
use pypilot_cxx.Float.{Float, whole}
use pypilot_cxx.Values.Fields.{FieldId, field_count, index, same_id, real}
use pypilot_cxx.Values.Rows.{kind_of, index_injective}
use pypilot_cxx.Values.Writer.{string_writer, Emit}
use pypilot_cxx.Values.Access.{Watch, ValueRegistry, read_bool_id, read_string_id}
use pypilot_cxx.Values.Lines.{write_value_line_id}
use pypilot_cxx.Values.Lines.Appended.{line_of, joined, write_lines-joined}
use pypilot_cxx.Client.Callbacks.{handle_lines}
use pypilot_cxx.Values.Watches.{all_ids, any_of, immediate, holds}
use pypilot_cxx.Values.Due.{emit_due_watches}
use pypilot_cxx.Values.Due.Schedule.{Bounded, emit_due_watches-Rescheduled}
use pypilot_cxx.Values.Due.Written.{OffOr, write_lines-append, emit_due_watches-lines}
use pypilot_cxx.Server.{poll}
use pypilot_cxx.Server.Updates.{emit_changed_watches-shown, shown-split, is_shown, chosen}
use pypilot_cxx.Values.Access.Stored.{Agree}
use pypilot_cxx.Values.Lines.Steady.{write_lines, line-Agree}
use pypilot_cxx.Exchange.Relayed.{reads, relays, escaped}
use pypilot_cxx.Exchange.InStep.{InStep, lines-InStep, shown-InStep}

and-true : (a b : Bool) → a && b ≡ true → (a ≡ true) × (b ≡ true)
and-true true b h = (refl, h)
and-true false b h = cc

chosen-All :
    (P : FieldId → Type 0) (p : FieldId → Bool) (ids : List FieldId)
    → ((id : FieldId) → p id ≡ true → P id)
    → All P (chosen p ids)
unfolding chosen
chosen-All P p [] h = tt
chosen-All P p (id ∷ ids) h = elim (Bool-cases (p id)) [
  | inl picked ↦ rw picked (h id picked, chosen-All P p ids h)
  | inr passed ↦ rw passed (chosen-All P p ids h)
]

module _ {R : Type 0} ⦃fl : Float R⦄ where
  -- The marks have no part in a line.
  write_lines-cleared :
      (v : ValueRegistry R) (marks : List Bool) (ids : List FieldId) (out : Text)
      → write_lines (record v { dirty = marks }) ids out ≡ write_lines v ids out
  write_lines-cleared v marks [] out = refl
  write_lines-cleared v marks (id ∷ ids) out =
      let same = line-Agree v (record v { dirty = marks }) refl id (refl, refl, refl) in
      write_lines-cleared v marks ids (write_value_line_id id (record v { dirty = marks }) out).1
      ∙ ap (λ (m : Emit Text). write_lines v ids (m out).1) same

  -- What a poll leaves, and the fields of the lines that it writes behind the shown ones.
  poll-lines :
      (P : FieldId → Type 0) (now_us : ℕ) (v : ValueRegistry R) (out : Text)
      → length v.dirty ≡ field_count
      → All (Bounded now_us) v.watches
      → All (OffOr P) v.watches
      → (v' : ValueRegistry R) × (due : List FieldId) × All P due
        × (poll (suc now_us) now_us v out
            ≡ some (v', out ++ joined (map (line_of v) (chosen (is_shown v) all_ids ++ due))))
        × (v' ≡ record v { dirty = map (λ _. false) v.dirty; watches = v'.watches })
  unfolding poll
  poll-lines P now_us v out sized bounded offs =
      let shown = chosen (is_shown v) all_ids in
      let cleared = record v { dirty = map (λ _. false) v.dirty } in
      let (v', went, moved, again) =
        emit_due_watches-Rescheduled now_us cleared (write_lines v shown out) bounded in
      let (same, due, written, those) =
        emit_due_watches-lines P (suc now_us) now_us cleared v' (write_lines v shown out) _ went
          offs in
      (
        v',
        due,
        those,
        ap (λ x. emit_due_watches (suc now_us) now_us x.0 x.1)
              (emit_changed_watches-shown v out sized)
            ∙ went
            ∙ ap (λ (t : Text). some (v', t))
                (written
                  ∙ write_lines-cleared v cleared.dirty due (write_lines v shown out)
                  ∙ write_lines-append v shown due out
                  ∙ write_lines-joined v (shown ++ due) out),
        same,
      )

  now-has :
      (P : FieldId → Type 0) (id : FieldId) (w : Watch R) → holds id w ≡ true → OffOr P w → P id
  now-has P id w h off =
      let (on, same) = and-true w.active (same_id w.id id) h in
      elim off [
        | inl silent ↦ absurd (false≢true (sym silent ∙ on))
        | inr has ↦ subst P (index_injective w.id id ((==_iff (index w.id) (index id)).0 same)) has
      ]

  -- A field that is watched at once has the property.
  immediate-has :
      (P : FieldId → Type 0) (id : FieldId) (ws : List (Watch R))
      → any_of (immediate id) ws ≡ true
      → All (OffOr P) ws
      → P id
  unfolding any_of
  immediate-has P id [] h offs = cc
  immediate-has P id (w ∷ ws) h (off, offs) = elim (Bool-cases (immediate id w)) [
    | inl here ↦
        now-has P id w (and-true (holds id w) (fl.eq w.period_seconds (whole 0)) here).0 off
    | inr other ↦
        let rest = ap (λ (b : Bool). b || any_of (immediate id) ws) (sym other) ∙ h in
        immediate-has P id ws rest offs
  ]

  shown-has :
      (P : FieldId → Type 0) (v : ValueRegistry R) (id : FieldId)
      → is_shown v id ≡ true
      → All (OffOr P) v.watches
      → P id
  shown-has P v id h offs =
      immediate-has P id v.watches (and-true (is_marked id v) (any_of (immediate id) v.watches) h).1
        offs

  -- A field is marked, or a client reads what the server relays of it.
  abbrev pub UpToDate : FieldId → ValueRegistry R → ValueRegistry R → Type 0
  UpToDate j v mirror = (is_marked j v ≡ true) ⊎ (reads j mirror ≡ relays j v)

  pub relays-Agree :
      (v v' : ValueRegistry R) (j : FieldId)
      → v'.attached ≡ v.attached
      → Agree j v.state v'.state
      → relays j v ≡ relays j v'
  unfolding read_bool_id read_string_id
  relays-Agree v v' j on (x, b, s) =
      sym (λ i. (if on i then b i else none, escaped (if on i then s i else none)))

  pub Follows-UpToDate :
      (j : FieldId) (v v' mirror : ValueRegistry R)
      → Follows v v'
      → length v.dirty ≡ field_count
      → UpToDate j v mirror
      → UpToDate j v' mirror
  Follows-UpToDate j v v' mirror later sized step = elim (later.accounted j sized) [
    | inl marked ↦ inl marked
    | inr (same, kept) ↦ elim step [
      | inl marked ↦ inl (kept ∙ marked)
      | inr current ↦ inr (current ∙ relays-Agree v v' j later.same_attached same)
    ]
  ]

  -- What a poll leaves and writes behind `out`, and how a client reads it.
  pub poll-InStep :
      (P : FieldId → Type 0) (v : ValueRegistry R) (out : Text) (now_us : ℕ)
      (mirror : ValueRegistry R) (j : FieldId)
      → length v.dirty ≡ field_count
      → v.attached ≡ true
      → mirror.attached ≡ true
      → kind_of j ≢ real
      → UpToDate j v mirror
      → any_of (immediate j) v.watches ≡ true
      → All (Bounded now_us) v.watches
      → All (OffOr P) v.watches
      → (v' : ValueRegistry R) × (ids : List FieldId) × All P ids
        × (poll (suc now_us) now_us v out ≡ some (v', out ++ joined (map (line_of v) ids)))
        × (v' ≡ record v { dirty = map (λ _. false) v.dirty; watches = v'.watches })
        × ((handle_lines (map (line_of v) ids) mirror).attached ≡ true)
        × (reads j (handle_lines (map (line_of v) ids) mirror) ≡ relays j v')
  unfolding read_bool_id read_string_id
  poll-InStep P v out now_us mirror j sized on on' right step watched bounded offs =
      let (v', due, those, polled, same) = poll-lines P now_us v out sized bounded offs in
      let shown = chosen (is_shown v) all_ids in
      let ids = shown ++ due in
      let (on'', copied) : InStep v j on right (handle_lines (map (line_of v) ids) mirror) =
        elim step [
          | inl marked ↦
              let (before, after, split) = shown-split v j marked watched in
              let all = ap (λ t. t ++ due) split ∙ append_assoc before (j ∷ after) due in
              rw all (shown-InStep v j on right before (after ++ due) mirror on')
          | inr current ↦ lines-InStep v j on right ids mirror (on', current)
        ] in
      (
        v',
        ids,
        All-append P shown due (chosen-All P (is_shown v) all_ids (λ id h. shown-has P v id h offs))
            those,
        polled,
        same,
        on'',
        copied ∙ ap (λ u. relays j u) (sym same),
      )
