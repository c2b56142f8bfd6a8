-- ===== src/Values/Access/Frame.antt =====
-- A write of one field leaves every other field as it was.
use pypilot_cxx.Prelude.{
  ◌≡◌, refl, sym, ap, ◌∙◌, ◌≢◌, inl, inr, Bool, true, false, not, ◌&&◌, none, some, ltb,
  if◌then◌else◌, Bool-cases, Option-cases, set,
}
use mathlib.Core.Bool.{false≢true}
use pypilot_cxx.Prelude.Text.{Text}
use pypilot_cxx.Float.{Float}
use pypilot_cxx.DataModel.{DataModel}
use pypilot_cxx.Values.Fields.{server_running, FieldId, index, field_count, Descriptor, find}
use pypilot_cxx.Values.Rows.{is_writable, find-Row}
use pypilot_cxx.Values.Access.{ValueRegistry, mark_dirty, set_parsed, set_from_wire}
use pypilot_cxx.Values.Access.Stored.{Agree, Stored, left, put, set_parsed-Stored}

writable_ne : (i j : FieldId) → is_writable i ≡ true → is_writable j ≡ false → i ≢ j
writable_ne i j h k e = false≢true (sym k ∙ ap is_writable (sym e) ∙ h)

module _ {R : Type 0} ⦃fl : Float R⦄ where
  -- What a write to the field `id` may change in a registry: that field, and its mark.
  pub record Kept (id : FieldId) (v v' : ValueRegistry R) : Type 0 where
    pub same_attached : v'.attached ≡ v.attached
    pub same_watches : v'.watches ≡ v.watches
    pub others : (j : FieldId) → id ≢ j → Agree j v.state v'.state

  Kept-refl : (id : FieldId) (v : ValueRegistry R) → Kept id v v
  Kept-refl id v = record {
    same_attached = refl;
    same_watches = refl;
    others = λ j h. (refl, refl, refl);
  }

  mark_dirty-Kept :
      (id : FieldId) (s : DataModel R) (v : ValueRegistry R)
      → ((j : FieldId) → id ≢ j → Agree j v.state s)
      → Kept id v (mark_dirty id (record v { state = s }))
  unfolding mark_dirty
  mark_dirty-Kept id s v h = go (ltb (index id) field_count)
    where
      marked : ValueRegistry R
      marked = record v { state = s; dirty = set v.dirty (index id) true }

      go : (b : Bool) → Kept id v (if b then marked else record v { state = s })
      go true = record { same_attached = refl; same_watches = refl; others = h }
      go false = record { same_attached = refl; same_watches = refl; others = h }

  Stored-Kept : {id : FieldId} {v v' : ValueRegistry R} → Stored id v v' → Kept id v v'
  Stored-Kept left = Kept-refl _ _
  Stored-Kept (put s h) = mark_dirty-Kept _ s _ h

  set_parsed-Kept :
      (d : Descriptor R) (value : Text) (v : ValueRegistry R) → Kept d.id v (set_parsed d value v).1
  set_parsed-Kept d value v = Stored-Kept (set_parsed-Stored d value v)

  -- Past its two checks, a write from the wire is the write of its descriptor.
  pub set_from_wire-allowed :
      (name value : Text) (external : Bool) (v : ValueRegistry R) (d : Descriptor R)
      → find name ≡ some d
      → (external && not d.info.writable) ≡ false
      → set_from_wire name value external v ≡ set_parsed d value v
  unfolding set_from_wire
  set_from_wire-allowed name value external v d e h =
      rw (e, set_from_wire) (ap (λ (b : Bool). if b then (false, v) else set_parsed d value v) h)

  pub set_from_wire-blocked :
      (name value : Text) (external : Bool) (v : ValueRegistry R) (d : Descriptor R)
      → find name ≡ some d
      → (external && not d.info.writable) ≡ true
      → set_from_wire name value external v ≡ (false, v)
  unfolding set_from_wire
  set_from_wire-blocked name value external v d e h =
      rw (e, set_from_wire) (ap (λ (b : Bool). if b then (false, v) else set_parsed d value v) h)

  pub set_from_wire-unknown :
      (name value : Text) (external : Bool) (v : ValueRegistry R)
      → find {R = R} name ≡ none
      → set_from_wire name value external v ≡ (false, v)
  unfolding set_from_wire
  set_from_wire-unknown name value external v e = rw (e, set_from_wire)

  -- Every write from the wire leaves the registry as it was or as the write of one field leaves it.
  pub set_from_wire-Stored :
      (name value : Text) (external : Bool) (v : ValueRegistry R)
      → (id : FieldId) × Stored id v (set_from_wire name value external v).1
  set_from_wire-Stored name value external v = elim (Option-cases (find {R = R} name)) [
    | inl e ↦ (server_running, rw (set_from_wire-unknown name value external v e) left)
    | inr (d, e) ↦ elim (Bool-cases (external && not d.info.writable)) [
      | inl blocked ↦ (d.id, rw (set_from_wire-blocked name value external v d e blocked) left)
      | inr go ↦ (
        d.id,
        rw (set_from_wire-allowed name value external v d e go) (set_parsed-Stored d value v),
      )
    ]
  ]

  pub set_from_wire-Kept :
      (name value : Text) (external : Bool) (v : ValueRegistry R) (d : Descriptor R)
      → find name ≡ some d
      → Kept d.id v (set_from_wire name value external v).1
  set_from_wire-Kept name value external v d e =
      elim (Bool-cases (external && not d.info.writable)) [
        | inl blocked ↦
            rw (set_from_wire-blocked name value external v d e blocked) (Kept-refl d.id v)
        | inr go ↦
            rw (set_from_wire-allowed name value external v d e go) (set_parsed-Kept d value v)
      ]

  -- A write from the wire changes at most the field that its name stands for: every other field
  -- reads as before, and the watches and the attachment stay.
  pub set_from_wire-Agree :
      (name value : Text) (external : Bool) (v : ValueRegistry R) (d : Descriptor R) (j : FieldId)
      → find name ≡ some d
      → d.id ≢ j
      → let v' = (set_from_wire name value external v).1 in
        Agree j v.state v'.state × (v'.attached ≡ v.attached) × (v'.watches ≡ v.watches)
  set_from_wire-Agree name value external v d j e other =
      let kept = set_from_wire-Kept name value external v d e in
      (kept.others j other, kept.same_attached, kept.same_watches)

  -- What no client can change: the fields that are not writable.
  abbrev pub Untouched : ValueRegistry R → ValueRegistry R → Type 0
  Untouched v v' = (j : FieldId) → is_writable j ≡ false → Agree j v.state v'.state

  pub Untouched-refl : (v : ValueRegistry R) → Untouched v v
  Untouched-refl v j h = (refl, refl, refl)

  pub Untouched-trans : (u v w : ValueRegistry R) → Untouched u v → Untouched v w → Untouched u w
  Untouched-trans u v w h k j n =
      let (a, b, c) = h j n in let (d, e, f) = k j n in (d ∙ a, e ∙ b, f ∙ c)

  allowed-Untouched :
      (d : Descriptor R) (value : Text) (v : ValueRegistry R)
      → is_writable d.id ≡ true
      → Untouched v (set_parsed d value v).1
  allowed-Untouched d value v w j h = (set_parsed-Kept d value v).others j (writable_ne d.id j w h)

  -- A client's write, whatever its name and its value, changes no field that clients may not write.
  pub set_from_wire-Untouched :
      (name value : Text) (v : ValueRegistry R) → Untouched v (set_from_wire name value true v).1
  set_from_wire-Untouched name value v = elim (Option-cases (find {R = R} name)) [
    | inl e ↦ rw (set_from_wire-unknown name value true v e) (Untouched-refl v)
    | inr (d, e) ↦ elim (Bool-cases d.info.writable) [
      | inl w ↦
          rw (set_from_wire-allowed name value true v d e (ap not w))
            (allowed-Untouched d value v (sym (find-Row name d e).0.writable_right ∙ w))
      | inr w ↦ rw (set_from_wire-blocked name value true v d e (ap not w)) (Untouched-refl v)
    ]
  ]
