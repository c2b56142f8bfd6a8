-- ===== src/Server/Marks.antt =====
-- The marks of changed fields: what the server's actions change in the state, they mark.
use pypilot_cxx.Prelude.{
  ℕ, ◌<◌, ◌≡◌, refl, sym, ap, ◌∙◌, ◌≢◌, ◌⊎◌, inl, inr, Bool, true, false, Option, none, some, List,
  arith, ◌==◌, if◌then◌else◌, lt→ltb, ==_iff, Bool-cases, length, get_elem?, set, length-set,
  get_elem?-set_self, get_elem?-set_ne,
}
use pypilot_cxx.Prelude.Text.{Text}
use pypilot_cxx.Float.{Float}
use pypilot_cxx.DataModel.{DataModel}
use pypilot_cxx.Values.Watches.{take_watch}
use pypilot_cxx.Values.Fields.{server_running, FieldId, index, field_count}
use pypilot_cxx.Values.Access.{Watch, ValueRegistry, mark_dirty, set_from_wire}
use pypilot_cxx.Values.Access.Stored.{Agree, Stored, left, put}
use pypilot_cxx.Values.Access.Frame.{set_from_wire-Stored}
use pypilot_cxx.Server.Preserved.Turns.{IsKept, put_watches-of}

abbrev pub read_mark : Option Bool → Bool
read_mark none = false
read_mark (some mark) = mark

module _ {R : Type 0} where
  abbrev pub is_marked : FieldId → ValueRegistry R → Bool
  is_marked j v = read_mark (get_elem? v.dirty (index j))

index_bound : (id : FieldId) → index id < field_count
index_bound server_running = omega arith
index_bound _ = omega arith

module _ {R : Type 0} ⦃fl : Float R⦄ where
  -- A field that is marked afterwards, or else reads as before and had no mark either.
  abbrev pub Accounted : FieldId → ValueRegistry R → ValueRegistry R → Type 0
  Accounted j v v' =
      (is_marked j v' ≡ true) ⊎ (Agree j v.state v'.state × (is_marked j v' ≡ is_marked j v))

  -- What a later registry keeps of an earlier one that has a mark per field.
  pub record Follows (v v' : ValueRegistry R) : Type 0 where
    pub same_attached : v'.attached ≡ v.attached
    pub same_size : length v'.dirty ≡ length v.dirty
    pub accounted : (j : FieldId) → length v.dirty ≡ field_count → Accounted j v v'

  Follows-refl : (v : ValueRegistry R) → Follows v v
  Follows-refl v = record {
    same_attached = refl;
    same_size = refl;
    accounted = λ j h. inr ((refl, refl, refl), refl);
  }

  Accounted-trans :
      (j : FieldId) (u v w : ValueRegistry R) → Accounted j u v → Accounted j v w → Accounted j u w
  Accounted-trans j u v w a (inl marked) = inl marked
  Accounted-trans j u v w (inl marked) (inr (same, kept)) = inl (kept ∙ marked)
  Accounted-trans j u v w (inr ((a, b, c), h)) (inr ((d, e, f), k)) =
      inr ((d ∙ a, e ∙ b, f ∙ c), k ∙ h)

  Follows-trans : (u v w : ValueRegistry R) → Follows u v → Follows v w → Follows u w
  Follows-trans u v w h k = record {
    same_attached = k.same_attached ∙ h.same_attached;
    same_size = k.same_size ∙ h.same_size;
    accounted = λ j e. Accounted-trans j u v w (h.accounted j e) (k.accounted j (h.same_size ∙ e));
  }

  watches-Follows :
      (v : ValueRegistry R) (ws : List (Watch R)) → Follows v (record v { watches = ws })
  watches-Follows v ws = record {
    same_attached = refl;
    same_size = refl;
    accounted = λ j h. inr ((refl, refl, refl), refl);
  }

  pub mark_dirty-eq :
      (id : FieldId) (v : ValueRegistry R)
      → mark_dirty id v ≡ record v { dirty = set v.dirty (index id) true }
  unfolding mark_dirty
  mark_dirty-eq id v =
      ap (λ (b : Bool). if b then record v { dirty = set v.dirty (index id) true } else v)
        (lt→ltb _ _ (index_bound id))

  -- A write that is marked accounts for every field.
  put-Accounted :
      (id j : FieldId) (s : DataModel R) (v : ValueRegistry R)
      → ((k : FieldId) → id ≢ k → Agree k v.state s)
      → length v.dirty ≡ field_count
      → Accounted j v (record v { state = s; dirty = set v.dirty (index id) true })
  put-Accounted id j s v h sized = elim (Bool-cases (index id == index j)) [
    | inl same ↦
        let e = (==_iff (index id) (index j)).0 same in
        let within : index id < length v.dirty = omega (arith, sized, index_bound id) in
        let marked = get_elem?-set_self v.dirty (index id) true within in
        inl (
          ap (λ (i : ℕ). read_mark (get_elem? (set v.dirty (index id) true) i)) (sym e)
          ∙ ap read_mark marked)
    | inr other ↦
        let apart : index id ≢ index j = λ e. ground (arith, e) in
        inr (h j (λ e. apart (ap index e)), ap read_mark (get_elem?-set_ne v.dirty true apart))
  ]

  pub Stored-Follows : (id : FieldId) (v v' : ValueRegistry R) → Stored id v v' → Follows v v'
  Stored-Follows id v _ left = Follows-refl v
  Stored-Follows id v _ (put s h) = rw (mark_dirty-eq id (record v { state = s })) (record {
    same_attached = refl;
    same_size = length-set v.dirty (index id) true;
    accounted = λ j. put-Accounted id j s v h;
  })

  set_from_wire-Follows :
      (name value : Text) (v : ValueRegistry R) → Follows v (set_from_wire name value true v).1
  set_from_wire-Follows name value v =
      let (id, stored) = set_from_wire-Stored name value true v in Stored-Follows id v _ stored

  pub Follows-IsKept : IsKept {R = R} Follows
  Follows-IsKept = record {
    refl_at = Follows-refl;
    chain = Follows-trans;
    puts = λ id period now v. put_watches-of (Follows v) id period now v (watches-Follows v);
    takes = λ id v. watches-Follows v (take_watch id v.watches);
    sets = set_from_wire-Follows;
  }
