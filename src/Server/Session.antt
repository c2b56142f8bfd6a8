-- ===== src/Server/Session.antt =====
-- The life of a server's registry: requests, polls, the program's own writes and the control objects
-- that change the state without the registry, in any order.
use pypilot_cxx.Prelude.{ℕ, ◌≡◌, refl, ◌∙◌, Bool, true, some, List, arith, length, length-set}
use pypilot_cxx.Prelude.Text.{Text, codes}
use pypilot_cxx.Float.{Float}
use pypilot_cxx.DataModel.{DataModel}
use pypilot_cxx.Values.Fields.{FieldId, field_count}
use pypilot_cxx.Values.Writer.{ValueWriter}
use pypilot_cxx.Values.Access.{
  Watch, ValueRegistry, attach, new_registry, mark_dirty, set_real, set_bool, set_string,
}
use pypilot_cxx.Values.Access.Stored.{
  Stored, left, put, set_real-Stored, set_bool-Stored, set_string-Stored,
}
use pypilot_cxx.Values.Access.Frame.{set_from_wire-Stored}
use pypilot_cxx.Values.Watches.{emit_changed_watches}
use pypilot_cxx.Values.Watches.Table.{IsTable, put_watches-IsTable}
use pypilot_cxx.Values.Watches.Removed.{take_watch-IsTable}
use pypilot_cxx.Values.Watches.Changed.{length-map-false, emit_changed_watches-lines}
use pypilot_cxx.Values.Due.Entries.{emit_due_watches-IsTable}
use pypilot_cxx.Server.{Reply, start, handle_line, poll}
use pypilot_cxx.Server.Preserved.{handle_line-Kept}
use pypilot_cxx.Server.Preserved.Turns.{IsKept, put_watches-of}
use pypilot_cxx.Server.Marks.{mark_dirty-eq}

module _ {R : Type 0} (W : Type 0) ⦃fl : Float R⦄ ⦃writer : ValueWriter W⦄ where
  pub data Step : ValueRegistry R → ValueRegistry R → Type 0 where
    asks :
        {v : ValueRegistry R} (line : Text) (now_us : ℕ) (out : W) (r : Reply R W)
        → handle_line line now_us v out ≡ some r
        → Step v r.1
    polls :
        {v : ValueRegistry R} (fuel now_us : ℕ) (out : W) (v' : ValueRegistry R) (out' : W)
        → poll fuel now_us v out ≡ some (v', out')
        → Step v v'
    moves : {v : ValueRegistry R} (s : DataModel R) → Step v (record v { state = s })
    sets_real : {v : ValueRegistry R} (name : Text) (x : R) → Step v (set_real name x v).1
    sets_bool : {v : ValueRegistry R} (name : Text) (b : Bool) → Step v (set_bool name b v).1
    sets_string : {v : ValueRegistry R} (name t : Text) → Step v (set_string name t v).1
    marks : {v : ValueRegistry R} (id : FieldId) → Step v (mark_dirty id v)

  pub data Reaches (v : ValueRegistry R) : ValueRegistry R → Type 0 where
    here : Reaches v v
    after : {u w : ValueRegistry R} → Reaches v u → Step u w → Reaches v w

module _ {R : Type 0} ⦃fl : Float R⦄ where
  -- The registry of a server at work.
  pub record IsServing (v : ValueRegistry R) : Type 0 where
    pub table : IsTable v.watches
    pub a_mark_each : length v.dirty ≡ field_count
    pub on : v.attached ≡ true

  abbrev Keeps : ValueRegistry R → ValueRegistry R → Type 0
  Keeps v v' = IsServing v → IsServing v'

  mark_dirty-IsServing : (id : FieldId) (v : ValueRegistry R) → Keeps v (mark_dirty id v)
  mark_dirty-IsServing id v h = rw (mark_dirty-eq id v) (record {
    table = h.table;
    a_mark_each = length-set v.dirty _ true ∙ h.a_mark_each;
    on = h.on;
  })

  moved-IsServing : (s : DataModel R) (v : ValueRegistry R) → Keeps v (record v { state = s })
  moved-IsServing s v h = record { table = h.table; a_mark_each = h.a_mark_each; on = h.on }

  Stored-IsServing : {id : FieldId} {v v' : ValueRegistry R} → Stored id v v' → Keeps v v'
  Stored-IsServing left h = h
  Stored-IsServing (put s same) h = mark_dirty-IsServing _ _ (moved-IsServing s _ h)

  watched-IsServing :
      (v : ValueRegistry R) (ws : List (Watch R)) → IsTable ws → Keeps v (record v { watches = ws })
  watched-IsServing v ws t h = record { table = t; a_mark_each = h.a_mark_each; on = h.on }

  Keeps-IsKept : IsKept {R = R} Keeps
  Keeps-IsKept = record {
    refl_at = λ v h. h;
    chain = λ u v w f g h. g (f h);
    puts = λ id period now v h.
        rw
          (put_watches-of (λ v'. v' ≡ record v { watches = v'.watches }) id period now v
            (λ ws. refl))
          (watched-IsServing v _ (put_watches-IsTable id period now v h.table) h);
    takes = λ id v h. watched-IsServing v _ (take_watch-IsTable id v.watches h.table) h;
    sets = λ name value v. Stored-IsServing (set_from_wire-Stored name value true v).1;
  }

  new_registry-IsServing :
      (state other : DataModel R) → IsServing (attach state (new_registry other))
  unfolding attach new_registry
  new_registry-IsServing state other = record {
    table = record { single = λ j. omega arith; sized = refl };
    a_mark_each = refl;
    on = refl;
  }

  start-IsServing :
      (state other : DataModel R) → IsServing (start state (new_registry other)).values
  unfolding start
  start-IsServing state other =
      let attached =
        new_registry-IsServing (record state { server = record state.server { running = true } })
          other in
      let flagged = Stored-IsServing (set_bool-Stored (codes "server.running") true _).1 attached in
      Stored-IsServing (set_real-Stored (codes "server.port") (fl.of_nat state.server.port) _).1
        flagged

module _ {R W : Type 0} ⦃fl : Float R⦄ ⦃writer : ValueWriter W⦄ where
  emit_changed_watches-IsServing :
      (v : ValueRegistry R) (out : W) → Keeps v (emit_changed_watches v out).0
  emit_changed_watches-IsServing v out h =
      let (written, cleared, again) = emit_changed_watches-lines v out out h.a_mark_each in
      rw cleared (record {
        table = h.table;
        a_mark_each = length-map-false v.dirty ∙ h.a_mark_each;
        on = h.on;
      })

  poll-IsServing :
      (fuel now_us : ℕ) (v v' : ValueRegistry R) (out out' : W)
      → poll fuel now_us v out ≡ some (v', out')
      → Keeps v v'
  unfolding poll
  poll-IsServing fuel now_us v v' out out' e h =
      let (u, out'') = emit_changed_watches v out in
      let k = emit_changed_watches-IsServing v out h in
      let (same, table) = emit_due_watches-IsTable fuel now_us u v' out'' out' e k.table in
      rw same (watched-IsServing u v'.watches table k)

  Step-IsServing : {v v' : ValueRegistry R} → Step W v v' → Keeps v v'
  Step-IsServing (asks line now_us out r e) =
      handle_line-Kept Keeps Keeps-IsKept line now_us _ out r e
  Step-IsServing (polls fuel now_us out v' out' e) = poll-IsServing fuel now_us _ v' out out' e
  Step-IsServing (moves s) = moved-IsServing s _
  Step-IsServing (sets_real name x) = Stored-IsServing (set_real-Stored name x _).1
  Step-IsServing (sets_bool name b) = Stored-IsServing (set_bool-Stored name b _).1
  Step-IsServing (sets_string name t) = Stored-IsServing (set_string-Stored name t _).1
  Step-IsServing (marks id) = mark_dirty-IsServing id _

  Reaches-IsServing : {v v' : ValueRegistry R} → Reaches W v v' → Keeps v v'
  Reaches-IsServing here h = h
  Reaches-IsServing (after steps step) h = Step-IsServing step (Reaches-IsServing steps h)

  -- A server is started on a new registry. After any requests, polls, writes of the program and
  -- changes of the state behind the registry, in any order, each field has a mark, no field has two
  -- active watches, the table of watches has its size, and the registry is attached.
  pub reachable-IsServing :
      (state other : DataModel R) (v : ValueRegistry R)
      → Reaches W (start state (new_registry other)).values v
      → IsServing v
  reachable-IsServing state other v steps = Reaches-IsServing steps (start-IsServing state other)
