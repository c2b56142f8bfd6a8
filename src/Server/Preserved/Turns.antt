-- ===== src/Server/Preserved/Turns.antt =====
-- A turn of the watch loop keeps every relation that the registry's operations keep.
use pypilot_cxx.Prelude.{ℕ, Bool, true, false, Option, none, some, List, if◌then◌else◌}
use pypilot_cxx.Prelude.Text.{Text, text_eq, codes}
use pypilot_cxx.Float.{Float}
use pypilot_cxx.Values.Fields.{FieldId, Descriptor, find}
use pypilot_cxx.Values.Writer.{ValueWriter}
use pypilot_cxx.Values.Lines.{write_value_line_id}
use pypilot_cxx.Values.Access.{Watch, ValueRegistry}
use pypilot_cxx.Values.Watches.{put_watch, put_watches, watch, take_watch, unwatch}
use pypilot_cxx.Server.{
  set_from_wire, Entry, finished, comma, malformed, item, Reply, Turn, go_on, return, fail,
  parse_period, add_watch, list_values, handle_item, take_turn,
}

module _ {R : Type 0} ⦃fl : Float R⦄ where
  -- What holds of the registry with any table of watches holds after `put_watches`.
  pub put_watches-of :
      (P : ValueRegistry R → Type 0) (id : FieldId) (period : R) (now : ℕ) (v : ValueRegistry R)
      → ((ws : List (Watch R)) → P (record v { watches = ws }))
      → P (put_watches id period now v).1
  unfolding put_watches
  put_watches-of P id period now v h = go (put_watch id period now v.watches)
    where
      go :
          (o : Option (List (Watch R)))
          → P
              (elim o as (λ _. Bool × ValueRegistry R) [
                | none ↦ (false, v)
                | some ws ↦ (true, record v { watches = ws })
              ]).1
      go none = h v.watches
      go (some ws) = h ws

  -- A relation between a registry and a later one that each of the server's actions keeps.
  pub record IsKept (Rel : ValueRegistry R → ValueRegistry R → Type 0) : Type 0 where
    pub refl_at : (v : ValueRegistry R) → Rel v v
    pub chain : (u v w : ValueRegistry R) → Rel u v → Rel v w → Rel u w
    pub puts :
        (id : FieldId) (period : R) (now : ℕ) (v : ValueRegistry R)
        → Rel v (put_watches id period now v).1
    pub takes :
        (id : FieldId) (v : ValueRegistry R)
        → Rel v (record v { watches = take_watch id v.watches })
    pub sets : (name value : Text) (v : ValueRegistry R) → Rel v (set_from_wire name value true v).1

module _ {R : Type 0} ⦃fl : Float R⦄ (Rel : ValueRegistry R → ValueRegistry R → Type 0)
    (kept : IsKept Rel) where
  unwatch-kept : (name : Text) (v : ValueRegistry R) → Rel v (unwatch name v).1
  unfolding unwatch
  unwatch-kept name v = go (find {R = R} name)
    where
      go :
          (o : Option (Descriptor R))
          → Rel v
              (elim o as (λ _. Bool × ValueRegistry R) [
                | none ↦ (false, v)
                | some d ↦ (true, record v { watches = take_watch d.id v.watches })
              ]).1
      go none = kept.refl_at v
      go (some d) = kept.takes d.id v

module _ {R W : Type 0} ⦃fl : Float R⦄ ⦃writer : ValueWriter W⦄
    (Rel : ValueRegistry R → ValueRegistry R → Type 0) (kept : IsKept Rel) where
  -- A result that leaves the read-only fields of `v` as they were.
  abbrev pub KeptReply : ValueRegistry R → Reply R W → Type 0
  KeptReply v r = Rel v r.1

  abbrev pub KeptTurn : ValueRegistry R → Turn R W → Type 0
  KeptTurn v (go_on v' out) = Rel v v'
  KeptTurn v (return r) = KeptReply v r

  watch-kept :
      (name : Text) (period : R) (now : ℕ) (v : ValueRegistry R) (out : W)
      → Rel v (watch name period now v out).1
  unfolding watch
  watch-kept name period now v out = go (find {R = R} name)
    where
      go :
          (o : Option (Descriptor R))
          → Rel v
              (elim o as (λ _. Reply R W) [
                | none ↦ (false, v, out)
                | some d ↦
                    let (done, v') = put_watches d.id period now v in
                    (done, v', (write_value_line_id d.id v out).1)
              ]).1
      go none = kept.refl_at v
      go (some d) = kept.puts d.id period now v

  turn-if :
      (v : ValueRegistry R) (b : Bool) (s t : Turn R W)
      → KeptTurn v s
      → KeptTurn v t
      → KeptTurn v (if b then s else t)
  turn-if v true s t h k = h
  turn-if v false s t h k = k

  add_watch-kept :
      (key : Text) (period : R) (now : ℕ) (v : ValueRegistry R) (out : W)
      → KeptTurn v (add_watch key period now v out)
  unfolding add_watch
  add_watch-kept key period now v out =
      let (done, v', out') = watch key period now v out in
      turn-if v done (go_on v' out') (return (fail (codes "invalid unknown value") v' out'))
        (watch-kept key period now v out) (watch-kept key period now v out)

  list_values-kept : (v : ValueRegistry R) (out : W) → KeptTurn v (list_values v out)
  unfolding list_values
  list_values-kept v out =
      turn-if v _ (go_on v _) (return (false, v, _)) (kept.refl_at v) (kept.refl_at v)

  handle_item-kept :
      (key value : Text) (now : ℕ) (v : ValueRegistry R) (out : W)
      → KeptTurn v (handle_item key value now v out)
  unfolding handle_item
  handle_item-kept key value now v out =
      turn-if v (text_eq key (codes "values")) _ _
        (turn-if v (text_eq value (codes "false")) _ _ (kept.refl_at v) (list_values-kept v out))
        (turn-if v (text_eq value (codes "false")) _ _ (unwatch-kept Rel kept key v)
          (go (parse_period value)))
    where
      go :
          (o : Option R)
          → KeptTurn v (elim o [
            | none ↦ return (fail (codes "invalid watch period") v out)
            | some period ↦ add_watch key period now v out
          ])
      go none = kept.refl_at v
      go (some period) = add_watch-kept key period now v out

  pub take_turn-kept :
      (entry : Entry) (now : ℕ) (v : ValueRegistry R) (out : W)
      → KeptTurn v (take_turn entry now v out)
  unfolding take_turn
  take_turn-kept finished now v out = kept.refl_at v
  take_turn-kept (comma rest) now v out = kept.refl_at v
  take_turn-kept (malformed message) now v out = kept.refl_at v
  take_turn-kept (item key value rest) now v out = handle_item-kept key value now v out
