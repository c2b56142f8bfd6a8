-- ===== src/Server/Preserved.antt =====
-- Relations between registries that the handling of any line keeps.
pub mod Turns
use pypilot_cxx.Prelude.{
  ℕ, zero, suc, ◌≡◌, Bool, true, false, not, ◌||◌, Option, none, some, ltb, if◌then◌else◌, length,
  set,
}
use pypilot_cxx.Prelude.Text.{
  Text, split_at, is_empty, starts_with, ends_with, tail, init, text_eq, codes,
}
use pypilot_cxx.Trim.{trim_view}
use mathlib.Core.Path.{subst}
use pypilot_cxx.Float.{Float}
use pypilot_cxx.Values.Writer.{ValueWriter}
use pypilot_cxx.Values.Access.{ValueRegistry, set_from_wire}
use pypilot_cxx.Server.{
  rest_of, next_entry, Reply, Turn, go_on, return, fail, take_turn, watch_loop, handle_watch,
  handle_assignment, handle_request, handle_line,
}
use pypilot_cxx.Server.Preserved.Turns.{IsKept, KeptReply, KeptTurn, take_turn-kept}

module _ {R W : Type 0} ⦃fl : Float R⦄ ⦃writer : ValueWriter W⦄
    (Rel : ValueRegistry R → ValueRegistry R → Type 0) (kept : IsKept Rel) where
  abbrev KeptResult : ValueRegistry R → Option (Reply R W) → Type 0
  KeptResult v none = Unit
  KeptResult v (some r) = KeptReply Rel kept v r

  KeptResult-trans :
      (v v' : ValueRegistry R) (o : Option (Reply R W))
      → Rel v v'
      → KeptResult v' o
      → KeptResult v o
  KeptResult-trans v v' none h k = tt
  KeptResult-trans v v' (some r) h k = kept.chain v v' r.1 h k

  watch_loop-kept :
      (fuel now : ℕ) (expression : Text) (v : ValueRegistry R) (out : W)
      → KeptResult v (watch_loop fuel now expression v out)
  unfolding watch_loop
  watch_loop-kept zero now expression v out = tt
  watch_loop-kept (suc fuel) now expression v out =
      go (take_turn (next_entry expression) now v out)
        (take_turn-kept Rel kept (next_entry expression) now v out)
        (watch_loop-kept fuel now (rest_of (next_entry expression)))
    where
      go :
          (t : Turn R W)
          → KeptTurn Rel kept v t
          → ((v' : ValueRegistry R) (out' : W)
              → KeptResult v' (watch_loop fuel now (rest_of (next_entry expression)) v' out'))
          → KeptResult v (elim t [
            | return reply ↦ some reply
            | go_on v' out' ↦ watch_loop fuel now (rest_of (next_entry expression)) v' out'
          ])
      go (return reply) h ih = h
      go (go_on v' out') h ih = KeptResult-trans v v' _ h (ih v' out')

  result-if :
      (v : ValueRegistry R) (b : Bool) (s t : Option (Reply R W))
      → KeptResult v s
      → KeptResult v t
      → KeptResult v (if b then s else t)
  result-if v true s t h k = h
  result-if v false s t h k = k

  handle_watch-kept :
      (expression : Text) (now : ℕ) (v : ValueRegistry R) (out : W)
      → KeptResult v (handle_watch expression now v out)
  unfolding handle_watch
  handle_watch-kept expression now v out =
      let trimmed = trim_view expression in
      result-if v
        (ltb (length trimmed) 2 || not (starts_with b'{' trimmed) || not (ends_with b'}' trimmed))
        (some (fail (codes "invalid watch request") v out)) _ (kept.refl_at v)
        (watch_loop-kept (suc (length trimmed)) now (init (tail trimmed)) v out)

  reply-if :
      (v : ValueRegistry R) (b : Bool) (s t : Reply R W)
      → KeptReply Rel kept v s
      → KeptReply Rel kept v t
      → KeptReply Rel kept v (if b then s else t)
  reply-if v true s t h k = h
  reply-if v false s t h k = k

  handle_assignment-kept :
      (name value : Text) (v : ValueRegistry R) (out : W)
      → KeptReply Rel kept v (handle_assignment name value v out)
  unfolding handle_assignment
  handle_assignment-kept name value v out =
      let (done, v') = set_from_wire name value true v in
      reply-if v done (true, v', out) (fail (codes "invalid set") v' out) (kept.sets name value v)
        (kept.sets name value v)

  handle_request-kept :
      (name value : Text) (now : ℕ) (v : ValueRegistry R) (out : W)
      → KeptResult v (handle_request name value now v out)
  unfolding handle_request
  handle_request-kept name value now v out =
      result-if v (text_eq name (codes "watch")) (handle_watch value now v out) _
        (handle_watch-kept value now v out)
        (result-if v (text_eq name (codes "values"))
          (some (fail (codes "remote value registration not implemented") v out)) _ (kept.refl_at v)
          (result-if v (text_eq name (codes "udp_port")) (some (true, v, out))
            (some (handle_assignment name value v out)) (kept.refl_at v)
            (handle_assignment-kept name value v out)))

  handle_line-kept :
      (line : Text) (now : ℕ) (v : ValueRegistry R) (out : W)
      → KeptResult v (handle_line line now v out)
  unfolding handle_line
  handle_line-kept line now v out =
      result-if v (is_empty (trim_view line)) (some (true, v, out)) _ (kept.refl_at v)
        (go (split_at b'=' (trim_view line)))
    where
      go :
          (o : Option (Text × Text))
          → KeptResult v (elim o [
            | none ↦ some (fail (codes "invalid request: missing '='") v out)
            | some (name, value) ↦ handle_request (trim_view name) (trim_view value) now v out
          ])
      go none = kept.refl_at v
      go (some (name, value)) = handle_request-kept (trim_view name) (trim_view value) now v out

  -- What the server's actions keep, the handling of a line keeps.
  pub handle_line-Kept :
      (line : Text) (now : ℕ) (v : ValueRegistry R) (out : W) (r : Reply R W)
      → handle_line line now v out ≡ some r
      → Rel v r.1
  handle_line-Kept line now v out r e = subst (KeptResult v) e (handle_line-kept line now v out)
