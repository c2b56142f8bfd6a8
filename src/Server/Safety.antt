-- ===== src/Server/Safety.antt =====
-- What clients can do to the data model: nothing to the fields that are not writable.
use pypilot_cxx.Prelude.{ℕ, ◌≡◌, refl, false, some}
use pypilot_cxx.Prelude.Text.{Text}
use pypilot_cxx.Float.{Float}
use pypilot_cxx.Values.Fields.{FieldId}
use pypilot_cxx.Values.Writer.{ValueWriter}
use pypilot_cxx.Values.Access.{ValueRegistry}
use pypilot_cxx.Values.Rows.{is_writable}
use pypilot_cxx.Values.Access.Stored.{Agree}
use pypilot_cxx.Values.Access.Frame.{
  Untouched, Untouched-refl, Untouched-trans, set_from_wire-Untouched,
}
use pypilot_cxx.Server.{Reply, handle_line}
use pypilot_cxx.Server.Preserved.{handle_line-Kept}
use pypilot_cxx.Server.Preserved.Turns.{IsKept, put_watches-of}

module _ {R : Type 0} ⦃fl : Float R⦄ where
  Untouched-IsKept : IsKept {R = R} Untouched
  Untouched-IsKept = record {
    refl_at = Untouched-refl;
    chain = Untouched-trans;
    puts = λ id period now v.
        put_watches-of (Untouched v) id period now v (λ ws j h. (refl, refl, refl));
    takes = λ id v j h. (refl, refl, refl);
    sets = set_from_wire-Untouched;
  }

module _ {R W : Type 0} ⦃fl : Float R⦄ ⦃writer : ValueWriter W⦄ where
  -- Where a line of a client, whatever its bytes, is handled to an end, every field of the data model
  -- that is not writable reads as before, whichever of the three ways it is read.
  pub handle_line-Agree :
      (line : Text) (now : ℕ) (v : ValueRegistry R) (out : W) (r : Reply R W) (j : FieldId)
      → handle_line line now v out ≡ some r
      → is_writable j ≡ false
      → Agree j v.state r.1.state
  handle_line-Agree line now v out r j e n =
      handle_line-Kept Untouched Untouched-IsKept line now v out r e j n
