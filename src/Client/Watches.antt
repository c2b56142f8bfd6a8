-- ===== src/Client/Watches.antt =====
-- The watches that `PypilotClient` remembers, in src/pypilot/client.cpp: a table of 32 entries whose
-- names are arrays of 64 bytes.
pub mod Remembered
use pypilot_cxx.Prelude.{
  ℕ, ◌-◌, Bool, true, false, not, ◌&&◌, none, some, List, [], ◌∷◌, if◌then◌else◌, take,
}
use pypilot_cxx.Prelude.Text.{Text, text_eq}
use pypilot_cxx.Values.Access.{until_nul}
use pypilot_cxx.Values.Watches.{replace_first}

pub record ClientWatch (R : Type 0) : Type 0 where
  pub active : Bool
  pub name : Text
  pub period_seconds : R

abbrev pub max_client_watches : ℕ
max_client_watches = 32

abbrev pub max_name_size : ℕ
max_name_size = 64

-- `copy_name`: what the array reads as afterwards, up to its NUL.
unfoldable pub copy_name : ℕ → Text → Text
copy_name size src = until_nul (take (size - 1) src)

module _ {R : Type 0} where
  -- `watch.active && name == watch.name`.
  abbrev pub remembers : Text → ClientWatch R → Bool
  remembers name w = w.active && text_eq name w.name

  -- The two loops of `remember_watch`; a table with no free entry stays as it is.
  unfoldable pub remember_watch : Text → R → List (ClientWatch R) → List (ClientWatch R)
  remember_watch name period ws =
      elim (replace_first (remembers name) (λ w. record w { period_seconds = period }) ws) [
        | some ws' ↦ ws'
        | none ↦
            elim (replace_first (λ w. not w.active)
              (λ w. record {
                active = true;
                name = copy_name max_name_size name;
                period_seconds = period;
              })
              ws) [ none ↦ ws | some ws' ↦ ws' ]
      ]

  -- The loop of `unwatch`.
  unfoldable pub forget_watch : Text → List (ClientWatch R) → List (ClientWatch R)
  forget_watch name [] = []
  forget_watch name (w ∷ ws) =
      (if remembers name w then record w { active = false } else w) ∷ forget_watch name ws
