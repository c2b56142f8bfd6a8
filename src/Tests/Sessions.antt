-- ===== src/Tests/Sessions.antt =====
-- A server at work, a client that follows it, and a client's poll.
use pypilot_cxx.Prelude.{
  ℕ, ◌-◌, ◌≡◌, refl, ◌⊎◌, true, false, some, List, [], ◌∷◌, ◌++◌, map, replicate, set,
}
use pypilot_cxx.Prelude.Text.{Text, codes}
use pypilot_cxx.Prelude.Int.{ℤ}
use pypilot_cxx.DataModel.{initial}
use pypilot_cxx.EventLoop.{EventLoop}
use pypilot_cxx.Values.Fields.{FieldId, server_running, ap_enabled, ap_heading}
use pypilot_cxx.Values.Writer.{string_writer}
use pypilot_cxx.Values.Access.{ValueRegistry, max_watches, set_bool, mark_dirty, new_registry}
use pypilot_cxx.Values.Lines.{write_value_line_id}
use pypilot_cxx.Values.Lines.Steady.{write_lines}
use pypilot_cxx.Values.Watches.{all_ids, any_of, immediate}
use pypilot_cxx.Values.Due.{emit_due_watches}
use pypilot_cxx.Server.{start, poll}
use pypilot_cxx.Server.Session.{
  here, after, sets_bool, moves, marks, IsServing, reachable-IsServing,
}
use pypilot_cxx.Server.Updates.{handle_lines, chosen, is_shown, poll-Shows}
use pypilot_cxx.Client.Session.{PypilotClient}
use pypilot_cxx.Client.Session
use pypilot_cxx.Client.Polls.{Task, read_lines, other}
use pypilot_cxx.Tests.Sample.{whole_numbers, registry, watch_at}
use pypilot_cxx.Tests.Clients.{keeps_lines}

-- The program sets a field, a control object changes the state, and the heading is marked.
reachable-IsServing_example : IsServing {R = ℤ} (
    mark_dirty ap_heading
      (record (set_bool (codes "ap.enabled") true (start initial (new_registry initial)).values).1 {
        state = initial;
      }))
reachable-IsServing_example = reachable-IsServing {W = Text} initial initial _ (
    after (after (after here (sets_bool (codes "ap.enabled") true)) (moves initial))
      (marks ap_heading))

abbrev requests : List (Text × ℕ)
requests = (codes "watch={\"ap.enabled\":0}", 3) ∷ (codes "ap.enabled=true", 4) ∷ []

poll-Shows_example :
    (v' : ValueRegistry ℤ) × (out' : Text) × (handle_lines requests registry (codes "")
      ≡ some (v', out'))
    × (ids : List FieldId) × (ids ≡ chosen (is_shown v') all_ids)
    × (poll 6 5 v' out'
        ≡ emit_due_watches 6 5
            (record v' { dirty = map (λ _. false) v'.dirty })
            (write_lines v' ids out'))
    × ((any_of (immediate ap_enabled) v'.watches ≡ false)
        ⊎ (((before after : List FieldId) × (ids ≡ before ++ ap_enabled ∷ after))
            ⊎ ((o : Text)
                → write_value_line_id ap_enabled v' o ≡ write_value_line_id ap_enabled registry o)))
poll-Shows_example = poll-Shows requests registry (codes "") 6 5 ap_enabled refl

-- A registry with one watch of every change of `ap.enabled`.
abbrev pub watched : ValueRegistry ℤ
watched = record registry {
  watches =
      watch_at true ap_enabled 0 0
      ∷ replicate (max_watches - 1) (watch_at false server_running 0 0);
}

abbrev pub enabled : ValueRegistry ℤ
enabled = record watched {
  state = record initial { ap = record initial.ap { enabled = true } };
  dirty = set watched.dirty 2 true;
}

-- A loop with the client's callback and a timer of others.
abbrev pub shared_loop : EventLoop (Task Text)
shared_loop = record {
  slots =
      record {
        active = true;
        periodic_poll = true;
        id = 1;
        due_us = 0;
        period_us = 0;
        cb = some read_lines;
      }
      ∷ record {
        active = true;
        periodic_poll = false;
        id = 2;
        due_us = 10;
        period_us = 10;
        cb = some (other (codes "tick"));
      }
      ∷ [];
  next_id = 3;
}

abbrev pub follower : PypilotClient ℤ (Task Text)
follower = Session.start shared_loop initial registry
