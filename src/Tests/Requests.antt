-- ===== src/Tests/Requests.antt =====
-- Lines of clients.
use pypilot_cxx.Values.Writer.{string_writer}
use pypilot_cxx.Values.Fields.{ap_heading, fields, find_in, find}
use pypilot_cxx.Prelude.{◌≡◌, refl, true, some}
use pypilot_cxx.Prelude.Text.{Text, codes, split_at, text_eq}
use pypilot_cxx.Prelude.Int.{ℤ}
use pypilot_cxx.Tests.Sample.{whole_numbers, registry}
use pypilot_cxx.Values.Access.Stored.{Agree}
use pypilot_cxx.Trim.{trim_view, trim_back, trim_front, is_space}
use pypilot_cxx.Values.Access.{set_from_wire}
use pypilot_cxx.Server.{handle_request, handle_assignment, error, Reply, handle_line}
use pypilot_cxx.Server.Total.{handle_line-Returns}
use pypilot_cxx.Server.Safety.{handle_line-Agree}

handle_line-Returns_example :
    (r : Reply ℤ Text) × (handle_line
        (codes "watch={\"ap.heading\":0.5,\"values\":true}")
        3
        registry
        (codes "")
      ≡ some r)
handle_line-Returns_example =
    handle_line-Returns (codes "watch={\"ap.heading\":0.5,\"values\":true}") 3 registry (codes "")

abbrev refusal : Reply ℤ Text
refusal = (true, registry, codes "error=invalid set\n")

-- A client cannot set the heading.
heading_refused : handle_line (codes "ap.heading=90") 3 registry (codes "") ≡ some refusal
unfolding handle_line trim_view trim_back trim_front codes is_space split_at handle_request text_eq
    handle_assignment set_from_wire find find_in fields error
heading_refused = refl

handle_line-Agree_example : Agree ap_heading registry.state refusal.1.state
handle_line-Agree_example =
    handle_line-Agree (codes "ap.heading=90") 3 registry (codes "") refusal ap_heading
      heading_refused refl
