-- ===== src/Tests/Client.antt =====
-- The theorems on registering and on the heart beat, for a manager that is away for four beats; and
-- those on what is measured.
use tzafon_way_point.Prelude.{none, some}
use tzafon_way_point.Proto.{SystemMetrics}
use tzafon_way_point.Manager.Rpc.{post_instance_description}
use tzafon_way_point.Manager.Rpc.Metrics.{Posted, post_instance_description-Posted}
use tzafon_way_point.Client.EphemeralProxy.{answered}
use tzafon_way_point.Client.Metrics.{Round, metrics_request}
use tzafon_way_point.Proto.{chrome_browser}
use tzafon_way_point.Manager.Rpc.{try_add_instance}
use tzafon_way_point.Manager.Lifetime.Safety.{Reachable-IsValid}
use tzafon_way_point.Client.HeartBeat.{registration}
use tzafon_way_point.Client.HeartBeat.Joining.{Joined, try_add_instance-Joined}
use tzafon_way_point.Tests.Worlds.{clock, b_id, both, both-Reachable}
use tzafon_way_point.Prelude.{◌≡◌, ◌↔◌, true, List, [], ◌∷◌}
use tzafon_way_point.Prelude.Status.{Result, ok, err, internal}
use tzafon_way_point.Client.HeartBeat.{heart_beat_loop, beating, unhealthy}
use tzafon_way_point.Client.HeartBeat.Patience.{uncancelled, GivesUp, heart_beat_loop-GivesUp}
use tzafon_way_point.Prelude.{Bool}

abbrev away : Result Bool
away = err (internal "unavailable")

abbrev answers : List (Result Bool)
answers = ok true ∷ away ∷ away ∷ away ∷ away ∷ []

heart_beat_loop-GivesUp_example :
    (heart_beat_loop (uncancelled answers) (beating 0) ≡ unhealthy) ↔ GivesUp answers
heart_beat_loop-GivesUp_example = heart_beat_loop-GivesUp answers

try_add_instance-Joined_example :
    Joined b_id chrome_browser both
      (try_add_instance clock (registration b_id chrome_browser none) both)
try_add_instance-Joined_example =
    try_add_instance-Joined clock b_id chrome_browser none both (Reachable-IsValid both-Reachable)

abbrev memory : SystemMetrics
memory = record { timestamp_ms = none; used_memory_bytes = 600; total_memory_bytes = 1_000 }

post_instance_description-Posted_example :
    Posted
      (metrics_request b_id memory)
      both
      (post_instance_description clock (metrics_request b_id memory) both)
post_instance_description-Posted_example =
    post_instance_description-Posted clock (metrics_request b_id memory) both
      (Reachable-IsValid both-Reachable)

abbrev measuring : List Round
measuring =
    record {
      cgroup_limits = some (record { total_memory = 1_000; free_memory = 400 });
      now = 25_000;
      delivery = answered;
    }
    ∷ record { cgroup_limits = none; now = 30_000; delivery = answered }
    ∷ []
