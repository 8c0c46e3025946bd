-- ===== src/Client/Metrics.antt =====
-- apps/rust-shared/src/metrics/mod.rs: the loop that posts how much memory an instance uses. What the cgroup
-- allows and has left is read through sysinfo, a parameter.
pub mod Own
use tzafon_way_point.Prelude.{ℕ, Bool, Option, none, some, List, [], ◌∷◌, sub64}
use tzafon_way_point.Proto.{InstanceId, SystemMetrics, InstanceDescription, default}
use tzafon_way_point.Manager.World.{World}
use tzafon_way_point.Manager.Rpc.{post_instance_description}
use tzafon_way_point.Client.EphemeralProxy.{Delivery, call}

pub record Limits : Type 0 where
  pub total_memory : ℕ
  pub free_memory : ℕ

-- What a round meets: the limits, if there are any, the time, and what becomes of the post.
pub record Round : Type 0 where
  pub cgroup_limits : Option Limits
  pub now : ℕ
  pub delivery : Delivery

unfoldable pub read_stats : Option Limits → ℕ → Option SystemMetrics
read_stats none now = none
read_stats (some limits) now = some (record {
  timestamp_ms = some (record { timestamp_ms = now });
  used_memory_bytes = sub64 limits.total_memory limits.free_memory;
  total_memory_bytes = limits.total_memory;
})

unfoldable pub metrics_request : InstanceId → SystemMetrics → InstanceDescription
metrics_request id stats = record default { instance_id = some id; system_metrics = some stats }

module _ (clock : ℕ → ℕ) (id : InstanceId) where
  -- A failed post is logged only.
  abbrev pub post_stats : Delivery → Option SystemMetrics → World → World
  post_stats delivery none w = w
  post_stats delivery (some stats) w =
      (call delivery (post_instance_description clock (metrics_request id stats)) w).1

  -- The rounds of `start_system_metrics_loop` before the token is cancelled
  unfoldable pub system_metrics_loop : List Round → World → World
  system_metrics_loop [] w = w
  system_metrics_loop (r ∷ rounds) w =
      system_metrics_loop rounds (post_stats r.delivery (read_stats r.cgroup_limits r.now) w)
