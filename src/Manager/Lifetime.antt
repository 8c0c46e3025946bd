-- ===== src/Manager/Lifetime.antt =====
-- The life of the service of apps/rust-instance-manager: requests and rounds of the kill loop, one
-- after the other, from the empty state of `Service::new`.
pub mod Safety
pub mod Forever
pub mod Stamps
pub mod Interleaved
use tzafon_way_point.Prelude.{ℕ, List, [], ◌∷◌}
use tzafon_way_point.Proto.{InstanceId, InstanceDescription, AllInstancesQuery}
use tzafon_way_point.Manager.World.{World, new}
use tzafon_way_point.Manager.Rpc.{
  try_add_instance, try_update_instance_description, post_instance_description, get_all_instances,
  get_instance,
}
use tzafon_way_point.Manager.KillLoop.{kill_unhealth_instances}

-- What may happen to the service next.
pub data Event : Type 0 where
  add update post : InstanceDescription → Event
  list_all : AllInstancesQuery → Event
  describe : InstanceId → Event
  kill_round : Event

unfoldable pub serve : (ℕ → ℕ) → World → Event → World
serve clock w (add r) = (try_add_instance clock r w).1
serve clock w (update r) = (try_update_instance_description clock r w).1
serve clock w (post r) = (post_instance_description clock r w).1
serve clock w (list_all q) = (get_all_instances q w).1
serve clock w (describe id) = (get_instance id w).1
serve clock w kill_round = kill_unhealth_instances clock w

-- The states that the service can come to.
pub data Reachable (clock : ℕ → ℕ) : World → Type 0 where
  started : Reachable clock new
  served : {w : World} → Reachable clock w → (e : Event) → Reachable clock (serve clock w e)

unfoldable pub serve_all : (ℕ → ℕ) → World → List Event → World
serve_all clock w [] = w
serve_all clock w (e ∷ es) = serve_all clock (serve clock w e) es
