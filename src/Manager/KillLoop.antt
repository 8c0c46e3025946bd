-- ===== src/Manager/KillLoop.antt =====
-- apps/rust-instance-manager/src/service.rs: `get_unhealth_instances`, `kill_unhealth_instances` and
-- the rounds of `start_kill_loop`.
pub mod Round
pub mod Blame
pub mod Requests
pub mod Descent
pub mod Single
pub mod Exactly
use tzafon_way_point.Prelude.{ℕ, zero, suc, Option, none, some, List, [], ◌∷◌}
use tzafon_way_point.Proto.{KillReason, reason_code, InstanceId, InstanceDescription, default}
use tzafon_way_point.Dict.{Dict, values}
use tzafon_way_point.Manager.World.{World}
use tzafon_way_point.Manager.Apply.{apply_to_instance_description}
use tzafon_way_point.Manager.Health.{unhealth_instance}

-- The request that ends an instance for a reason.
abbrev pub kill_request : Option InstanceId → KillReason → ℕ → InstanceDescription
kill_request id reason now = record default {
  instance_id = id;
  kill_instance_request = some (record {
    timestamp_ms = some (record { timestamp_ms = now });
    kill_reason = reason_code reason;
  });
}

unfoldable pub unhealth_requests : ℕ → List InstanceDescription → List InstanceDescription
unhealth_requests now [] = []
unhealth_requests now (d ∷ ds) =
    let rest = unhealth_requests now ds in
    elim d.kill_instance_request [
      | some _ ↦ rest
      | none ↦ elim (unhealth_instance d now) [
        | none ↦ rest
        | some reason ↦ kill_request d.instance_id reason now ∷ rest
      ]
    ]

-- The time `now` is read before the lock is taken: what other requests stored in between may be
-- later than it.
unfoldable pub get_unhealth_instances : ℕ → Dict InstanceDescription → List InstanceDescription
get_unhealth_instances now m = unhealth_requests now (values m)

module _ (clock : ℕ → ℕ) where
  -- Each request is applied on its own; its result is only logged.
  unfoldable pub kill_each : List InstanceDescription → World → World
  kill_each [] w = w
  kill_each (r ∷ rs) w = kill_each rs (apply_to_instance_description clock r w).1

  unfoldable pub kill_unhealth_instances : World → World
  kill_unhealth_instances w =
      kill_each (get_unhealth_instances (clock w.reads) w.instance_description)
        (record w { reads = suc w.reads })

  -- The first `rounds` rounds of the endless loop, with nothing else going on.
  unfoldable pub kill_rounds : ℕ → World → World
  kill_rounds zero w = w
  kill_rounds (suc rounds) w = kill_rounds rounds (kill_unhealth_instances w)
