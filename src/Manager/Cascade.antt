-- ===== src/Manager/Cascade.antt =====
-- apps/rust-instance-manager/src/service.rs, the last part of `apply_to_instance_description`: when
-- an instance has been killed, its descendants are killed too.
pub mod Termination
pub mod Kills
pub mod Closure
use tzafon_way_point.Prelude.{
  ℕ, zero, suc, ◌+◌, Option, none, some, List, [], ◌∷◌, ◌++◌, reverse, length, Text, is_some, Bool,
  true, false,
}
use tzafon_way_point.Prelude.Status.{Result, ok, err, Status, invalid_argument, diverged}
use tzafon_way_point.Proto.{
  InstanceId, Relationship, KillInstanceRequest, InstanceDescription, listed, parent_dead,
  reason_code,
}
use tzafon_way_point.Dict.{Dict, get, insert}
use tzafon_way_point.Dict.Weight.{weigh}
use tzafon_way_point.Manager.Traits.{update_instance_description, kill_instance_request_entry}
use tzafon_way_point.Manager.World.{World, Exec}

-- What one round of `while let Some(child) = children.pop()` meets.
pub data Visit : Type 0 where
  bad_id : Visit
  passed : Visit
  alive : Text → InstanceDescription → Visit

pub visit : Dict InstanceDescription → Option InstanceId → Visit
visit m none = bad_id
visit m (some id) = elim (get id.instance_id m) [
  | none ↦ passed
  | some d ↦ elim d.kill_instance_request [ none ↦ alive id.instance_id d | some _ ↦ passed ]
]

-- `KillReason::ParentDead`, stamped with the clock's reading.
abbrev pub orphaned : (ℕ → ℕ) → InstanceDescription × ℕ → InstanceDescription × ℕ
orphaned clock =
    update_instance_description {T = KillInstanceRequest} clock
      (some (record { timestamp_ms = none; kill_reason = reason_code parent_dead }))

-- The write of a round that kills.
pub mark : (ℕ → ℕ) → Text → InstanceDescription → World → World
mark clock k d w =
    let (d', n) = orphaned clock (d, w.reads) in
    record { instance_description = insert k d' w.instance_description; reads = n }

-- The head of the list is the back of the vector `children`.
unfoldable pub propagate : (ℕ → ℕ) → ℕ → List Relationship → Exec (Unit {0})
propagate clock zero stack w = (err diverged, w)
propagate clock (suc fuel) [] w = (ok tt, w)
propagate clock (suc fuel) (c ∷ stack) w = elim (visit w.instance_description c.instance_id) [
  | bad_id ↦ (err (invalid_argument "Instance ID is required"), w)
  | passed ↦ propagate clock fuel stack w
  | alive k d ↦ propagate clock fuel (reverse (listed d.children) ++ stack) (mark clock k d w)
]

-- The children that the loop may still push.
abbrev pub unvisited : InstanceDescription → ℕ
unvisited d = elim d.kill_instance_request [ none ↦ length (listed d.children) | some _ ↦ 0 ]

-- A bound on the rounds that are left.
abbrev pub measure : List Relationship → World → ℕ
measure stack w = length stack + weigh unvisited w.instance_description

-- One round for each child on the stack and for each that an instance still alive lists.
unfoldable pub cascade : (ℕ → ℕ) → InstanceDescription → Exec (Unit {0})
unfolding propagate visit mark
cascade clock d w =
    let stack = reverse (listed d.children) in propagate clock (suc (measure stack w)) stack w
