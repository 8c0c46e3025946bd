-- ===== src/Client/Cli.antt =====
-- apps/rust-instance-manager/src/cli.rs: the tool that counts the children of the parents.
pub mod Tally
use tzafon_way_point.Prelude.{
  ℕ, ◌+◌, ◌%◌, ◌^◌, Bool, true, false, ◌&&◌, not, Option, none, some, List, [], ◌∷◌, map, Text,
  String, is_none, is_some, unwrap_or,
}
use tzafon_way_point.Prelude.Status.{Result, ok, err}
use tzafon_way_point.Proto.{InstanceId, InstanceDescription, AllInstancesResponse}
use tzafon_way_point.Dict.{Dict, get, insert, empty}
use tzafon_way_point.Manager.World.{World}
use tzafon_way_point.Client.EphemeralProxy.{Delivery, call}
use tzafon_way_point.Manager.Rpc.{get_all_instances, get_instance}

pub record Args : Type 0 where
  pub instance_type : ℕ
  pub has_parent : Bool
  pub alive : Bool

-- What `main` ends with: the map that it prints, or an error.
pub data Outcome : Type 0 where
  printed : Dict ℕ → Outcome
  failed : String → Outcome

abbrev pub same_flag : Bool → Bool → Bool
same_flag true b = b
same_flag false b = not b

-- The two tests that an instance has to pass to be counted
unfoldable pub fits : Args → InstanceDescription → Bool
fits args d =
    same_flag args.has_parent (is_some d.parent)
    && same_flag args.alive (is_some d.health_check && is_none d.kill_instance_request)

-- `instance.parent.and_then(|p| p.instance_id).map(|id| id.instance_id)`
unfoldable pub parent_id : InstanceDescription → Option Text
parent_id d = elim d.parent [
  | none ↦ none
  | some p ↦ elim p.instance_id [ none ↦ none | some id ↦ some id.instance_id ]
]

-- `*num_children.entry(key).or_insert(0) += 1` on an `i32`, kept as its 32 bits
unfoldable pub count_child : Text → Dict ℕ → Dict ℕ
count_child key num_children =
    insert key ((unwrap_or (get key num_children) 0 + 1) % 2 ^ 32) num_children

-- The loop over the answers; one that is an error is logged.
unfoldable pub tally : Args → List (Result InstanceDescription) → Dict ℕ → Outcome
tally args [] num_children = printed num_children
tally args (err e ∷ answers) num_children = tally args answers num_children
tally args (ok d ∷ answers) num_children = elim (fits args d) [
  | false ↦ tally args answers num_children
  | true ↦ elim (parent_id d) [
    | none ↦ failed "No parent instance id found"
    | some key ↦ tally args answers (count_child key num_children)
  ]
]

abbrev pub tally_listed :
    Args → (InstanceId → Result InstanceDescription) → Result AllInstancesResponse → Outcome
tally_listed args answer (err e) = failed "Status"
tally_listed args answer (ok listing) = tally args (map answer listing.instance_ids) empty

-- `main`, on a manager that lists its instances in the state `w`. Each call of `get_instance` finds a state of
-- its own, and what becomes of the call is the network's matter.
unfoldable pub count_children :
    Args → (InstanceId → Delivery) → (InstanceId → World) → World → Outcome
count_children args delivery then w =
    tally_listed args (λ id. (call (delivery id) (get_instance id) (then id)).0)
      (get_all_instances (record { instance_type = args.instance_type }) w).0
