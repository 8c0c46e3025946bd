-- ===== src/Manager/Relations.antt =====
-- apps/rust-instance-manager/src/service.rs: the checks that `apply_to_instance_description` makes
-- before it writes anything.
use tzafon_way_point.Prelude.{
  Bool, true, false, ◌||◌, Option, none, some, List, [], ◌∷◌, text_eq, if◌then◌else◌, is_some,
}
use tzafon_way_point.Prelude.Status.{Result, ok, err, invalid_argument, ◌>>=◌}
use tzafon_way_point.Proto.{InstanceId, Relationship, InstanceDescription, listed}
use tzafon_way_point.Dict.{Dict, get}
use tzafon_way_point.Manager.Traits.{get_instance_id}
use tzafon_way_point.Manager.World.{find}

-- `==` on `Option<InstanceId>`
unfoldable pub same_id : Option InstanceId → Option InstanceId → Bool
same_id none none = true
same_id (some a) (some b) = text_eq a.instance_id b.instance_id
same_id _ _ = false

unfoldable pub validate_relationship : InstanceDescription → InstanceDescription → Result Bool
validate_relationship parent child =
    if same_id parent.instance_id child.instance_id
    then err (invalid_argument "Parent and child cannot be the same instance")
    else if is_some parent.kill_instance_request || is_some child.parent
    then ok false
    else ok true

-- "Adding a parent"
unfoldable pub check_parent :
    Dict InstanceDescription → InstanceDescription → Option Relationship → Result Bool
check_parent m d none = ok true
check_parent m d (some p) = do
  id ← get_instance_id p.instance_id
  parent ← find id.instance_id "Parent instance not found" m
  validate_relationship parent d

-- The loop of "Adding children"
unfoldable pub check_children :
    Dict InstanceDescription → InstanceDescription → List Relationship → Result Bool
check_children m d [] = ok true
check_children m d (c ∷ cs) = do
  id ← get_instance_id c.instance_id
  child ← find id.instance_id "Child instance not found" m
  fits ← validate_relationship d child
  if fits then check_children m d cs else ok false

-- `ok true` lets the request through; any other result is the response.
unfoldable pub check_request :
    Dict InstanceDescription → InstanceDescription → InstanceId → Result Bool
check_request m request id = elim (get id.instance_id m) [
  | none ↦ ok false
  | some d ↦ if is_some d.kill_instance_request then ok false else do
    fits ← check_parent m d request.parent
    if fits then check_children m d (listed request.children) else ok false
]
