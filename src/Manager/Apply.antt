-- ===== src/Manager/Apply.antt =====
-- apps/rust-instance-manager/src/service.rs: `apply_to_instance_description` and
-- `get_instance_description`.
pub mod Fields
pub mod Own
pub mod Adopt
pub mod Join
pub mod Finish
pub mod Commit
pub mod Checks
pub mod Later
pub mod Writes
pub mod Ageing
pub mod Answers
pub mod Leases
pub mod Endings
pub mod Stamps
use tzafon_way_point.Prelude.{
  ℕ, Bool, true, false, ◌&&◌, Option, none, some, List, [], ◌∷◌, is_none, is_some, if◌then◌else◌,
  Text, String,
}
use tzafon_way_point.Prelude.Status.{ok, err, invalid_argument, ◌>>=◌ as result_bind}
use tzafon_way_point.Proto.{InstanceId, Relationship, Children, InstanceDescription, listed}
use tzafon_way_point.Dict.{insert}
use tzafon_way_point.Manager.Traits.{
  update_instance_description, get_instance_id, health_check_entry, proxy_metrics_entry,
  system_metrics_entry, llm_metrics_entry, gpu_metrics_entry, kill_instance_request_entry,
  services_entry, relationship_entry, children_entry,
}
use tzafon_way_point.Manager.World.{Exec, ◌>>=◌, ◌>>◌, pure, lift, find}
use tzafon_way_point.Manager.Relations.{check_request}
use tzafon_way_point.Manager.Cascade.{cascade}

-- The relationship that ties another instance to `id`; its time is set when it is stored.
abbrev pub tie : InstanceId → Relationship
tie id = record { timestamp_ms = none; instance_id = some id }

module _ (clock : ℕ → ℕ) where
  -- The nine updates of the instance itself, in the order of the source.
  unfoldable pub write_fields :
      InstanceDescription → InstanceDescription × ℕ → InstanceDescription × ℕ
  write_fields r s =
      let s1 = update_instance_description clock r.services s in
      let s2 = update_instance_description clock r.health_check s1 in
      let s3 = update_instance_description clock r.parent s2 in
      let s4 = update_instance_description clock r.children s3 in
      let s5 = update_instance_description clock r.kill_instance_request s4 in
      let s6 = update_instance_description clock r.proxy_metrics s5 in
      let s7 = update_instance_description clock r.system_metrics s6 in
      let s8 = update_instance_description clock r.gpu_metrics s7 in
      update_instance_description clock r.llm_metrics s8

  -- `get_mut(k).ok_or(..)?` followed by updates of what it found.
  unfoldable pub rewrite :
      Text → String → (InstanceDescription × ℕ → InstanceDescription × ℕ) → Exec (Unit {0})
  rewrite k what f w = elim (find k what w.instance_description) [
    | err e ↦ (err e, w)
    | ok d ↦
        let (d', n) = f (d, w.reads) in
        (ok tt, record { instance_description = insert k d' w.instance_description; reads = n })
  ]

  -- Each child of the request gets the instance for its parent.
  unfoldable pub adopt_children : InstanceId → List Relationship → Exec (Unit {0})
  adopt_children id [] = pure tt
  adopt_children id (c ∷ cs) = do
    child ← lift (get_instance_id c.instance_id)
    rewrite child.instance_id "Child instance not found"
        (update_instance_description clock (some (tie id)))
    adopt_children id cs

  -- The parent of the request gets the instance as one more child.
  unfoldable pub join_parent : InstanceId → Option Relationship → Exec (Unit {0})
  join_parent id none = pure tt
  join_parent id (some p) = do
    parent ← lift (get_instance_id p.instance_id)
    rewrite parent.instance_id "Parent instance not found" (
        update_instance_description {T = Children} clock (some (record { children = tie id ∷ [] })))

  -- If the instance is dead by now, so become its descendants.
  unfoldable pub finish : InstanceId → Exec (Unit {0})
  finish id w = elim (find id.instance_id "Instance not found" w.instance_description) [
    | err e ↦ (err e, w)
    | ok d ↦ if is_some d.kill_instance_request then cascade clock d w else (ok tt, w)
  ]

  -- Everything after the checks.
  unfoldable pub commit : InstanceDescription → InstanceId → Exec Bool
  commit r id = do
    rewrite id.instance_id "Instance not found" (write_fields r)
    adopt_children id (listed r.children)
    join_parent id r.parent
    finish id
    pure true

  -- The pattern that a request has to match names `instance_id`, and no creation time or type.
  unfoldable pub apply_to_instance_description : InstanceDescription → Exec Bool
  apply_to_instance_description r w = elim r.instance_id [
    | none ↦ (err (invalid_argument "Invalid request"), w)
    | some id ↦
        if is_none r.created_timestamp_ms && is_none r.instance_type
        then elim (check_request w.instance_description r id) [
          | err e ↦ (err e, w)
          | ok fits ↦ if fits then commit r id w else (ok false, w)
        ]
        else (err (invalid_argument "Invalid request"), w)
  ]

-- `get_instance_description`; the clone of `get_mut`'s value is the value.
unfoldable pub get_instance_description : Option InstanceId → Exec InstanceDescription
get_instance_description request w = (
  result_bind (get_instance_id request)
      (λ id. find id.instance_id "Instance not found" w.instance_description),
  w,
)
