-- ===== src/Manager/Register.antt =====
-- apps/rust-instance-manager/src/service.rs: `insert_new_instance_description`.
-- The three times that it takes the lock are three functions, so that others may come between.
pub mod Claim
pub mod Ageing
use tzafon_way_point.Prelude.{ℕ, suc, Bool, true, false, none, some, is_none, if◌then◌else◌}
use tzafon_way_point.Prelude.Status.{Result, ok, err, invalid_argument}
use tzafon_way_point.Proto.{InstanceId, InstanceDescription, default, type_of_code}
use tzafon_way_point.Dict.{get, insert, remove}
use tzafon_way_point.Manager.World.{World, Exec}
use tzafon_way_point.Manager.Apply.{apply_to_instance_description}

-- What a new instance is before the rest of its request is applied.
abbrev pub newborn : InstanceId → ℕ → ℕ → InstanceDescription
newborn id code now = record default {
  instance_id = some id;
  created_timestamp_ms = some (record { timestamp_ms = now });
  instance_type = some code;
}

-- The first lock: `Entry::Vacant`. `ok false` if the key is taken.
unfoldable pub claim : (ℕ → ℕ) → InstanceId → ℕ → Exec Bool
claim clock id code w = elim (get id.instance_id w.instance_description) [
  | some _ ↦ (ok false, w)
  | none ↦ (
    ok true,
    record {
      instance_description =
          insert id.instance_id (newborn id code (clock w.reads)) w.instance_description;
      reads = suc w.reads;
    },
  )
]

-- The third lock: whatever is no `Ok(true)` takes the instance away again.
unfoldable pub release_on_failure : InstanceId → Result Bool × World → Result Bool × World
release_on_failure id (ok true, w) = (ok true, w)
release_on_failure id (ok false, w) =
    (ok false, record w { instance_description = remove id.instance_id w.instance_description })
release_on_failure id (err e, w) =
    (err e, record w { instance_description = remove id.instance_id w.instance_description })

-- The second lock, and the third.
unfoldable pub settle :
    (ℕ → ℕ) → InstanceDescription → InstanceId → Result Bool × World → Result Bool × World
settle clock request id (ok true, w) =
    release_on_failure id
      (apply_to_instance_description clock (record request { instance_type = none }) w)
settle clock request id (ok false, w) = (ok false, w)
settle clock request id (err e, w) = (err e, w)

register_as : (ℕ → ℕ) → InstanceDescription → InstanceId → ℕ → Exec Bool
register_as clock request id code w =
    if is_none (type_of_code code)
    then (err (invalid_argument "Invalid instance type"), w)
    else settle clock request id (claim clock id code w)

unfoldable pub insert_new_instance_description : (ℕ → ℕ) → InstanceDescription → Exec Bool
unfolding register_as
insert_new_instance_description clock request w = elim request.instance_id [
  | none ↦ (err (invalid_argument "Invalid request"), w)
  | some id ↦ elim request.instance_type [
    | none ↦ (err (invalid_argument "Invalid request"), w)
    | some code ↦
        if is_none request.created_timestamp_ms
        then register_as clock request id code w
        else (err (invalid_argument "Invalid request"), w)
  ]
]
