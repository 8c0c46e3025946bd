-- ===== src/Manager/Lifetime/Interleaved.antt =====
-- apps/rust-instance-manager/src/service.rs: `insert_new_instance_description` when other requests and
-- rounds of the kill loop come between the three times that it takes the lock.
pub mod Removal
pub mod Outcome
use tzafon_way_point.Prelude.{
  ℕ, Bool, true, false, none, some, List, [], ◌≡◌, refl, is_none, if◌then◌else◌, arith,
  Option-cases, inl, inr, Bool-cases,
}
use tzafon_way_point.Prelude.Status.{Result, ok, err, invalid_argument}
use tzafon_way_point.Proto.{InstanceId, InstanceDescription, type_of_code}
use tzafon_way_point.Manager.World.{World, Exec}
use tzafon_way_point.Manager.Apply.{apply_to_instance_description}
use tzafon_way_point.Manager.Register.{
  claim, release_on_failure, settle, insert_new_instance_description,
}
use tzafon_way_point.Manager.Lifetime.{Event, serve_all}

-- What comes between the first lock and the second, and between the second and the third.
pub record Gaps : Type 0 where
  pub first : List Event
  pub second : List Event

-- The second lock, and the third.
unfoldable pub settle_among :
    (ℕ → ℕ) → Gaps → InstanceDescription → InstanceId → Result Bool × World → Result Bool × World
settle_among clock gaps request id (ok true, w) =
    let (res, w') =
      apply_to_instance_description clock (record request { instance_type = none })
        (serve_all clock w gaps.first) in
    release_on_failure id (res, serve_all clock w' gaps.second)
settle_among clock gaps request id (ok false, w) = (ok false, w)
settle_among clock gaps request id (err e, w) = (err e, w)

unfoldable pub insert_new_among : (ℕ → ℕ) → Gaps → InstanceDescription → Exec Bool
insert_new_among clock gaps request w = elim request.instance_id [
  | none ↦ (err (invalid_argument "Invalid request"), w)
  | some id ↦ elim request.instance_type [
    | none ↦ (err (invalid_argument "Invalid request"), w)
    | some code ↦
        if is_none request.created_timestamp_ms
        then if is_none (type_of_code code)
          then (err (invalid_argument "Invalid instance type"), w)
          else settle_among clock gaps request id (claim clock id code w)
        else (err (invalid_argument "Invalid request"), w)
  ]
]
