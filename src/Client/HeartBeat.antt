-- ===== src/Client/HeartBeat.antt =====
-- apps/rust-shared/src/utils.rs: registering at the manager and beating afterwards.
pub mod Patience
pub mod Joining
pub mod Stored
use tzafon_way_point.Prelude.{
  ℕ, suc, Bool, true, false, ◌==◌, if◌then◌else◌, Option, none, some, List, [], ◌∷◌, String, Text,
}
use tzafon_way_point.Prelude.Status.{Status, Result, ok, err}
use tzafon_way_point.Proto.{
  InstanceId, InstanceType, Services, HealthCheck, InstanceDescription, default, type_code,
}

abbrev pub max_retries : ℕ
max_retries = 3

-- The request of every beat; the manager sets its time.
unfoldable pub heart_beat : InstanceId → InstanceDescription
heart_beat id = record default {
  instance_id = some id;
  health_check = some (record { timestamp_ms = none });
}

-- The request of `initialize_health_loop`
unfoldable pub registration : InstanceId → InstanceType → Option Services → InstanceDescription
registration id kind services = record default {
  instance_id = some id;
  instance_type = some (type_code kind);
  services = services;
}

pub data Outcome : Type 0 where
  added : Outcome
  failed : String → Outcome

-- `initialize_health_loop`, on the manager's answer
unfoldable pub initialize_health_loop : Result Bool → Outcome
initialize_health_loop (ok true) = added
initialize_health_loop (ok false) = failed "Failed to add instance already exists"
initialize_health_loop (err e) = failed "Error adding instance"

-- The match of the loop on an answer and the retries: the retries of the next round, or `break`.
unfoldable pub answer : Result Bool → ℕ → Option ℕ
answer (ok true) retries = some 0
answer (ok false) retries = none
answer (err e) retries = if retries == max_retries then none else some (suc retries)

-- Where the loop stands. Both ways out of it cancel the token.
pub data Phase : Type 0 where
  beating : ℕ → Phase
  unhealthy cancelled : Phase

-- A round: the manager's answer, and whether the token is cancelled before the next beat is due.
pub record Round : Type 0 where
  pub response : Result Bool
  pub is_cancelled : Bool

abbrev pub after_answer : Bool → Option ℕ → Phase
after_answer is_cancelled none = unhealthy
after_answer true (some retries) = cancelled
after_answer false (some retries) = beating retries

unfoldable pub heart_beat_round : Round → Phase → Phase
heart_beat_round r (beating retries) = after_answer r.is_cancelled (answer r.response retries)
heart_beat_round r unhealthy = unhealthy
heart_beat_round r cancelled = cancelled

-- The loop of `start_heart_beat` over any number of rounds.
unfoldable pub heart_beat_loop : List Round → Phase → Phase
heart_beat_loop [] p = p
heart_beat_loop (r ∷ rs) p = heart_beat_loop rs (heart_beat_round r p)
