-- ===== src/Manager/Apply/Answers.antt =====
-- How a request is answered.
use tzafon_way_point.Prelude.{ℕ, ◌≡◌, refl, true, false, Bool, some, ◌&&◌, is_none}
use tzafon_way_point.Prelude.Status.{Result, ok, err}
use tzafon_way_point.Proto.{InstanceId, InstanceDescription}
use tzafon_way_point.Manager.World.{World}
use tzafon_way_point.Manager.Relations.{check_request}
use tzafon_way_point.Manager.Apply.{apply_to_instance_description}
use tzafon_way_point.Manager.Apply.Checks.{check_request-Accepted}
use tzafon_way_point.Manager.Apply.Commit.{commit-IsValid}
use tzafon_way_point.Manager.Invariant.{IsValid}

answers_as :
    (clock : ℕ → ℕ) (r : InstanceDescription) (id : InstanceId) (w : World) (res : Result Bool)
    → IsValid w
    → r.instance_id ≡ some id
    → (is_none r.created_timestamp_ms && is_none r.instance_type) ≡ true
    → check_request w.instance_description r id ≡ res
    → (apply_to_instance_description clock r w).0 ≡ res
unfolding apply_to_instance_description
answers_as clock r id w (err x) v e f c = rw (e, apply_to_instance_description) (rw f (rw c refl))
answers_as clock r id w (ok false) v e f c =
    rw (e, apply_to_instance_description) (rw f (rw c refl))
answers_as clock r id w (ok true) v e f c =
    let (d, a) = check_request-Accepted w.instance_description r id v.linked c in
    rw (e, apply_to_instance_description) (rw f (rw c (commit-IsValid clock r id d w v a).0))

-- In a valid state, a request with an id and without a creation time and a type is answered by its checks,
-- errors included: what passes them succeeds.
pub apply-check_request :
    (clock : ℕ → ℕ) (r : InstanceDescription) (id : InstanceId) (w : World)
    → IsValid w
    → r.instance_id ≡ some id
    → (is_none r.created_timestamp_ms && is_none r.instance_type) ≡ true
    → (apply_to_instance_description clock r w).0 ≡ check_request w.instance_description r id
apply-check_request clock r id w v e f =
    answers_as clock r id w (check_request w.instance_description r id) v e f refl
