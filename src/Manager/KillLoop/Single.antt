-- ===== src/Manager/KillLoop/Single.antt =====
-- A request that only kills takes its instance along and the descendants, and nobody else.
use tzafon_way_point.Prelude.{◌≡◌, ◌↔◌, ℕ, inl, inr, none, some, Text, arith}
use tzafon_way_point.Proto.{InstanceId, KillInstanceRequest, InstanceDescription}
use tzafon_way_point.Dict.{get}
use tzafon_way_point.Manager.World.{World}
use tzafon_way_point.Manager.Cascade.Kills.{Instances}
use tzafon_way_point.Manager.Invariant.{IsValid}
use tzafon_way_point.Manager.Apply.{apply_to_instance_description}
use tzafon_way_point.Manager.Apply.Commit.{apply-IsValid}
use tzafon_way_point.Manager.Apply.Ageing.{apply-AllLater}
use tzafon_way_point.Manager.Apply.Endings.{OnlyKills, IsDead, apply-IsDead}
use tzafon_way_point.Manager.KillLoop.Blame.{IsClosed}
use tzafon_way_point.Manager.KillLoop.Descent.{Under, self, child, handed_down}
use tzafon_way_point.Manager.KillLoop.Requests.{apply-KillsOnly}

Under-IsClosed : (m : Instances) (j : Text) → IsClosed (Under m j) m
unfolding IsClosed
Under-IsClosed m j k d c i under g l n = child d c under g l n

-- In a valid state, a request that does nothing but kill an instance that is there kills exactly that
-- instance and its descendants: whoever was alive before is dead afterwards if and only if it is the
-- instance or one of them.
pub apply_kills_exactly :
    (clock : ℕ → ℕ) (r : InstanceDescription) (id : InstanceId) (q : KillInstanceRequest)
    (target : InstanceDescription) (w : World) (k : Text) (d : InstanceDescription)
    → IsValid w
    → OnlyKills r id q
    → get id.instance_id w.instance_description ≡ some target
    → get k w.instance_description ≡ some d
    → d.kill_instance_request ≡ none
    → IsDead (apply_to_instance_description clock r w).1.instance_description k
      ↔ Under w.instance_description id.instance_id k
apply_kills_exactly clock r id q target w k d v only there g alive =
    let m = w.instance_description in
    let after = (apply_to_instance_description clock r w).1.instance_description in
    let kills =
      apply-KillsOnly (Under m id.instance_id) clock r id q w v only
        (Under-IsClosed m id.instance_id) self in
    (
      λ (d', g', over).
          let (b, found, kept, died) = kills.before k d' g' in
          let same : b ≡ d = ground (arith, found, g) in
          elim (died (rw same alive)) [
            | inl lives ↦ absurd (ground (arith, lives, over))
            | inr under ↦ under
          ],
      handed_down m after v.linked (apply-IsValid clock r w v).linked (apply-AllLater clock r w v)
          id.instance_id k (apply-IsDead clock r id q target w v only there),
    )
