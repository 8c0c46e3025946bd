-- ===== src/Manager/KillLoop/Round.antt =====
-- After a round of the kill loop, whoever was unhealthy is dead.
use tzafon_way_point.Prelude.{
  ℕ, suc, ◌≡◌, refl, ap, ◌⊎◌, inl, inr, none, some, Text, In, is_some, List, [], ◌∷◌, arith,
  Option-cases,
}
use tzafon_way_point.Proto.{InstanceId, KillReason, InstanceDescription}
use tzafon_way_point.Dict.{get, values}
use tzafon_way_point.Dict.Distinct.{values_of_get}
use tzafon_way_point.Manager.World.{World}
use tzafon_way_point.Manager.Invariant.{IsValid}
use tzafon_way_point.Manager.Apply.{apply_to_instance_description}
use tzafon_way_point.Manager.Apply.Commit.{apply-IsValid}
use tzafon_way_point.Manager.Apply.Later.{AllLater, AllLater-refl, AllLater-trans}
use tzafon_way_point.Manager.Apply.Ageing.{apply-AllLater}
use tzafon_way_point.Manager.Apply.Endings.{IsDead, AllLater-IsDead, apply-IsDead}
use tzafon_way_point.Manager.Health.{unhealth_instance}
use tzafon_way_point.Manager.KillLoop.{
  kill_request, unhealth_requests, get_unhealth_instances, kill_each, kill_unhealth_instances,
}

pub kill_each-IsValid :
    (clock : ℕ → ℕ) (rs : List InstanceDescription) (w : World)
    → IsValid w
    → IsValid (kill_each clock rs w)
unfolding kill_each
kill_each-IsValid clock [] w v = v
kill_each-IsValid clock (r ∷ rs) w v = kill_each-IsValid clock rs _ (apply-IsValid clock r w v)

pub kill_each-AllLater :
    (clock : ℕ → ℕ) (rs : List InstanceDescription) (w : World)
    → IsValid w
    → AllLater w.instance_description (kill_each clock rs w).instance_description
unfolding kill_each
kill_each-AllLater clock [] w v = AllLater-refl w.instance_description
kill_each-AllLater clock (r ∷ rs) w v =
    let w' = (apply_to_instance_description clock r w).1 in
    AllLater-trans w.instance_description w'.instance_description _ (apply-AllLater clock r w v)
      (kill_each-AllLater clock rs w' (apply-IsValid clock r w v))

apply_kill :
    (clock : ℕ → ℕ) (id : InstanceId) (reason : KillReason) (now : ℕ) (d : InstanceDescription)
    (w : World)
    → IsValid w
    → get id.instance_id w.instance_description ≡ some d
    → IsDead
        (apply_to_instance_description clock
          (kill_request (some id) reason now)
          w).1.instance_description
        id.instance_id
apply_kill clock id reason now d w v g =
    apply-IsDead clock (kill_request (some id) reason now) id _ d w v (refl, refl, refl, refl, refl)
      g

kill_each-IsDead :
    (clock : ℕ → ℕ) (rs : List InstanceDescription) (w : World) (id : InstanceId)
    (reason : KillReason) (now : ℕ) (d : InstanceDescription)
    → IsValid w
    → In (kill_request (some id) reason now) rs
    → get id.instance_id w.instance_description ≡ some d
    → IsDead (kill_each clock rs w).instance_description id.instance_id
unfolding kill_each AllLater
kill_each-IsDead clock [] w id reason now d v i g = absurd i.1
kill_each-IsDead clock (r ∷ rs) w id reason now d v (inl e) g =
    let w' = (apply_to_instance_description clock r w).1 in
    AllLater-IsDead w'.instance_description _ id.instance_id
      (kill_each-AllLater clock rs w' (apply-IsValid clock r w v))
      (rw e (apply_kill clock id reason now d w v g))
kill_each-IsDead clock (r ∷ rs) w id reason now d v (inr i) g =
    let w' = (apply_to_instance_description clock r w).1 in
    let (d', g', later) = apply-AllLater clock r w v id.instance_id d g in
    kill_each-IsDead clock rs w' id reason now d' (apply-IsValid clock r w v) i g'

-- One instance asks for nothing, or for its own end.
abbrev Asks : ℕ → InstanceDescription → List InstanceDescription → Type 0
Asks now d ds =
    (unhealth_requests now (d ∷ ds) ≡ unhealth_requests now ds)
    ⊎ ((reason : KillReason) × (unhealth_requests now (d ∷ ds)
          ≡ kill_request d.instance_id reason now ∷ unhealth_requests now ds))

asks : (now : ℕ) (d : InstanceDescription) (ds : List InstanceDescription) → Asks now d ds
unfolding unhealth_requests
asks now d ds = elim (Option-cases d.kill_instance_request) [
  | inr (k, e) ↦ inl (ground (arith, e))
  | inl e ↦ elim (Option-cases (unhealth_instance d now)) [
    | inl f ↦ inl (ground (arith, e, f))
    | inr (reason, f) ↦ inr (reason, ground (arith, e, f))
  ]
]

asks_self :
    (now : ℕ) (d : InstanceDescription) (ds : List InstanceDescription) (reason : KillReason)
    → d.kill_instance_request ≡ none
    → unhealth_instance d now ≡ some reason
    → unhealth_requests now (d ∷ ds)
      ≡ kill_request d.instance_id reason now ∷ unhealth_requests now ds
unfolding unhealth_requests
asks_self now d ds reason a u = ground (arith, a, u)

In-unhealth_requests :
    (now : ℕ) (ds : List InstanceDescription) (d : InstanceDescription) (reason : KillReason)
    → In d ds
    → d.kill_instance_request ≡ none
    → unhealth_instance d now ≡ some reason
    → In (kill_request d.instance_id reason now) (unhealth_requests now ds)
In-unhealth_requests now [] d reason i a u = absurd i.1
In-unhealth_requests now (x ∷ ds) d reason (inl e) a u =
    rw (asks_self now x ds reason (rw e a) (rw e u))
      (inl (ap (λ (z : InstanceDescription). kill_request z.instance_id reason now) e))
In-unhealth_requests now (x ∷ ds) d reason (inr i) a u = elim (asks now x ds) [
  | inl e ↦ rw e (In-unhealth_requests now ds d reason i a u)
  | inr (reason', e) ↦ rw e (inr (In-unhealth_requests now ds d reason i a u))
]

-- After a round of the kill loop in a valid state, every instance that was unhealthy at the time the
-- round began is dead.
pub round_kills :
    (clock : ℕ → ℕ) (w : World) (k : Text) (d : InstanceDescription) (reason : KillReason)
    → IsValid w
    → get k w.instance_description ≡ some d
    → unhealth_instance d (clock w.reads) ≡ some reason
    → IsDead (kill_unhealth_instances clock w).instance_description k
unfolding kill_unhealth_instances get_unhealth_instances
round_kills clock w k d reason v g u = elim (Option-cases d.kill_instance_request) [
  | inr (q, e) ↦
      AllLater-IsDead w.instance_description _ k (kill_each-AllLater clock requests w1 v1)
        (d, g, ap is_some e)
  | inl e ↦
      kill_each-IsDead clock requests w1 (record { instance_id = k }) reason (clock w.reads) d v1
        (asked e) g
]
  where
    w1 : World
    w1 = record w { reads = suc w.reads }

    v1 : IsValid w1
    v1 = record { distinct = v.distinct; linked = v.linked }

    all : List InstanceDescription
    all = values w.instance_description

    requests : List InstanceDescription
    requests = unhealth_requests (clock w.reads) all

    asked :
        d.kill_instance_request ≡ none
        → In (kill_request (some (record { instance_id = k })) reason (clock w.reads)) requests
    asked e =
        let i =
          In-unhealth_requests (clock w.reads) all d reason
            (values_of_get d k w.instance_description g) e u in
        rw (v.linked.keyed k d g) at i
