-- ===== src/Manager/KillLoop/Exactly.antt =====
-- A round of the kill loop kills the unhealthy instances and their descendants, and nobody else.
use tzafon_way_point.Prelude.{
  ℕ, suc, ◌≡◌, ◌↔◌, refl, inl, inr, none, some, List, [], ◌∷◌, Text, arith, Option-cases, All,
  All-of_In,
}
use tzafon_way_point.Proto.{KillReason, InstanceDescription}
use tzafon_way_point.Dict.{get, values}
use tzafon_way_point.Dict.Distinct.{get_of_values}
use tzafon_way_point.Manager.World.{World}
use tzafon_way_point.Manager.Cascade.Kills.{Instances}
use tzafon_way_point.Manager.Invariant.{IsValid}
use tzafon_way_point.Manager.Apply.Later.{AllLater}
use tzafon_way_point.Manager.Apply.Endings.{IsDead}
use tzafon_way_point.Manager.Health.{unhealth_instance}
use tzafon_way_point.Manager.KillLoop.{
  unhealth_requests, get_unhealth_instances, kill_unhealth_instances,
}
use tzafon_way_point.Manager.KillLoop.Round.{round_kills, kill_each-IsValid, kill_each-AllLater}
use tzafon_way_point.Manager.KillLoop.Descent.{Under, self, child, handed_down}
use tzafon_way_point.Manager.KillLoop.Requests.{Condemns, kill_each-KillsOnly}
use tzafon_way_point.Manager.KillLoop.Blame.{IsClosed}

-- The instance descends from one that is alive and unhealthy, or is one.
abbrev pub Doomed : Instances → ℕ → Text → Type 0
Doomed m now k =
    (j : Text) × (e : InstanceDescription) × (reason : KillReason) × (get j m ≡ some e)
    × (e.kill_instance_request ≡ none)
    × (unhealth_instance e now ≡ some reason)
    × Under m j k

module _ (clock : ℕ → ℕ) (w : World) (v : IsValid w) where
  abbrev m : Instances
  m = w.instance_description

  abbrev now : ℕ
  now = clock w.reads

  abbrev after : Instances
  after = (kill_unhealth_instances clock w).instance_description

  Doomed-IsClosed : IsClosed (Doomed m now) m
  unfolding IsClosed
  Doomed-IsClosed k d c i (j, e, reason, g, alive, ill, under) h l n =
      (j, e, reason, g, alive, ill, child d c under h l n)

  requests_condemn :
      (ds : List InstanceDescription)
      → All (λ d. (k : Text) × (get k m ≡ some d)) ds
      → All (Condemns (Doomed m now) clock) (unhealth_requests now ds)
  unfolding unhealth_requests
  requests_condemn [] a = tt
  requests_condemn (d ∷ ds) ((k, g), a) =
      let rest = requests_condemn ds a in
      elim (Option-cases d.kill_instance_request) [
        | inr (q, over) ↦ rw (over, unhealth_requests) rest
        | inl alive ↦ elim (Option-cases (unhealth_instance d now)) [
          | inl well ↦ rw (alive, unhealth_requests) (rw well rest)
          | inr (reason, ill) ↦
              rw (alive, unhealth_requests)
                (rw ill (
                  (
                    record { instance_id = k },
                    _,
                    (v.linked.keyed k d g, refl, refl, refl, refl),
                    (k, d, reason, g, alive, ill, self),
                  ),
                  rest,
                ))
        ]
      ]

  -- Whoever was alive before the round and is dead after it was doomed.
  Doomed-of_IsDead :
      (k : Text) (d : InstanceDescription)
      → get k m ≡ some d
      → d.kill_instance_request ≡ none
      → IsDead after k
      → Doomed m now k
  unfolding kill_unhealth_instances get_unhealth_instances
  Doomed-of_IsDead k d g alive (d', g', over) =
      let known =
        All-of_In (λ x. (j : Text) × (get j m ≡ some x)) (values m)
          (λ x i. get_of_values x m v.distinct i) in
      let w1 = record w { reads = suc w.reads } in
      let only =
        kill_each-KillsOnly (Doomed m now) clock (unhealth_requests now (values m)) w1
          (record { distinct = v.distinct; linked = v.linked }) Doomed-IsClosed
          (requests_condemn (values m) known) in
      let (b, found, kept, died) = only.before k d' g' in
      let same : b ≡ d = ground (arith, found, g) in
      elim (died (rw same alive)) [
        | inl lives ↦ absurd (ground (arith, lives, over))
        | inr doomed ↦ doomed
      ]

  after-IsValid : IsValid (kill_unhealth_instances clock w)
  unfolding kill_unhealth_instances
  after-IsValid = kill_each-IsValid clock _ _ (record { distinct = v.distinct; linked = v.linked })

  after-AllLater : AllLater m after
  unfolding kill_unhealth_instances
  after-AllLater =
      kill_each-AllLater clock _ _ (record { distinct = v.distinct; linked = v.linked })

  -- In a valid state, an instance that is alive is dead after a round of the kill loop exactly when it
  -- is, or descends from, an instance that is alive and unhealthy when the round reads the clock.
  pub round_kills_exactly :
      (k : Text) (d : InstanceDescription)
      → get k m ≡ some d
      → d.kill_instance_request ≡ none
      → IsDead after k ↔ Doomed m now k
  round_kills_exactly k d g alive = (
    Doomed-of_IsDead k d g alive,
    λ (j, e, reason, ge, ae, ill, under).
        handed_down m after v.linked after-IsValid.linked after-AllLater j k
          (round_kills clock w j e reason v ge ill) under,
  )
