-- ===== src/Manager/Cascade/Termination.antt =====
-- The loop of the cascade ends: a measure falls by one in each round.
use tzafon_way_point.Prelude.{
  ℕ, zero, suc, ◌+◌, ◌<◌, ◌≡◌, refl, ◌≢◌, ◌⊎◌, inl, inr, Option, none, some, List, [], ◌∷◌, ◌++◌,
  reverse, length, length-append, length-reverse, Text, arith, Option-cases,
}
use tzafon_way_point.Prelude.Status.{err, diverged}
use tzafon_way_point.Proto.{
  parent_dead, reason_code, InstanceId, Relationship, KillInstanceRequest, InstanceDescription,
  listed,
}
use tzafon_way_point.Dict.{Dict, get, insert}
use tzafon_way_point.Dict.Weight.{weigh, weigh-insert}
use tzafon_way_point.Manager.Traits.{update_instance_description}
use tzafon_way_point.Manager.World.{World}
use tzafon_way_point.Manager.Cascade.{
  bad_id, passed, alive, visit, mark, propagate, unvisited, measure, cascade,
}

-- What a round says of the child that it popped.
abbrev pub IsBad : Dict InstanceDescription → Option InstanceId → Type 0
IsBad m o = (o ≡ none) × (visit m o ≡ bad_id)

abbrev pub IsPassed : Dict InstanceDescription → Option InstanceId → Type 0
IsPassed m o =
    (id : InstanceId) × (o ≡ some id)
    × ((get id.instance_id m ≡ none)
        ⊎ ((d : InstanceDescription) × (r : KillInstanceRequest) × (get id.instance_id m ≡ some d)
            × (d.kill_instance_request ≡ some r)))
    × (visit m o ≡ passed)

abbrev pub IsAlive : Dict InstanceDescription → Option InstanceId → Type 0
IsAlive m o =
    (k : Text) × (d : InstanceDescription) × (o ≡ some (record { instance_id = k }))
    × (get k m ≡ some d)
    × (d.kill_instance_request ≡ none)
    × (visit m o ≡ alive k d)

pub visit_cases :
    (m : Dict InstanceDescription) (o : Option InstanceId)
    → IsBad m o ⊎ (IsPassed m o ⊎ IsAlive m o)
unfolding visit
visit_cases m none = inl (refl, refl)
visit_cases m (some id) = elim (Option-cases (get id.instance_id m)) [
  | inl e ↦ inr (inl (id, refl, inl e, ground arith))
  | inr (d, e) ↦ elim (Option-cases d.kill_instance_request) [
    | inl f ↦ inr (inr (id.instance_id, d, refl, e, f, ground arith))
    | inr (r, f) ↦ inr (inl (id, refl, inr (d, r, e, f), ground arith))
  ]
]

-- The description that `ParentDead` leaves behind.
abbrev pub dead : ℕ → InstanceDescription → InstanceDescription
dead now d = record d {
  kill_instance_request = some (record {
    timestamp_ms = some (record { timestamp_ms = now });
    kill_reason = reason_code parent_dead;
  });
}

pub mark_lem :
    (clock : ℕ → ℕ) (k : Text) (d : InstanceDescription) (w : World)
    → mark clock k d w ≡ record {
      instance_description = insert k (dead (clock w.reads) d) w.instance_description;
      reads = suc w.reads;
    }
unfolding mark update_instance_description
mark_lem clock k d w = refl

-- The round that kills takes the children of the killed instance out of what is unvisited.
weigh-mark :
    (clock : ℕ → ℕ) (k : Text) (d : InstanceDescription) (w : World)
    → get k w.instance_description ≡ some d
    → d.kill_instance_request ≡ none
    → weigh unvisited (mark clock k d w).instance_description + length (listed d.children)
      ≡ weigh unvisited w.instance_description
weigh-mark clock k d w e f =
    let moved = weigh-insert unvisited k (dead (clock w.reads) d) d w.instance_description e in
    rw (mark_lem clock k d w) (omega (arith, moved, spent))
  where
    spent : unvisited d ≡ length (listed d.children)
    spent = ground arith

pub measure_falls :
    (clock : ℕ → ℕ) (fuel : ℕ) (k : Text) (d : InstanceDescription) (c : Relationship)
    (stack : List Relationship) (w : World)
    → measure (c ∷ stack) w < suc fuel
    → get k w.instance_description ≡ some d
    → d.kill_instance_request ≡ none
    → measure (reverse (listed d.children) ++ stack) (mark clock k d w) < fuel
measure_falls clock fuel k d c stack w h g f = omega (
  arith,
  length-append (reverse (listed d.children)) stack,
  length-reverse (listed d.children),
  weigh-mark clock k d w g f,
)

-- With more fuel than the measure the loop does not run out of it.
propagate-ne-diverged :
    (clock : ℕ → ℕ) (fuel : ℕ) (stack : List Relationship) (w : World)
    → measure stack w < fuel
    → (propagate clock fuel stack w).0 ≢ err diverged
unfolding propagate
propagate-ne-diverged clock zero stack w h = absurd (omega arith)
propagate-ne-diverged clock (suc fuel) [] w h = λ e. cc
propagate-ne-diverged clock (suc fuel) (c ∷ stack) w h =
    elim (visit_cases w.instance_description c.instance_id) [
      | inl (o, e) ↦ rw (e, propagate) (λ e. cc)
      | inr (inl (id, o, x, e)) ↦
          rw (e, propagate) (propagate-ne-diverged clock fuel stack w (omega arith))
      | inr (inr (k, d, o, g, f, e)) ↦
          rw (e, propagate)
            (propagate-ne-diverged clock fuel (reverse (listed d.children) ++ stack)
              (mark clock k d w) (measure_falls clock fuel k d c stack w h g f))
    ]

-- The cascade never runs out of its rounds.
pub cascade-ne-diverged :
    (clock : ℕ → ℕ) (d : InstanceDescription) (w : World) → (cascade clock d w).0 ≢ err diverged
unfolding cascade
cascade-ne-diverged clock d w =
    let stack = reverse (listed d.children) in
    propagate-ne-diverged clock (suc (measure stack w)) stack w (omega arith)
