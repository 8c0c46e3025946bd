-- ===== src/Manager/Apply/Checks.antt =====
-- What it takes for a request to pass the checks.
use mathlib.Core.Path.{subst}
use tzafon_way_point.Prelude.{
  ◌≡◌, inl, inr, true, false, none, some, Text, In, text_eq, List, [], ◌∷◌, arith, Option-cases,
}
use tzafon_way_point.Prelude.Status.{ok}
use tzafon_way_point.Proto.{InstanceId, Relationship, InstanceDescription, listed}
use tzafon_way_point.Dict.{get}
use tzafon_way_point.Manager.World.{find}
use tzafon_way_point.Manager.Traits.{get_instance_id}
use tzafon_way_point.Manager.Relations.{
  same_id, validate_relationship, check_parent, check_children, check_request,
}
use tzafon_way_point.Manager.Cascade.Kills.{Instances}
use tzafon_way_point.Manager.Invariant.{IsLinked}
use tzafon_way_point.Manager.Apply.Own.{ChildFits, ParentFits}

validate_true :
    (parent child : InstanceDescription)
    → validate_relationship parent child ≡ ok true
    → (same_id parent.instance_id child.instance_id ≡ false)
      × (parent.kill_instance_request ≡ none)
      × (child.parent ≡ none)
unfolding validate_relationship
validate_true parent child h = ground arith

-- A relationship that leads to an instance, with what it was found to be.
abbrev Finds : Instances → Relationship → InstanceDescription → Type 0
Finds m c e = (id : InstanceId) × (c.instance_id ≡ some id) × (get id.instance_id m ≡ some e)

check_parent-true :
    (m : Instances) (d : InstanceDescription) (p : Relationship)
    → check_parent m d (some p) ≡ ok true
    → (e : InstanceDescription) × Finds m p e × (validate_relationship e d ≡ ok true)
unfolding check_parent find get_instance_id
check_parent-true m d p h = elim (Option-cases p.instance_id) [
  | inl e ↦ absurd (ground (arith, h, e))
  | inr (id, e) ↦ elim (Option-cases (get id.instance_id m)) [
    | inl f ↦ absurd (ground (arith, h, e, f))
    | inr (x, f) ↦ (x, (id, e, f), ground (arith, h, e, f))
  ]
]

first_child_true :
    (m : Instances) (d : InstanceDescription) (c : Relationship) (cs : List Relationship)
    → check_children m d (c ∷ cs) ≡ ok true
    → (e : InstanceDescription) × Finds m c e
      × (validate_relationship d e ≡ ok true)
      × (check_children m d cs ≡ ok true)
unfolding check_children find get_instance_id
first_child_true m d c cs h = elim (Option-cases c.instance_id) [
  | inl e ↦ absurd (ground (arith, h, e))
  | inr (id, e) ↦ elim (Option-cases (get id.instance_id m)) [
    | inl f ↦ absurd (ground (arith, h, e, f))
    | inr (x, f) ↦ (x, (id, e, f), ground (arith, h, e, f), ground (arith, h, e, f))
  ]
]

check_children-true :
    (m : Instances) (d : InstanceDescription) (cs : List Relationship) (c : Relationship)
    → check_children m d cs ≡ ok true
    → In c cs
    → (e : InstanceDescription) × Finds m c e × (validate_relationship d e ≡ ok true)
check_children-true m d [] c h i = absurd i.1
check_children-true m d (c' ∷ cs) c h (inl e) =
    let (x, f, v, rest) = first_child_true m d c' cs h in rw (← e) (x, f, v)
check_children-true m d (c' ∷ cs) c h (inr i) =
    let (x, f, v, rest) = first_child_true m d c' cs h in check_children-true m d cs c rest i

check_request-true :
    (m : Instances) (r : InstanceDescription) (id : InstanceId)
    → check_request m r id ≡ ok true
    → (d : InstanceDescription) × (get id.instance_id m ≡ some d)
      × (d.kill_instance_request ≡ none)
      × (check_parent m d r.parent ≡ ok true)
      × (check_children m d (listed r.children) ≡ ok true)
unfolding check_request
check_request-true m r id h = elim (Option-cases (get id.instance_id m)) [
  | inl e ↦ absurd (ground (arith, h, e))
  | inr (d, e) ↦ (d, e, ground (arith, h, e), ground (arith, h, e), ground (arith, h, e))
]

-- Under their own keys two instances are told apart by their ids.
same_id_keys :
    (m : Instances) (i j : Text) (d e : InstanceDescription)
    → IsLinked m
    → get i m ≡ some d
    → get j m ≡ some e
    → same_id d.instance_id e.instance_id ≡ false
    → text_eq i j ≡ false
unfolding same_id
same_id_keys m i j d e v g h f = ground (arith, v.keyed i d g, v.keyed j e h)

-- What an accepted request may rely on.
pub record Accepted (m : Instances) (r : InstanceDescription) (k : Text) (d : InstanceDescription)
    : Type 0 where
  pub here : get k m ≡ some d
  pub alive : d.kill_instance_request ≡ none
  pub children_fit : (c : Relationship) → In c (listed r.children) → ChildFits m k c
  pub parent_fits : (p : Relationship) → r.parent ≡ some p → ParentFits m k p × (d.parent ≡ none)

pub check_request-Accepted :
    (m : Instances) (r : InstanceDescription) (id : InstanceId)
    → IsLinked m
    → check_request m r id ≡ ok true
    → (d : InstanceDescription) × Accepted m r id.instance_id d
check_request-Accepted m r id v h =
    let (d, g, alive, up, down) = check_request-true m r id h in
    (
      d,
      record {
        here = g;
        alive = alive;
        children_fit = λ c l.
            let (e, (i, o, f), ok_child) = check_children-true m d (listed r.children) c down l in
            let (ids, _, free) = validate_true d e ok_child in
            (
              i.instance_id,
              e,
              o,
              same_id_keys m id.instance_id i.instance_id d e v g f ids,
              f,
              free,
            );
        parent_fits = λ p new.
            let (e, (i, o, f), ok_parent) =
              check_parent-true m d p (subst (λ o. check_parent m d o ≡ ok true) new up) in
            let (ids, living, free) = validate_true e d ok_parent in
            (
              (
                i.instance_id,
                e,
                o,
                same_id_keys m i.instance_id id.instance_id e d v f g ids,
                f,
                living,
              ),
              free,
            );
      },
    )
