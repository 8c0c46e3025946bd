-- ===== src/Manager/Apply/Stamps.antt =====
-- Every parent and every kill request that is stored has the time of its storing.
use mathlib.Core.Path.{subst}
use tzafon_way_point.Prelude.{
  ℕ, ◌≡◌, refl, sym, ap, ◌∙◌, inl, inr, true, Bool, Option, none, some, Text, is_some, List, [],
  ◌∷◌, arith, Bool-cases, Option-cases, String,
}
use tzafon_way_point.Prelude.Status.{Result, ok, err}
use tzafon_way_point.Proto.{
  InstanceId, Relationship, Children, KillInstanceRequest, InstanceDescription, listed,
}
use tzafon_way_point.Dict.{get, insert}
use tzafon_way_point.Manager.World.{World, Exec, find, continue, ◌>>◌, pure}
use tzafon_way_point.Manager.Traits.{
  update_instance_description, get_instance_id, relationship_entry, children_entry,
}
use tzafon_way_point.Manager.Cascade.Kills.{Instances, Kills, Kills-before, cascade-Kills}
use tzafon_way_point.Manager.Invariant.Lift.{insert_cases}
use tzafon_way_point.Manager.Apply.{
  write_fields, rewrite, tie, adopt_children, join_parent, finish, commit,
  apply_to_instance_description,
}
use tzafon_way_point.Manager.Apply.Fields.{Ties, ties, stamped, Written, write_fields-Written}
use tzafon_way_point.Manager.Apply.Commit.{apply-Decided}
use tzafon_way_point.Manager.Apply.Ageing.{rewritten}

pub record IsStamped (d : InstanceDescription) : Type 0 where
  pub parent : (p : Relationship) → d.parent ≡ some p → is_some p.timestamp_ms ≡ true
  pub death :
      (q : KillInstanceRequest) → d.kill_instance_request ≡ some q → is_some q.timestamp_ms ≡ true

unfoldable pub AllStamped : Instances → Type 0
AllStamped m = (k : Text) (d : InstanceDescription) → get k m ≡ some d → IsStamped d

pub insert-AllStamped :
    (m : Instances) (k : Text) (d : InstanceDescription)
    → AllStamped m
    → IsStamped d
    → AllStamped (insert k d m)
unfolding AllStamped
insert-AllStamped m k d h s j x g = elim (insert_cases k j d x m g) [
  | inl (same, e) ↦ subst IsStamped (sym e) s
  | inr (miss, g') ↦ h j x g'
]

Written-IsStamped :
    (r d d' : InstanceDescription) → Written r (ties d) (ties d') → IsStamped d → IsStamped d'
Written-IsStamped r d d' (t, u, v, e) s = record {
  parent = λ p h. elim (Option-cases r.parent) [
    | inl no_new ↦ s.parent p (sym (ap (λ (x : Ties). x.parent) e ∙ rw no_new refl) ∙ h)
    | inr (q, new) ↦
        let now : some (stamped t q) ≡ some p =
          sym (ap (λ (x : Ties). x.parent) e ∙ rw new refl) ∙ h in
        ground (arith, now)
  ];
  death = λ q h. elim (Option-cases r.kill_instance_request) [
    | inl no_new ↦
        s.death q (sym (ap (λ (x : Ties). x.kill_instance_request) e ∙ rw no_new refl) ∙ h)
    | inr (k, new) ↦
        let now : some (record k { timestamp_ms = some v }) ≡ some q =
          sym (ap (λ (x : Ties). x.kill_instance_request) e ∙ rw new refl) ∙ h in
        ground (arith, now)
  ];
}

Kills-AllStamped : {m m' : Instances} → Kills m m' → AllStamped m → AllStamped m'
unfolding AllStamped
Kills-AllStamped h s k d g =
    let (b, g', how) = Kills-before k d h g in
    let sb = s k b g' in
    elim how [
      | inl e ↦ subst IsStamped (sym e) sb
      | inr (t, e) ↦
          subst IsStamped (sym e) (record { parent = sb.parent; death = λ q z. ground (arith, z) })
    ]

abbrev Stamped : World → Type 0
Stamped w = AllStamped w.instance_description

continue-Stamped :
    {B : Type 0} (r : Result (Unit {0})) (w : World) (k : Exec B)
    → Stamped w
    → ((w' : World) → Stamped w' → Stamped (k w').1)
    → Stamped (continue r (λ _. k) w).1
continue-Stamped (ok tt) w k h f = f w h
continue-Stamped (err x) w k h f = h

seq-Stamped :
    {B : Type 0} (m : Exec (Unit {0})) (k : Exec B) (w : World)
    → Stamped (m w).1
    → ((w' : World) → Stamped w' → Stamped (k w').1)
    → Stamped ((m >> k) w).1
seq-Stamped m k w h f = continue-Stamped (m w).0 (m w).1 k h f

rewrite-Stamped :
    (clock : ℕ → ℕ) (k : Text) (what : String)
    (f : InstanceDescription × ℕ → InstanceDescription × ℕ) (w : World)
    → Stamped w
    → ((d : InstanceDescription) (n : ℕ) → IsStamped d → IsStamped (f (d, n)).0)
    → Stamped (rewrite clock k what f w).1
unfolding AllStamped
rewrite-Stamped clock k what f w h l = elim (rewritten clock k what f w) [
  | inl (x, e) ↦ rw e h
  | inr (d, g, same) ↦
      rw same
        (insert-AllStamped w.instance_description k (f (d, w.reads)).0 h (l d w.reads (h k d g)))
]

adopt_children-Stamped :
    (clock : ℕ → ℕ) (id : InstanceId) (cs : List Relationship) (w : World)
    → Stamped w
    → Stamped (adopt_children clock id cs w).1
unfolding adopt_children update_instance_description get_instance_id
adopt_children-Stamped clock id [] w h = h
adopt_children-Stamped clock id (c ∷ cs) w h = elim (Option-cases c.instance_id) [
  | inl e ↦ rw e h
  | inr (i, e) ↦ rw e (
      seq-Stamped
        (rewrite clock i.instance_id "Child instance not found"
          (update_instance_description clock (some (tie id))))
        (adopt_children clock id cs) w
        (rewrite-Stamped clock i.instance_id "Child instance not found"
          (update_instance_description clock (some (tie id))) w h
          (λ d n s. record { parent = λ p z. ground (arith, z); death = s.death }))
        (adopt_children-Stamped clock id cs))
]

join_parent-Stamped :
    (clock : ℕ → ℕ) (id : InstanceId) (o : Option Relationship) (w : World)
    → Stamped w
    → Stamped (join_parent clock id o w).1
unfolding join_parent update_instance_description get_instance_id
join_parent-Stamped clock id none w h = h
join_parent-Stamped clock id (some p) w h = elim (Option-cases p.instance_id) [
  | inl e ↦ rw e h
  | inr (i, e) ↦ rw e (
      rewrite-Stamped clock i.instance_id "Parent instance not found"
        (update_instance_description {T = Children} clock
          (some (record { children = tie id ∷ [] })))
        w h (λ d n s. record { parent = s.parent; death = s.death }))
]

finish-Stamped :
    (clock : ℕ → ℕ) (id : InstanceId) (w : World) → Stamped w → Stamped (finish clock id w).1
unfolding finish find
finish-Stamped clock id w h = elim (Option-cases (get id.instance_id w.instance_description)) [
  | inl e ↦ rw (e, finish, find) h
  | inr (d, e) ↦ elim (Bool-cases (is_some d.kill_instance_request)) [
    | inr alive ↦ rw (e, finish, find) (rw alive h)
    | inl over ↦ rw (e, finish, find) (rw over (Kills-AllStamped (cascade-Kills clock d w) h))
  ]
]

commit-Stamped :
    (clock : ℕ → ℕ) (r : InstanceDescription) (id : InstanceId) (w : World)
    → Stamped w
    → Stamped (commit clock r id w).1
unfolding commit
commit-Stamped clock r id w h =
    seq-Stamped (rewrite clock id.instance_id "Instance not found" (write_fields clock r)) adopted w
      (rewrite-Stamped clock id.instance_id "Instance not found" (write_fields clock r) w h (λ d n.
        Written-IsStamped r d (write_fields clock r (d, n)).0
          (write_fields-Written clock r (d, n))))
      λ w1 h1.
        seq-Stamped (adopt_children clock id (listed r.children)) joined w1
          (adopt_children-Stamped clock id (listed r.children) w1 h1)
          λ w2 h2.
            seq-Stamped (join_parent clock id r.parent) finished w2
              (join_parent-Stamped clock id r.parent w2 h2)
              λ w3 h3.
                seq-Stamped (finish clock id) (pure true) w3 (finish-Stamped clock id w3 h3)
                  λ w4 h4. h4
  where
    finished : Exec Bool
    finished = finish clock id >> pure true

    joined : Exec Bool
    joined = join_parent clock id r.parent >> finished

    adopted : Exec Bool
    adopted = adopt_children clock id (listed r.children) >> joined

pub apply-AllStamped :
    (clock : ℕ → ℕ) (r : InstanceDescription) (w : World)
    → AllStamped w.instance_description
    → AllStamped (apply_to_instance_description clock r w).1.instance_description
apply-AllStamped clock r w h = elim (apply-Decided clock r w) [
  | inl (id, named, c, e) ↦ rw e (commit-Stamped clock r id w h)
  | inr (res, n, e) ↦ rw e h
]
