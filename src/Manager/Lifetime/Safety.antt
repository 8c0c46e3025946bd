-- ===== src/Manager/Lifetime/Safety.antt =====
-- What holds in every state that the service can come to.
use tzafon_way_point.Prelude.{
  ℕ, ◌≡◌, inl, inr, true, false, Bool, some, Text, In, List, [], ◌∷◌, is_some, arith,
}
use tzafon_way_point.Proto.{Relationship, InstanceDescription, listed}
use tzafon_way_point.Dict.{get, empty, get-empty}
use tzafon_way_point.Dict.Distinct.{empty-IsDistinct}
use tzafon_way_point.Manager.World.{World, Exec, new}
use tzafon_way_point.Manager.Cascade.Kills.{IsGone-at}
use tzafon_way_point.Manager.Invariant.{Names, IsValid}
use tzafon_way_point.Manager.Invariant.Lift.{answered}
use tzafon_way_point.Manager.Apply.{apply_to_instance_description, get_instance_description}
use tzafon_way_point.Manager.Apply.Commit.{apply-IsValid}
use tzafon_way_point.Manager.Register.{insert_new_instance_description}
use tzafon_way_point.Manager.Register.Claim.{insert_new-IsValid}
use tzafon_way_point.Manager.Rpc.{
  gated, is_add, is_update, is_post, try_add_instance, try_update_instance_description,
  post_instance_description, get_all_instances, get_instance,
}
use tzafon_way_point.Manager.KillLoop.{kill_unhealth_instances}
use tzafon_way_point.Manager.KillLoop.Round.{kill_each-IsValid}
use tzafon_way_point.Manager.Lifetime.{
  Event, add, update, post, list_all, describe, kill_round, serve, serve_all, Reachable, started,
  served,
}

new-IsValid : IsValid new
new-IsValid = record {
  distinct = empty-IsDistinct InstanceDescription;
  linked = record {
    keyed = λ k d g. absurd (nothing k d g);
    born = λ k d g. absurd (nothing k d g);
    child_back = λ k d c g i. absurd (nothing k d g);
    parent_back = λ k d p g h. absurd (nothing k d g);
    settled = λ k d c i g dd l n. absurd (nothing k d g);
  };
}
  where
    nothing : (k : Text) (d : InstanceDescription) → get k empty ≡ some d → ⊥
    nothing k d g = ground (arith, g, get-empty {V = InstanceDescription} k)

gated-IsValid :
    (b : Bool) (m : Exec Bool) (w : World) → IsValid w → IsValid (m w).1 → IsValid (gated b m w).1
gated-IsValid true m w v h = h
gated-IsValid false m w v h = v

pub serve-IsValid : (clock : ℕ → ℕ) (w : World) (e : Event) → IsValid w → IsValid (serve clock w e)
unfolding serve try_add_instance try_update_instance_description post_instance_description
    get_all_instances get_instance get_instance_description kill_unhealth_instances
serve-IsValid clock w (add r) v =
    gated-IsValid (is_add r) (insert_new_instance_description clock r) w v
      (insert_new-IsValid clock r w v)
serve-IsValid clock w (update r) v =
    gated-IsValid (is_update r) (apply_to_instance_description clock r) w v
      (apply-IsValid clock r w v)
serve-IsValid clock w (post r) v =
    gated-IsValid (is_post r) (apply_to_instance_description clock r) w v
      (apply-IsValid clock r w v)
serve-IsValid clock w (list_all q) v = v
serve-IsValid clock w (describe id) v = v
serve-IsValid clock w kill_round v =
    kill_each-IsValid clock _ _ (record { distinct = v.distinct; linked = v.linked })

pub serve_all-IsValid :
    (clock : ℕ → ℕ) (es : List Event) (w : World) → IsValid w → IsValid (serve_all clock w es)
unfolding serve_all
serve_all-IsValid clock [] w v = v
serve_all-IsValid clock (e ∷ es) w v =
    serve_all-IsValid clock es (serve clock w e) (serve-IsValid clock w e v)

pub Reachable-IsValid : {clock : ℕ → ℕ} {w : World} → Reachable clock w → IsValid w
Reachable-IsValid started = new-IsValid
Reachable-IsValid {clock} (served {w} r e) = serve-IsValid clock w e (Reachable-IsValid r)

module _ {clock : ℕ → ℕ} {w : World} (r : Reachable clock w) where
  -- In a state that the service can come to, every instance that a dead one lists as its child is
  -- dead too, or no longer there.
  pub dead_parent-dead_child :
      (k i : Text) (d e : InstanceDescription) (c : Relationship)
      → get k w.instance_description ≡ some d
      → is_some d.kill_instance_request ≡ true
      → In c (listed d.children)
      → Names c i
      → get i w.instance_description ≡ some e
      → is_some e.kill_instance_request ≡ true
  dead_parent-dead_child k i d e c g dd l n g' =
      elim ((Reachable-IsValid r).linked.settled k d c i g dd l n) [
        | inl z ↦ absurd z
        | inr gone ↦ IsGone-at w.instance_description i e gone g'
      ]

  -- In a state that the service can come to, two instances that list the same instance among their
  -- children are one and the same.
  pub one_parent :
      (j k i : Text) (d e : InstanceDescription) (b c : Relationship)
      → get j w.instance_description ≡ some d
      → get k w.instance_description ≡ some e
      → In b (listed d.children)
      → In c (listed e.children)
      → Names b i
      → Names c i
      → j ≡ k
  one_parent j k i d e b c gd ge lb lc nb nc =
      let v = (Reachable-IsValid r).linked in
      let m = w.instance_description in
      let (i1, x, n1, g1, (p, hp, np)) = answered m b _ (v.child_back j d b gd lb) in
      let (i2, y, n2, g2, (q, hq, nq)) = answered m c _ (v.child_back k e c ge lc) in
      let same : i1 ≡ i2 = ground (arith, n1, n2, nb, nc) in
      let found : x ≡ y = ground (arith, g1, g2, same) in ground (arith, found, hp, hq, np, nq)
