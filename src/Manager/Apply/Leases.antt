-- ===== src/Manager/Apply/Leases.antt =====
-- What an accepted request that names a parent leaves behind.
use mathlib.Core.Path.{subst}
use tzafon_way_point.Prelude.{
  ℕ, ◌≡◌, refl, sym, ap, ◌∙◌, inl, inr, true, Bool, none, some, Text, arith,
}
use tzafon_way_point.Prelude.Status.{Result, ok}
use tzafon_way_point.Proto.{TimestampMs, InstanceId, Relationship, InstanceDescription, listed}
use tzafon_way_point.Dict.{get, insert, get-insert_self}
use tzafon_way_point.Manager.World.{World, Exec, find, ◌>>◌, pure}
use tzafon_way_point.Manager.Cascade.Kills.{Instances}
use tzafon_way_point.Manager.Invariant.{IsValid}
use tzafon_way_point.Manager.Apply.{
  write_fields, rewrite, adopt_children, join_parent, finish, commit, apply_to_instance_description,
}
use tzafon_way_point.Manager.Apply.Fields.{Ties, stamped, write_fields-Written}
use tzafon_way_point.Manager.Apply.Checks.{check_request-Accepted}
use tzafon_way_point.Manager.Apply.Commit.{apply-Decided}
use tzafon_way_point.Manager.Apply.Later.{AllLater, AllLater-refl}
use tzafon_way_point.Manager.Apply.Ageing.{
  Since, AreFree, seq-Since, adopt_children-Since, join_parent-Since, finish-Since,
}

abbrev pub others : (ℕ → ℕ) → InstanceDescription → InstanceId → Exec Bool
others clock r id =
    adopt_children clock id (listed r.children)
    >> (join_parent clock id r.parent >> (finish clock id >> pure true))

abbrev pub written :
    (ℕ → ℕ) → InstanceDescription → InstanceId → InstanceDescription → World → World
written clock r id d w = record {
  instance_description =
      insert id.instance_id (write_fields clock r (d, w.reads)).0 w.instance_description;
  reads = (write_fields clock r (d, w.reads)).1;
}

pub commit_lem :
    (clock : ℕ → ℕ) (r : InstanceDescription) (id : InstanceId) (d : InstanceDescription)
    (w : World)
    → get id.instance_id w.instance_description ≡ some d
    → commit clock r id w ≡ others clock r id (written clock r id d w)
unfolding commit rewrite find
commit_lem clock r id d w g = rw (g, rewrite, find) refl

pub finish_alive :
    (clock : ℕ → ℕ) (id : InstanceId) (d : InstanceDescription) (w : World)
    → get id.instance_id w.instance_description ≡ some d
    → d.kill_instance_request ≡ none
    → (finish clock id >> pure true) w ≡ (ok true, w)
unfolding finish find
finish_alive clock id d w g alive = rw (g, finish, find) (rw alive refl)

pub others-Since :
    (clock : ℕ → ℕ) (r : InstanceDescription) (id : InstanceId) (w : World)
    → AreFree w.instance_description (listed r.children)
    → Since w.instance_description (others clock r id w).1
others-Since clock r id w free =
    let m0 = w.instance_description in
    seq-Since m0 (adopt_children clock id (listed r.children))
      (join_parent clock id r.parent >> (finish clock id >> pure true)) w
      (adopt_children-Since m0 clock id (listed r.children) w free (AllLater-refl m0))
      λ w2 h2.
        seq-Since m0 (join_parent clock id r.parent) (finish clock id >> pure true) w2
          (join_parent-Since m0 clock id r.parent w2 h2)
          λ w3 h3.
            seq-Since m0 (finish clock id) (pure true) w3 (finish-Since m0 clock id w3 h3)
              λ w4 h4. h4

-- The parent that a state holds for an instance.
abbrev pub HasParent : Instances → Text → Relationship → Type 0
HasParent m k q =
    (d : InstanceDescription) × (t : TimestampMs) × (get k m ≡ some d)
    × (d.parent ≡ some (stamped t q))

commit-HasParent :
    (clock : ℕ → ℕ) (r : InstanceDescription) (id : InstanceId) (d : InstanceDescription)
    (q : Relationship) (w : World)
    → get id.instance_id w.instance_description ≡ some d
    → r.parent ≡ some q
    → r.children ≡ none
    → HasParent (commit clock r id w).1.instance_description id.instance_id q
unfolding AllLater
commit-HasParent clock r id d q w g wants childless =
    let w1 = written clock r id d w in
    let d1 = (write_fields clock r (d, w.reads)).0 in
    let (t, u, v, e) = write_fields-Written clock r (d, w.reads) in
    let mine : d1.parent ≡ some (stamped t q) = ap (λ (x : Ties). x.parent) e ∙ rw wants refl in
    let free : AreFree w1.instance_description (listed r.children) =
      subst (λ o. AreFree w1.instance_description (listed o)) (sym childless)
        (λ c i x m. absurd m.1) in
    let (d2, g2, later) =
      others-Since clock r id w1 free id.instance_id d1
        (get-insert_self id.instance_id d1 w.instance_description) in
    rw (commit_lem clock r id d w g) (d2, t, g2, later.parent (stamped t q) mine)

-- In a valid state, a request with a parent and without children that succeeds leaves its instance
-- with that parent, and found it alive and without one.
pub apply-HasParent :
    (clock : ℕ → ℕ) (r : InstanceDescription) (id : InstanceId) (q : Relationship) (w : World)
    → IsValid w
    → r.instance_id ≡ some id
    → r.parent ≡ some q
    → r.children ≡ none
    → (apply_to_instance_description clock r w).0 ≡ ok true
    → ((d : InstanceDescription) × (get id.instance_id w.instance_description ≡ some d)
        × (d.parent ≡ none)
        × (d.kill_instance_request ≡ none))
      × HasParent (apply_to_instance_description clock r w).1.instance_description id.instance_id q
apply-HasParent clock r id q w v names wants childless done = elim (apply-Decided clock r w) [
  | inr (res, n, e) ↦ absurd (n (sym (ap (λ (x : Result Bool × World). x.0) e) ∙ done))
  | inl (id', named, c, e) ↦
      let (d, a) = check_request-Accepted w.instance_description r id' v.linked c in
      let same : id' ≡ id = ground (arith, named, names) in
      let h = commit-HasParent clock r id' d q w a.here wants childless in
      (
        (
          d,
          subst (λ (x : InstanceId). get x.instance_id w.instance_description ≡ some d) same a.here,
          (a.parent_fits q wants).1,
          a.alive,
        ),
        subst
            (λ (x : InstanceId).
              HasParent (apply_to_instance_description clock r w).1.instance_description
                x.instance_id q)
            same (rw e h),
      )
]
