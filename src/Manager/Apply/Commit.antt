-- ===== src/Manager/Apply/Commit.antt =====
-- The whole of `apply_to_instance_description`: all or nothing, and a valid state again.
use tzafon_way_point.Prelude.{
  ℕ, ◌≡◌, refl, ◌∙◌, ◌⊎◌, inl, inr, true, false, Bool, some, Text, In, ◌≢◌, Option-cases, is_none,
  ◌&&◌, arith, All-of_In, Bool-cases, In-append_right,
}
use tzafon_way_point.Prelude.Status.{Result, ok, err, invalid_argument}
use tzafon_way_point.Proto.{InstanceId, InstanceDescription, listed}
use tzafon_way_point.Dict.{insert, get-insert_self}
use tzafon_way_point.Dict.Distinct.{IsDistinct, insert-IsDistinct}
use tzafon_way_point.Manager.World.{World, find}
use tzafon_way_point.Manager.Relations.{check_request}
use tzafon_way_point.Manager.Cascade.Kills.{Instances}
use tzafon_way_point.Manager.Invariant.{IsLinked, IsValid}
use tzafon_way_point.Manager.Invariant.Lift.{get-insert_ne, map-In}
use tzafon_way_point.Manager.Apply.{
  write_fields, rewrite, adopt_children, join_parent, commit, apply_to_instance_description,
}
use tzafon_way_point.Manager.Apply.Fields.{ties, stamped, Written, write_fields-Written}
use tzafon_way_point.Manager.Apply.Own.{own-Linked, own_children, own_parent, text_eq_swap}
use tzafon_way_point.Manager.Apply.Adopt.{Midway, ChildWaits, adopt_children-Midway}
use tzafon_way_point.Manager.Apply.Join.{join_parent-Midway}
use tzafon_way_point.Manager.Apply.Finish.{finish-IsValid}
use tzafon_way_point.Manager.Apply.Checks.{Accepted, check_request-Accepted}

own-Midway :
    (m : Instances) (r : InstanceDescription) (k : Text) (d d' : InstanceDescription)
    → IsDistinct m
    → IsLinked m
    → Accepted m r k d
    → Written r (ties d) (ties d')
    → Midway k d' (listed r.children) r.parent (insert k d' m)
own-Midway m r k d d' distinct v a written = record {
  distinct = insert-IsDistinct k d' m distinct;
  linked = own-Linked m k r d d' a.here a.alive written a.children_fit a.parent_fits v;
  here = get-insert_self k d' m;
  children_wait = All-of_In (ChildWaits k d' (insert k d' m)) (listed r.children) λ c l.
      let (i, e, names, ne, g, free) = a.children_fit c l in
      let (u, now) = own_children r d d' written in
      let mine : In (stamped u c) (listed d'.children) = rw now (
        In-append_right (stamped u c) (listed d.children) _
          (map-In (stamped u) c (listed r.children) l)) in
      (
        i,
        e,
        names,
        text_eq_swap k i ne,
        (stamped u c, mine, names),
        get-insert_ne k i d' m ne ∙ g,
        inl free,
      );
  parent_waits = λ p up.
      let (i, e, names, ne, g, alive) = (a.parent_fits p up).0 in
      let (t, now) = own_parent r d d' written in
      (
        i,
        e,
        names,
        ne,
        (stamped t p, ground (arith, now, up), names),
        get-insert_ne k i d' m (text_eq_swap i k ne) ∙ g,
        alive,
      );
}

abbrev Done : Result (Unit {0}) × World → (World → Type 0) → Type 0
Done (r, w) P = (r ≡ ok tt) × P w

own_write-Midway :
    (clock : ℕ → ℕ) (r : InstanceDescription) (id : InstanceId) (d : InstanceDescription)
    (w : World)
    → IsValid w
    → Accepted w.instance_description r id.instance_id d
    → (own : InstanceDescription) × Done
        (rewrite clock id.instance_id "Instance not found" (write_fields clock r) w)
        (λ w'. Midway id.instance_id own (listed r.children) r.parent w'.instance_description)
unfolding rewrite find
own_write-Midway clock r id d w v a = (
  (write_fields clock r (d, w.reads)).0,
  rw (a.here, rewrite, find)
      (
        refl,
        own-Midway w.instance_description r id.instance_id d _ v.distinct v.linked a
            (write_fields-Written clock r (d, w.reads)),
      ),
)

-- Past the checks a request succeeds, whatever it holds.
pub commit-IsValid :
    (clock : ℕ → ℕ) (r : InstanceDescription) (id : InstanceId) (d : InstanceDescription)
    (w : World)
    → IsValid w
    → Accepted w.instance_description r id.instance_id d
    → let (res, w') = commit clock r id w in (res ≡ ok true) × IsValid w'
unfolding commit
commit-IsValid clock r id d w v a =
    let (own, (e1, h1)) = own_write-Midway clock r id d w v a in
    let w1 = (rewrite clock id.instance_id "Instance not found" (write_fields clock r) w).1 in
    let (e2, h2) = adopt_children-Midway clock id own r.parent (listed r.children) w1 h1 in
    let w2 = (adopt_children clock id (listed r.children) w1).1 in
    let (e3, h3) = join_parent-Midway clock id own r.parent w2 h2 in
    let w3 = (join_parent clock id r.parent w2).1 in
    let (e4, h4) = finish-IsValid clock id own w3 h3 in rw e1 (rw e2 (rw e3 (rw e4 (refl, h4))))

-- What a request may end in: it was carried out, or nothing at all has happened.
abbrev pub AllOrNothing : World → Result Bool × World → Type 0
AllOrNothing w (r, w') = ((r ≡ ok true) × IsValid w') ⊎ ((r ≢ ok true) × (w' ≡ w))

-- The guards of `apply_to_instance_description` decide: they answer themselves, or pass the request
-- on to `commit`.
abbrev pub Decided : (ℕ → ℕ) → InstanceDescription → World → Type 0
Decided clock r w =
    ((id : InstanceId) × (r.instance_id ≡ some id)
      × (check_request w.instance_description r id ≡ ok true)
      × (apply_to_instance_description clock r w ≡ commit clock r id w))
    ⊎ ((res : Result Bool) × (res ≢ ok true) × (apply_to_instance_description clock r w ≡ (res, w)))

apply_checked :
    (clock : ℕ → ℕ) (r : InstanceDescription) (w : World) (id : InstanceId) (res : Result Bool)
    → r.instance_id ≡ some id
    → (is_none r.created_timestamp_ms && is_none r.instance_type) ≡ true
    → check_request w.instance_description r id ≡ res
    → Decided clock r w
unfolding apply_to_instance_description
apply_checked clock r w id (err x) e f c =
    inr (err x, (λ z. cc), rw (e, apply_to_instance_description) (rw f (rw c)))
apply_checked clock r w id (ok false) e f c =
    inr (ok false, (λ z. cc), rw (e, apply_to_instance_description) (rw f (rw c)))
apply_checked clock r w id (ok true) e f c = inl (id, e, c, ground (arith, e, f, c))

pub apply-Decided : (clock : ℕ → ℕ) (r : InstanceDescription) (w : World) → Decided clock r w
unfolding apply_to_instance_description
apply-Decided clock r w = elim (Option-cases r.instance_id) [
  | inl e ↦
      inr
        (err (invalid_argument "Invalid request"), (λ z. cc), rw (e, apply_to_instance_description))
  | inr (id, e) ↦ elim (Bool-cases (is_none r.created_timestamp_ms && is_none r.instance_type)) [
    | inl f ↦ apply_checked clock r w id (check_request w.instance_description r id) e f refl
    | inr f ↦ inr (
      err (invalid_argument "Invalid request"),
      (λ z. cc),
      rw (e, apply_to_instance_description) (rw f),
    )
  ]
]

-- In a valid state a request is carried out whole, or it leaves the state as it was.
pub apply-AllOrNothing :
    (clock : ℕ → ℕ) (r : InstanceDescription) (w : World)
    → IsValid w
    → AllOrNothing w (apply_to_instance_description clock r w)
apply-AllOrNothing clock r w v = elim (apply-Decided clock r w) [
  | inl (id, named, c, e) ↦
      let (d, a) = check_request-Accepted w.instance_description r id v.linked c in
      rw e (inl (commit-IsValid clock r id d w v a))
  | inr (res, n, e) ↦ rw e (inr (n, refl))
]

-- So a request keeps the state valid, however it ends.
pub apply-IsValid :
    (clock : ℕ → ℕ) (r : InstanceDescription) (w : World)
    → IsValid w
    → IsValid (apply_to_instance_description clock r w).1
apply-IsValid clock r w v = elim (apply-AllOrNothing clock r w v) [
  | inl (e, valid) ↦ valid
  | inr (n, same) ↦ rw same v
]
