-- ===== src/Manager/KillLoop/Requests.antt =====
-- Requests that only kill, one after the other, and whom they take along.
use mathlib.Core.Path.{subst}
use tzafon_way_point.Prelude.{
  ℕ, ◌≡◌, refl, ◌∙◌, ap, inl, inr, true, none, some, Option, List, [], ◌∷◌, Text, is_some, arith,
  Bool-cases, Option-cases, All,
}
use tzafon_way_point.Prelude.Status.{Result, ok, err}
use tzafon_way_point.Proto.{
  InstanceId, KillInstanceRequest, Relationship, InstanceDescription, listed,
}
use tzafon_way_point.Dict.{get}
use tzafon_way_point.Manager.World.{World, Exec, find, ◌>>◌, pure, continue}
use tzafon_way_point.Manager.Invariant.{IsValid}
use tzafon_way_point.Manager.Apply.{
  write_fields, adopt_children, join_parent, finish, commit, apply_to_instance_description,
}
use tzafon_way_point.Manager.Apply.Fields.{Ties, write_fields-Written}
use tzafon_way_point.Manager.Apply.Commit.{apply-Decided, apply-IsValid}
use tzafon_way_point.Manager.Apply.Checks.{check_request-Accepted}
use tzafon_way_point.Manager.Apply.Leases.{written, commit_lem}
use tzafon_way_point.Manager.Apply.Endings.{OnlyKills}
use tzafon_way_point.Manager.KillLoop.{kill_each}
use tzafon_way_point.Manager.KillLoop.Blame.{
  IsClosed, KillsOnly, KillsOnly-refl, KillsOnly-trans, KillsOnly-IsClosed, KillsOnly-insert,
  cascade-KillsOnly,
}

module _ (Blamed : Text → Type 0) (clock : ℕ → ℕ) where
  finish-KillsOnly :
      (id : InstanceId) (w : World)
      → IsClosed Blamed w.instance_description
      → Blamed id.instance_id
      → KillsOnly Blamed w.instance_description (finish clock id w).1.instance_description
  unfolding finish find
  finish-KillsOnly id w closed b = elim (Option-cases (get id.instance_id w.instance_description)) [
    | inl e ↦ rw (e, finish, find) (KillsOnly-refl Blamed w.instance_description)
    | inr (d, e) ↦ elim (Bool-cases (is_some d.kill_instance_request)) [
      | inl over ↦
          rw (e, finish, find)
            (rw over (cascade-KillsOnly Blamed clock id.instance_id d w closed b e))
      | inr alive ↦ rw (e, finish, find) (rw alive (KillsOnly-refl Blamed w.instance_description))
    ]
  ]

  last_state : (m : Exec (Unit {0})) (w : World) → ((m >> pure true) w).1 ≡ (m w).1
  last_state m w = go (m w)
    where
      go : (out : Result (Unit {0}) × World) → (continue out.0 (λ x. pure true) out.1).1 ≡ out.1
      go (ok a, w') = refl
      go (err e, w') = refl

  -- A request without children and parent has nothing more to do than `finish`.
  only_finishes :
      (id : InstanceId) (cs : List Relationship) (p : Option Relationship) (w : World)
      → cs ≡ []
      → p ≡ none
      → ((adopt_children clock id cs >> (join_parent clock id p >> (finish clock id >> pure true)))
          w).1
        ≡ (finish clock id w).1
  unfolding adopt_children join_parent
  only_finishes id [] none w e f = last_state (finish clock id) w
  only_finishes id [] (some p) w e f = absurd (ground (arith, f))
  only_finishes id (c ∷ cs) p w e f = absurd (ground (arith, e))

  commit-KillsOnly :
      (r : InstanceDescription) (id : InstanceId) (q : KillInstanceRequest)
      (d : InstanceDescription) (w : World)
      → get id.instance_id w.instance_description ≡ some d
      → OnlyKills r id q
      → IsClosed Blamed w.instance_description
      → Blamed id.instance_id
      → KillsOnly Blamed w.instance_description (commit clock r id w).1.instance_description
  commit-KillsOnly r id q d w g (names, plain, parentless, childless, kills) closed b =
      let d1 = (write_fields clock r (d, w.reads)).0 in
      let (t, u, v, e) = write_fields-Written clock r (d, w.reads) in
      let same : listed d1.children ≡ listed d.children =
        ap (λ (x : Ties). listed x.children) e ∙ rw childless refl in
      let w1 = written clock r id d w in
      let one = KillsOnly-insert Blamed id.instance_id d d1 w.instance_description g same b in
      let two =
        KillsOnly-trans Blamed one
          (finish-KillsOnly id w1 (KillsOnly-IsClosed Blamed one closed) b) in
      rw (commit_lem clock r id d w g)
        (rw (only_finishes id (listed r.children) r.parent w1 (ap listed childless) parentless) two)

  pub apply-KillsOnly :
      (r : InstanceDescription) (id : InstanceId) (q : KillInstanceRequest) (w : World)
      → IsValid w
      → OnlyKills r id q
      → IsClosed Blamed w.instance_description
      → Blamed id.instance_id
      → KillsOnly Blamed w.instance_description
          (apply_to_instance_description clock r w).1.instance_description
  apply-KillsOnly r id q w v (names, plain, parentless, childless, kills) closed b =
      elim (apply-Decided clock r w) [
        | inr (res, n, e) ↦ rw e (KillsOnly-refl Blamed w.instance_description)
        | inl (id', named, c, e) ↦
            let (d, a) = check_request-Accepted w.instance_description r id' v.linked c in
            let same : id ≡ id' = ground (arith, named, names) in
            rw e (
              commit-KillsOnly r id' q d w a.here (named, plain, parentless, childless, kills)
                closed (subst (λ (x : InstanceId). Blamed x.instance_id) same b))
      ]

  -- A request for the end of somebody blamed.
  abbrev pub Condemns : InstanceDescription → Type 0
  Condemns r =
      (id : InstanceId) × (q : KillInstanceRequest) × OnlyKills r id q × Blamed id.instance_id

  pub kill_each-KillsOnly :
      (rs : List InstanceDescription) (w : World)
      → IsValid w
      → IsClosed Blamed w.instance_description
      → All Condemns rs
      → KillsOnly Blamed w.instance_description (kill_each clock rs w).instance_description
  unfolding kill_each
  kill_each-KillsOnly [] w v closed a = KillsOnly-refl Blamed w.instance_description
  kill_each-KillsOnly (r ∷ rs) w v closed ((id, q, only, b), a) =
      let one = apply-KillsOnly r id q w v only closed b in
      KillsOnly-trans Blamed one (
        kill_each-KillsOnly rs _ (apply-IsValid clock r w v) (KillsOnly-IsClosed Blamed one closed)
          a)
