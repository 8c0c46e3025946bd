-- ===== src/Manager/Apply/Ageing.antt =====
-- No step of a request takes anything away.
use mathlib.Core.Path.{subst}
use tzafon_way_point.Prelude.{
  ℕ, ◌≡◌, refl, sym, ◌⊎◌, inl, inr, true, Bool, Option, none, some, Text, In, is_some, List, [],
  ◌∷◌, arith, Bool-cases, Option-cases, String,
}
use tzafon_way_point.Prelude.Status.{Result, ok, err, Status, not_found}
use tzafon_way_point.Proto.{InstanceId, Relationship, Children, InstanceDescription, listed}
use tzafon_way_point.Dict.{get, insert}
use tzafon_way_point.Manager.World.{World, Exec, find, continue, ◌>>◌, pure}
use tzafon_way_point.Manager.Traits.{
  update_instance_description, get_instance_id, relationship_entry, children_entry,
}
use tzafon_way_point.Manager.Cascade.Kills.{Instances, cascade-Kills}
use tzafon_way_point.Manager.Invariant.{IsValid}
use tzafon_way_point.Manager.Apply.{
  write_fields, rewrite, tie, adopt_children, join_parent, finish, commit,
  apply_to_instance_description,
}
use tzafon_way_point.Manager.Apply.Fields.{write_fields-Written}
use tzafon_way_point.Manager.Apply.Checks.{Accepted, check_request-Accepted}
use tzafon_way_point.Manager.Apply.Commit.{apply-Decided}
use tzafon_way_point.Manager.Apply.Later.{
  Later, Later-trans, AllLater, AllLater-refl, AllLater-trans, insert-AllLater, Kills-AllLater,
}
use tzafon_way_point.Manager.Apply.Writes.{Written-Later, Later-adopted, Later-joined}

-- `rewrite` fails and writes nothing, or stores what its function makes of what it found.
abbrev pub Rewritten :
    (ℕ → ℕ) → Text → String → (InstanceDescription × ℕ → InstanceDescription × ℕ) → World → Type 0
Rewritten clock k what f w =
    ((x : Status) × (rewrite clock k what f w ≡ (err x, w)))
    ⊎ ((d : InstanceDescription) × (get k w.instance_description ≡ some d)
        × (rewrite clock k what f w ≡ (
          ok tt,
          record {
            instance_description = insert k (f (d, w.reads)).0 w.instance_description;
            reads = (f (d, w.reads)).1;
          },
        )))

pub rewritten :
    (clock : ℕ → ℕ) (k : Text) (what : String)
    (f : InstanceDescription × ℕ → InstanceDescription × ℕ) (w : World)
    → Rewritten clock k what f w
unfolding rewrite find
rewritten clock k what f w = elim (Option-cases (get k w.instance_description)) [
  | inl e ↦ inl (not_found what, rw (e, rewrite, find))
  | inr (d, e) ↦ inr (d, e, rw (e, rewrite, find))
]

module _ (m0 : Instances) where
  abbrev pub Since : World → Type 0
  Since w = AllLater m0 w.instance_description

  continue-Since :
      {B : Type 0} (r : Result (Unit {0})) (w : World) (k : Exec B)
      → Since w
      → ((w' : World) → Since w' → Since (k w').1)
      → Since (continue r (λ _. k) w).1
  continue-Since (ok tt) w k h f = f w h
  continue-Since (err x) w k h f = h

  -- One step after another.
  pub seq-Since :
      {B : Type 0} (m : Exec (Unit {0})) (k : Exec B) (w : World)
      → Since (m w).1
      → ((w' : World) → Since w' → Since (k w').1)
      → Since ((m >> k) w).1
  seq-Since m k w h f = continue-Since (m w).0 (m w).1 k h f

  rewrite-Since :
      (clock : ℕ → ℕ) (k : Text) (what : String)
      (f : InstanceDescription × ℕ → InstanceDescription × ℕ) (w : World)
      → Since w
      → ((d e : InstanceDescription) (n : ℕ)
          → get k m0 ≡ some d
          → get k w.instance_description ≡ some e
          → Later d e
          → Later d (f (e, n)).0)
      → Since (rewrite clock k what f w).1
  unfolding AllLater
  rewrite-Since clock k what f w h l = elim (rewritten clock k what f w) [
    | inl (x, e) ↦ rw e h
    | inr (e, g, same) ↦ rw same (
        insert-AllLater m0 w.instance_description k (f (e, w.reads)).0 h λ d g0.
          let (e', g', now) = h k d g0 in
          l d e w.reads g0 g (subst (Later d) (ground (arith, g, g')) now))
  ]

  -- The children had no parent when the request came.
  abbrev pub AreFree : List Relationship → Type 0
  AreFree cs =
      (c : Relationship) (id : InstanceId) (d : InstanceDescription)
      → In c cs
      → c.instance_id ≡ some id
      → get id.instance_id m0 ≡ some d
      → d.parent ≡ none

  pub adopt_children-Since :
      (clock : ℕ → ℕ) (id : InstanceId) (cs : List Relationship) (w : World)
      → AreFree cs
      → Since w
      → Since (adopt_children clock id cs w).1
  unfolding adopt_children update_instance_description get_instance_id
  adopt_children-Since clock id [] w free h = h
  adopt_children-Since clock id (c ∷ cs) w free h = elim (Option-cases c.instance_id) [
    | inl e ↦ rw e h
    | inr (i, e) ↦ rw e (
        seq-Since
          (rewrite clock i.instance_id "Child instance not found"
            (update_instance_description clock (some (tie id))))
          (adopt_children clock id cs) w
          (rewrite-Since clock i.instance_id "Child instance not found"
            (update_instance_description clock (some (tie id))) w h
            (λ d x n g0 g l. Later-adopted d x _ (free c i d (inl refl) e g0) l))
          (λ w' h'. adopt_children-Since clock id cs w' (λ c' j d m. free c' j d (inr m)) h'))
  ]

  pub join_parent-Since :
      (clock : ℕ → ℕ) (id : InstanceId) (o : Option Relationship) (w : World)
      → Since w
      → Since (join_parent clock id o w).1
  unfolding join_parent update_instance_description get_instance_id
  join_parent-Since clock id none w h = h
  join_parent-Since clock id (some p) w h = elim (Option-cases p.instance_id) [
    | inl e ↦ rw e h
    | inr (i, e) ↦ rw e (
        rewrite-Since clock i.instance_id "Parent instance not found"
          (update_instance_description {T = Children} clock
            (some (record { children = tie id ∷ [] })))
          w h (λ d x n g0 g l. Later-trans l (Later-joined x _)))
  ]

  pub finish-Since :
      (clock : ℕ → ℕ) (id : InstanceId) (w : World) → Since w → Since (finish clock id w).1
  unfolding finish find
  finish-Since clock id w h = elim (Option-cases (get id.instance_id w.instance_description)) [
    | inl e ↦ rw (e, finish, find) h
    | inr (d, e) ↦ elim (Bool-cases (is_some d.kill_instance_request)) [
      | inr alive ↦ rw (e, finish, find) (rw alive h)
      | inl over ↦
          rw (e, finish, find)
            (rw over (
              AllLater-trans m0 w.instance_description _ h
                (Kills-AllLater (cascade-Kills clock d w))))
    ]
  ]

commit-AllLater :
    (clock : ℕ → ℕ) (r : InstanceDescription) (id : InstanceId) (d : InstanceDescription)
    (w : World)
    → Accepted w.instance_description r id.instance_id d
    → AllLater w.instance_description (commit clock r id w).1.instance_description
unfolding commit
commit-AllLater clock r id d w a =
    let m0 = w.instance_description in
    seq-Since m0 (rewrite clock id.instance_id "Instance not found" (write_fields clock r)) adopted
      w own
      λ w1 h1.
        seq-Since m0 (adopt_children clock id (listed r.children)) joined w1
          (adopt_children-Since m0 clock id (listed r.children) w1 free h1)
          λ w2 h2.
            seq-Since m0 (join_parent clock id r.parent) finished w2
              (join_parent-Since m0 clock id r.parent w2 h2)
              λ w3 h3.
                seq-Since m0 (finish clock id) (pure true) w3 (finish-Since m0 clock id w3 h3)
                  λ w4 h4. h4
  where
    finished : Exec Bool
    finished = finish clock id >> pure true

    joined : Exec Bool
    joined = join_parent clock id r.parent >> finished

    adopted : Exec Bool
    adopted = adopt_children clock id (listed r.children) >> joined

    free : AreFree w.instance_description (listed r.children)
    free c i x m n g =
        let (j, e, names, ne, found, none_yet) = a.children_fit c m in
        let same : e ≡ x = ground (arith, names, n, found, g) in
        subst (λ (z : InstanceDescription). z.parent ≡ none) same none_yet

    own :
        Since w.instance_description
          (rewrite clock id.instance_id "Instance not found" (write_fields clock r) w).1
    own =
        rewrite-Since w.instance_description clock id.instance_id "Instance not found"
          (write_fields clock r) w (AllLater-refl w.instance_description)
          (λ x e n g0 g l.
            let same : x ≡ d = ground (arith, g0, a.here) in
            let now : e ≡ d = ground (arith, g, a.here) in
            subst (λ z. Later z (write_fields clock r (e, n)).0) (sym same)
              (subst (λ z. Later d (write_fields clock r (z, n)).0) (sym now)
                (Written-Later r d (write_fields clock r (d, n)).0 a.alive
                  (λ p up. (a.parent_fits p up).1) (write_fields-Written clock r (d, n)))))

-- However a request ends, every instance is still there, with what `Later` says.
pub apply-AllLater :
    (clock : ℕ → ℕ) (r : InstanceDescription) (w : World)
    → IsValid w
    → AllLater w.instance_description
        (apply_to_instance_description clock r w).1.instance_description
apply-AllLater clock r w v = elim (apply-Decided clock r w) [
  | inl (id, named, c, e) ↦
      let (d, a) = check_request-Accepted w.instance_description r id v.linked c in
      rw e (commit-AllLater clock r id d w a)
  | inr (res, n, e) ↦ rw e (AllLater-refl w.instance_description)
]
