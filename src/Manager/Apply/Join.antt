-- ===== src/Manager/Apply/Join.antt =====
-- The third write of an accepted request: its parent gets the instance as one more child.
use tzafon_way_point.Prelude.{
  ℕ, ◌≡◌, refl, sym, ap, ◌∙◌, inl, inr, false, Option, none, some, Text, In, text_eq, [], ◌∷◌, ◌++◌,
  arith, In-append, In-append_left, In-append_right,
}
use tzafon_way_point.Prelude.Status.{ok}
use tzafon_way_point.Proto.{InstanceId, Relationship, InstanceDescription, listed}
use tzafon_way_point.Dict.{get, insert, get-insert_self}
use tzafon_way_point.Dict.Distinct.{insert-IsDistinct}
use tzafon_way_point.Manager.World.{World, find}
use tzafon_way_point.Manager.Traits.{update_instance_description, get_instance_id}
use tzafon_way_point.Manager.Cascade.Kills.{Instances}
use tzafon_way_point.Manager.Invariant.{Names, ParentIs, Lists, Reaches, Linked}
use tzafon_way_point.Manager.Invariant.Lift.{
  insert_cases, get-insert_ne, Reaches-insert, IsGone-insert,
}
use tzafon_way_point.Manager.Apply.{join_parent, rewrite}
use tzafon_way_point.Manager.Apply.Own.{OwesChild, OwesParent, IsSelf}
use tzafon_way_point.Manager.Apply.Adopt.{Midway}

abbrev tied : ℕ → Text → Relationship
tied t k = record {
  timestamp_ms = some (record { timestamp_ms = t });
  instance_id = some (record { instance_id = k });
}

abbrev joined : ℕ → Text → InstanceDescription → InstanceDescription
joined t k e = record e {
  children = some (record { children = listed e.children ++ tied t k ∷ [] });
}

module _ (m : Instances) (k : Text) (own : InstanceDescription) (q : Relationship) (i : Text)
    (e : InstanceDescription) (t : ℕ) (names : Names q i) (other : text_eq i k ≡ false)
    (answers : ParentIs own i) (found : get i m ≡ some e)
    (alive : e.kill_instance_request ≡ none) where
  abbrev m' : Instances
  m' = insert i (joined t k e) m

  answer_kept : (j : Text) → Lists e j → Lists (joined t k e) j
  answer_kept j (c, l, n) = (c, In-append_left c (listed e.children) _ l, n)

  join_parent_back :
      (j : Text) (p : Relationship)
      → Reaches m p (λ e. Lists e j) (OwesParent k (some q) j)
      → Reaches m' p (λ e. Lists e j) (OwesParent k none j)
  join_parent_back j p (n, x, nm, g, inl l) =
      Reaches-insert m i e (joined t k e) found p _ _ (answer_kept j) (n, x, nm, g, inl l)
  join_parent_back j p (n, x, nm, g, inr (s, (p0, up, n0))) =
      let same : i ≡ n = ground (arith, names, n0, up) in
      (
        n,
        joined t k e,
        nm,
        rw (← same) (get-insert_self i (joined t k e) m),
        inl (rw s (tied t k, In-append_right (tied t k) (listed e.children) _ (inl refl), refl)),
      )

  join_child :
      (c : Relationship)
      → get k m ≡ some own
      → Linked (OwesChild k []) (OwesParent k (some q)) (IsSelf k) m
      → In c (listed (joined t k e).children)
      → Reaches m' c (λ e. ParentIs e i) (OwesChild k [] i)
  join_child c here v l = elim (In-append c (listed e.children) _ l) [
    | inl old ↦
        Reaches-insert m i e (joined t k e) found c _ _ (λ z. z) (v.child_back i e c found old)
    | inr (inl new) ↦ (
      k,
      own,
      sym (ap (λ (z : Relationship). z.instance_id) new),
      get-insert_ne i k _ m other ∙ here,
      inl answers,
    )
    | inr (inr z) ↦ absurd z.1
  ]

  join-Linked :
      get k m ≡ some own
      → Linked (OwesChild k []) (OwesParent k (some q)) (IsSelf k) m
      → Linked (OwesChild k []) (OwesParent k none) (IsSelf k) m'
  join-Linked here v = record {
    keyed = λ j x g. elim (insert_cases i j _ x m g) [
      | inl (s, z) ↦ rw (z, ← s) (v.keyed i e found)
      | inr (s, z) ↦ v.keyed j x z
    ];
    born = λ j x g. elim (insert_cases i j _ x m g) [
      | inl (s, z) ↦ rw z (v.born i e found)
      | inr (s, z) ↦ v.born j x z
    ];
    child_back = λ j x c g l. elim (insert_cases i j _ x m g) [
      | inl (s, z) ↦ rw (← s) (join_child c here v (rw z at l))
      | inr (s, z) ↦
          Reaches-insert m i e (joined t k e) found c _ _ (λ y. y) (v.child_back j x c z l)
    ];
    parent_back = λ j x p g h. elim (insert_cases i j _ x m g) [
      | inl (s, z) ↦ join_parent_back j p (v.parent_back j e p (rw (← s) found) (rw z at h))
      | inr (s, z) ↦ join_parent_back j p (v.parent_back j x p z h)
    ];
    settled = λ j x c n g dd l nm. elim (insert_cases i j _ x m g) [
      | inl (s, z) ↦ absurd (ground (arith, z, dd, alive))
      | inr (s, z) ↦ elim (v.settled j x c n z dd l nm) [
        | inl y ↦ inl y
        | inr gone ↦ inr (IsGone-insert m i e (joined t k e) found n (λ y. y) gone)
      ]
    ];
  }

  join-Midway : Midway k own [] (some q) m → Midway k own [] none m'
  join-Midway w = record {
    distinct = insert-IsDistinct i (joined t k e) m w.distinct;
    linked = join-Linked w.here w.linked;
    here = get-insert_ne i k _ m other ∙ w.here;
    children_wait = tt;
    parent_waits = λ p h. absurd (ground (arith, h));
  }

-- The parent is found, and no error is reported.
pub join_parent-Midway :
    (clock : ℕ → ℕ) (id : InstanceId) (own : InstanceDescription) (up : Option Relationship)
    (w : World)
    → Midway id.instance_id own [] up w.instance_description
    → let (r, w') = join_parent clock id up w in
      (r ≡ ok tt) × Midway id.instance_id own [] none w'.instance_description
unfolding join_parent rewrite find get_instance_id update_instance_description get
join_parent-Midway clock id own none w h = (refl, h)
join_parent-Midway clock id own (some q) w h =
    let (i, e, names, other, answers, found, alive) = h.parent_waits q refl in
    rw (names, found)
      (
        refl,
        join-Midway w.instance_description id.instance_id own q i e (clock w.reads) names other
            answers found alive h,
      )
