-- ===== src/Manager/Apply/Adopt.antt =====
-- The second write of an accepted request: its children get the instance for their parent.
use tzafon_way_point.Prelude.{
  ℕ, ◌≡◌, refl, ◌∙◌, ◌⊎◌, inl, inr, false, Option, none, some, Text, text_eq, List, [], ◌∷◌, arith,
  All, All-map, Bool-cases, eq_of_text_eq,
}
use tzafon_way_point.Prelude.Status.{ok}
use tzafon_way_point.Proto.{InstanceId, Relationship, InstanceDescription}
use tzafon_way_point.Dict.{get, insert, get-insert_self}
use tzafon_way_point.Dict.Distinct.{IsDistinct, insert-IsDistinct}
use tzafon_way_point.Manager.World.{World, find}
use tzafon_way_point.Manager.Traits.{
  update_instance_description, get_instance_id, relationship_entry,
}
use tzafon_way_point.Manager.Cascade.Kills.{Instances, IsGone}
use tzafon_way_point.Manager.Invariant.{Names, ParentIs, Lists, Reaches, Linked}
use tzafon_way_point.Manager.Invariant.Lift.{
  insert_cases, get-insert_ne, Reaches-insert, IsGone-insert,
}
use tzafon_way_point.Manager.Apply.{adopt_children, rewrite}
use tzafon_way_point.Manager.Apply.Own.{OwesChild, OwesParent, IsSelf}

-- A child that waits for its parent `k`, which is described by `own`.
abbrev pub ChildWaits : Text → InstanceDescription → Instances → Relationship → Type 0
ChildWaits k own m c =
    (i : Text) × (e : InstanceDescription) × Names c i
    × (text_eq i k ≡ false)
    × Lists own i
    × (get i m ≡ some e)
    × ((e.parent ≡ none) ⊎ ParentIs e k)

-- The parent that waits for its child `k`.
abbrev pub ParentWaits : Text → InstanceDescription → Instances → Relationship → Type 0
ParentWaits k own m p =
    (i : Text) × (e : InstanceDescription) × Names p i
    × (text_eq i k ≡ false)
    × ParentIs own i
    × (get i m ≡ some e)
    × (e.kill_instance_request ≡ none)

-- Where a request stands between two of its writes.
pub record Midway (k : Text) (own : InstanceDescription) (cs : List Relationship)
    (up : Option Relationship) (m : Instances) : Type 0 where
  pub distinct : IsDistinct m
  pub linked : Linked (OwesChild k cs) (OwesParent k up) (IsSelf k) m
  pub here : get k m ≡ some own
  pub children_wait : All (ChildWaits k own m) cs
  pub parent_waits : (p : Relationship) → up ≡ some p → ParentWaits k own m p

abbrev adopted : ℕ → Text → InstanceDescription → InstanceDescription
adopted t k e = record e {
  parent = some (record {
    timestamp_ms = some (record { timestamp_ms = t });
    instance_id = some (record { instance_id = k });
  });
}

module _ (m : Instances) (k : Text) (own : InstanceDescription) (up : Option Relationship)
    (c : Relationship) (cs : List Relationship) (i : Text) (e : InstanceDescription) (t : ℕ)
    (names : Names c i) (other : text_eq i k ≡ false) (lists : Lists own i)
    (found : get i m ≡ some e) (free : (e.parent ≡ none) ⊎ ParentIs e k) where
  abbrev m' : Instances
  m' = insert i (adopted t k e) m

  parent_unique : (j : Text) → ParentIs e j → j ≡ k
  parent_unique j (p, h, n) = elim free [
    | inl no_parent ↦ absurd (ground (arith, h, no_parent))
    | inr (q, h', n') ↦ ground (arith, h, h', n, n')
  ]

  answer_kept : (j : Text) → ParentIs e j → ParentIs (adopted t k e) j
  answer_kept j p = rw (parent_unique j p) (_, refl, refl)

  -- What `c` was owed is paid by the write, and no other answer is lost.
  adopt_child_back :
      (j : Text) (c' : Relationship)
      → Reaches m c' (λ e. ParentIs e j) (OwesChild k (c ∷ cs) j)
      → Reaches m' c' (λ e. ParentIs e j) (OwesChild k cs j)
  adopt_child_back j c' (n, x, nm, g, inl p) =
      Reaches-insert m i e (adopted t k e) found c' _ _ (answer_kept j) (n, x, nm, g, inl p)
  adopt_child_back j c' (n, x, nm, g, inr (s, (c0, inr l, n0))) =
      Reaches-insert m i e (adopted t k e) found c' _ _ (answer_kept j)
        (n, x, nm, g, inr (s, (c0, l, n0)))
  adopt_child_back j c' (n, x, nm, g, inr (s, (c0, inl l, n0))) =
      let same : i ≡ n = ground (arith, names, n0, l) in
      (
        n,
        adopted t k e,
        nm,
        rw (← same) (get-insert_self i (adopted t k e) m),
        inl (rw s (_, refl, refl)),
      )

  adopt-Linked :
      get k m ≡ some own
      → Linked (OwesChild k (c ∷ cs)) (OwesParent k up) (IsSelf k) m
      → Linked (OwesChild k cs) (OwesParent k up) (IsSelf k) m'
  adopt-Linked here v = record {
    keyed = λ j x g. elim (insert_cases i j _ x m g) [
      | inl (s, q) ↦ rw (q, ← s) (v.keyed i e found)
      | inr (s, q) ↦ v.keyed j x q
    ];
    born = λ j x g. elim (insert_cases i j _ x m g) [
      | inl (s, q) ↦ rw q (v.born i e found)
      | inr (s, q) ↦ v.born j x q
    ];
    child_back = λ j x c' g l. elim (insert_cases i j _ x m g) [
      | inl (s, q) ↦ adopt_child_back j c' (v.child_back j e c' (rw (← s) found) (rw q at l))
      | inr (s, q) ↦ adopt_child_back j c' (v.child_back j x c' q l)
    ];
    parent_back = λ j x p g h. elim (insert_cases i j _ x m g) [
      | inl (s, q) ↦
          let tied : p.instance_id ≡ some (record { instance_id = k }) = ground (arith, h, q) in
          (k, own, tied, get-insert_ne i k _ m other ∙ here, inl (rw (← s) lists))
      | inr (s, q) ↦
          Reaches-insert m i e (adopted t k e) found p _ _ (λ z. z) (v.parent_back j x p q h)
    ];
    settled = λ j x c' n g dd l nm. elim (insert_cases i j _ x m g) [
      | inl (s, q) ↦ moved n (v.settled j e c' n (rw (← s) found) (rw q at dd) (rw q at l) nm)
      | inr (s, q) ↦ moved n (v.settled j x c' n q dd l nm)
    ];
  }
    where
      moved : {j : Text} (n : Text) → IsSelf k j ⊎ IsGone m n → IsSelf k j ⊎ IsGone m' n
      moved n (inl z) = inl z
      moved n (inr gone) = inr (IsGone-insert m i e (adopted t k e) found n (λ z. z) gone)

  -- A child further on waits still, also if it is the same instance.
  ChildWaits-on : (c' : Relationship) → ChildWaits k own m c' → ChildWaits k own m' c'
  ChildWaits-on c' (n, x, nm, ne, l, g, a) = elim (Bool-cases (text_eq i n)) [
    | inl hit ↦
        let same : i ≡ n = eq_of_text_eq i n hit in
        (
          n,
          adopted t k e,
          nm,
          ne,
          l,
          rw (← same) (get-insert_self i (adopted t k e) m),
          inr (_, refl, refl),
        )
    | inr miss ↦ (n, x, nm, ne, l, get-insert_ne i n _ m miss ∙ g, a)
  ]

  ParentWaits-on : (p : Relationship) → ParentWaits k own m p → ParentWaits k own m' p
  ParentWaits-on p (n, x, nm, ne, l, g, a) = elim (Bool-cases (text_eq i n)) [
    | inl hit ↦
        let same : i ≡ n = eq_of_text_eq i n hit in
        let found' : x ≡ e = ground (arith, g, found, same) in
        (
          n,
          adopted t k e,
          nm,
          ne,
          l,
          rw (← same) (get-insert_self i (adopted t k e) m),
          rw (← found') a,
        )
    | inr miss ↦ (n, x, nm, ne, l, get-insert_ne i n _ m miss ∙ g, a)
  ]

  adopt-Midway : Midway k own (c ∷ cs) up m → Midway k own cs up m'
  adopt-Midway w = record {
    distinct = insert-IsDistinct i (adopted t k e) m w.distinct;
    linked = adopt-Linked w.here w.linked;
    here = get-insert_ne i k _ m other ∙ w.here;
    children_wait = All-map _ _ ChildWaits-on cs w.children_wait.1;
    parent_waits = λ p h. ParentWaits-on p (w.parent_waits p h);
  }

-- The loop reaches every child and reports no error.
pub adopt_children-Midway :
    (clock : ℕ → ℕ) (id : InstanceId) (own : InstanceDescription) (up : Option Relationship)
    (cs : List Relationship) (w : World)
    → Midway id.instance_id own cs up w.instance_description
    → let (r, w') = adopt_children clock id cs w in
      (r ≡ ok tt) × Midway id.instance_id own [] up w'.instance_description
unfolding adopt_children rewrite find get_instance_id update_instance_description get
adopt_children-Midway clock id own up [] w h = (refl, h)
adopt_children-Midway clock id own up (c ∷ cs) w h =
    let (i, e, names, other, lists, found, free) = h.children_wait.0 in
    rw (names, found)
      (adopt_children-Midway clock id own up cs _ (
        adopt-Midway w.instance_description id.instance_id own up c cs i e (clock w.reads) names
          other lists found free h))
