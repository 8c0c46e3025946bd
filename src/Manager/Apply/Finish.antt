-- ===== src/Manager/Apply/Finish.antt =====
-- The end of an accepted request: if the instance is dead by now, so are its descendants.
use tzafon_way_point.Prelude.{
  ℕ, ◌≡◌, refl, ap, inl, inr, false, none, some, Text, In, is_some, [], arith, All, All-of_In,
  In-reverse, reverse, Bool-cases,
}
use tzafon_way_point.Prelude.Status.{ok}
use tzafon_way_point.Proto.{InstanceId, Relationship, InstanceDescription, listed}
use tzafon_way_point.Dict.{get}
use tzafon_way_point.Manager.World.{World, find}
use tzafon_way_point.Manager.Cascade.{cascade}
use tzafon_way_point.Manager.Cascade.Termination.{dead}
use tzafon_way_point.Manager.Cascade.Kills.{
  Instances, Kills, Kills-before, Kills-after, cascade-Kills, cascade-IsDistinct,
}
use tzafon_way_point.Manager.Cascade.Closure.{
  HasId, IsNamed, SettledBut, IsSettled, cascade-Settles,
}
use tzafon_way_point.Manager.Invariant.{ParentIs, Lists, Reaches, Linked, IsLinked, IsValid, IsBorn}
use tzafon_way_point.Manager.Invariant.Lift.{Reaches-owe}
use tzafon_way_point.Manager.Apply.{finish}
use tzafon_way_point.Manager.Apply.Adopt.{Midway}

abbrev NoDebt : Text → Text → Type 0
NoDebt _ _ = ⊥

-- Killing keeps ids, parents and children.
Kills-Reaches :
    {m m' : Instances} (c : Relationship) (P : InstanceDescription → Type 0)
    → Kills m m'
    → ((t : ℕ) (d : InstanceDescription) → P d → P (dead t d))
    → Reaches m c P (λ _. ⊥)
    → Reaches m' c P (λ _. ⊥)
Kills-Reaches c P h keep (i, e, n, g, inr z) = absurd z
Kills-Reaches c P h keep (i, e, n, g, inl p) =
    let (d, g', how) = Kills-after i e h g in
    (i, d, n, g', inl (elim how [ inl s ↦ rw s p | inr (t, s) ↦ rw s (keep t e p) ]))

Kills-Linked :
    {m m' : Instances}
    → Kills m m'
    → IsSettled m'
    → Linked NoDebt NoDebt (λ _. Unit) m
    → IsLinked m'
Kills-Linked {m} {m'} h s v = record {
  keyed = λ k d g.
      same_fields k d g (λ x. x.instance_id ≡ some (record { instance_id = k })) (v.keyed k)
        (λ t x p. p);
  born = λ k d g. same_fields k d g IsBorn (v.born k) (λ t x p. p);
  child_back = λ k d c g.
      same_fields k d g (λ x. In c (listed x.children) → Reaches m' c (λ e. ParentIs e k) (λ _. ⊥))
        (λ x g' l. Kills-Reaches c _ h (λ t d p. p) (v.child_back k x c g' l)) (λ t x p. p);
  parent_back = λ k d p g.
      same_fields k d g (λ x. x.parent ≡ some p → Reaches m' p (λ e. Lists e k) (λ _. ⊥))
        (λ x g' l. Kills-Reaches p _ h (λ t d q. q) (v.parent_back k x p g' l)) (λ t x p. p);
  settled = λ k d c i g dd l n. elim (s.at k d c (record { instance_id = i }) g dd l n) [
    | inl z ↦ absurd z.1
    | inr gone ↦ inr gone
  ];
}
  where
    same_fields :
        (k : Text) (d : InstanceDescription)
        → get k m' ≡ some d
        → (P : InstanceDescription → Type 0) → ((x : InstanceDescription) → get k m ≡ some x → P x)
        → ((t : ℕ) (x : InstanceDescription) → P x → P (dead t x))
        → P d
    same_fields k d g P before keep =
        let (b, g', how) = Kills-before k d h g in
        elim how [ inl e ↦ rw e (before b g') | inr (t, e) ↦ rw e (keep t b (before b g')) ]

module _ {child_debt parent_debt : Text → Text → Type 0} {exempt : Text → Type 0}
    {m : Instances} where
  -- Debts that nobody owes may be struck out, and exemptions widened.
  Linked-strike :
      (exempt' : Text → Type 0)
      → ((j i : Text) → child_debt j i → ⊥)
      → ((j i : Text) → parent_debt j i → ⊥)
      → ((j : Text) → exempt j → exempt' j)
      → Linked child_debt parent_debt exempt m
      → Linked NoDebt NoDebt exempt' m
  Linked-strike exempt' no_child no_parent widen v = record {
    keyed = v.keyed;
    born = v.born;
    child_back = λ j x c g l. Reaches-owe m c _ _ _ (no_child j) (v.child_back j x c g l);
    parent_back = λ j x p g h. Reaches-owe m p _ _ _ (no_parent j) (v.parent_back j x p g h);
    settled = λ j x c i g dd l n. elim (v.settled j x c i g dd l n) [
      | inl z ↦ inl (widen j z)
      | inr gone ↦ inr gone
    ];
  }

-- What is left once every write is made.
Midway-Linked :
    (k : Text) (own : InstanceDescription) (m : Instances) (exempt : Text → Type 0)
    → ((j : Text) → j ≡ k → exempt j)
    → Midway k own [] none m
    → Linked NoDebt NoDebt exempt m
Midway-Linked k own m exempt widen h =
    Linked-strike exempt (λ j i (s, (c, l, n)). absurd l.1) (λ j i (s, (p, e, n)). cc) widen
      h.linked

HasIds :
    (k : Text) (own : InstanceDescription) (m : Instances)
    → Linked NoDebt NoDebt (λ _. Unit) m
    → get k m ≡ some own
    → All HasId (listed own.children)
HasIds k own m v here =
    All-of_In HasId (listed own.children)
      λ c l. let (i, e, n, _, _) = v.child_back k own c here l in ap is_some n

finish_dead :
    (clock : ℕ → ℕ) (k : Text) (own : InstanceDescription) (w : World)
    → Midway k own [] none w.instance_description
    → let (r, w') = cascade clock own w in (r ≡ ok tt) × IsValid w'
finish_dead clock k own w h =
    let v = Midway-Linked k own w.instance_description (λ _. Unit) (λ _ _. tt) h in
    let ids = HasIds k own w.instance_description v h.here in
    let named : IsNamed w.instance_description = record {
      at = λ j d g. HasIds j d w.instance_description v g;
    } in
    let (done, settled) = cascade-Settles clock own w ids named pending in
    (
      done,
      record {
        distinct = cascade-IsDistinct clock own w h.distinct;
        linked = Kills-Linked (cascade-Kills clock own w) settled v;
      },
    )
  where
    pending : SettledBut (reverse (listed own.children)) w.instance_description
    pending = record {
      at = λ j d c i g dd l n. elim (h.linked.settled j d c i.instance_id g dd l n) [
        | inl self ↦
            let same : d ≡ own = ground (arith, g, h.here, self) in
            inl (In-reverse c (listed own.children) (rw same at l))
        | inr gone ↦ inr gone
      ];
    }

finish_alive :
    (k : Text) (own : InstanceDescription) (m : Instances)
    → is_some own.kill_instance_request ≡ false
    → Midway k own [] none m
    → IsLinked m
finish_alive k own m alive h =
    let v = Midway-Linked k own m (λ j. j ≡ k) (λ _ z. z) h in
    record {
      keyed = v.keyed;
      born = v.born;
      child_back = v.child_back;
      parent_back = v.parent_back;
      settled = λ j d c i g dd l n. elim (v.settled j d c i g dd l n) [
        | inl self ↦ absurd (ground (arith, g, h.here, self, alive, dd))
        | inr gone ↦ inr gone
      ];
    }

pub finish-IsValid :
    (clock : ℕ → ℕ) (id : InstanceId) (own : InstanceDescription) (w : World)
    → Midway id.instance_id own [] none w.instance_description
    → let (r, w') = finish clock id w in (r ≡ ok tt) × IsValid w'
unfolding finish find
finish-IsValid clock id own w h = elim (Bool-cases (is_some own.kill_instance_request)) [
  | inl dead_now ↦
      rw (h.here, finish, find) (rw dead_now (finish_dead clock id.instance_id own w h))
  | inr alive ↦
      rw (h.here, finish, find)
        (rw alive (
          refl,
          record {
            distinct = h.distinct;
            linked = finish_alive id.instance_id own w.instance_description alive h;
          },
        ))
]
