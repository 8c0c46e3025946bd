-- ===== src/Manager/Register/Claim.antt =====
-- A registration is carried out whole, or leaves the instances as they were.
use tzafon_way_point.Prelude.{
  ℕ, suc, ◌≡◌, ◌≢◌, refl, ap, ◌∙◌, ◌⊎◌, inl, inr, true, false, Bool, none, some, Text, In, [],
  is_none, arith, Bool-cases, Option-cases, text_eq_iff,
}
use tzafon_way_point.Prelude.Status.{Result, ok, err, Status, invalid_argument}
use tzafon_way_point.Proto.{
  InstanceId, InstanceType, Relationship, InstanceDescription, listed, type_of_code,
}
use tzafon_way_point.Dict.{get, insert, remove, get-insert, remove-insert_new}
use tzafon_way_point.Dict.Distinct.{insert-IsDistinct}
use tzafon_way_point.Manager.World.{World}
use tzafon_way_point.Manager.Cascade.Kills.{Instances, IsGone}
use tzafon_way_point.Manager.Invariant.{Reaches, IsLinked, IsValid}
use tzafon_way_point.Manager.Invariant.Lift.{insert_cases}
use tzafon_way_point.Manager.Apply.Commit.{AllOrNothing, apply-AllOrNothing}
use tzafon_way_point.Manager.Register.{
  newborn, claim, release_on_failure, settle, insert_new_instance_description,
}

module _ (m : Instances) (k : Text) (v : InstanceDescription) (vacant : get k m ≡ none) where
  -- A new key hides nothing that was reached before.
  Reaches-newborn :
      (c : Relationship) (P : InstanceDescription → Type 0)
      → Reaches m c P (λ _. ⊥)
      → Reaches (insert k v m) c P (λ _. ⊥)
  Reaches-newborn c P (i, e, n, g, a) =
      (i, e, n, ground (arith, get-insert k i v m, g, vacant, text_eq_iff k i), a)

  IsGone-newborn :
      (i : Text)
      → (d : InstanceDescription) × (get i m ≡ some d)
      → IsGone m i
      → IsGone (insert k v m) i
  unfolding IsGone
  IsGone-newborn i (d, g) gone x h = elim (insert_cases k i v x m h) [
    | inl (same, e) ↦ absurd (ground (arith, g, vacant, same))
    | inr (miss, g') ↦ gone x g'
  ]

  newborn-IsLinked :
      (code now : ℕ) (kind : InstanceType)
      → v ≡ newborn (record { instance_id = k }) code now
      → type_of_code code ≡ some kind
      → IsLinked m
      → IsLinked (insert k v m)
  newborn-IsLinked code now kind fresh known l = record {
    keyed = λ j x g. elim (insert_cases k j v x m g) [
      | inl (s, e) ↦ rw (e, fresh, s)
      | inr (s, e) ↦ l.keyed j x e
    ];
    born = λ j x g. elim (insert_cases k j v x m g) [
      | inl (s, e) ↦ rw (e, fresh) (record { timestamp_ms = now }, code, kind, refl, refl, known)
      | inr (s, e) ↦ l.born j x e
    ];
    child_back = λ j x c g i. elim (insert_cases k j v x m g) [
      | inl (s, e) ↦ absurd (no_children c (rw e at i))
      | inr (s, e) ↦ Reaches-newborn c _ (l.child_back j x c e i)
    ];
    parent_back = λ j x p g h. elim (insert_cases k j v x m g) [
      | inl (s, e) ↦ absurd (ground (arith, h, e, fresh))
      | inr (s, e) ↦ Reaches-newborn p _ (l.parent_back j x p e h)
    ];
    settled = λ j x c i g dd q n. elim (insert_cases k j v x m g) [
      | inl (s, e) ↦ absurd (no_children c (rw e at q))
      | inr (s, e) ↦ elim (l.settled j x c i e dd q n) [
        | inl z ↦ inl z
        | inr gone ↦
            let (i', y, n', g', _) = l.child_back j x c e q in
            let same : i' ≡ i = ground (arith, n, n') in
            inr (IsGone-newborn i (y, rw same at g') gone)
      ]
    ];
  }
    where
      no_children : (c : Relationship) → In c (listed v.children) → ⊥
      no_children c i = let i' : In c [] = rw fresh at i in i'.1

-- A registration was carried out, or the instances are what they were.
abbrev pub Registered : World → Result Bool × World → Type 0
Registered w (r, w') =
    ((r ≡ ok true) × IsValid w')
    ⊎ ((r ≢ ok true) × (w'.instance_description ≡ w.instance_description))

unfoldable pub claimed : InstanceId → ℕ → ℕ → World → World
claimed id code now w = record {
  instance_description = insert id.instance_id (newborn id code now) w.instance_description;
  reads = suc w.reads;
}

-- Taking the instance away again undoes the claim.
claim_undone :
    (id : InstanceId) (code now : ℕ) (w w' : World)
    → get id.instance_id w.instance_description ≡ none
    → w' ≡ claimed id code now w
    → remove id.instance_id w'.instance_description ≡ w.instance_description
unfolding claimed
claim_undone id code now w w' vacant same =
    ap (λ (x : World). remove id.instance_id x.instance_description) same
    ∙ remove-insert_new id.instance_id (newborn id code now) w.instance_description vacant

release-Registered :
    (id : InstanceId) (code now : ℕ) (w : World) (out : Result Bool × World)
    → get id.instance_id w.instance_description ≡ none
    → AllOrNothing (claimed id code now w) out
    → Registered w (release_on_failure id out)
unfolding release_on_failure
release-Registered id code now w (ok true, w') vacant (inl (e, valid)) = inl (refl, valid)
release-Registered id code now w (ok true, w') vacant (inr (n, same)) = absurd (n refl)
release-Registered id code now w (ok false, w') vacant (inl (e, valid)) = absurd (ground (arith, e))
release-Registered id code now w (ok false, w') vacant (inr (n, same)) =
    inr (n, claim_undone id code now w w' vacant same)
release-Registered id code now w (err x, w') vacant (inl (e, valid)) = absurd (ground (arith, e))
release-Registered id code now w (err x, w') vacant (inr (n, same)) =
    inr (n, claim_undone id code now w w' vacant same)

pub claimed-IsValid :
    (id : InstanceId) (code now : ℕ) (kind : InstanceType) (w : World)
    → type_of_code code ≡ some kind
    → get id.instance_id w.instance_description ≡ none
    → IsValid w
    → IsValid (claimed id code now w)
unfolding claimed
claimed-IsValid id code now kind w known vacant v = record {
  distinct = insert-IsDistinct id.instance_id _ w.instance_description v.distinct;
  linked =
      newborn-IsLinked w.instance_description id.instance_id _ vacant code now kind refl known
        v.linked;
}

settle-Registered :
    (clock : ℕ → ℕ) (r : InstanceDescription) (id : InstanceId) (code : ℕ) (kind : InstanceType)
    (w : World)
    → type_of_code code ≡ some kind
    → IsValid w
    → Registered w (settle clock r id (claim clock id code w))
unfolding claim settle claimed
settle-Registered clock r id code kind w known v =
    elim (Option-cases (get id.instance_id w.instance_description)) [
      | inr (d, e) ↦ rw (e, claim) (inr ((λ z. cc), refl))
      | inl vacant ↦
          let now = clock w.reads in
          rw (vacant, claim)
            (release-Registered id code now w _ vacant (
              apply-AllOrNothing clock (record r { instance_type = none }) (claimed id code now w)
                (claimed-IsValid id code now kind w known vacant v)))
    ]

-- The guards of `insert_new_instance_description` refuse by themselves, or hand over to `settle`.
abbrev pub Handed : (ℕ → ℕ) → InstanceDescription → World → Type 0
Handed clock r w =
    ((id : InstanceId) × (code : ℕ) × (kind : InstanceType) × (type_of_code code ≡ some kind)
      × (insert_new_instance_description clock r w ≡ settle clock r id (claim clock id code w)))
    ⊎ ((x : Status) × (insert_new_instance_description clock r w ≡ (err x, w)))

pub handed : (clock : ℕ → ℕ) (r : InstanceDescription) (w : World) → Handed clock r w
unfolding insert_new_instance_description
handed clock r w = elim (Option-cases r.instance_id) [
  | inl e ↦ inr (invalid_argument "Invalid request", ground (arith, e))
  | inr (id, e) ↦ elim (Option-cases r.instance_type) [
    | inl f ↦ inr (invalid_argument "Invalid request", ground (arith, e, f))
    | inr (code, f) ↦ elim (Bool-cases (is_none r.created_timestamp_ms)) [
      | inr g ↦ inr (invalid_argument "Invalid request", ground (arith, e, f, g))
      | inl g ↦ elim (Option-cases (type_of_code code)) [
        | inl h ↦ inr (invalid_argument "Invalid instance type", ground (arith, e, f, g, h))
        | inr (kind, h) ↦ inl (id, code, kind, h, ground (arith, e, f, g, h))
      ]
    ]
  ]
]

-- A registration in a valid state is carried out whole, or the instances are as they were: nothing
-- of a registration that fails half-way stays behind.
pub insert_new-Registered :
    (clock : ℕ → ℕ) (r : InstanceDescription) (w : World)
    → IsValid w
    → Registered w (insert_new_instance_description clock r w)
insert_new-Registered clock r w v = elim (handed clock r w) [
  | inl (id, code, kind, known, e) ↦ rw e (settle-Registered clock r id code kind w known v)
  | inr (x, e) ↦ rw e (inr ((λ z. cc), refl))
]

pub insert_new-IsValid :
    (clock : ℕ → ℕ) (r : InstanceDescription) (w : World)
    → IsValid w
    → IsValid (insert_new_instance_description clock r w).1
insert_new-IsValid clock r w v = elim (insert_new-Registered clock r w v) [
  | inl (e, valid) ↦ valid
  | inr (n, same) ↦ record { distinct = rw same v.distinct; linked = rw same v.linked }
]
