-- ===== src/Manager/Rpc/Listing.antt =====
-- Which instances `get_all_instances` lists.
use mathlib.Core.Path.{subst}
use tzafon_way_point.Prelude.{
  ◌≡◌, ◌↔◌, refl, sym, ap, ◌∙◌, inl, inr, Bool, true, some, List, [], ◌∷◌, map, Text, In, keep,
  Bool-cases,
}
use tzafon_way_point.Prelude.Status.{Result, ok, err}
use tzafon_way_point.Proto.{
  InstanceId, InstanceDescription, AllInstancesQuery, AllInstancesResponse,
}
use tzafon_way_point.Dict.{get, values}
use tzafon_way_point.Dict.Distinct.{get_of_values, values_of_get}
use tzafon_way_point.Manager.World.{World}
use tzafon_way_point.Manager.Invariant.{IsValid}
use tzafon_way_point.Manager.Invariant.Lift.{In-map, map-In}
use tzafon_way_point.Manager.Rpc.{is_wanted, has_beaten, is_alive, id_or_missing, get_all_instances}

module _ {A : Type 0} where
  keep_first :
      (p : A → Bool) (a x : A) (xs : List A)
      → p x ≡ true
      → (In a (keep p xs) → In a xs × (p a ≡ true))
      → In a (x ∷ keep p xs)
      → In a (x ∷ xs) × (p a ≡ true)
  keep_first p a x xs e k (inl same) = (inl same, rw (← same) e)
  keep_first p a x xs e k (inr j) = let (i, h) = k j in (inr i, h)

  In-keep : (p : A → Bool) (a : A) (xs : List A) → In a (keep p xs) → In a xs × (p a ≡ true)
  In-keep p a [] i = absurd i.1
  In-keep p a (x ∷ xs) i = elim (Bool-cases (p x)) [
    | inr e ↦ let (j, h) = In-keep p a xs (rw e at i) in (inr j, h)
    | inl e ↦ keep_first p a x xs e (In-keep p a xs) (rw e at i)
  ]

  keep-In : (p : A → Bool) (a : A) (xs : List A) → In a xs → p a ≡ true → In a (keep p xs)
  keep-In p a [] i h = absurd i.1
  keep-In p a (x ∷ xs) (inl e) h = rw (ap p e ∙ h) (inl e)
  keep-In p a (x ∷ xs) (inr i) h = elim (Bool-cases (p x)) [
    | inl e ↦ rw e (inr (keep-In p a xs i h))
    | inr e ↦ rw e (keep-In p a xs i h)
  ]

abbrev pub ids_of : Result AllInstancesResponse → List InstanceId
ids_of (ok a) = a.instance_ids
ids_of (err e) = []

-- An instance of the type that is asked for, alive, and heard of since it registered.
abbrev pub IsListed : AllInstancesQuery → World → Text → Type 0
IsListed q w k =
    (d : InstanceDescription) × (get k w.instance_description ≡ some d)
    × (is_wanted q.instance_type d ≡ true)
    × (has_beaten d ≡ true)
    × (is_alive d ≡ true)

id_or_missing_lem :
    (d : InstanceDescription) (id : InstanceId) → d.instance_id ≡ some id → id_or_missing d ≡ id
id_or_missing_lem d id e = rw e refl

listed_lem :
    (w : World) (k i : Text) (d : InstanceDescription)
    → IsValid w
    → get i w.instance_description ≡ some d
    → id_or_missing d ≡ record { instance_id = k }
    → i ≡ k
listed_lem w k i d v g e =
    ap (λ (x : InstanceId). x.instance_id)
      (sym (id_or_missing_lem d (record { instance_id = i }) (v.linked.keyed i d g)) ∙ e)

pub get_all_instances-IsListed :
    (q : AllInstancesQuery) (w : World) (k : Text)
    → IsValid w
    → In (record { instance_id = k }) (ids_of (get_all_instances q w).0) ↔ IsListed q w k
unfolding get_all_instances
get_all_instances-IsListed q w k v = (there, back)
  where
    all : List InstanceDescription
    all = values w.instance_description

    wanted : List InstanceDescription
    wanted = keep (is_wanted q.instance_type) all

    beaten : List InstanceDescription
    beaten = keep has_beaten wanted

    there :
        In (record { instance_id = k }) (map id_or_missing (keep is_alive beaten)) → IsListed q w k
    there i =
        let (d, i3, e) =
          In-map id_or_missing (record { instance_id = k }) (keep is_alive beaten) i in
        let (i2, alive) = In-keep is_alive d beaten i3 in
        let (i1, beats) = In-keep has_beaten d wanted i2 in
        let (i0, kind) = In-keep (is_wanted q.instance_type) d all i1 in
        let (j, g) = get_of_values d w.instance_description v.distinct i0 in
        (
          d,
          subst (λ x. get x w.instance_description ≡ some d) (listed_lem w k j d v g e) g,
          kind,
          beats,
          alive,
        )

    back :
        IsListed q w k → In (record { instance_id = k }) (map id_or_missing (keep is_alive beaten))
    back (d, g, kind, beats, alive) =
        let i0 = values_of_get d k w.instance_description g in
        let i1 = keep-In (is_wanted q.instance_type) d all i0 kind in
        let i2 = keep-In has_beaten d wanted i1 beats in
        let i3 = keep-In is_alive d beaten i2 alive in
        subst (λ x. In x (map id_or_missing (keep is_alive beaten)))
          (id_or_missing_lem d (record { instance_id = k }) (v.linked.keyed k d g))
          (map-In id_or_missing d (keep is_alive beaten) i3)
