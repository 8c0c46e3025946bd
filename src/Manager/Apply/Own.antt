-- ===== src/Manager/Apply/Own.antt =====
-- The first write of an accepted request: what it leaves owed.
use mathlib.Core.List.{append-nil}
use tzafon_way_point.Prelude.{
  ◌≡◌, refl, sym, ap, ◌∙◌, inl, inr, false, Option, none, some, Text, In, text_eq, text_eq_iff,
  List, ◌++◌, map, arith, In-append, In-append_left, Option-cases,
}
use tzafon_way_point.Proto.{TimestampMs, Relationship, Children, InstanceDescription, listed}
use tzafon_way_point.Dict.{get, insert}
use tzafon_way_point.Manager.Cascade.Kills.{Instances}
use tzafon_way_point.Manager.Invariant.{Names, ParentIs, Lists, Reaches, Linked, IsLinked, IsBorn}
use tzafon_way_point.Manager.Invariant.Lift.{
  insert_cases, get-insert_ne, Reaches-insert, Reaches-owe, IsGone-insert, In-map,
}
use tzafon_way_point.Manager.Apply.Fields.{
  Ties, ties, stamped, stored_parent, stored_children, Written,
}

-- What the checks found out about a child and about the parent of a request.
abbrev pub ChildFits : Instances → Text → Relationship → Type 0
ChildFits m k c =
    (i : Text) × (e : InstanceDescription) × Names c i
    × (text_eq k i ≡ false)
    × (get i m ≡ some e)
    × (e.parent ≡ none)

abbrev pub ParentFits : Instances → Text → Relationship → Type 0
ParentFits m k p =
    (i : Text) × (e : InstanceDescription) × Names p i
    × (text_eq i k ≡ false)
    × (get i m ≡ some e)
    × (e.kill_instance_request ≡ none)

-- The request of `k` still has to reach these children, and this parent.
abbrev pub OwesChild : Text → List Relationship → Text → Text → Type 0
OwesChild k cs j i = (j ≡ k) × ((c : Relationship) × In c cs × Names c i)

abbrev pub OwesParent : Text → Option Relationship → Text → Text → Type 0
OwesParent k up j i = (j ≡ k) × ((p : Relationship) × (up ≡ some p) × Names p i)

abbrev pub IsSelf : Text → Text → Type 0
IsSelf k j = j ≡ k

listed-stored :
    (u : TimestampMs) (o old : Option Children)
    → listed (stored_children u o old) ≡ listed old ++ map (stamped u) (listed o)
listed-stored u none old = sym (append-nil (listed old))
listed-stored u (some c) old = refl

pub text_eq_swap : (a b : Text) → text_eq a b ≡ false → text_eq b a ≡ false
text_eq_swap a b h = ground (arith, text_eq_iff a b, text_eq_iff b a)

module _ (r d d' : InstanceDescription) (written : Written r (ties d) (ties d')) where
  pub own_children :
      (u : TimestampMs) × (listed d'.children
        ≡ listed d.children ++ map (stamped u) (listed r.children))
  own_children =
      let (t, u, v, e) = written in
      (u, ap (λ (x : Ties). listed x.children) e ∙ listed-stored u r.children d.children)

  pub own_parent : (t : TimestampMs) × (d'.parent ≡ stored_parent t r.parent d.parent)
  own_parent = let (t, u, v, e) = written in (t, ap (λ (x : Ties). x.parent) e)

module _ (m : Instances) (k : Text) (r d d' : InstanceDescription) (here : get k m ≡ some d)
    (alive : d.kill_instance_request ≡ none) (written : Written r (ties d) (ties d'))
    (children_fit : (c : Relationship) → In c (listed r.children) → ChildFits m k c)
    (parent_fits : (p : Relationship)
      → r.parent ≡ some p
      → ParentFits m k p × (d.parent ≡ none)) where
  keeps_parent : (j : Text) → ParentIs d j → ParentIs d' j
  keeps_parent j (p, e, n) =
      let (t, f) = own_parent r d d' written in
      elim (Option-cases r.parent) [
        | inl no_new ↦ (p, ground (arith, e, f, no_new), n)
        | inr (q, new) ↦ absurd (ground (arith, e, (parent_fits q new).1))
      ]

  keeps_listed : (j : Text) → Lists d j → Lists d' j
  keeps_listed j (c, i, n) =
      let (u, e) = own_children r d d' written in
      (c, rw e (In-append_left c (listed d.children) _ i), n)

  IsBorn-kept : IsBorn d → IsBorn d'
  IsBorn-kept (t, code, kind, e, f, g) =
      let (_, _, _, w) = written in
      (
        t,
        code,
        kind,
        ap (λ (x : Ties). x.created_timestamp_ms) w ∙ e,
        ap (λ (x : Ties). x.instance_type) w ∙ f,
        g,
      )

  -- A child that the instance itself lists now was there before, or is one of the request's.
  own_child :
      (v : IsLinked m) (c : Relationship)
      → In c (listed d'.children)
      → Reaches (insert k d' m) c (λ e. ParentIs e k) (OwesChild k (listed r.children) k)
  own_child v c i =
      let (u, e) = own_children r d d' written in
      let i' : In c (listed d.children ++ map (stamped u) (listed r.children)) = rw e at i in
      elim (In-append c (listed d.children) _ i') [
        | inl old ↦
            Reaches-insert m k d d' here c _ _ (keeps_parent k)
              (Reaches-owe m c _ _ _ (λ i z. absurd z) (v.child_back k d c here old))
        | inr new ↦
            let (c', i'', e') = In-map (stamped u) c (listed r.children) new in
            let (n, x, names, ne, g, free) = children_fit c' i'' in
            (
              n,
              x,
              sym (ap (λ (z : Relationship). z.instance_id) e') ∙ names,
              get-insert_ne k n d' m ne ∙ g,
              inr (refl, (c', i'', names)),
            )
      ]

  own_up :
      (v : IsLinked m) (p : Relationship)
      → d'.parent ≡ some p
      → Reaches (insert k d' m) p (λ e. Lists e k) (OwesParent k r.parent k)
  own_up v p h =
      let (t, f) = own_parent r d d' written in
      elim (Option-cases r.parent) [
        | inl no_new ↦ Reaches-insert m k d d' here p _ _ (keeps_listed k) (
            Reaches-owe m p _ _ _ (λ i z. absurd z)
              (v.parent_back k d p here (ground (arith, h, f, no_new))))
        | inr (q, new) ↦
            let (n, x, names, ne, g, alive) = (parent_fits q new).0 in
            let same : p.instance_id ≡ q.instance_id = ground (arith, h, f, new) in
            (
              n,
              x,
              same ∙ names,
              get-insert_ne k n d' m (text_eq_swap n k ne) ∙ g,
              inr (refl, (q, new, names)),
            )
      ]

  pub own-Linked :
      IsLinked m
      → Linked (OwesChild k (listed r.children)) (OwesParent k r.parent) (IsSelf k) (insert k d' m)
  own-Linked v = record {
    keyed = λ j x g. elim (insert_cases k j d' x m g) [
      | inl (s, e) ↦ rw (e, ← s) (same_id ∙ v.keyed k d here)
      | inr (s, e) ↦ v.keyed j x e
    ];
    born = λ j x g. elim (insert_cases k j d' x m g) [
      | inl (s, e) ↦ rw e (IsBorn-kept (v.born k d here))
      | inr (s, e) ↦ v.born j x e
    ];
    child_back = λ j x c g i. elim (insert_cases k j d' x m g) [
      | inl (s, e) ↦ rw (← s) (own_child v c (rw e at i))
      | inr (s, e) ↦
          Reaches-insert m k d d' here c _ _ (keeps_parent j)
            (Reaches-owe m c _ _ _ (λ i z. absurd z) (v.child_back j x c e i))
    ];
    parent_back = λ j x p g h. elim (insert_cases k j d' x m g) [
      | inl (s, e) ↦ rw (← s) (own_up v p (rw e at h))
      | inr (s, e) ↦
          Reaches-insert m k d d' here p _ _ (keeps_listed j)
            (Reaches-owe m p _ _ _ (λ i z. absurd z) (v.parent_back j x p e h))
    ];
    settled = λ j x c i g dd l n. elim (insert_cases k j d' x m g) [
      | inl (s, e) ↦ inl (sym s)
      | inr (s, e) ↦ elim (v.settled j x c i e dd l n) [
        | inl z ↦ absurd z
        | inr gone ↦ inr (IsGone-insert m k d d' here i (λ z. ground (arith, z, alive)) gone)
      ]
    ];
  }
    where
      same_id : d'.instance_id ≡ d.instance_id
      same_id = let (t, u, w, e) = written in ap (λ (x : Ties). x.instance_id) e
