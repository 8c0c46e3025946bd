-- ===== src/Manager/Lifetime/Interleaved/Removal.antt =====
-- What becomes of a valid state when one instance is taken out of it.
use tzafon_way_point.Prelude.{
  ◌≡◌, ◌≢◌, ◌↔◌, sym, inl, inr, some, Text, text_eq, text_eq_iff, arith, Bool-cases,
}
use tzafon_way_point.Proto.{Relationship, InstanceDescription}
use tzafon_way_point.Dict.{get, remove, get-remove}
use tzafon_way_point.Dict.Distinct.{remove-IsDistinct}
use tzafon_way_point.Manager.World.{World}
use tzafon_way_point.Manager.Cascade.Kills.{Instances, IsGone}
use tzafon_way_point.Manager.Invariant.{Names, ParentIs, Lists, Reaches, IsLinked, IsValid}

-- No other instance lists `k` among its children or names it as its parent.
abbrev pub IsUnrelated : Instances → Text → Type 0
IsUnrelated m k =
    (j : Text) (d : InstanceDescription)
    → get j m ≡ some d
    → j ≢ k
    → (¬ Lists d k) × (¬ ParentIs d k)

abbrev pub without : Text → World → World
without k w = record w { instance_description = remove k w.instance_description }

module _ (k : Text) (m : Instances) where
  -- What is found after the removal stood there before, under another key.
  found_before :
      (j : Text) (d : InstanceDescription)
      → get j (remove k m) ≡ some d
      → (j ≢ k) × (get j m ≡ some d)
  found_before j d g = (
    λ same. absurd (ground (arith, g, get-remove k j m, text_eq_iff k j, same)),
    ground (arith, g, get-remove k j m),
  )

  found_after :
      (j : Text) (d : InstanceDescription) → j ≢ k → get j m ≡ some d → get j (remove k m) ≡ some d
  found_after j d n g = elim (Bool-cases (text_eq k j)) [
    | inl hit ↦ absurd (n (sym ((text_eq_iff k j).0 hit)))
    | inr miss ↦ rw (get-remove k j m, miss) g
  ]

  Reaches-remove :
      (c : Relationship) (P : InstanceDescription → Type 0)
      → ¬ Names c k
      → Reaches m c P (λ _. ⊥)
      → Reaches (remove k m) c P (λ _. ⊥)
  Reaches-remove c P other (i, e, n, g, a) =
      (i, e, n, found_after i e (λ same. other (rw (← same) n)) g, a)

  IsGone-remove : (i : Text) → IsGone m i → IsGone (remove k m) i
  unfolding IsGone
  IsGone-remove i gone d g = gone d (found_before i d g).1

  remove-IsLinked : IsUnrelated m k → IsLinked m → IsLinked (remove k m)
  remove-IsLinked alone l = record {
    keyed = λ j d g. l.keyed j d (found_before j d g).1;
    born = λ j d g. l.born j d (found_before j d g).1;
    child_back = λ j d c g i.
        let (other, g') = found_before j d g in
        Reaches-remove c _ (λ n. (alone j d g' other).0 (c, i, n)) (l.child_back j d c g' i);
    parent_back = λ j d p g h.
        let (other, g') = found_before j d g in
        Reaches-remove p _ (λ n. (alone j d g' other).1 (p, h, n)) (l.parent_back j d p g' h);
    settled = λ j d c i g dead q n. elim (l.settled j d c i (found_before j d g).1 dead q n) [
      | inl z ↦ inl z
      | inr gone ↦ inr (IsGone-remove i gone)
    ];
  }

  -- A relationship that reaches something after the removal does not lead to what was removed.
  leads_elsewhere :
      (c : Relationship) (P : InstanceDescription → Type 0)
      → Reaches (remove k m) c P (λ _. ⊥)
      → ¬ Names c k
  leads_elsewhere c P (i, e, n, g, a) hit = (found_before i e g).0 (ground (arith, n, hit))

  IsUnrelated-of_removed : IsLinked (remove k m) → IsUnrelated m k
  IsUnrelated-of_removed l j d g other =
      let g' = found_after j d other g in
      (
        λ (c, i, n). leads_elsewhere c _ (l.child_back j d c g' i) n,
        λ (p, h, n). leads_elsewhere p _ (l.parent_back j d p g' h) n,
      )

-- Taking an instance out of a valid state leaves a valid state exactly when no other instance is
-- related to it.
pub without-IsValid :
    (k : Text) (w : World)
    → IsValid w
    → IsValid (without k w) ↔ IsUnrelated w.instance_description k
without-IsValid k w v = (
  λ valid. IsUnrelated-of_removed k w.instance_description valid.linked,
  λ alone. record {
    distinct = remove-IsDistinct k w.instance_description v.distinct;
    linked = remove-IsLinked k w.instance_description alone v.linked;
  },
)
