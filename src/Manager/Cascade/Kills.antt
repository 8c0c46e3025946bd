-- ===== src/Manager/Cascade/Kills.antt =====
-- What the cascade may change: it marks instances as killed, and nothing else.
use tzafon_way_point.Prelude.{
  ℕ, zero, suc, ◌≡◌, refl, ◌∙◌, sym, ◌⊎◌, inl, inr, true, some, none, List, [], ◌∷◌, ◌++◌, reverse,
  Text, arith, is_some, text_eq, eq_of_text_eq, Bool-cases, Option,
}
use tzafon_way_point.Proto.{Relationship, InstanceDescription, listed}
use tzafon_way_point.Dict.{Dict, get, insert, get-insert}
use tzafon_way_point.Dict.Distinct.{IsDistinct, insert-IsDistinct}
use tzafon_way_point.Manager.World.{World}
use tzafon_way_point.Manager.Cascade.{mark, propagate, measure, cascade}
use tzafon_way_point.Manager.Cascade.Termination.{dead, mark_lem, visit_cases}

abbrev pub Instances : Type 0
Instances = Dict InstanceDescription

-- One key: what it held stays, or was alive and is now dead with all else unchanged.
abbrev pub Kept : Option InstanceDescription → Option InstanceDescription → Type 0
Kept before now =
    (now ≡ before)
    ⊎ ((d : InstanceDescription) × (t : ℕ) × (before ≡ some d)
        × (d.kill_instance_request ≡ none)
        × (now ≡ some (dead t d)))

pub record Kills (m m' : Instances) : Type 0 where
  pub at : (k : Text) → Kept (get k m) (get k m')

pub Kills-refl : (m : Instances) → Kills m m
Kills-refl m = record { at = λ k. inl refl }

Kept-trans : (a b c : Option InstanceDescription) → Kept a b → Kept b c → Kept a c
Kept-trans a b c (inl e) (inl f) = inl (f ∙ e)
Kept-trans a b c (inl e) (inr (d, t, p, q, r)) = inr (d, t, sym e ∙ p, q, r)
Kept-trans a b c (inr (d, t, p, q, r)) (inl f) = inr (d, t, p, q, f ∙ r)
Kept-trans a b c (inr (d, t, p, q, r)) (inr (d', t', p', q', r')) = absurd (ground arith)

pub Kills-trans : {m m' m'' : Instances} → Kills m m' → Kills m' m'' → Kills m m''
Kills-trans a b = record { at = λ k. Kept-trans _ _ _ (a.at k) (b.at k) }

pub Kills-mark :
    (clock : ℕ → ℕ) (k : Text) (d : InstanceDescription) (w : World)
    → get k w.instance_description ≡ some d
    → d.kill_instance_request ≡ none
    → Kills w.instance_description (mark clock k d w).instance_description
Kills-mark clock k d w g f = rw (mark_lem clock k d w) (record { at = one })
  where
    after : Instances
    after = insert k (dead (clock w.reads) d) w.instance_description

    one : (j : Text) → Kept (get j w.instance_description) (get j after)
    one j = elim (Bool-cases (text_eq k j)) [
      | inl e ↦ inr (
        d,
        clock w.reads,
        rw (← eq_of_text_eq k j e) g,
        f,
        rw (get-insert k j (dead (clock w.reads) d) w.instance_description, e),
      )
      | inr e ↦ inl (rw (get-insert k j (dead (clock w.reads) d) w.instance_description, e))
    ]

-- However the loop ends, it has only killed.
pub propagate-Kills :
    (clock : ℕ → ℕ) (fuel : ℕ) (stack : List Relationship) (w : World)
    → Kills w.instance_description (propagate clock fuel stack w).1.instance_description
unfolding propagate
propagate-Kills clock zero stack w = Kills-refl _
propagate-Kills clock (suc fuel) [] w = Kills-refl _
propagate-Kills clock (suc fuel) (c ∷ stack) w =
    elim (visit_cases w.instance_description c.instance_id) [
      | inl (o, e) ↦ rw (e, propagate) (Kills-refl _)
      | inr (inl (id, o, x, e)) ↦ rw (e, propagate) (propagate-Kills clock fuel stack w)
      | inr (inr (k, d, o, g, f, e)) ↦
          rw (e, propagate)
            (Kills-trans (Kills-mark clock k d w g f) (
              propagate-Kills clock fuel (reverse (listed d.children) ++ stack) (mark clock k d w)))
    ]

-- No instance of that name is alive.
unfoldable pub IsGone : Instances → Text → Type 0
IsGone m k = (d : InstanceDescription) → get k m ≡ some d → is_some d.kill_instance_request ≡ true

pub Kills-IsGone : {m m' : Instances} (k : Text) → Kills m m' → IsGone m k → IsGone m' k
unfolding IsGone
Kills-IsGone {m} {m'} k h gone d e = elim (h.at k) [
  | inl p ↦ gone d (sym p ∙ e)
  | inr (d', t, p, q, r) ↦ ground arith
]

-- What stands at a key afterwards stood there before, perhaps alive.
pub Kills-before :
    {m m' : Instances} (k : Text) (d : InstanceDescription)
    → Kills m m'
    → get k m' ≡ some d
    → (b : InstanceDescription) × (get k m ≡ some b) × ((d ≡ b) ⊎ ((t : ℕ) × (d ≡ dead t b)))
Kills-before k d h e = elim (h.at k) [
  | inl p ↦ (d, sym p ∙ e, inl refl)
  | inr (b, t, p, q, r) ↦ (b, p, inr (t, ground (arith, r, e)))
]

-- What stood at a key still stands there, perhaps killed.
pub Kills-after :
    {m m' : Instances} (k : Text) (b : InstanceDescription)
    → Kills m m'
    → get k m ≡ some b
    → (d : InstanceDescription) × (get k m' ≡ some d) × ((d ≡ b) ⊎ ((t : ℕ) × (d ≡ dead t b)))
Kills-after k b h e = elim (h.at k) [
  | inl p ↦ (b, p ∙ e, inl refl)
  | inr (b', t, p, q, r) ↦ (dead t b, ground (arith, p, e, r), inr (t, refl))
]

pub propagate-IsDistinct :
    (clock : ℕ → ℕ) (fuel : ℕ) (stack : List Relationship) (w : World)
    → IsDistinct w.instance_description
    → IsDistinct (propagate clock fuel stack w).1.instance_description
unfolding propagate
propagate-IsDistinct clock zero stack w h = h
propagate-IsDistinct clock (suc fuel) [] w h = h
propagate-IsDistinct clock (suc fuel) (c ∷ stack) w h =
    elim (visit_cases w.instance_description c.instance_id) [
      | inl (o, e) ↦ rw (e, propagate) h
      | inr (inl (id, o, x, e)) ↦ rw (e, propagate) (propagate-IsDistinct clock fuel stack w h)
      | inr (inr (k, d, o, g, f, e)) ↦
          rw (e, propagate)
            (propagate-IsDistinct clock fuel (reverse (listed d.children) ++ stack)
              (mark clock k d w)
              (rw (mark_lem clock k d w) (insert-IsDistinct k _ w.instance_description h)))
    ]

pub cascade-Kills :
    (clock : ℕ → ℕ) (d : InstanceDescription) (w : World)
    → Kills w.instance_description (cascade clock d w).1.instance_description
unfolding cascade
cascade-Kills clock d w =
    let stack = reverse (listed d.children) in propagate-Kills clock (suc (measure stack w)) stack w

pub cascade-IsDistinct :
    (clock : ℕ → ℕ) (d : InstanceDescription) (w : World)
    → IsDistinct w.instance_description
    → IsDistinct (cascade clock d w).1.instance_description
unfolding cascade
cascade-IsDistinct clock d w h =
    let stack = reverse (listed d.children) in
    propagate-IsDistinct clock (suc (measure stack w)) stack w h

pub IsGone-at :
    (m : Instances) (k : Text) (d : InstanceDescription)
    → IsGone m k
    → get k m ≡ some d
    → is_some d.kill_instance_request ≡ true
unfolding IsGone
IsGone-at m k d gone g = gone d g
