-- ===== src/Manager/Invariant/Lift.antt =====
-- How the invariant moves along a write of one description.
use tzafon_way_point.Prelude.{
  ◌≡◌, refl, ap, ◌∙◌, ◌⊎◌, inl, inr, true, false, some, Text, In, is_some, text_eq, eq_of_text_eq,
  Bool-cases, arith, List, [], ◌∷◌, map,
}
use tzafon_way_point.Proto.{Relationship, InstanceDescription}
use tzafon_way_point.Dict.{get, insert, get-insert, get-insert_self}
use tzafon_way_point.Manager.Cascade.Kills.{Instances, IsGone}
use tzafon_way_point.Manager.Invariant.{Names, Reaches}

pub In-map :
    {A B : Type 0} (f : A → B) (b : B) (xs : List A)
    → In b (map f xs)
    → (a : A) × In a xs × (f a ≡ b)
In-map f b [] h = absurd h.1
In-map f b (x ∷ xs) (inl e) = (x, inl refl, e)
In-map f b (x ∷ xs) (inr h) = let (a, i, e) = In-map f b xs h in (a, inr i, e)

pub map-In : {A B : Type 0} (f : A → B) (a : A) (xs : List A) → In a xs → In (f a) (map f xs)
map-In f a [] h = absurd h.1
map-In f a (x ∷ xs) (inl e) = inl (ap f e)
map-In f a (x ∷ xs) (inr h) = inr (map-In f a xs h)

-- What stands at a key after a write: the value written, or what stood there before.
pub insert_cases :
    (k j : Text) (v d : InstanceDescription) (m : Instances)
    → get j (insert k v m) ≡ some d
    → ((k ≡ j) × (d ≡ v)) ⊎ ((text_eq k j ≡ false) × (get j m ≡ some d))
insert_cases k j v d m h = elim (Bool-cases (text_eq k j)) [
  | inl e ↦ inl (eq_of_text_eq k j e, ground (arith, get-insert k j v m, h, e))
  | inr e ↦ inr (e, ground (arith, get-insert k j v m, h, e))
]

pub get-insert_ne :
    (k j : Text) (v : InstanceDescription) (m : Instances)
    → text_eq k j ≡ false
    → get j (insert k v m) ≡ get j m
get-insert_ne k j v m h = rw (get-insert k j v m, h)

pub Reaches-owe :
    (m : Instances) (c : Relationship) (P : InstanceDescription → Type 0)
    (owed owed' : Text → Type 0)
    → ((i : Text) → owed i → owed' i)
    → Reaches m c P owed
    → Reaches m c P owed'
Reaches-owe m c P owed owed' more (i, e, n, g, inl p) = (i, e, n, g, inl p)
Reaches-owe m c P owed owed' more (i, e, n, g, inr o) = (i, e, n, g, inr (more i o))

-- Where nothing is owed, the relationship is answered.
pub answered :
    (m : Instances) (c : Relationship) (P : InstanceDescription → Type 0)
    → Reaches m c P (λ _. ⊥)
    → (i : Text) × (e : InstanceDescription) × Names c i × (get i m ≡ some e) × P e
answered m c P (i, e, n, g, inl p) = (i, e, n, g, p)
answered m c P (i, e, n, g, inr z) = absurd z

module _ (m : Instances) (k : Text) (d d' : InstanceDescription) (here : get k m ≡ some d) where
  -- An answer survives a write that keeps it.
  pub Reaches-insert :
      (c : Relationship) (P : InstanceDescription → Type 0) (owed : Text → Type 0)
      → (P d → P d')
      → Reaches m c P owed
      → Reaches (insert k d' m) c P owed
  Reaches-insert c P owed keep (i, e, n, g, a) = elim (Bool-cases (text_eq k i)) [
    | inl hit ↦
        let same : k ≡ i = eq_of_text_eq k i hit in
        let found : e ≡ d = ground (arith, g, here, same) in
        (
          i,
          d',
          n,
          rw (← same) (get-insert_self k d' m),
          elim a [ inl p ↦ inl (keep (rw (← found) p)) | inr o ↦ inr o ],
        )
    | inr miss ↦ (i, e, n, get-insert_ne k i d' m miss ∙ g, a)
  ]

  pub IsGone-insert :
      (i : Text)
      → (is_some d.kill_instance_request ≡ true → is_some d'.kill_instance_request ≡ true)
      → IsGone m i
      → IsGone (insert k d' m) i
  unfolding IsGone
  IsGone-insert i keep gone x h = elim (insert_cases k i d' x m h) [
    | inl (same, e) ↦ rw e (keep (gone d (rw (← same) here)))
    | inr (miss, g) ↦ gone x g
  ]
