-- ===== src/Manager/Invariant.antt =====
-- What holds of the instances between two requests: descriptions stand under their own ids, parents
-- and children name each other, and the children of a dead instance are dead.
pub mod Lift
use tzafon_way_point.Prelude.{ℕ, ◌≡◌, ◌⊎◌, true, Option, some, Text, In, is_some}
use tzafon_way_point.Proto.{
  TimestampMs, InstanceId, InstanceType, Relationship, InstanceDescription, listed, type_of_code,
}
use tzafon_way_point.Dict.{get}
use tzafon_way_point.Dict.Distinct.{IsDistinct}
use tzafon_way_point.Manager.World.{World}
use tzafon_way_point.Manager.Cascade.Kills.{Instances, IsGone}

abbrev pub Names : Relationship → Text → Type 0
Names c i = c.instance_id ≡ some (record { instance_id = i })

-- The parent of `e` is `k`; `e` lists `k` among its children.
abbrev pub ParentIs : InstanceDescription → Text → Type 0
ParentIs e k = (p : Relationship) × (e.parent ≡ some p) × Names p k

abbrev pub Lists : InstanceDescription → Text → Type 0
Lists e k = (c : Relationship) × In c (listed e.children) × Names c k

-- A description made by a registration.
abbrev pub IsBorn : InstanceDescription → Type 0
IsBorn d =
    (t : TimestampMs) × (code : ℕ) × (kind : InstanceType) × (d.created_timestamp_ms ≡ some t)
    × (d.instance_type ≡ some code)
    × (type_of_code code ≡ some kind)

-- The relationship leads to an instance that answers it by `P`, or whose answer is still owed.
abbrev pub Reaches :
    Instances → Relationship → (InstanceDescription → Type 0) → (Text → Type 0) → Type 0
Reaches m c P owed =
    (i : Text) × (e : InstanceDescription) × Names c i × (get i m ≡ some e) × (P e ⊎ owed i)

-- The first two parameters say which answers a request still owes, the third which dead instances
-- may have living children.
pub record Linked (child_debt parent_debt : Text → Text → Type 0) (exempt : Text → Type 0)
    (m : Instances) : Type 0 where
  pub keyed :
      (k : Text) (d : InstanceDescription)
      → get k m ≡ some d
      → d.instance_id ≡ some (record { instance_id = k })
  pub born : (k : Text) (d : InstanceDescription) → get k m ≡ some d → IsBorn d
  pub child_back :
      (k : Text) (d : InstanceDescription) (c : Relationship)
      → get k m ≡ some d
      → In c (listed d.children)
      → Reaches m c (λ e. ParentIs e k) (child_debt k)
  pub parent_back :
      (k : Text) (d : InstanceDescription) (p : Relationship)
      → get k m ≡ some d
      → d.parent ≡ some p
      → Reaches m p (λ e. Lists e k) (parent_debt k)
  pub settled :
      (k : Text) (d : InstanceDescription) (c : Relationship) (i : Text)
      → get k m ≡ some d
      → is_some d.kill_instance_request ≡ true
      → In c (listed d.children)
      → Names c i
      → exempt k ⊎ IsGone m i

-- Between requests nothing is owed and no instance is exempt.
abbrev pub IsLinked : Instances → Type 0
IsLinked = Linked (λ _ _. ⊥) (λ _ _. ⊥) (λ _. ⊥)

pub record IsValid (w : World) : Type 0 where
  pub distinct : IsDistinct w.instance_description
  pub linked : IsLinked w.instance_description
