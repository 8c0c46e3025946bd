-- ===== src/Manager/KillLoop/Descent.antt =====
-- Descendants, and how death is handed down to them.
use mathlib.Core.Path.{subst}
use tzafon_way_point.Prelude.{◌≡◌, inl, inr, some, Text, In, arith}
use tzafon_way_point.Proto.{Relationship, InstanceDescription, listed}
use tzafon_way_point.Dict.{get}
use tzafon_way_point.Manager.Cascade.Kills.{Instances, IsGone-at}
use tzafon_way_point.Manager.Invariant.{Names, IsLinked}
use tzafon_way_point.Manager.Apply.Later.{AllLater}
use tzafon_way_point.Manager.Apply.Endings.{IsDead}

-- `i` is `j` or one of its descendants.
pub data Under (m : Instances) (j : Text) : Text → Type 0 where
  self : Under m j j
  child :
      {k i : Text} (d : InstanceDescription) (c : Relationship)
      → Under m j k
      → get k m ≡ some d
      → In c (listed d.children)
      → Names c i
      → Under m j i

-- From a state to a later one, both valid: who descends from an instance that is dead then is dead too.
pub handed_down :
    (m after : Instances)
    → IsLinked m
    → IsLinked after
    → AllLater m after
    → (j i : Text) → IsDead after j
    → Under m j i
    → IsDead after i
unfolding AllLater
handed_down m after l l' ages j i over self = over
handed_down m after l l' ages j i over (child {k} d c under g in_list n) =
    let (x, gx, dead) = handed_down m after l l' ages j k over under in
    let (x', gx', later) = ages k d g in
    let same : x' ≡ x = ground (arith, gx, gx') in
    let (i', e, n', ge, back) = l.child_back k d c g in_list in
    let named : i' ≡ i = ground (arith, n, n') in
    let (e', ge', later') = ages i' e ge in
    let there : get i after ≡ some e' = subst (λ z. get z after ≡ some e') named ge' in
    let listed_still : In c (listed x.children) =
      subst (λ (z : InstanceDescription). In c (listed z.children)) same
        (later.children c in_list) in
    elim (l'.settled k x c i gx dead listed_still n) [
      | inl z ↦ absurd z
      | inr gone ↦ (e', there, IsGone-at after i e' gone there)
    ]
