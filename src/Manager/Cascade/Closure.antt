-- ===== src/Manager/Cascade/Closure.antt =====
-- The cascade reaches every descendant that an instance lists.
use tzafon_way_point.Prelude.{
  ℕ, zero, suc, ◌<◌, ◌≡◌, refl, ◌∙◌, sym, ap, ◌⊎◌, inl, inr, true, some, List, [], ◌∷◌, ◌++◌,
  reverse, Text, arith, In, is_some, text_eq, Bool-cases, All, In-append_left, In-append_right,
  In-reverse, All-append, All-reverse,
}
use tzafon_way_point.Prelude.Status.{Result, ok}
use tzafon_way_point.Proto.{InstanceId, Relationship, InstanceDescription, listed}
use tzafon_way_point.Dict.{get, insert, get-insert, get-insert_self}
use tzafon_way_point.Manager.World.{World}
use tzafon_way_point.Manager.Cascade.{mark, propagate, measure, cascade}
use tzafon_way_point.Manager.Cascade.Termination.{dead, mark_lem, visit_cases, measure_falls}
use tzafon_way_point.Manager.Cascade.Kills.{Instances, Kills, Kills-mark, IsGone, Kills-IsGone}

abbrev pub HasId : Relationship → Type 0
HasId c = is_some c.instance_id ≡ true

-- Every child that an instance lists is named.
pub record IsNamed (m : Instances) : Type 0 where
  pub at : (k : Text) (d : InstanceDescription) → get k m ≡ some d → All HasId (listed d.children)

-- Every child of a dead instance is dead or missing, or still waits on the stack.
pub record SettledBut (stack : List Relationship) (m : Instances) : Type 0 where
  pub at :
      (k : Text) (d : InstanceDescription) (c : Relationship) (i : InstanceId)
      → get k m ≡ some d
      → is_some d.kill_instance_request ≡ true
      → In c (listed d.children)
      → c.instance_id ≡ some i
      → In c stack ⊎ IsGone m i.instance_id

abbrev pub IsSettled : Instances → Type 0
IsSettled = SettledBut []

pub Kills-IsNamed : {m m' : Instances} → Kills m m' → IsNamed m → IsNamed m'
Kills-IsNamed h n = record {
  at = λ k d e. elim (h.at k) [
    | inl p ↦ n.at k d (sym p ∙ e)
    | inr (d', t, p, q, r) ↦
        let same : listed d'.children ≡ listed d.children = ground arith in
        rw (← same) (n.at k d' p)
  ];
}

-- A child that turned out dead or missing leaves the stack.
drop_gone :
    {stack : List Relationship} {m : Instances} (c : Relationship) (id : InstanceId)
    → c.instance_id ≡ some id
    → IsGone m id.instance_id
    → SettledBut (c ∷ stack) m
    → SettledBut stack m
drop_gone {stack} {m} c id o gone s = record {
  at = λ k d c' i g dd l e. elim (s.at k d c' i g dd l e) [
    | inl (inl p) ↦ let same : id ≡ i = ground arith in inr (rw (← same) gone)
    | inl (inr p) ↦ inl p
    | inr p ↦ inr p
  ];
}

-- A child that is killed leaves the stack, and its own children come onto it.
push_children :
    {stack : List Relationship} {m m' : Instances} (c : Relationship) (k : Text)
    (d d' : InstanceDescription)
    → c.instance_id ≡ some (record { instance_id = k })
    → get k m ≡ some d
    → listed d'.children ≡ listed d.children
    → is_some d'.kill_instance_request ≡ true
    → m' ≡ insert k d' m
    → Kills m m'
    → SettledBut (c ∷ stack) m
    → SettledBut (reverse (listed d.children) ++ stack) m'
push_children {stack} {m} {m'} c k d d' o g same gone e kills s = record { at = one }
  where
    killed : IsGone m' k
    killed = unfold IsGone in λ x p. ground (arith, p, e, get-insert_self k d' m)

    one :
        (j : Text) (x : InstanceDescription) (c' : Relationship) (i : InstanceId)
        → get j m' ≡ some x
        → is_some x.kill_instance_request ≡ true
        → In c' (listed x.children)
        → c'.instance_id ≡ some i
        → In c' (reverse (listed d.children) ++ stack) ⊎ IsGone m' i.instance_id
    one j x c' i p dx l q = elim (Bool-cases (text_eq k j)) [
      | inl hit ↦
          let found : x ≡ d' = ground (arith, p, e, get-insert k j d' m, hit) in
          let own : In c' (listed d.children) = rw (← same, ← found) l in
          inl (In-append_left c' _ stack (In-reverse c' (listed d.children) own))
      | inr miss ↦
          let old : get j m ≡ some x = ground (arith, p, e, get-insert k j d' m, miss) in
          elim (s.at j x c' i old dx l q) [
            | inl (inl r) ↦ let named : i.instance_id ≡ k = ground arith in inr (rw named killed)
            | inl (inr r) ↦ inl (In-append_right c' _ stack r)
            | inr r ↦ inr (Kills-IsGone i.instance_id kills r)
          ]
    ]

abbrev pub Settles : Result (Unit {0}) × World → Type 0
Settles (r, w) = (r ≡ ok tt) × IsSettled w.instance_description

pub propagate-Settles :
    (clock : ℕ → ℕ) (fuel : ℕ) (stack : List Relationship) (w : World)
    → measure stack w < fuel
    → All HasId stack
    → IsNamed w.instance_description
    → SettledBut stack w.instance_description
    → Settles (propagate clock fuel stack w)
unfolding propagate
propagate-Settles clock zero stack w h a n s = absurd (omega arith)
propagate-Settles clock (suc fuel) [] w h a n s = (refl, s)
propagate-Settles clock (suc fuel) (c ∷ stack) w h a n s =
    elim (visit_cases w.instance_description c.instance_id) [
      | inl (o, e) ↦ absurd (ground (arith, o, a.0))
      | inr (inl (id, o, x, e)) ↦
          rw (e, propagate)
            (propagate-Settles clock fuel stack w (omega arith) a.1 n
              (drop_gone c id o (unfold IsGone in λ d p. ground (arith, x, p)) s))
      | inr (inr (k, d, o, g, f, e)) ↦
          let kills = Kills-mark clock k d w g f in
          rw (e, propagate)
            (propagate-Settles clock fuel (reverse (listed d.children) ++ stack) (mark clock k d w)
              (measure_falls clock fuel k d c stack w h g f)
              (All-append HasId _ stack (All-reverse HasId _ (n.at k d g)) a.1)
              (Kills-IsNamed kills n)
              (push_children c k d (dead (clock w.reads) d) o g refl refl
                (ap (λ (v : World). v.instance_description) (mark_lem clock k d w)) kills s))
    ]

-- If all listed children have ids, and every child of a dead instance is dead, missing or among
-- the children of the instance at hand, then the cascade reports no error, and afterwards every
-- child of a dead instance is dead or missing.
pub cascade-Settles :
    (clock : ℕ → ℕ) (d : InstanceDescription) (w : World)
    → All HasId (listed d.children)
    → IsNamed w.instance_description
    → SettledBut (reverse (listed d.children)) w.instance_description
    → Settles (cascade clock d w)
unfolding cascade
cascade-Settles clock d w a n s =
    let stack = reverse (listed d.children) in
    propagate-Settles clock (suc (measure stack w)) stack w (omega arith)
      (All-reverse HasId (listed d.children) a) n s
