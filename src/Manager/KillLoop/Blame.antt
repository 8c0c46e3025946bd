-- ===== src/Manager/KillLoop/Blame.antt =====
-- Whom a request that only kills takes along: its instance and the descendants, and nobody else.
use tzafon_way_point.Prelude.{
  ℕ, zero, suc, ◌≡◌, refl, ◌∙◌, ap, ◌⊎◌, inl, inr, none, some, List, [], ◌∷◌, ◌++◌, reverse, In,
  Text, arith, text_eq, eq_of_text_eq, Bool-cases, All, All-append, All-reverse, All-of_In,
}
use tzafon_way_point.Proto.{Relationship, InstanceDescription, listed}
use tzafon_way_point.Dict.{get, insert, get-insert}
use tzafon_way_point.Manager.World.{World}
use tzafon_way_point.Manager.Cascade.{mark, propagate, measure, cascade}
use tzafon_way_point.Manager.Cascade.Termination.{dead, mark_lem, visit_cases}
use tzafon_way_point.Manager.Cascade.Kills.{Instances}
use tzafon_way_point.Manager.Invariant.{Names}

module _ (Blamed : Text → Type 0) where
  -- Who is to blame for an instance is to blame for its children.
  unfoldable pub IsClosed : Instances → Type 0
  IsClosed m =
      (k : Text) (d : InstanceDescription) (c : Relationship) (i : Text)
      → Blamed k
      → get k m ≡ some d
      → In c (listed d.children)
      → Names c i
      → Blamed i

  abbrev pub Leads : Relationship → Type 0
  Leads c = (i : Text) → Names c i → Blamed i

  -- From `m` to `m'` nobody comes in, nobody's children change, and only the blamed die.
  pub record KillsOnly (m m' : Instances) : Type 0 where
    pub before :
        (k : Text) (d' : InstanceDescription)
        → get k m' ≡ some d'
        → (d : InstanceDescription) × (get k m ≡ some d)
          × (listed d'.children ≡ listed d.children)
          × (d.kill_instance_request ≡ none → (d'.kill_instance_request ≡ none) ⊎ Blamed k)

  pub KillsOnly-refl : (m : Instances) → KillsOnly m m
  KillsOnly-refl m = record { before = λ k d g. (d, g, refl, λ alive. inl alive) }

  pub KillsOnly-trans : {a b c : Instances} → KillsOnly a b → KillsOnly b c → KillsOnly a c
  KillsOnly-trans f h = record {
    before = λ k d'' g''.
        let (d', g', same', died') = h.before k d'' g'' in
        let (d, g, same, died) = f.before k d' g' in
        (d, g, same' ∙ same, λ alive. elim (died alive) [ inl a ↦ died' a | inr b ↦ inr b ]);
  }

  pub KillsOnly-IsClosed : {m m' : Instances} → KillsOnly m m' → IsClosed m → IsClosed m'
  unfolding IsClosed
  KillsOnly-IsClosed h closed k d' c i b g' l n =
      let (d, g, same, died) = h.before k d' g' in closed k d c i b g (rw same at l) n

  -- One write at a blamed key that leaves the children as they are.
  pub KillsOnly-insert :
      (k : Text) (d d' : InstanceDescription) (m : Instances)
      → get k m ≡ some d
      → listed d'.children ≡ listed d.children
      → Blamed k
      → KillsOnly m (insert k d' m)
  KillsOnly-insert k d d' m g same b = record {
    before = λ j x h. elim (Bool-cases (text_eq k j)) [
      | inl hit ↦
          let here : k ≡ j = eq_of_text_eq k j hit in
          let found : x ≡ d' = ground (arith, h, get-insert k j d' m, hit) in
          (
            d,
            rw (← here) g,
            ap (λ (z : InstanceDescription). listed z.children) found ∙ same,
            λ alive. inr (rw (← here) b),
          )
      | inr miss ↦ (x, ground (arith, h, get-insert k j d' m, miss), refl, λ alive. inl alive)
    ];
  }

  pub propagate-KillsOnly :
      (clock : ℕ → ℕ) (fuel : ℕ) (stack : List Relationship) (w : World)
      → IsClosed w.instance_description
      → All Leads stack
      → KillsOnly w.instance_description (propagate clock fuel stack w).1.instance_description
  unfolding propagate
  propagate-KillsOnly clock zero stack w closed a = KillsOnly-refl _
  propagate-KillsOnly clock (suc fuel) [] w closed a = KillsOnly-refl _
  propagate-KillsOnly clock (suc fuel) (c ∷ stack) w closed a =
      elim (visit_cases w.instance_description c.instance_id) [
        | inl (o, e) ↦ rw (e, propagate) (KillsOnly-refl _)
        | inr (inl (id, o, x, e)) ↦
            rw (e, propagate) (propagate-KillsOnly clock fuel stack w closed a.1)
        | inr (inr (k, d, o, g, f, e)) ↦
            let b : Blamed k = a.0 k o in
            let one : KillsOnly w.instance_description (mark clock k d w).instance_description =
              rw (mark_lem clock k d w)
                (KillsOnly-insert k d (dead (clock w.reads) d) w.instance_description g refl b) in
            let own : All Leads (listed d.children) =
              All-of_In Leads (listed d.children)
                (λ c' l i n. unfold IsClosed in closed k d c' i b g l n) in
            rw (e, propagate)
              (KillsOnly-trans one (
                propagate-KillsOnly clock fuel (reverse (listed d.children) ++ stack)
                  (mark clock k d w) (KillsOnly-IsClosed one closed)
                  (All-append Leads _ stack (All-reverse Leads (listed d.children) own) a.1)))
      ]

  pub cascade-KillsOnly :
      (clock : ℕ → ℕ) (k : Text) (d : InstanceDescription) (w : World)
      → IsClosed w.instance_description
      → Blamed k
      → get k w.instance_description ≡ some d
      → KillsOnly w.instance_description (cascade clock d w).1.instance_description
  unfolding cascade IsClosed
  cascade-KillsOnly clock k d w closed b g =
      let stack = reverse (listed d.children) in
      propagate-KillsOnly clock (suc (measure stack w)) stack w closed (
        All-reverse Leads (listed d.children)
          (All-of_In Leads (listed d.children) (λ c l i n. closed k d c i b g l n)))
