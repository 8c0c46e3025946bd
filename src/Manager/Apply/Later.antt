-- ===== src/Manager/Apply/Later.antt =====
-- What a request never takes away: instances, their births, parents, children and deaths.
use mathlib.Core.Path.{subst}
use tzafon_way_point.Prelude.{
  ◌≡◌, refl, sym, ap, ◌∙◌, inl, inr, some, Text, In, text_eq, text_eq_iff, arith, Bool-cases,
}
use tzafon_way_point.Proto.{Relationship, KillInstanceRequest, InstanceDescription, listed}
use tzafon_way_point.Dict.{get, insert, get-insert}
use tzafon_way_point.Manager.Cascade.Termination.{dead}
use tzafon_way_point.Manager.Cascade.Kills.{Instances, Kills}

-- How an instance may have changed with time.
pub record Later (d d' : InstanceDescription) : Type 0 where
  pub created : d'.created_timestamp_ms ≡ d.created_timestamp_ms
  pub kind : d'.instance_type ≡ d.instance_type
  pub name : d'.instance_id ≡ d.instance_id
  pub parent : (p : Relationship) → d.parent ≡ some p → d'.parent ≡ some p
  pub death :
      (q : KillInstanceRequest)
      → d.kill_instance_request ≡ some q
      → d'.kill_instance_request ≡ some q
  pub children : (c : Relationship) → In c (listed d.children) → In c (listed d'.children)

pub Later-refl : (d : InstanceDescription) → Later d d
Later-refl d = record {
  created = refl;
  kind = refl;
  name = refl;
  parent = λ p h. h;
  death = λ q h. h;
  children = λ c h. h;
}

pub Later-trans : {a b c : InstanceDescription} → Later a b → Later b c → Later a c
Later-trans f g = record {
  created = g.created ∙ f.created;
  kind = g.kind ∙ f.kind;
  name = g.name ∙ f.name;
  parent = λ p h. g.parent p (f.parent p h);
  death = λ q h. g.death q (f.death q h);
  children = λ c h. g.children c (f.children c h);
}

-- Every instance is still there, with time gone by.
unfoldable pub AllLater : Instances → Instances → Type 0
AllLater m m' =
    (k : Text) (d : InstanceDescription)
    → get k m ≡ some d
    → (d' : InstanceDescription) × (get k m' ≡ some d') × Later d d'

pub AllLater-refl : (m : Instances) → AllLater m m
unfolding AllLater
AllLater-refl m k d g = (d, g, Later-refl d)

pub AllLater-trans : (a b c : Instances) → AllLater a b → AllLater b c → AllLater a c
unfolding AllLater
AllLater-trans a b c f h k d g =
    let (d', g', l) = f k d g in let (d'', g'', l') = h k d' g' in (d'', g'', Later-trans l l')

-- One write, seen from a state `m0` further back.
pub insert-AllLater :
    (m0 m : Instances) (k : Text) (e' : InstanceDescription)
    → AllLater m0 m
    → ((d : InstanceDescription) → get k m0 ≡ some d → Later d e')
    → AllLater m0 (insert k e' m)
unfolding AllLater
insert-AllLater m0 m k e' f h j d g = elim (Bool-cases (text_eq k j)) [
  | inl e ↦
      let same : k ≡ j = (text_eq_iff k j).0 e in
      (e', rw (get-insert k j e' m, e), h d (subst (λ x. get x m0 ≡ some d) (sym same) g))
  | inr e ↦ let (d', g', l) = f j d g in (d', rw (get-insert k j e' m, e) g', l)
]

pub Kills-AllLater : {m m' : Instances} → Kills m m' → AllLater m m'
unfolding AllLater
Kills-AllLater h k d g = elim (h.at k) [
  | inl same ↦ (d, same ∙ g, Later-refl d)
  | inr (b, t, before, alive, now) ↦
      let one : b ≡ d = ground (arith, before, g) in
      (
        dead t b,
        now,
        record {
          created = ap (λ (x : InstanceDescription). x.created_timestamp_ms) one;
          kind = ap (λ (x : InstanceDescription). x.instance_type) one;
          name = ap (λ (x : InstanceDescription). x.instance_id) one;
          parent = λ p e. rw one e;
          death = λ q e. absurd (ground (arith, alive, e, one));
          children = λ c i. rw one i;
        },
      )
]
