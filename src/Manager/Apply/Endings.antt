-- ===== src/Manager/Apply/Endings.antt =====
-- A request to kill an instance kills it.
use mathlib.Core.Path.{subst}
use tzafon_way_point.Prelude.{
  ℕ, ◌≡◌, refl, sym, ap, ◌∙◌, inl, inr, true, false, Bool, none, some, Text, arith, is_some,
  is_none, ◌&&◌, Option-cases,
}
use tzafon_way_point.Prelude.Status.{Result, ok}
use tzafon_way_point.Proto.{InstanceId, KillInstanceRequest, InstanceDescription, listed}
use tzafon_way_point.Dict.{get, get-insert_self}
use tzafon_way_point.Manager.World.{World}
use tzafon_way_point.Manager.Relations.{check_request, check_parent, check_children}
use tzafon_way_point.Manager.Cascade.Kills.{Instances}
use tzafon_way_point.Manager.Invariant.{IsValid}
use tzafon_way_point.Manager.Apply.{write_fields, commit, apply_to_instance_description}
use tzafon_way_point.Manager.Apply.Fields.{Ties, write_fields-Written}
use tzafon_way_point.Manager.Apply.Answers.{apply-check_request}
use tzafon_way_point.Manager.Apply.Commit.{apply-Decided}
use tzafon_way_point.Manager.Apply.Later.{AllLater}
use tzafon_way_point.Manager.Apply.Ageing.{AreFree, apply-AllLater}
use tzafon_way_point.Manager.Apply.Leases.{written, commit_lem, others-Since}

-- The instance is there, and dead.
abbrev pub IsDead : Instances → Text → Type 0
IsDead m k =
    (d : InstanceDescription) × (get k m ≡ some d) × (is_some d.kill_instance_request ≡ true)

-- The dead stay dead.
pub AllLater-IsDead : (m m' : Instances) (k : Text) → AllLater m m' → IsDead m k → IsDead m' k
unfolding AllLater
AllLater-IsDead m m' k h (d, g, over) = elim (Option-cases d.kill_instance_request) [
  | inl alive ↦ absurd (ground (arith, over, alive))
  | inr (q, dead) ↦ let (d', g', later) = h k d g in (d', g', rw (later.death q dead) refl)
]

-- A request that does nothing but kill.
abbrev pub OnlyKills : InstanceDescription → InstanceId → KillInstanceRequest → Type 0
OnlyKills r id q =
    (r.instance_id ≡ some id)
    × ((is_none r.created_timestamp_ms && is_none r.instance_type) ≡ true)
    × (r.parent ≡ none)
    × (r.children ≡ none)
    × (r.kill_instance_request ≡ some q)

commit-IsDead :
    (clock : ℕ → ℕ) (r : InstanceDescription) (id : InstanceId) (q : KillInstanceRequest)
    (d : InstanceDescription) (w : World)
    → get id.instance_id w.instance_description ≡ some d
    → OnlyKills r id q
    → IsDead (commit clock r id w).1.instance_description id.instance_id
unfolding AllLater
commit-IsDead clock r id q d w g (names, plain, parentless, childless, kills) =
    let w1 = written clock r id d w in
    let d1 = (write_fields clock r (d, w.reads)).0 in
    let (t, u, v, e) = write_fields-Written clock r (d, w.reads) in
    let over : d1.kill_instance_request ≡ some (record q { timestamp_ms = some v }) =
      ap (λ (x : Ties). x.kill_instance_request) e ∙ rw kills refl in
    let free : AreFree w1.instance_description (listed r.children) =
      subst (λ o. AreFree w1.instance_description (listed o)) (sym childless)
        (λ c i x m. absurd m.1) in
    let (d2, g2, later) =
      others-Since clock r id w1 free id.instance_id d1
        (get-insert_self id.instance_id d1 w.instance_description) in
    rw (commit_lem clock r id d w g)
      (d2, g2, rw (later.death (record q { timestamp_ms = some v }) over) refl)

accepts :
    (r : InstanceDescription) (id : InstanceId) (q : KillInstanceRequest) (d : InstanceDescription)
    (m : Instances)
    → get id.instance_id m ≡ some d
    → is_some d.kill_instance_request ≡ false
    → OnlyKills r id q
    → check_request m r id ≡ ok true
unfolding check_request check_parent check_children
accepts r id q d m g alive (names, plain, parentless, childless, kills) =
    rw (g, check_request) (rw alive (rw (parentless, childless) refl))

-- In a valid state, a request that does nothing but kill leaves its instance dead, if it is there.
pub apply-IsDead :
    (clock : ℕ → ℕ) (r : InstanceDescription) (id : InstanceId) (q : KillInstanceRequest)
    (d : InstanceDescription) (w : World)
    → IsValid w
    → OnlyKills r id q
    → get id.instance_id w.instance_description ≡ some d
    → IsDead (apply_to_instance_description clock r w).1.instance_description id.instance_id
unfolding AllLater
apply-IsDead clock r id q d w v only g = elim (Option-cases d.kill_instance_request) [
  | inr (k, over) ↦
      let (d', g', later) = apply-AllLater clock r w v id.instance_id d g in
      (d', g', rw (later.death k over) refl)
  | inl alive ↦
      let accepted = accepts r id q d w.instance_description g (ap is_some alive) only in
      let answered = apply-check_request clock r id w v only.0 only.1 ∙ accepted in
      elim (apply-Decided clock r w) [
        | inr (res, n, e) ↦ absurd (n (sym (ap (λ (x : Result Bool × World). x.0) e) ∙ answered))
        | inl (id', named, c, e) ↦
            let same : id ≡ id' = ground (arith, named, only.0) in
            let ended = commit-IsDead clock r id q d w g only in
            subst (λ (x : World). IsDead x.instance_description id.instance_id)
              (sym (
                ap (λ (x : Result Bool × World). x.1) e
                ∙ ap (λ (i : InstanceId). (commit clock r i w).1) (sym same)))
              ended
      ]
]
