-- ===== src/Manager/Register/Ageing.antt =====
-- A registration takes nothing away from the instances that are there.
use mathlib.Core.Path.{subst}
use tzafon_way_point.Prelude.{
  ℕ, ◌≡◌, sym, inl, inr, true, false, Bool, none, some, arith, Option-cases,
}
use tzafon_way_point.Prelude.Status.{Result, ok, err}
use tzafon_way_point.Proto.{InstanceId, InstanceType, InstanceDescription, type_of_code}
use tzafon_way_point.Dict.{get}
use tzafon_way_point.Manager.World.{World}
use tzafon_way_point.Manager.Cascade.Kills.{Instances}
use tzafon_way_point.Manager.Invariant.{IsValid}
use tzafon_way_point.Manager.Apply.{apply_to_instance_description}
use tzafon_way_point.Manager.Apply.Later.{AllLater, AllLater-refl, AllLater-trans, insert-AllLater}
use tzafon_way_point.Manager.Apply.Ageing.{apply-AllLater}
use tzafon_way_point.Manager.Register.{
  newborn, claim, release_on_failure, settle, insert_new_instance_description,
}
use tzafon_way_point.Manager.Register.Claim.{
  handed, claimed, claimed-IsValid, insert_new-Registered,
}

-- Only a registration that succeeds has to be looked into.
release-AllLater :
    (m0 : Instances) (id : InstanceId) (out : Result Bool × World)
    → AllLater m0 out.1.instance_description
    → (release_on_failure id out).0 ≡ ok true
    → AllLater m0 (release_on_failure id out).1.instance_description
unfolding release_on_failure
release-AllLater m0 id (ok true, w) h e = h
release-AllLater m0 id (ok false, w) h e = absurd (ground (arith, e))
release-AllLater m0 id (err x, w) h e = absurd (ground (arith, e))

pub claimed-AllLater :
    (id : InstanceId) (code now : ℕ) (w : World)
    → get id.instance_id w.instance_description ≡ none
    → AllLater w.instance_description (claimed id code now w).instance_description
unfolding claimed
claimed-AllLater id code now w vacant =
    insert-AllLater w.instance_description w.instance_description id.instance_id
      (newborn id code now) (AllLater-refl w.instance_description)
      (λ d g. absurd (ground (arith, g, vacant)))

settle-AllLater :
    (clock : ℕ → ℕ) (r : InstanceDescription) (id : InstanceId) (code : ℕ) (kind : InstanceType)
    (w : World)
    → type_of_code code ≡ some kind
    → IsValid w
    → (settle clock r id (claim clock id code w)).0 ≡ ok true
    → AllLater w.instance_description
        (settle clock r id (claim clock id code w)).1.instance_description
unfolding claim settle claimed
settle-AllLater clock r id code kind w known v e =
    elim (Option-cases (get id.instance_id w.instance_description)) [
      | inr (d, g) ↦ rw (g, claim) (AllLater-refl w.instance_description)
      | inl vacant ↦
          let now = clock w.reads in
          let w1 = claimed id code now w in
          let r' = record r { instance_type = none } in
          let later =
            AllLater-trans w.instance_description w1.instance_description _
              (claimed-AllLater id code now w vacant)
              (apply-AllLater clock r' w1 (claimed-IsValid id code now kind w known vacant v)) in
          rw (vacant, claim)
            (release-AllLater w.instance_description id (apply_to_instance_description clock r' w1)
              later (rw (vacant, claim) at e))
    ]

pub insert_new-AllLater :
    (clock : ℕ → ℕ) (r : InstanceDescription) (w : World)
    → IsValid w
    → AllLater w.instance_description
        (insert_new_instance_description clock r w).1.instance_description
insert_new-AllLater clock r w v = elim (insert_new-Registered clock r w v) [
  | inr (n, same) ↦
      subst (AllLater w.instance_description) (sym same) (AllLater-refl w.instance_description)
  | inl (done, valid) ↦ elim (handed clock r w) [
    | inr (x, e) ↦ absurd (ground (arith, e, done))
    | inl (id, code, kind, known, e) ↦
        rw e (settle-AllLater clock r id code kind w known v (rw e at done))
  ]
]
