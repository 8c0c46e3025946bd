-- ===== src/Manager/Lifetime/Interleaved/Outcome.antt =====
-- How a registration ends when others come between its locks.
use mathlib.Core.Path.{subst}
use tzafon_way_point.Prelude.{
  ℕ, ◌≡◌, ◌≢◌, ◌↔◌, refl, ap, sym, ◌⊎◌, inl, inr, true, false, Bool, none, some, [], is_none, arith,
  Bool-cases, Option-cases,
}
use tzafon_way_point.Prelude.Status.{Result, ok, err, Status, invalid_argument}
use tzafon_way_point.Proto.{InstanceId, InstanceType, InstanceDescription, type_of_code}
use tzafon_way_point.Dict.{get, get-insert_self}
use tzafon_way_point.Manager.World.{World}
use tzafon_way_point.Manager.Invariant.{IsValid}
use tzafon_way_point.Manager.Apply.{apply_to_instance_description}
use tzafon_way_point.Manager.Apply.Commit.{AllOrNothing, apply-AllOrNothing}
use tzafon_way_point.Manager.Apply.Later.{Later, AllLater, AllLater-trans}
use tzafon_way_point.Manager.Apply.Ageing.{apply-AllLater}
use tzafon_way_point.Manager.Register.{
  newborn, claim, release_on_failure, settle, insert_new_instance_description,
}
use tzafon_way_point.Manager.Register.Claim.{claimed, claimed-IsValid}
use tzafon_way_point.Manager.Register.Ageing.{claimed-AllLater}
use tzafon_way_point.Manager.Lifetime.{serve_all}
use tzafon_way_point.Manager.Lifetime.Safety.{serve_all-IsValid}
use tzafon_way_point.Manager.Lifetime.Forever.{serve_all-Ages}
use tzafon_way_point.Manager.Lifetime.Interleaved.{Gaps, settle_among, insert_new_among}
use tzafon_way_point.Manager.Lifetime.Interleaved.Removal.{IsUnrelated, without, without-IsValid}

module _ (clock : ℕ → ℕ) (gaps : Gaps) where
  -- What the others make of the state while the new instance waits for the rest of its request.
  abbrev pub meanwhile : InstanceId → ℕ → World → World
  meanwhile id code w =
      serve_all clock (serve_all clock (claimed id code (clock w.reads) w) gaps.first) gaps.second

  -- The new instance is there, and nothing that was there before is lost.
  pub record IsAdded (id : InstanceId) (code : ℕ) (w w' : World) : Type 0 where
    pub valid : IsValid w'
    pub later : AllLater w.instance_description w'.instance_description
    pub there :
        (d : InstanceDescription) × (get id.instance_id w'.instance_description ≡ some d)
        × Later (newborn id code (clock w.reads)) d

  -- The instance is taken away from what the others made of the state.
  pub record IsTakenBack (id : InstanceId) (code : ℕ) (w w' : World) : Type 0 where
    pub vacant : get id.instance_id w.instance_description ≡ none
    pub rest : w' ≡ without id.instance_id (meanwhile id code w)
    pub sound : IsValid w' ↔ IsUnrelated (meanwhile id code w).instance_description id.instance_id

  abbrev pub Settled : InstanceId → ℕ → World → Result Bool × World → Type 0
  Settled id code w (res, w') =
      ((res ≡ ok true) × IsAdded id code w w')
      ⊎ ((res ≢ ok true) × ((w' ≡ w) ⊎ IsTakenBack id code w w'))

  module _ (id : InstanceId) (code : ℕ) (w : World) where
    module _ (vacant : get id.instance_id w.instance_description ≡ none)
        (valid : IsValid (claimed id code (clock w.reads) w)) where
      abbrev w1 : World
      w1 = claimed id code (clock w.reads) w

      abbrev w2 : World
      w2 = serve_all clock w1 gaps.first

      taken_back :
          (w3 : World)
          → w3 ≡ w2
          → IsTakenBack id code w (without id.instance_id (serve_all clock w3 gaps.second))
      taken_back w3 same =
          let w4 = serve_all clock w2 gaps.second in
          let v4 =
            serve_all-IsValid clock gaps.second w2 (serve_all-IsValid clock gaps.first w1 valid) in
          let e = ap (λ (x : World). without id.instance_id (serve_all clock x gaps.second)) same in
          record {
            vacant = vacant;
            rest = e;
            sound =
                subst
                  (λ (x : World). IsValid x ↔ IsUnrelated w4.instance_description id.instance_id)
                  (sym e) (without-IsValid id.instance_id w4 v4);
          }

      added :
          (w3 : World)
          → IsValid w3
          → AllLater w2.instance_description w3.instance_description
          → IsAdded id code w (serve_all clock w3 gaps.second)
      unfolding AllLater
      added w3 v3 l3 =
          let w4 = serve_all clock w3 gaps.second in
          let l1 = serve_all-Ages clock gaps.first w1 valid in
          let l =
            AllLater-trans w1.instance_description w3.instance_description w4.instance_description
              (AllLater-trans w1.instance_description w2.instance_description
                w3.instance_description l1 l3)
              (serve_all-Ages clock gaps.second w3 v3) in
          record {
            valid = serve_all-IsValid clock gaps.second w3 v3;
            later =
                AllLater-trans w.instance_description w1.instance_description
                  w4.instance_description (claimed-AllLater id code (clock w.reads) w vacant) l;
            there =
                l id.instance_id (newborn id code (clock w.reads))
                  (unfold claimed in get-insert_self id.instance_id _ w.instance_description);
          }

      released :
          (out : Result Bool × World)
          → AllOrNothing w2 out
          → AllLater w2.instance_description out.1.instance_description
          → Settled id code w (release_on_failure id (out.0, serve_all clock out.1 gaps.second))
      unfolding release_on_failure
      released (ok true, w3) (inl (e, v3)) l = inl (refl, added w3 v3 l)
      released (ok true, w3) (inr (n, same)) l = absurd (n refl)
      released (ok false, w3) (inl (e, v3)) l = absurd (ground (arith, e))
      released (ok false, w3) (inr (n, same)) l = inr (n, inr (taken_back w3 same))
      released (err x, w3) (inl (e, v3)) l = absurd (ground (arith, e))
      released (err x, w3) (inr (n, same)) l = inr (n, inr (taken_back w3 same))

    settle_among-Settled :
        (r : InstanceDescription) (kind : InstanceType)
        → type_of_code code ≡ some kind
        → IsValid w
        → Settled id code w (settle_among clock gaps r id (claim clock id code w))
    unfolding claim settle_among claimed
    settle_among-Settled r kind known v =
        elim (Option-cases (get id.instance_id w.instance_description)) [
          | inr (d, e) ↦ rw (e, claim) (inr ((λ z. cc), inl refl))
          | inl vacant ↦
              let v1 = claimed-IsValid id code (clock w.reads) kind w known vacant v in
              let r' = record r { instance_type = none } in
              let w2 = serve_all clock (claimed id code (clock w.reads) w) gaps.first in
              let v2 = serve_all-IsValid clock gaps.first (claimed id code (clock w.reads) w) v1 in
              rw (vacant, claim)
                (released vacant v1 (apply_to_instance_description clock r' w2)
                  (apply-AllOrNothing clock r' w2 v2) (apply-AllLater clock r' w2 v2))
        ]

  abbrev pub Outcome : InstanceDescription → World → Result Bool × World → Type 0
  Outcome r w out =
      ((out.0 ≢ ok true) × (out.1 ≡ w))
      ⊎ ((id : InstanceId) × (code : ℕ) × (r.instance_id ≡ some id)
          × (r.instance_type ≡ some code)
          × Settled id code w out)

  refused :
      (r : InstanceDescription) (w : World) (x : Status) (out : Result Bool × World)
      → out ≡ (err x, w)
      → Outcome r w out
  refused r w x out e = rw e (inl ((λ z. cc), refl))

  -- A registration in a valid state, with any requests and kill rounds between its locks, ends in one of
  -- three ways. It fails and changes nothing. It succeeds: then the state is valid, everything that was
  -- there is there still, and so is the new instance. Or it fails, and its instance, whose key was
  -- free, is taken out of what the others made of the state; the state is valid then exactly when no
  -- other instance had become related to it.
  pub insert_new_among-Outcome :
      (r : InstanceDescription) (w : World)
      → IsValid w
      → Outcome r w (insert_new_among clock gaps r w)
  unfolding insert_new_among
  insert_new_among-Outcome r w v = elim (Option-cases r.instance_id) [
    | inl e ↦ refused r w (invalid_argument "Invalid request") _ (ground (arith, e))
    | inr (id, e) ↦ elim (Option-cases r.instance_type) [
      | inl f ↦ refused r w (invalid_argument "Invalid request") _ (ground (arith, e, f))
      | inr (code, f) ↦ elim (Bool-cases (is_none r.created_timestamp_ms)) [
        | inr g ↦ refused r w (invalid_argument "Invalid request") _ (ground (arith, e, f, g))
        | inl g ↦ elim (Option-cases (type_of_code code)) [
          | inl h ↦
              refused r w (invalid_argument "Invalid instance type") _ (ground (arith, e, f, g, h))
          | inr (kind, h) ↦
              let same : insert_new_among clock gaps r w
                  ≡ settle_among clock gaps r id (claim clock id code w) =
                ground (arith, e, f, g, h) in
              inr (
                id,
                code,
                e,
                f,
                subst (Settled id code w) (sym same) (settle_among-Settled id code w r kind h v),
              )
        ]
      ]
    ]
  ]

abbrev no_gaps : Gaps
no_gaps = record { first = []; second = [] }

settle_among-quiet :
    (clock : ℕ → ℕ) (r : InstanceDescription) (id : InstanceId) (out : Result Bool × World)
    → settle_among clock no_gaps r id out ≡ settle clock r id out
unfolding settle_among settle serve_all
settle_among-quiet clock r id (ok true, w) = refl
settle_among-quiet clock r id (ok false, w) = refl
settle_among-quiet clock r id (err e, w) = refl

-- With nothing in between it is the registration that runs in one go.
insert_new_among-quiet :
    (clock : ℕ → ℕ) (r : InstanceDescription) (w : World)
    → insert_new_among clock no_gaps r w ≡ insert_new_instance_description clock r w
unfolding insert_new_among insert_new_instance_description
insert_new_among-quiet clock r w = elim (Option-cases r.instance_id) [
  | inl e ↦ ground (arith, e)
  | inr (id, e) ↦ elim (Option-cases r.instance_type) [
    | inl f ↦ ground (arith, e, f)
    | inr (code, f) ↦ ground (arith, e, f, settle_among-quiet clock r id (claim clock id code w))
  ]
]
