-- ===== src/Client/HeartBeat/Joining.antt =====
-- Registering at the manager.
use mathlib.Core.Path.{subst}
use tzafon_way_point.Prelude.{
  ℕ, ◌≡◌, refl, sym, ap, ◌∙◌, ◌⊎◌, inl, inr, Bool, true, false, Option, none, some, arith,
  Option-cases,
}
use tzafon_way_point.Prelude.Status.{Result, ok, err}
use tzafon_way_point.Proto.{
  InstanceId, InstanceType, Services, InstanceDescription, type_code, type_of_code-type_code,
}
use tzafon_way_point.Dict.{get, get-insert_self}
use tzafon_way_point.Manager.World.{World}
use tzafon_way_point.Manager.Relations.{check_request, check_parent, check_children}
use tzafon_way_point.Manager.Invariant.{IsValid}
use tzafon_way_point.Manager.Apply.{apply_to_instance_description}
use tzafon_way_point.Manager.Apply.Answers.{apply-check_request}
use tzafon_way_point.Manager.Apply.Later.{AllLater}
use tzafon_way_point.Manager.Apply.Ageing.{apply-AllLater}
use tzafon_way_point.Manager.Register.{
  newborn, claim, release_on_failure, settle, insert_new_instance_description,
}
use tzafon_way_point.Manager.Register.Claim.{claimed, claimed-IsValid}
use tzafon_way_point.Manager.Rpc.{try_add_instance}
use tzafon_way_point.Client.HeartBeat.{registration, added, failed, initialize_health_loop}

-- The registration without its type, as it is applied to the new instance.
abbrev pub untyped : InstanceId → InstanceType → Option Services → InstanceDescription
untyped id kind services = record (registration id kind services) { instance_type = none }

settles :
    (clock : ℕ → ℕ) (id : InstanceId) (kind : InstanceType) (services : Option Services) (w : World)
    → try_add_instance clock (registration id kind services) w
      ≡ settle clock (registration id kind services) id (claim clock id (type_code kind) w)
unfolding try_add_instance registration insert_new_instance_description
settles clock id kind services w = ground (arith, type_of_code-type_code kind)

pub fits :
    (id : InstanceId) (kind : InstanceType) (services : Option Services) (code now : ℕ) (w : World)
    → check_request (claimed id code now w).instance_description (untyped id kind services) id
      ≡ ok true
unfolding check_request check_parent check_children registration claimed
fits id kind services code now w =
    rw (get-insert_self id.instance_id (newborn id code now) w.instance_description, check_request)
      refl

applied :
    (clock : ℕ → ℕ) (id : InstanceId) (kind : InstanceType) (services : Option Services) (w : World)
    → IsValid w
    → get id.instance_id w.instance_description ≡ none
    → (apply_to_instance_description clock
        (untyped id kind services)
        (claimed id (type_code kind) (clock w.reads) w)).0
      ≡ ok true
unfolding registration
applied clock id kind services w v vacant =
    let now = clock w.reads in
    let w1 = claimed id (type_code kind) now w in
    apply-check_request clock (untyped id kind services) id w1
      (claimed-IsValid id (type_code kind) now kind w (type_of_code-type_code kind) vacant v) refl
      refl
    ∙ fits id kind services (type_code kind) now w

released :
    (id : InstanceId) (out : Result Bool × World)
    → out.0 ≡ ok true
    → release_on_failure id out ≡ out
unfolding release_on_failure
released id (ok true, w) e = refl
released id (ok false, w) e = absurd (ground (arith, e))
released id (err x, w) e = absurd (ground (arith, e))

pub vacant_lem :
    (clock : ℕ → ℕ) (id : InstanceId) (kind : InstanceType) (services : Option Services) (w : World)
    → IsValid w
    → get id.instance_id w.instance_description ≡ none
    → try_add_instance clock (registration id kind services) w
      ≡ apply_to_instance_description clock
          (untyped id kind services)
          (claimed id (type_code kind) (clock w.reads) w)
unfolding claim settle claimed
vacant_lem clock id kind services w v vacant =
    settles clock id kind services w
    ∙ rw (vacant, claim)
        (released id
          (apply_to_instance_description clock (untyped id kind services)
            (claimed id (type_code kind) (clock w.reads) w))
          (applied clock id kind services w v vacant))

taken_lem :
    (clock : ℕ → ℕ) (id : InstanceId) (kind : InstanceType) (services : Option Services) (w : World)
    (x : InstanceDescription)
    → get id.instance_id w.instance_description ≡ some x
    → try_add_instance clock (registration id kind services) w ≡ (ok false, w)
unfolding claim settle
taken_lem clock id kind services w x g = settles clock id kind services w ∙ rw (g, claim) refl

-- A free id is registered with the type of the instance; a taken one is refused, and nothing changes.
abbrev pub Joined : InstanceId → InstanceType → World → Result Bool × World → Type 0
Joined id kind w (res, w') =
    ((get id.instance_id w.instance_description ≡ none)
      × (initialize_health_loop res ≡ added)
      × ((d : InstanceDescription) × (get id.instance_id w'.instance_description ≡ some d)
          × (d.instance_type ≡ some (type_code kind))))
    ⊎ (((x : InstanceDescription) × (get id.instance_id w.instance_description ≡ some x))
        × (initialize_health_loop res ≡ failed "Failed to add instance already exists")
        × (w' ≡ w))

newborn_there :
    (clock : ℕ → ℕ) (id : InstanceId) (kind : InstanceType) (services : Option Services) (w : World)
    → IsValid w
    → get id.instance_id w.instance_description ≡ none
    → (d : InstanceDescription) × (get id.instance_id
          (apply_to_instance_description clock
            (untyped id kind services)
            (claimed id (type_code kind) (clock w.reads) w)).1.instance_description
        ≡ some d)
      × (d.instance_type ≡ some (type_code kind))
unfolding AllLater claimed
newborn_there clock id kind services w v vacant =
    let code = type_code kind in
    let now = clock w.reads in
    let w1 = claimed id code now w in
    let v1 = claimed-IsValid id code now kind w (type_of_code-type_code kind) vacant v in
    let (d, g, later) =
      apply-AllLater clock (untyped id kind services) w1 v1 id.instance_id (newborn id code now)
        (get-insert_self id.instance_id (newborn id code now) w.instance_description) in
    (d, g, later.kind)

-- In a valid state, an instance that registers is added exactly when its id is free: then the manager has
-- it with its type; otherwise the registration fails and the manager's state is as it was.
pub try_add_instance-Joined :
    (clock : ℕ → ℕ) (id : InstanceId) (kind : InstanceType) (services : Option Services) (w : World)
    → IsValid w
    → Joined id kind w (try_add_instance clock (registration id kind services) w)
unfolding initialize_health_loop
try_add_instance-Joined clock id kind services w v =
    elim (Option-cases (get id.instance_id w.instance_description)) [
      | inr (x, g) ↦
          subst (Joined id kind w) (sym (taken_lem clock id kind services w x g))
            (inr ((x, g), refl, refl))
      | inl vacant ↦ subst (Joined id kind w) (sym (vacant_lem clock id kind services w v vacant)) (
          inl (
            vacant,
            ap initialize_health_loop (applied clock id kind services w v vacant),
            newborn_there clock id kind services w v vacant,
          ))
    ]
