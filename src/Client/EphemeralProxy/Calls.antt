-- ===== src/Client/EphemeralProxy/Calls.antt =====
-- Calls of a proxy to the manager, and the states they lead to.
use mathlib.Core.Path.{subst}
use tzafon_way_point.Prelude.{ℕ, ◌≡◌, refl, sym, some, List, [], ◌∷◌, arith}
use tzafon_way_point.Prelude.Status.{ok}
use tzafon_way_point.Proto.{InstanceId, InstanceDescription, AllInstancesQuery}
use tzafon_way_point.Dict.{get}
use tzafon_way_point.Manager.World.{World, Exec, find}
use tzafon_way_point.Manager.Apply.{apply_to_instance_description, get_instance_description}
use tzafon_way_point.Manager.Traits.{get_instance_id}
use tzafon_way_point.Manager.Cascade.Kills.{Instances}
use tzafon_way_point.Manager.Rpc.{try_update_instance_description, get_all_instances, get_instance}
use tzafon_way_point.Manager.Lifetime.{
  Event, update, describe, list_all, serve, serve_all, Reachable,
}
use tzafon_way_point.Manager.Lifetime.Forever.{serve_all-Reachable, serve_all-AllLater}
use tzafon_way_point.Manager.Apply.Later.{AllLater, AllLater-trans}
use tzafon_way_point.Client.EphemeralProxy.{
  Delivery, answered, answer_lost, undelivered, call, lease_request,
}

-- A state that the service comes to from the instances `m0`.
pub record Reached (clock : ℕ → ℕ) (m0 : Instances) (w : World) : Type 0 where
  pub reachable : Reachable clock w
  pub later : AllLater m0 w.instance_description

pub serve_all-Reached :
    {clock : ℕ → ℕ} {m0 : Instances} (es : List Event) {w : World}
    → Reached clock m0 w
    → Reached clock m0 (serve_all clock w es)
serve_all-Reached {clock} {m0} es {w} r = record {
  reachable = serve_all-Reachable es r.reachable;
  later = AllLater-trans m0 w.instance_description _ r.later (serve_all-AllLater es r.reachable);
}

-- A call leaves the state of one that was served, or of none.
pub call-Reached :
    {A : Type 0} {clock : ℕ → ℕ} {m0 : Instances} (δ : Delivery) (m : Exec A) (e : Event)
    (w : World)
    → Reached clock m0 w
    → (m w).1 ≡ serve clock w e
    → Reached clock m0 (call δ m w).1
unfolding call serve_all
call-Reached {A} {clock} {m0} answered m e w r h =
    subst (Reached clock m0) (sym h) (serve_all-Reached (e ∷ []) r)
call-Reached {A} {clock} {m0} answer_lost m e w r h =
    subst (Reached clock m0) (sym h) (serve_all-Reached (e ∷ []) r)
call-Reached undelivered m e w r h = r

-- An answer that comes is the one that was given.
pub call_answered :
    {A : Type 0} (δ : Delivery) (m : Exec A) (w : World) (a : A)
    → (call δ m w).0 ≡ ok a
    → ((m w).0 ≡ ok a) × ((call δ m w).1 ≡ (m w).1)
unfolding call
call_answered answered m w a h = (h, refl)
call_answered answer_lost m w a h = absurd (ground (arith, h))
call_answered undelivered m w a h = absurd (ground (arith, h))

pub get_instance_found :
    (id : InstanceId) (w : World) (d : InstanceDescription)
    → (get_instance id w).0 ≡ ok d
    → get id.instance_id w.instance_description ≡ some d
unfolding get_instance get_instance_description get_instance_id find
get_instance_found id w d h = ground (arith, h)

pub lease_is_applied :
    (clock : ℕ → ℕ) (me id : InstanceId) (w : World)
    → try_update_instance_description clock (lease_request me id) w
      ≡ apply_to_instance_description clock (lease_request me id) w
unfolding try_update_instance_description lease_request
lease_is_applied clock me id w = refl

pub get_instance_serves :
    (clock : ℕ → ℕ) (id : InstanceId) (w : World)
    → (get_instance id w).1 ≡ serve clock w (describe id)
unfolding serve
get_instance_serves clock id w = refl

pub update_serves :
    (clock : ℕ → ℕ) (r : InstanceDescription) (w : World)
    → (try_update_instance_description clock r w).1 ≡ serve clock w (update r)
unfolding serve
update_serves clock r w = refl

pub listing_serves :
    (clock : ℕ → ℕ) (q : AllInstancesQuery) (w : World)
    → (get_all_instances q w).1 ≡ serve clock w (list_all q)
unfolding serve
listing_serves clock q w = refl
