-- ===== src/Client/EphemeralProxy/Closing.antt =====
-- What is left of an instance when its connection is closed.
use mathlib.Core.Path.{subst}
use tzafon_way_point.Prelude.{ℕ, ◌≡◌, ◌≢◌, refl, sym, ◌∙◌, Bool, some}
use tzafon_way_point.Prelude.Status.{Result, ok, err}
use tzafon_way_point.Proto.{InstanceId, InstanceDescription}
use tzafon_way_point.Dict.{get}
use tzafon_way_point.Manager.World.{World, Exec}
use tzafon_way_point.Manager.Apply.Later.{AllLater}
use tzafon_way_point.Manager.Apply.Endings.{IsDead, apply-IsDead}
use tzafon_way_point.Manager.Rpc.{try_update_instance_description}
use tzafon_way_point.Manager.Lifetime.{serve_all, Reachable}
use tzafon_way_point.Manager.Lifetime.Safety.{Reachable-IsValid}
use tzafon_way_point.Manager.Lifetime.Forever.{serve_all-Reachable, serve_all-AllLater}
use tzafon_way_point.Client.EphemeralProxy.{
  Delivery, answered, answer_lost, undelivered, call, call_at, Moment, kill_on_close, closed,
  on_close,
}

closed_lem : (out : Result Bool × World) → (closed out).1 ≡ out.1
closed_lem (ok b, w) = refl
closed_lem (err e, w) = refl

call_arrives :
    {A : Type 0} (δ : Delivery) (m : Exec A) (w : World)
    → δ ≢ undelivered
    → (call δ m w).1 ≡ (m w).1
unfolding call
call_arrives answered m w h = refl
call_arrives answer_lost m w h = refl
call_arrives undelivered m w h = absurd (h refl)

kill_is_applied :
    (clock : ℕ → ℕ) (id : InstanceId) (d : InstanceDescription) (w : World)
    → Reachable clock w
    → get id.instance_id w.instance_description ≡ some d
    → IsDead
        (try_update_instance_description clock (kill_on_close id) w).1.instance_description
        id.instance_id
unfolding try_update_instance_description kill_on_close
kill_is_applied clock id d w r g =
    apply-IsDead clock (kill_on_close id) id _ d w (Reachable-IsValid r)
      (refl, refl, refl, refl, refl) g

-- From a state that the service can come to: when a connection is closed and the request that this sends
-- arrives, the instance of the connection is dead in the manager, whatever came before and whether the
-- answer arrives or not.
pub on_close-IsDead :
    (clock : ℕ → ℕ) (moments : ℕ → Moment) (me : InstanceId) (n : ℕ) (id : InstanceId)
    (d : InstanceDescription) (w : World)
    → Reachable clock w
    → get id.instance_id w.instance_description ≡ some d
    → (moments n).delivery ≢ undelivered
    → IsDead (on_close clock moments me n id w).1.instance_description id.instance_id
unfolding on_close call_at AllLater
on_close-IsDead clock moments me n id d w r g arrives =
    let es = (moments n).before in
    let v = serve_all clock w es in
    let m = try_update_instance_description clock (kill_on_close id) in
    let (d', g', later) = serve_all-AllLater es r id.instance_id d g in
    subst (λ (x : World). IsDead x.instance_description id.instance_id)
      (sym (
        closed_lem (call (moments n).delivery m v) ∙ call_arrives (moments n).delivery m v arrives))
      (kill_is_applied clock id d' v (serve_all-Reachable es r) g')
