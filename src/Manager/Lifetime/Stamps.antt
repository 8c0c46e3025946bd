-- ===== src/Manager/Lifetime/Stamps.antt =====
-- In every state that the service can come to, parents and deaths have their times.
use tzafon_way_point.Prelude.{
  ℕ, inl, inr, true, false, Bool, none, Text, List, [], ◌∷◌, arith, Option-cases,
}
use tzafon_way_point.Prelude.Status.{Result, ok, err}
use tzafon_way_point.Proto.{InstanceId, InstanceDescription}
use tzafon_way_point.Dict.{get, remove, get-remove, get-empty}
use tzafon_way_point.Manager.World.{World, Exec}
use tzafon_way_point.Manager.Cascade.Kills.{Instances}
use tzafon_way_point.Manager.Apply.{apply_to_instance_description, get_instance_description}
use tzafon_way_point.Manager.Apply.Stamps.{AllStamped, insert-AllStamped, apply-AllStamped}
use tzafon_way_point.Manager.Register.{
  newborn, claim, release_on_failure, settle, insert_new_instance_description,
}
use tzafon_way_point.Manager.Register.Claim.{handed}
use tzafon_way_point.Manager.Rpc.{
  gated, is_add, is_update, is_post, try_add_instance, try_update_instance_description,
  post_instance_description, get_all_instances, get_instance,
}
use tzafon_way_point.Manager.KillLoop.{kill_each, kill_unhealth_instances}
use tzafon_way_point.Manager.Lifetime.{
  Event, add, update, post, list_all, describe, kill_round, serve, Reachable, started, served,
}

remove-AllStamped : (k : Text) (m : Instances) → AllStamped m → AllStamped (remove k m)
unfolding AllStamped
remove-AllStamped k m h j d g = h j d (ground (arith, get-remove k j m, g))

release-AllStamped :
    (id : InstanceId) (out : Result Bool × World)
    → AllStamped out.1.instance_description
    → AllStamped (release_on_failure id out).1.instance_description
unfolding release_on_failure
release-AllStamped id (ok true, w) h = h
release-AllStamped id (ok false, w) h = remove-AllStamped id.instance_id w.instance_description h
release-AllStamped id (err x, w) h = remove-AllStamped id.instance_id w.instance_description h

settle-AllStamped :
    (clock : ℕ → ℕ) (r : InstanceDescription) (id : InstanceId) (out : Result Bool × World)
    → AllStamped out.1.instance_description
    → AllStamped (settle clock r id out).1.instance_description
unfolding settle
settle-AllStamped clock r id (ok true, w) h =
    release-AllStamped id
      (apply_to_instance_description clock (record r { instance_type = none }) w)
      (apply-AllStamped clock (record r { instance_type = none }) w h)
settle-AllStamped clock r id (ok false, w) h = h
settle-AllStamped clock r id (err x, w) h = h

claim-AllStamped :
    (clock : ℕ → ℕ) (id : InstanceId) (code : ℕ) (w : World)
    → AllStamped w.instance_description
    → AllStamped (claim clock id code w).1.instance_description
unfolding claim
claim-AllStamped clock id code w h =
    elim (Option-cases (get id.instance_id w.instance_description)) [
      | inr (d, g) ↦ rw (g, claim) h
      | inl vacant ↦
          rw (vacant, claim)
            (insert-AllStamped w.instance_description id.instance_id
              (newborn id code (clock w.reads)) h
              (record { parent = λ p e. ground (arith, e); death = λ q e. ground (arith, e) }))
    ]

insert_new-AllStamped :
    (clock : ℕ → ℕ) (r : InstanceDescription) (w : World)
    → AllStamped w.instance_description
    → AllStamped (insert_new_instance_description clock r w).1.instance_description
insert_new-AllStamped clock r w h = elim (handed clock r w) [
  | inr (x, e) ↦ rw e h
  | inl (id, code, kind, known, e) ↦
      rw e
        (settle-AllStamped clock r id (claim clock id code w) (claim-AllStamped clock id code w h))
]

gated-AllStamped :
    (b : Bool) (m : Exec Bool) (w : World)
    → AllStamped w.instance_description
    → AllStamped (m w).1.instance_description
    → AllStamped (gated b m w).1.instance_description
gated-AllStamped true m w h k = k
gated-AllStamped false m w h k = h

kill_each-AllStamped :
    (clock : ℕ → ℕ) (rs : List InstanceDescription) (w : World)
    → AllStamped w.instance_description
    → AllStamped (kill_each clock rs w).instance_description
unfolding kill_each
kill_each-AllStamped clock [] w h = h
kill_each-AllStamped clock (r ∷ rs) w h =
    kill_each-AllStamped clock rs (apply_to_instance_description clock r w).1
      (apply-AllStamped clock r w h)

serve-AllStamped :
    (clock : ℕ → ℕ) (w : World) (e : Event)
    → AllStamped w.instance_description
    → AllStamped (serve clock w e).instance_description
unfolding serve try_add_instance try_update_instance_description post_instance_description
    get_all_instances get_instance get_instance_description kill_unhealth_instances
serve-AllStamped clock w (add r) h =
    gated-AllStamped (is_add r) (insert_new_instance_description clock r) w h
      (insert_new-AllStamped clock r w h)
serve-AllStamped clock w (update r) h =
    gated-AllStamped (is_update r) (apply_to_instance_description clock r) w h
      (apply-AllStamped clock r w h)
serve-AllStamped clock w (post r) h =
    gated-AllStamped (is_post r) (apply_to_instance_description clock r) w h
      (apply-AllStamped clock r w h)
serve-AllStamped clock w (list_all q) h = h
serve-AllStamped clock w (describe id) h = h
serve-AllStamped clock w kill_round h = kill_each-AllStamped clock _ _ h

pub Reachable-AllStamped :
    {clock : ℕ → ℕ} {w : World} → Reachable clock w → AllStamped w.instance_description
unfolding AllStamped
Reachable-AllStamped started =
    λ k d g. absurd (ground (arith, g, get-empty {V = InstanceDescription} k))
Reachable-AllStamped {clock} (served {w} r e) = serve-AllStamped clock w e (Reachable-AllStamped r)
