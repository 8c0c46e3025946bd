-- ===== src/Client/EphemeralProxy/Leasing.antt =====
-- What a proxy holds once it has found an instance.
use mathlib.Core.Path.{subst}
use tzafon_way_point.Prelude.{
  ℕ, suc, ◌≡◌, ◌≢◌, refl, sym, ap, ◌∙◌, inl, inr, true, false, Bool, none, some, List, [], ◌∷◌,
  arith, Bool-cases, Option-cases,
}
use tzafon_way_point.Prelude.Status.{Result, ok, err}
use tzafon_way_point.Proto.{InstanceId, Relationship, InstanceDescription, AllInstancesResponse}
use tzafon_way_point.Dict.{get}
use tzafon_way_point.Manager.World.{World, Exec}
use tzafon_way_point.Manager.Apply.{tie}
use tzafon_way_point.Manager.Apply.Leases.{HasParent, apply-HasParent}
use tzafon_way_point.Manager.Rpc.{try_update_instance_description, get_all_instances, get_instance}
use tzafon_way_point.Manager.Lifetime.{
  Event, update, describe, list_all, serve, serve_all, Reachable,
}
use tzafon_way_point.Manager.Lifetime.Safety.{Reachable-IsValid}
use tzafon_way_point.Manager.Apply.Later.{AllLater, AllLater-refl}
use tzafon_way_point.Gateway.Http.{Result as HttpResult, ok as http_ok, err as http_err}
use tzafon_way_point.Client.EphemeralProxy.{
  is_available, lease_request, Moment, Leased, considered, decided, call_at, try_instances,
  try_listed, lease_instance,
}
use tzafon_way_point.Client.EphemeralProxy.Calls.{
  Reached, serve_all-Reached, call-Reached, call_answered, get_instance_found, lease_is_applied,
  get_instance_serves, update_serves, listing_serves,
}

module _ (clock : ℕ → ℕ) (moments : ℕ → Moment) (me : InstanceId) (w0 : World) where
  -- In `w0` the instance had no parent, if it was there.
  abbrev pub WasFree : InstanceId → Type 0
  WasFree id =
      (x : InstanceDescription)
      → get id.instance_id w0.instance_description ≡ some x
      → x.parent ≡ none

  -- The service goes on as it may, and an instance that was found is the proxy's.
  abbrev pub Outcome : Leased → Type 0
  Outcome (http_err e, w) = Reached clock w0.instance_description w
  Outcome (http_ok d, w) =
      Reached clock w0.instance_description w
      × ((id : InstanceId) × (d.instance_id ≡ some id)
          × WasFree id
          × HasParent w.instance_description id.instance_id (tie me))

  considered-Outcome :
      (found : Result InstanceDescription × World) (f : InstanceDescription → World → Leased)
      (next : World → Leased)
      → ((d : InstanceDescription) → found.0 ≡ ok d → Outcome (f d found.1))
      → Outcome (next found.1)
      → Outcome (considered found f next)
  considered-Outcome (ok d, w) f next h k = h d refl
  considered-Outcome (err e, w) f next h k = k

  decided-Outcome :
      (d : InstanceDescription) (res : Result Bool × World) (next : World → Leased)
      → (res.0 ≡ ok true → Outcome (http_ok d, res.1))
      → Outcome (next res.1)
      → Outcome (decided d res next)
  decided-Outcome d (ok true, w) next h k = h refl
  decided-Outcome d (ok false, w) next h k = k
  decided-Outcome d (err e, w) next h k = k

  call_at-Reached :
      {A : Type 0} (n : ℕ) (m : Exec A) (e : Event) (w : World)
      → Reached clock w0.instance_description w
      → ((v : World) → (m v).1 ≡ serve clock v e)
      → Reached clock w0.instance_description (call_at clock moments me n m w).1
  unfolding call_at
  call_at-Reached n m e w r h =
      let v = serve_all clock w (moments n).before in
      call-Reached (moments n).delivery m e v (serve_all-Reached (moments n).before r) (h v)

  found_id :
      (n : ℕ) (id : InstanceId) (w : World) (d : InstanceDescription)
      → Reached clock w0.instance_description w
      → (call_at clock moments me n (get_instance id) w).0 ≡ ok d
      → d.instance_id ≡ some id
  unfolding call_at
  found_id n id w d r e =
      let v = serve_all clock w (moments n).before in
      let (given, same) = call_answered (moments n).delivery (get_instance id) v d e in
      (Reachable-IsValid (serve_all-Reached (moments n).before r).reachable).linked.keyed
        id.instance_id d (get_instance_found id v d given)

  leased_parent :
      (n : ℕ) (id : InstanceId) (w : World)
      → Reached clock w0.instance_description w
      → (call_at clock moments me n
          (try_update_instance_description clock (lease_request me id))
          w).0
        ≡ ok true
      → WasFree id
        × HasParent
            (call_at clock moments me n
              (try_update_instance_description clock (lease_request me id))
              w).1.instance_description
            id.instance_id
            (tie me)
  unfolding call_at lease_request AllLater
  leased_parent n id w r e =
      let v = serve_all clock w (moments n).before in
      let rv = serve_all-Reached (moments n).before r in
      let m = try_update_instance_description clock (lease_request me id) in
      let (given, same) = call_answered (moments n).delivery m v true e in
      let applied = lease_is_applied clock me id v in
      let done = sym (ap (λ (x : Result Bool × World). x.0) applied) ∙ given in
      let ((d, there, free, alive), after) =
        apply-HasParent clock (lease_request me id) id (tie me) v (Reachable-IsValid rv.reachable)
          refl refl refl done in
      (
        (λ x g. elim (Option-cases x.parent) [
          | inl none_yet ↦ none_yet
          | inr (p, has) ↦
              let (d', there', later) = rv.later id.instance_id x g in
              absurd (ground (arith, later.parent p has, there, there', free))
        ]),
        subst (λ (x : World). HasParent x.instance_description id.instance_id (tie me))
            (sym (same ∙ ap (λ (x : Result Bool × World). x.1) applied)) after,
      )

  try_instances-Outcome :
      (ids : List InstanceId) (n : ℕ) (w : World)
      → Reached clock w0.instance_description w
      → Outcome (try_instances clock moments me ids n w)
  unfolding try_instances
  try_instances-Outcome [] n w r = r
  try_instances-Outcome (id ∷ ids) n w r =
      let asked = call_at clock moments me n (get_instance id) w in
      let r1 =
        call_at-Reached n (get_instance id) (describe id) w r (get_instance_serves clock id) in
      let m = try_update_instance_description clock (lease_request me id) in
      let r2 =
        call_at-Reached (suc n) m (update (lease_request me id)) asked.1 r1
          (update_serves clock (lease_request me id)) in
      considered-Outcome asked _ _
        (λ d e. elim (Bool-cases (is_available (moments n).now d)) [
          | inr busy ↦ rw busy (try_instances-Outcome ids (suc n) asked.1 r1)
          | inl free ↦ rw free (
              decided-Outcome d (call_at clock moments me (suc n) m asked.1) _
                (λ done.
                  let (free_then, mine) = leased_parent (suc n) id asked.1 r1 done in
                  (r2, (id, found_id n id w d r e, free_then, mine)))
                (try_instances-Outcome ids (suc (suc n)) _ r2))
        ])
        (try_instances-Outcome ids (suc n) asked.1 r1)

  try_listed-Outcome :
      (listing : Result AllInstancesResponse × World)
      → Reached clock w0.instance_description listing.1
      → Outcome (try_listed clock moments me listing)
  try_listed-Outcome (ok a, w) r = try_instances-Outcome a.instance_ids 1 w r
  try_listed-Outcome (err e, w) r = r

-- From a state that the service can come to, whatever other clients do between the calls of a
-- proxy and whichever answers are lost: when `get_instance` returns an instance, the proxy is the
-- parent of that instance in the manager, and nobody was when the search began, if the instance
-- was there.
pub lease_instance-Outcome :
    (clock : ℕ → ℕ) (moments : ℕ → Moment) (me : InstanceId) (w : World)
    → Reachable clock w
    → Outcome clock moments me w (lease_instance clock moments me w)
unfolding lease_instance
lease_instance-Outcome clock moments me w r = try_listed-Outcome clock moments me w _ (
    call_at-Reached clock moments me w 0 (get_all_instances _) (list_all _) w
      (record { reachable = r; later = AllLater-refl w.instance_description })
      (listing_serves clock _))

abbrev pub Exclusive :
    (ℕ → ℕ) → World → InstanceId → HttpResult InstanceDescription × World → Type 0
Exclusive clock w id (http_err e, w') = Unit
Exclusive clock w id (http_ok d, w') = d.instance_id ≢ some id

outcome-Exclusive :
    (clock : ℕ → ℕ) (moments : ℕ → Moment) (me : InstanceId) (w : World) (id : InstanceId)
    (q : Relationship) (out : Leased)
    → HasParent w.instance_description id.instance_id q
    → Outcome clock moments me w out
    → Exclusive clock w id out
outcome-Exclusive clock moments me w id q (http_err e, w') h o = tt
outcome-Exclusive clock moments me w id q (http_ok d, w') (x, t, there, has)
      (r, (i, named, free, mine)) =
    λ same.
      let one : i ≡ id = ground (arith, same, named) in
      absurd (
        ground (
          arith,
          free x (
              subst (λ (z : InstanceId). get z.instance_id w.instance_description ≡ some x)
                (sym one) there),
          has,
        ))

-- From a state that the service can come to, whatever other clients do in between, a proxy never
-- gets an instance that had a parent when its search began.
pub lease_instance-Exclusive :
    (clock : ℕ → ℕ) (moments : ℕ → Moment) (me : InstanceId) (w : World) (id : InstanceId)
    (q : Relationship)
    → Reachable clock w
    → HasParent w.instance_description id.instance_id q
    → Exclusive clock w id (lease_instance clock moments me w)
lease_instance-Exclusive clock moments me w id q r h =
    outcome-Exclusive clock moments me w id q (lease_instance clock moments me w) h
      (lease_instance-Outcome clock moments me w r)
