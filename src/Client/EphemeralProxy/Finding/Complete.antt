-- ===== src/Client/EphemeralProxy/Finding/Complete.antt =====
-- When the search of the proxy returns an instance.
use mathlib.Core.Path.{subst}
use tzafon_way_point.Prelude.{ℕ, ◌≡◌, ◌↔◌, refl, true, arith}
use tzafon_way_point.Proto.{
  InstanceId, InstanceDescription, AllInstancesQuery, type_code, chrome_browser,
}
use tzafon_way_point.Manager.World.{World}
use tzafon_way_point.Manager.Invariant.{IsValid}
use tzafon_way_point.Manager.Rpc.{get_all_instances, is_wanted}
use tzafon_way_point.Manager.Rpc.Listing.{ids_of, get_all_instances-IsListed}
use tzafon_way_point.Manager.Lifetime.{serve_all}
use tzafon_way_point.Gateway.Http.{ok as http_ok, err as http_err}
use tzafon_way_point.Client.EphemeralProxy.{Leased, call, call_at, lease_instance}
use tzafon_way_point.Client.EphemeralProxy.Finding.{
  undisturbed, is_available_facts, MayTake, Searched, IsLive, try_instances-Searched,
}

abbrev browsers : AllInstancesQuery
browsers = record { instance_type = type_code chrome_browser }

-- The search returns an instance.
abbrev pub Leases : (ℕ → ℕ) → ℕ → InstanceId → World → Type 0
Leases clock now me w =
    (d : InstanceDescription) × (w' : World) × (lease_instance clock (undisturbed now) me w
      ≡ (http_ok d, w'))

-- The manager has a browser that the proxy may take.
abbrev pub HasFree : (ℕ → ℕ) → ℕ → InstanceId → World → Type 0
HasFree clock now me w =
    (id : InstanceId) × (d : InstanceDescription) × MayTake clock now me w id d
    × (is_wanted (type_code chrome_browser) d ≡ true)

lease_instance-Searched :
    (clock : ℕ → ℕ) (now : ℕ) (me : InstanceId) (w : World) (mine : InstanceDescription)
    → IsValid w
    → IsLive clock now me w mine
    → Searched clock now me w
        (ids_of (get_all_instances browsers w).0)
        (lease_instance clock (undisturbed now) me w)
unfolding lease_instance call_at call serve_all get_all_instances
lease_instance-Searched clock now me w mine v live =
    try_instances-Searched clock now me w v mine live (ids_of (get_all_instances browsers w).0) 1

found-HasFree :
    (clock : ℕ → ℕ) (now : ℕ) (me : InstanceId) (w : World)
    → IsValid w
    → (out : Leased) → Searched clock now me w (ids_of (get_all_instances browsers w).0) out
    → ((d : InstanceDescription) × (w' : World) × (out ≡ (http_ok d, w'))) ↔ HasFree clock now me w
found-HasFree clock now me w v (http_ok d, w') (id, listed, t) =
    let (d', g, wanted, _, _) = (get_all_instances-IsListed browsers w id.instance_id v).0 listed in
    let same : d' ≡ d = ground (arith, g, t.0) in
    (
      (λ _. (id, d, t, subst (λ x. is_wanted (type_code chrome_browser) x ≡ true) same wanted)),
      (λ _. (d, w', refl)),
    )
found-HasFree clock now me w v (http_err e, w') none_listed = (
  (λ (d, w1, h). absurd (ground (arith, h))),
  (λ (id, d, t, wanted).
      let (p, k, beaten) = is_available_facts now d t.1 in
      absurd (
        none_listed id d
          ((get_all_instances-IsListed browsers w id.instance_id v).1
            (d, t.0, wanted, beaten, rw k refl))
          t)),
)

-- In a valid state, when nothing comes between the calls of a proxy that the manager has alive: its search
-- returns an instance exactly when the manager has a browser other than the proxy that has no parent, is not
-- killed, and has sent a heart beat in the last five seconds.
pub lease_instance-HasFree :
    (clock : ℕ → ℕ) (now : ℕ) (me : InstanceId) (w : World) (mine : InstanceDescription)
    → IsValid w
    → IsLive clock now me w mine
    → Leases clock now me w ↔ HasFree clock now me w
lease_instance-HasFree clock now me w mine v live =
    found-HasFree clock now me w v (lease_instance clock (undisturbed now) me w)
      (lease_instance-Searched clock now me w mine v live)
