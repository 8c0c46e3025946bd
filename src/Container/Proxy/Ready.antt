-- ===== src/Container/Proxy/Ready.antt =====
-- A proxy that has started can lease.
use mathlib.Core.Path.{subst}
use tzafon_way_point.Prelude.{
  ℕ, ◌≡◌, ◌↔◌, refl, sym, ap, ◌∙◌, inl, inr, none, some, [], ◌∷◌, codes, arith, Bool-cases,
}
use tzafon_way_point.Proto.{InstanceId, InstanceDescription, InstanceType, warmpool_chrome_proxy}
use tzafon_way_point.Dict.{get}
use tzafon_way_point.Manager.World.{World}
use tzafon_way_point.Manager.Invariant.{IsValid}
use tzafon_way_point.Manager.Rpc.{try_add_instance}
use tzafon_way_point.Manager.Lifetime.{serve, add}
use tzafon_way_point.Manager.Lifetime.Safety.{serve-IsValid}
use tzafon_way_point.Client.HeartBeat.{registration, initialize_health_loop}
use tzafon_way_point.Client.HeartBeat.Joining.{try_add_instance-Joined}
use tzafon_way_point.Client.HeartBeat.Stored.{born, born_alive, try_add_instance-born}
use tzafon_way_point.Client.EphemeralProxy.{
  cdp, tzafonwright, Delivery, answered, answer_lost, undelivered, call,
}
use tzafon_way_point.Client.EphemeralProxy.Finding.Complete.{
  Leases, HasFree, lease_instance-HasFree,
}
use tzafon_way_point.Container.{address, generate_instance_id}
use tzafon_way_point.Container.Chrome.{Anyhow, ok, err}
use tzafon_way_point.Container.Proxy.{
  Args, Environment, Running, start_health_loop, listen, listens_after, proxy_main,
}

-- The registration was answered, and the id was free.
started-answered :
    (clock : ℕ → ℕ) (delivery : Delivery) (id : InstanceId) (kind : InstanceType) (w : World)
    → IsValid w
    → (start_health_loop clock delivery id kind none w).0 ≡ ok tt
    → (get id.instance_id w.instance_description ≡ none)
      × ((start_health_loop clock delivery id kind none w).1
          ≡ (try_add_instance clock (registration id kind none) w).1)
unfolding start_health_loop call initialize_health_loop
started-answered clock answered id kind w v e =
    elim (try_add_instance-Joined clock id kind none w v) [
      | inl (vacant, _, _) ↦ (vacant, refl)
      | inr (_, refused, _) ↦ absurd (ground (arith, e, refused))
    ]
started-answered clock answer_lost id kind w v e = absurd (ground (arith, e))
started-answered clock undelivered id kind w v e = absurd (ground (arith, e))

listened :
    (args : Args) (env : Environment) (id : InstanceId) (started : Anyhow (Unit {0})) (w w' : World)
    (r : Running)
    → listens_after args env id (started, w) ≡ (ok r, w')
    → (started ≡ ok tt) × (listen args env id ≡ ok r) × (w ≡ w')
listened args env id (ok tt) w w' r e =
    (refl, ap (λ (x : Anyhow Running × World). x.0) e, ap (λ (x : Anyhow Running × World). x.1) e)
listened args env id (err what) w w' r e = absurd (ground (arith, e))

-- The two gateways of a proxy
abbrev pub running_as : Args → InstanceId → Running
running_as args id = record {
  instance_id = id;
  gateways =
      (cdp, address (codes "0.0.0.0") args.cdp_port)
      ∷ (tzafonwright, address (codes "0.0.0.0") args.tzafonwright_port)
      ∷ [];
}

listens_as :
    (args : Args) (env : Environment) (id : InstanceId) (r : Running)
    → listen args env id ≡ ok r
    → r ≡ running_as args id
listens_as args env id r e =
    elim (Bool-cases (env.binds (address (codes "0.0.0.0") args.cdp_port))) [
      | inr f ↦ absurd (ground (arith, rw f at e))
      | inl f ↦ elim (Bool-cases (env.binds (address (codes "0.0.0.0") args.tzafonwright_port))) [
        | inr g ↦ absurd (ground (arith, rw (f, g) at e))
        | inl g ↦ ground (arith, rw (f, g) at e)
      ]
    ]

abbrev pub own_id : Environment → InstanceId
own_id env = generate_instance_id (codes "ephemeral-browser-proxy") env.uuid

-- The manager has the proxy, alive and as what it is, and the proxy finds what is free.
abbrev pub Ready : (ℕ → ℕ) → ℕ → Args → Environment → Running → World → Type 0
Ready clock now args env r w =
    (r ≡ running_as args (own_id env))
    × IsValid w
    × ((mine : InstanceDescription) × (get (own_id env).instance_id w.instance_description
          ≡ some mine)
        × (mine.kill_instance_request ≡ none))
    × (Leases clock now (own_id env) w ↔ HasFree clock now (own_id env) w)

-- When a proxy starts at a manager in a valid state, its state is valid afterwards and has the proxy, alive;
-- the proxy listens for both kinds of connections; and when nothing comes between its calls, a search of the
-- proxy returns an instance exactly when the manager has a browser that it may take.
pub proxy_main-Ready :
    (clock : ℕ → ℕ) (now : ℕ) (args : Args) (env : Environment) (w : World) (r : Running)
    (w' : World)
    → IsValid w
    → proxy_main clock args env w ≡ (ok r, w')
    → Ready clock now args env r w'
unfolding proxy_main try_add_instance serve
proxy_main-Ready clock now args env w r w' v e = elim (Bool-cases env.reaches_manager) [
  | inr f ↦ absurd (ground (arith, rw f at e))
  | inl f ↦
      let id = own_id env in
      let out = start_health_loop clock env.delivery id warmpool_chrome_proxy none w in
      let (started, heard, after) = listened args env id out.0 out.1 w' r (rw f at e) in
      let (vacant, there) =
        started-answered clock env.delivery id warmpool_chrome_proxy w v started in
      let request = registration id warmpool_chrome_proxy none in
      let same : (try_add_instance clock request w).1 ≡ w' = sym there ∙ after in
      let v' : IsValid w' = subst IsValid same (serve-IsValid clock w (add request) v) in
      let mine = born clock id warmpool_chrome_proxy none w in
      let has : get id.instance_id w'.instance_description ≡ some mine =
        subst (λ (x : World). get id.instance_id x.instance_description ≡ some mine) same
          (try_add_instance-born clock id warmpool_chrome_proxy none w v vacant) in
      let alive = born_alive clock id warmpool_chrome_proxy none w in
      (
        listens_as args env id r heard,
        v',
        (mine, has, alive),
        lease_instance-HasFree clock now id w' mine v' (has, alive),
      )
]
