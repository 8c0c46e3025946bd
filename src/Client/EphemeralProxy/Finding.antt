-- ===== src/Client/EphemeralProxy/Finding.antt =====
-- What the loop of the proxy's search comes to, if no other client comes between its calls.
pub mod Complete
use mathlib.Core.Path.{subst}
use tzafon_way_point.Prelude.{
  ℕ, suc, ◌≡◌, ◌≢◌, ◌↔◌, refl, sym, ap, ◌∙◌, inl, inr, true, false, Bool, none, some, List, [], ◌∷◌,
  Text, arith, In, is_none, is_some, text_eq, eq_of_text_eq, text_eq_refl, Bool-cases, Option-cases,
}
use tzafon_way_point.Prelude.Status.{Result, ok, err, Status}
use tzafon_way_point.Proto.{
  InstanceId, InstanceDescription, AllInstancesQuery, type_code, chrome_browser,
}
use tzafon_way_point.Dict.{get}
use tzafon_way_point.Manager.World.{World, find}
use tzafon_way_point.Manager.Traits.{get_instance_id}
use tzafon_way_point.Manager.Invariant.{IsValid}
use tzafon_way_point.Manager.Relations.{
  check_request, check_parent, check_children, validate_relationship, same_id,
}
use tzafon_way_point.Manager.Apply.{get_instance_description, apply_to_instance_description}
use tzafon_way_point.Manager.Apply.Answers.{apply-check_request}
use tzafon_way_point.Manager.Apply.Commit.{apply-AllOrNothing}
use tzafon_way_point.Manager.Rpc.{
  try_update_instance_description, get_instance, get_all_instances, is_wanted,
}
use tzafon_way_point.Manager.Rpc.Listing.{ids_of, IsListed, get_all_instances-IsListed}
use tzafon_way_point.Client.EphemeralProxy.{
  is_available, lease_request, Moment, answered, Leased, considered, decided, call, call_at,
  try_instances, lease_instance,
}
use tzafon_way_point.Client.EphemeralProxy.Calls.{lease_is_applied, get_instance_found}
use tzafon_way_point.Manager.Lifetime.{serve_all}
use tzafon_way_point.Gateway.Http.{ok as http_ok, err as http_err}

-- Nothing happens before a call of the proxy's, and every answer arrives.
abbrev pub undisturbed : ℕ → ℕ → Moment
undisturbed now n = record { before = []; delivery = answered; now = now }

considered-cases :
    (P : Leased → Type 0) (found : Result InstanceDescription × World)
    (f : InstanceDescription → World → Leased) (next : World → Leased)
    → ((d : InstanceDescription) → found.0 ≡ ok d → P (f d found.1))
    → ((e : Status) → found.0 ≡ err e → P (next found.1))
    → P (considered found f next)
considered-cases P (ok d, w) f next h k = h d refl
considered-cases P (err e, w) f next h k = k e refl

decided-cases :
    (P : Leased → Type 0) (d : InstanceDescription) (res : Result Bool × World)
    (next : World → Leased)
    → (res.0 ≡ ok true → P (http_ok d, res.1))
    → (res.0 ≢ ok true → P (next res.1))
    → P (decided d res next)
decided-cases P d (ok true, w) next h k = h refl
decided-cases P d (ok false, w) next h k = k (λ e. cc)
decided-cases P d (err x, w) next h k = k (λ e. cc)

pub is_available_facts :
    (now : ℕ) (d : InstanceDescription)
    → is_available now d ≡ true
    → (d.parent ≡ none) × (d.kill_instance_request ≡ none) × (is_some d.health_check ≡ true)
unfolding is_available
is_available_facts now d h = ground arith

module _ (clock : ℕ → ℕ) (me : InstanceId) (mine : InstanceDescription) (w : World) where
  lease_checks :
      (id : InstanceId) (d : InstanceDescription)
      → get me.instance_id w.instance_description ≡ some mine
      → mine.instance_id ≡ some me
      → mine.kill_instance_request ≡ none
      → get id.instance_id w.instance_description ≡ some d
      → d.instance_id ≡ some id
      → d.parent ≡ none
      → d.kill_instance_request ≡ none
      → text_eq me.instance_id id.instance_id ≡ false
      → check_request w.instance_description (lease_request me id) id ≡ ok true
  unfolding lease_request check_request check_parent check_children validate_relationship same_id
      get_instance_id find
  lease_checks id d g n k g' n' p k' other = ground arith

  lease_own :
      (id : InstanceId)
      → get me.instance_id w.instance_description ≡ some mine
      → mine.instance_id ≡ some me
      → me ≡ id
      → check_request w.instance_description (lease_request me id) id ≢ ok true
  unfolding lease_request check_request check_parent check_children validate_relationship same_id
      get_instance_id find
  lease_own id g n same = λ e. ground (arith, text_eq_refl me.instance_id)

different :
    {me : InstanceId} (id : InstanceId) → id ≢ me → text_eq me.instance_id id.instance_id ≡ false
different {me} id other = elim (Bool-cases (text_eq me.instance_id id.instance_id)) [
  | inl e ↦ absurd (
      other (
        ap (λ t. record { instance_id = t }) (sym (eq_of_text_eq me.instance_id id.instance_id e))))
  | inr e ↦ e
]

module _ (clock : ℕ → ℕ) (now : ℕ) (me : InstanceId) (w : World) where
  -- An instance that the proxy may take: it is available, and not the proxy.
  abbrev pub MayTake : InstanceId → InstanceDescription → Type 0
  MayTake id d =
      (get id.instance_id w.instance_description ≡ some d) × (is_available now d ≡ true) × (id ≢ me)

  abbrev pub Searched : List InstanceId → Leased → Type 0
  Searched ids (http_ok d, w') = (id : InstanceId) × In id ids × MayTake id d
  Searched ids (http_err e, w') =
      (id : InstanceId) (d : InstanceDescription) → In id ids → MayTake id d → ⊥

  skip :
      (id : InstanceId) (ids : List InstanceId) (out : Leased)
      → ((d : InstanceDescription) → MayTake id d → ⊥)
      → Searched ids out
      → Searched (id ∷ ids) out
  skip id ids (http_ok d, w') never (i, m, t) = (i, inr m, t)
  skip id ids (http_err e, w') never none_left = λ i d m t. elim m [
    | inl same ↦ never d (subst (λ x. MayTake x d) (sym same) t)
    | inr j ↦ none_left i d j t
  ]

  -- The proxy's own record: it lives.
  abbrev pub IsLive : InstanceDescription → Type 0
  IsLive mine =
      (get me.instance_id w.instance_description ≡ some mine) × (mine.kill_instance_request ≡ none)

  module _ (v : IsValid w) (mine : InstanceDescription) (live : IsLive mine) where
    abbrev lease : InstanceId → Result Bool × World
    lease id = try_update_instance_description clock (lease_request me id) w

    lease_answer :
        (id : InstanceId)
        → (lease id).0 ≡ check_request w.instance_description (lease_request me id) id
    unfolding lease_request
    lease_answer id =
        ap (λ (x : Result Bool × World). x.0) (lease_is_applied clock me id w)
        ∙ apply-check_request clock (lease_request me id) id w v refl refl

    lease_taken :
        (id : InstanceId) (d : InstanceDescription) → MayTake id d → (lease id).0 ≡ ok true
    lease_taken id d (g, free, other) =
        let (p, k, h) = is_available_facts now d free in
        lease_answer id
        ∙ lease_checks clock me mine w id d live.0 (v.linked.keyed me.instance_id mine live.0)
            live.1 g (v.linked.keyed id.instance_id d g) p k (different id other)

    lease_refused : (id : InstanceId) → (lease id).0 ≢ ok true → (lease id).1 ≡ w
    lease_refused id refused =
        let applied = lease_is_applied clock me id w in
        let same : (lease id).1 ≡ (apply_to_instance_description clock (lease_request me id) w).1 =
          ap (λ (x : Result Bool × World). x.1) applied in
        elim (apply-AllOrNothing clock (lease_request me id) w v) [
          | inl (e, _) ↦ absurd (refused (ap (λ (x : Result Bool × World). x.0) applied ∙ e))
          | inr (_, e) ↦ same ∙ e
        ]

    not_me : (id : InstanceId) → (lease id).0 ≡ ok true → id ≢ me
    not_me id taken same =
        lease_own clock me mine w id live.0 (v.linked.keyed me.instance_id mine live.0) (sym same)
          (sym (lease_answer id) ∙ taken)

    pub try_instances-Searched :
        (ids : List InstanceId) (n : ℕ)
        → Searched ids (try_instances clock (undisturbed now) me ids n w)
    unfolding try_instances call_at call serve_all get_instance get_instance_description
        get_instance_id find
    try_instances-Searched [] n = λ id d m t. absurd m.1
    try_instances-Searched (id ∷ ids) n =
        considered-cases (Searched (id ∷ ids)) (get_instance id w) _ _
          (λ d e.
            let g = get_instance_found id w d e in
            elim (Bool-cases (is_available now d)) [
              | inr busy ↦ rw busy (
                  skip id ids _ (λ x t. ground (arith, g, t.0, t.1, busy))
                    (try_instances-Searched ids (suc n)))
              | inl free ↦ rw free (
                  decided-cases (Searched (id ∷ ids)) d (lease id) _
                    (λ done. (id, inl refl, (g, free, not_me id done)))
                    (λ refused.
                      skip id ids _ (λ x t. refused (lease_taken id x t))
                        (subst
                          (λ z.
                            Searched ids
                              (try_instances clock (undisturbed now) me ids (suc (suc n)) z))
                          (sym (lease_refused id refused))
                          (try_instances-Searched ids (suc (suc n))))))
            ])
          (λ x e.
            skip id ids _ (λ d t. ground (arith, e, t.0)) (try_instances-Searched ids (suc n)))
