-- ===== src/Client/Cli/Tally/Parentless.antt =====
-- What becomes of instances without a parent.
use mathlib.Core.Path.{subst}
use tzafon_way_point.Prelude.{
  ℕ, ◌≡◌, ◌↔◌, inl, inr, refl, String, true, false, none, some, List, [], ◌∷◌, In, All, arith,
}
use tzafon_way_point.Prelude.Status.{ok}
use tzafon_way_point.Proto.{InstanceId, InstanceDescription, AllInstancesQuery}
use tzafon_way_point.Dict.{get}
use tzafon_way_point.Manager.World.{World, find}
use tzafon_way_point.Manager.Traits.{get_instance_id}
use tzafon_way_point.Manager.Apply.{get_instance_description}
use tzafon_way_point.Manager.Invariant.{IsValid}
use tzafon_way_point.Manager.Invariant.Lift.{In-map, map-In}
use tzafon_way_point.Manager.Rpc.{get_all_instances, get_instance, is_wanted, has_beaten, is_alive}
use tzafon_way_point.Manager.Rpc.Listing.{ids_of, get_all_instances-IsListed}
use tzafon_way_point.Client.EphemeralProxy.Calls.{get_instance_found}
use tzafon_way_point.Client.EphemeralProxy.{answered, call}
use tzafon_way_point.Client.Cli.{Args, Outcome, printed, failed, fits, parent_id, count_children}
use tzafon_way_point.Client.Cli.Tally.{IsKeyed, Counts, answers, count_children-Counts}

-- `--alive` without `--has-parent`
abbrev pub parentless : ℕ → Args
parentless kind = record { instance_type = kind; has_parent = false; alive = true }

-- An instance that the manager lists, and that has no parent.
abbrev pub HasParentless : ℕ → World → Type 0
HasParentless kind w =
    (id : InstanceId) × (d : InstanceDescription) × (get id.instance_id w.instance_description
      ≡ some d)
    × (is_wanted kind d ≡ true)
    × (has_beaten d ≡ true)
    × (is_alive d ≡ true)
    × (d.parent ≡ none)

All-at : {A : Type 0} (P : A → Type 0) (a : A) (xs : List A) → All P xs → In a xs → P a
All-at P a [] h i = absurd i.1
All-at P a (x ∷ xs) h (inl e) = rw (← e) h.0
All-at P a (x ∷ xs) h (inr i) = All-at P a xs h.1 i

get_instance-ok :
    (id : InstanceId) (w : World) (d : InstanceDescription)
    → get id.instance_id w.instance_description ≡ some d
    → (get_instance id w).0 ≡ ok d
unfolding get_instance get_instance_description get_instance_id find
get_instance-ok id w d e = ground (arith, e)

fits-parentless :
    (kind : ℕ) (d : InstanceDescription)
    → fits (parentless kind) d ≡ true
    → (d.parent ≡ none) × (has_beaten d ≡ true) × (is_alive d ≡ true)
unfolding fits
fits-parentless kind d h = ground arith

parentless-fits :
    (kind : ℕ) (d : InstanceDescription)
    → d.parent ≡ none
    → has_beaten d ≡ true
    → is_alive d ≡ true
    → (fits (parentless kind) d ≡ true) × (parent_id d ≡ none)
unfolding fits parent_id
parentless-fits kind d p b a = ground arith

fails_exactly :
    (kind : ℕ) (w : World)
    → IsValid w
    → (out : Outcome)
    → Counts (parentless kind) (answers (parentless kind) (λ _. answered) (λ _. w) w) out
    → ((s : String) × (out ≡ failed s)) ↔ HasParentless kind w
unfolding call
fails_exactly kind w v (failed s) (d, i, f, n) =
    let q : AllInstancesQuery = record { instance_type = kind } in
    let (id, j, e) =
      In-map (λ id. (call answered (get_instance id) w).0) (ok d) (ids_of (get_all_instances q w).0)
        i in
    let (d', g, wanted, beaten, alive) = (get_all_instances-IsListed q w id.instance_id v).0 j in
    let (p, b, a) = fits-parentless kind d f in
    let found : get id.instance_id w.instance_description ≡ some d = get_instance_found id w d e in
    let same : d' ≡ d = ground (arith, g, found) in
    (
      (λ _. (id, d, found, subst (λ x. is_wanted kind x ≡ true) same wanted, b, a, p)),
      (λ _. (s, refl)),
    )
fails_exactly kind w v (printed m) (h, keyed) = (
  (λ (s, e). absurd (ground (arith, e))),
  (λ (id, d, g, wanted, b, a, p).
      let q : AllInstancesQuery = record { instance_type = kind } in
      let j = (get_all_instances-IsListed q w id.instance_id v).1 (d, g, wanted, b, a) in
      let i =
        map-In (λ i. (call answered (get_instance i) w).0) id (ids_of (get_all_instances q w).0)
          j in
      let args = parentless kind in
      let counted = All-at (IsKeyed args) (ok d) (answers args (λ _. answered) (λ _. w) w) keyed (
        subst (λ x. In x (answers args (λ _. answered) (λ _. w) w)) (get_instance-ok id w d g) i) in
      let (f, n) = parentless-fits kind d p b a in
      elim counted [
        | inl out ↦ absurd (ground (arith, out, f))
        | inr (k, has) ↦ absurd (ground (arith, has, n))
      ]),
)

-- In a valid state, and with nothing between its calls, the tool with `--alive` and without `--has-parent` fails
-- exactly when the manager lists an instance of the type that has no parent: the instances that are to be
-- counted are those that it cannot count.
pub count_children-HasParentless :
    (kind : ℕ) (w : World)
    → IsValid w
    → ((s : String) × (count_children (parentless kind) (λ _. answered) (λ _. w) w ≡ failed s))
      ↔ HasParentless kind w
count_children-HasParentless kind w v =
    fails_exactly kind w v (count_children (parentless kind) (λ _. answered) (λ _. w) w)
      (count_children-Counts (parentless kind) (λ _. answered) (λ _. w) w)
