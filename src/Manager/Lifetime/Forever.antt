-- ===== src/Manager/Lifetime/Forever.antt =====
-- What the service never takes back, over any number of events.
use tzafon_way_point.Prelude.{
  ℕ, ◌≡◌, ◌≢◌, inl, inr, true, false, Bool, some, Text, List, [], ◌∷◌, arith,
}
use tzafon_way_point.Prelude.Status.{ok}
use tzafon_way_point.Proto.{Relationship, InstanceDescription}
use tzafon_way_point.Dict.{get}
use tzafon_way_point.Manager.World.{World, Exec}
use tzafon_way_point.Manager.Invariant.{IsValid}
use tzafon_way_point.Manager.Apply.{apply_to_instance_description, get_instance_description}
use tzafon_way_point.Manager.Apply.Commit.{apply-Decided}
use tzafon_way_point.Manager.Apply.Checks.{check_request-Accepted}
use tzafon_way_point.Manager.Apply.Later.{AllLater, AllLater-refl, AllLater-trans}
use tzafon_way_point.Manager.Apply.Ageing.{apply-AllLater}
use tzafon_way_point.Manager.Register.{insert_new_instance_description}
use tzafon_way_point.Manager.Register.Ageing.{insert_new-AllLater}
use tzafon_way_point.Manager.Rpc.{
  gated, is_add, is_update, is_post, try_add_instance, try_update_instance_description,
  post_instance_description, get_all_instances, get_instance,
}
use tzafon_way_point.Manager.KillLoop.{kill_unhealth_instances}
use tzafon_way_point.Manager.KillLoop.Round.{kill_each-AllLater}
use tzafon_way_point.Manager.Lifetime.{
  Event, add, update, post, list_all, describe, kill_round, serve, serve_all, Reachable, served,
}
use tzafon_way_point.Manager.Lifetime.Safety.{serve-IsValid, Reachable-IsValid}

gated-AllLater :
    (b : Bool) (m : Exec Bool) (w : World)
    → AllLater w.instance_description (m w).1.instance_description
    → AllLater w.instance_description (gated b m w).1.instance_description
gated-AllLater true m w h = h
gated-AllLater false m w h = AllLater-refl w.instance_description

serve-AllLater :
    (clock : ℕ → ℕ) (w : World) (e : Event)
    → IsValid w
    → AllLater w.instance_description (serve clock w e).instance_description
unfolding serve try_add_instance try_update_instance_description post_instance_description
    get_all_instances get_instance get_instance_description kill_unhealth_instances
serve-AllLater clock w (add r) v =
    gated-AllLater (is_add r) (insert_new_instance_description clock r) w
      (insert_new-AllLater clock r w v)
serve-AllLater clock w (update r) v =
    gated-AllLater (is_update r) (apply_to_instance_description clock r) w
      (apply-AllLater clock r w v)
serve-AllLater clock w (post r) v =
    gated-AllLater (is_post r) (apply_to_instance_description clock r) w
      (apply-AllLater clock r w v)
serve-AllLater clock w (list_all q) v = AllLater-refl w.instance_description
serve-AllLater clock w (describe id) v = AllLater-refl w.instance_description
serve-AllLater clock w kill_round v =
    kill_each-AllLater clock _ _ (record { distinct = v.distinct; linked = v.linked })

pub serve_all-Ages :
    (clock : ℕ → ℕ) (es : List Event) (w : World)
    → IsValid w
    → AllLater w.instance_description (serve_all clock w es).instance_description
unfolding serve_all
serve_all-Ages clock [] w v = AllLater-refl w.instance_description
serve_all-Ages clock (e ∷ es) w v =
    AllLater-trans w.instance_description (serve clock w e).instance_description _
      (serve-AllLater clock w e v)
      (serve_all-Ages clock es (serve clock w e) (serve-IsValid clock w e v))

pub serve_all-Reachable :
    {clock : ℕ → ℕ} (es : List Event) {w : World}
    → Reachable clock w
    → Reachable clock (serve_all clock w es)
unfolding serve_all
serve_all-Reachable [] r = r
serve_all-Reachable (e ∷ es) r = serve_all-Reachable es (served r e)

-- From a state that the service can come to, over any sequence of events: every instance stays there,
-- keeps its id, its type and its creation time, the parent once it has one, its children, and its
-- death once it is dead, with the reason and the time of it.
pub serve_all-AllLater :
    {clock : ℕ → ℕ} (es : List Event) {w : World}
    → Reachable clock w
    → AllLater w.instance_description (serve_all clock w es).instance_description
serve_all-AllLater {clock} es {w} r = serve_all-Ages clock es w (Reachable-IsValid r)

-- An update that names a parent for an instance that has one does not succeed.
refused :
    (clock : ℕ → ℕ) (w : World) (k : Text) (d : InstanceDescription) (p q : Relationship)
    (r : InstanceDescription)
    → IsValid w
    → get k w.instance_description ≡ some d
    → d.parent ≡ some p
    → r.instance_id ≡ some (record { instance_id = k })
    → r.parent ≡ some q
    → (apply_to_instance_description clock r w).0 ≢ ok true
refused clock w k d p q r v g has names wants = elim (apply-Decided clock r w) [
  | inr (res, n, e) ↦ rw e n
  | inl (id, named, c, e) ↦
      let (d', a) = check_request-Accepted w.instance_description r id v.linked c in
      let same : d' ≡ d = ground (arith, a.here, g, named, names) in
      λ z. absurd (ground (arith, (a.parent_fits q wants).1, has, same))
]

gated-refused :
    (b : Bool) (m : Exec Bool) (w : World) → (m w).0 ≢ ok true → (gated b m w).0 ≢ ok true
gated-refused true m w h = h
gated-refused false m w h = λ z. cc

-- Once an instance has a parent in a state that the service can come to, no update that names a
-- parent for it succeeds any more, whatever happens in between.
pub leased_once :
    {clock : ℕ → ℕ} {w : World} (es : List Event) (k : Text) (d : InstanceDescription)
    (p q : Relationship) (r : InstanceDescription)
    → Reachable clock w
    → get k w.instance_description ≡ some d
    → d.parent ≡ some p
    → r.instance_id ≡ some (record { instance_id = k })
    → r.parent ≡ some q
    → (try_update_instance_description clock r (serve_all clock w es)).0 ≢ ok true
unfolding try_update_instance_description AllLater
leased_once {clock} {w} es k d p q r reach g has names wants =
    let w' = serve_all clock w es in
    let (d', g', later) = serve_all-AllLater es reach k d g in
    gated-refused (is_update r) (apply_to_instance_description clock r) w' (
      refused clock w' k d' p q r (Reachable-IsValid (serve_all-Reachable es reach)) g'
        (later.parent p has) names wants)
