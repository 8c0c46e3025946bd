-- ===== src/Client/HeartBeat/Stored.antt =====
-- What the manager has of an instance that has registered.
use tzafon_way_point.Prelude.{ℕ, ◌≡◌, refl, ap, ◌∙◌, Bool, Option, none, some}
use tzafon_way_point.Prelude.Status.{Result}
use tzafon_way_point.Proto.{InstanceId, InstanceType, Services, InstanceDescription, type_code}
use tzafon_way_point.Dict.{get, get-insert_self}
use tzafon_way_point.Manager.Traits.{update_instance_description}
use tzafon_way_point.Manager.World.{World}
use tzafon_way_point.Manager.Invariant.{IsValid}
use tzafon_way_point.Manager.Apply.{
  write_fields, adopt_children, join_parent, commit, apply_to_instance_description,
}
use tzafon_way_point.Manager.Apply.Leases.{written, commit_lem, finish_alive}
use tzafon_way_point.Manager.Register.{newborn}
use tzafon_way_point.Manager.Register.Claim.{claimed}
use tzafon_way_point.Manager.Rpc.{try_add_instance}
use tzafon_way_point.Client.HeartBeat.{registration}
use tzafon_way_point.Client.HeartBeat.Joining.{untyped, fits, vacant_lem}

-- What the manager writes for a registration: the services, if it names any.
abbrev pub born :
    (ℕ → ℕ) → InstanceId → InstanceType → Option Services → World → InstanceDescription
born clock id kind services w =
    let w1 = claimed id (type_code kind) (clock w.reads) w in
    (write_fields clock (untyped id kind services)
      (newborn id (type_code kind) (clock w.reads), w1.reads)).0

pub born_alive :
    (clock : ℕ → ℕ) (id : InstanceId) (kind : InstanceType) (services : Option Services) (w : World)
    → (born clock id kind services w).kill_instance_request ≡ none
unfolding registration write_fields update_instance_description
born_alive clock id kind none w = refl
born_alive clock id kind (some s) w = refl

module _ (clock : ℕ → ℕ) (id : InstanceId) (kind : InstanceType) (services : Option Services)
    (w : World) where
  abbrev w1 : World
  w1 = claimed id (type_code kind) (clock w.reads) w

  abbrev d1 : InstanceDescription
  d1 = newborn id (type_code kind) (clock w.reads)

  commits :
      apply_to_instance_description clock (untyped id kind services) w1
      ≡ commit clock (untyped id kind services) id w1
  unfolding apply_to_instance_description registration
  commits = rw (fits id kind services (type_code kind) (clock w.reads) w) refl

  found : get id.instance_id w1.instance_description ≡ some d1
  unfolding claimed
  found = get-insert_self id.instance_id d1 w.instance_description

  abbrev w2 : World
  w2 = written clock (untyped id kind services) id d1 w1

  rewritten : get id.instance_id w2.instance_description ≡ some (born clock id kind services w)
  rewritten = get-insert_self id.instance_id (born clock id kind services w) w1.instance_description

  stores :
      get id.instance_id (commit clock (untyped id kind services) id w1).1.instance_description
      ≡ some (born clock id kind services w)
  unfolding registration adopt_children join_parent
  stores = rw (commit_lem clock (untyped id kind services) id d1 w1 found) (
      ap (λ (out : Result Bool × World). get id.instance_id out.1.instance_description)
        (finish_alive clock id (born clock id kind services w) w2 rewritten
          (born_alive clock id kind services w))
      ∙ rewritten)

  pub try_add_instance-born :
      IsValid w
      → get id.instance_id w.instance_description ≡ none
      → get id.instance_id
          (try_add_instance clock (registration id kind services) w).1.instance_description
        ≡ some (born clock id kind services w)
  try_add_instance-born v vacant =
      ap (λ (out : Result Bool × World). get id.instance_id out.1.instance_description)
        (vacant_lem clock id kind services w v vacant ∙ commits)
      ∙ stores

-- What the manager has of an instance that has registered with its services.
abbrev pub joined : InstanceId → InstanceType → Services → ℕ → ℕ → InstanceDescription
joined id kind s born stored = record (newborn id (type_code kind) born) {
  services = some (record s { timestamp_ms = some (record { timestamp_ms = stored }) });
}

-- An instance that registers in a valid state under a free id, with its services, is there with those
-- services, and with nothing else but its id, its type and its time of birth.
pub try_add_instance-joined :
    (clock : ℕ → ℕ) (id : InstanceId) (kind : InstanceType) (s : Services) (w : World)
    → IsValid w
    → get id.instance_id w.instance_description ≡ none
    → get id.instance_id
        (try_add_instance clock (registration id kind (some s)) w).1.instance_description
      ≡ some (
          joined id kind s
            (clock w.reads)
            (clock (claimed id (type_code kind) (clock w.reads) w).reads))
unfolding registration write_fields update_instance_description
try_add_instance-joined clock id kind s w v vacant =
    try_add_instance-born clock id kind (some s) w v vacant
