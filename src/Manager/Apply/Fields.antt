-- ===== src/Manager/Apply/Fields.antt =====
-- What the nine updates of an instance do to the fields that tie it to other instances.
use tzafon_way_point.Prelude.{ℕ, ◌≡◌, refl, Option, none, some, ◌++◌, map}
use tzafon_way_point.Proto.{
  TimestampMs, InstanceId, Relationship, Children, KillInstanceRequest, InstanceDescription, listed,
}
use tzafon_way_point.Manager.Traits.{
  Entry, update_instance_description, health_check_entry, proxy_metrics_entry, system_metrics_entry,
  llm_metrics_entry, gpu_metrics_entry, kill_instance_request_entry, services_entry,
  relationship_entry, children_entry,
}
use tzafon_way_point.Manager.Apply.{write_fields}

-- The fields that the checks and the cascade read.
pub record Ties : Type 0 where
  pub created_timestamp_ms : Option TimestampMs
  pub instance_type : Option ℕ
  pub instance_id : Option InstanceId
  pub parent : Option Relationship
  pub children : Option Children
  pub kill_instance_request : Option KillInstanceRequest

abbrev pub ties : InstanceDescription → Ties
ties d = record {
  created_timestamp_ms = d.created_timestamp_ms;
  instance_type = d.instance_type;
  instance_id = d.instance_id;
  parent = d.parent;
  children = d.children;
  kill_instance_request = d.kill_instance_request;
}

abbrev pub stamped : TimestampMs → Relationship → Relationship
stamped t c = record c { timestamp_ms = some t }

-- What the three tying updates store, given what was there.
abbrev pub stored_parent :
    TimestampMs → Option Relationship → Option Relationship → Option Relationship
stored_parent t none old = old
stored_parent t (some p) old = some (stamped t p)

abbrev pub stored_children : TimestampMs → Option Children → Option Children → Option Children
stored_children t none old = old
stored_children t (some c) old =
    some (record { children = listed old ++ map (stamped t) c.children })

abbrev pub stored_kill :
    TimestampMs
    → Option KillInstanceRequest
    → Option KillInstanceRequest
    → Option KillInstanceRequest
stored_kill t none old = old
stored_kill t (some k) old = some (record k { timestamp_ms = some t })

-- How the fields of `b` come from those of `a` and the request `r`.
abbrev pub Written : InstanceDescription → Ties → Ties → Type 0
Written r a b =
    (t u v : TimestampMs) × (b ≡ record a {
      parent = stored_parent t r.parent a.parent;
      children = stored_children u r.children a.children;
      kill_instance_request = stored_kill v r.kill_instance_request a.kill_instance_request;
    })

module _ (clock : ℕ → ℕ) where
  -- An update of a field that ties nothing.
  ties-update :
      {T : Type 0} ⦃e : Entry T⦄
      (quiet : (v : T) (d : InstanceDescription)
        → ties (e.add_to_instance_description v d) ≡ ties d)
      (o : Option T) (s : InstanceDescription × ℕ)
      → ties (update_instance_description clock o s).0 ≡ ties s.0
  unfolding update_instance_description
  ties-update quiet none s = refl
  ties-update ⦃e⦄ quiet (some v) s =
      quiet (e.set_timestamp v (record { timestamp_ms = clock s.1 })) s.0

  ties-parent :
      (o : Option Relationship) (s : InstanceDescription × ℕ)
      → ties (update_instance_description clock o s).0 ≡ record (ties s.0) {
        parent = stored_parent (record { timestamp_ms = clock s.1 }) o s.0.parent;
      }
  unfolding update_instance_description
  ties-parent none s = refl
  ties-parent (some p) s = refl

  ties-children :
      (o : Option Children) (s : InstanceDescription × ℕ)
      → ties (update_instance_description clock o s).0 ≡ record (ties s.0) {
        children = stored_children (record { timestamp_ms = clock s.1 }) o s.0.children;
      }
  unfolding update_instance_description
  ties-children none s = refl
  ties-children (some p) s = refl

  ties-kill :
      (o : Option KillInstanceRequest) (s : InstanceDescription × ℕ)
      → ties (update_instance_description clock o s).0 ≡ record (ties s.0) {
        kill_instance_request =
            stored_kill (record { timestamp_ms = clock s.1 }) o s.0.kill_instance_request;
      }
  unfolding update_instance_description
  ties-kill none s = refl
  ties-kill (some p) s = refl

  -- One update after another, seen through `ties`.
  pub write_fields-Written :
      (r : InstanceDescription) (s : InstanceDescription × ℕ)
      → Written r (ties s.0) (ties (write_fields clock r s).0)
  unfolding write_fields
  write_fields-Written r s =
      let s1 = update_instance_description clock r.services s in
      let s2 = update_instance_description clock r.health_check s1 in
      let s3 = update_instance_description clock r.parent s2 in
      let s4 = update_instance_description clock r.children s3 in
      let s5 = update_instance_description clock r.kill_instance_request s4 in
      let s6 = update_instance_description clock r.proxy_metrics s5 in
      let s7 = update_instance_description clock r.system_metrics s6 in
      let s8 = update_instance_description clock r.gpu_metrics s7 in
      (
        record { timestamp_ms = clock s2.1 },
        record { timestamp_ms = clock s3.1 },
        record { timestamp_ms = clock s4.1 },
        cc (
          ties-update (λ v d. refl) r.services s,
          ties-update (λ v d. refl) r.health_check s1,
          ties-parent r.parent s2,
          ties-children r.children s3,
          ties-kill r.kill_instance_request s4,
          ties-update (λ v d. refl) r.proxy_metrics s5,
          ties-update (λ v d. refl) r.system_metrics s6,
          ties-update (λ v d. refl) r.gpu_metrics s7,
          ties-update (λ v d. refl) r.llm_metrics s8,
        ),
      )
