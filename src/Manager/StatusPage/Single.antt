-- ===== src/Manager/StatusPage/Single.antt =====
-- apps/rust-instance-manager/src/status_page.rs: the page of a single instance.
-- `none` stands for a panic: an id cut inside a character, or a time that chrono has no date for.
use tzafon_way_point.Prelude.{
  ℕ, Option, none, some, List, [], ◌∷◌, ◌++◌, Text, String, codes, unwrap_or,
}
use tzafon_way_point.Proto.{
  KillReason, default_kill_reason, reason_of_code, TimestampMs, Relationship, KillInstanceRequest,
  Services, SystemMetrics, InstanceDescription, listed,
}
use tzafon_way_point.Manager.StatusPage.{InstanceIdWithUrl, format_instance_id}

infixl 5 ◌>>=◌
abbrev pub ◌>>=◌ {ℓ κ} : {A : Type ℓ} {B : Type κ} → Option A → (A → Option B) → Option B
none >>= f = none
some a >>= f = f a

-- What the libraries print: chrono's date for an `i64` of milliseconds, given by its bit pattern,
-- and `{:?}`.
pub record Printing : Type 0 where
  pub date : ℕ → Option Text
  pub debug_reason : KillReason → Text
  pub debug_metrics : SystemMetrics → Text
  pub debug_description : InstanceDescription → Text

-- An `InstanceIdWithUrl` whose label is there.
pub record Link : Type 0 where
  pub label : Text
  pub url : Option Text

unfoldable pub link : InstanceIdWithUrl → Option Link
link i = i.label >>= λ label. some (record { label = label; url = i.url })

-- `Display` of `InstanceIdWithUrl`
unfoldable pub display : Link → Text
display l = elim l.url [
  | none ↦ l.label
  | some url ↦ codes "<a href=\"" ++ (url ++ (codes "\">" ++ (l.label ++ codes "</a>")))
]

pub record SingleInstancePage : Type 0 where
  pub instance_id : Link
  pub created_timestamp_ms : Text
  pub state_info : Text
  pub parent : Link
  pub debug_info : Text
  pub services : List Text
  pub system_metrics : Text
  pub children : List Link

unfoldable pub parent_link : Option Relationship → Option Link
parent_link none = some (record { label = codes "No parent"; url = none })
parent_link (some p) = link (format_instance_id p.instance_id)

unfoldable pub child_links : List Relationship → Option (List Link)
child_links [] = some []
child_links (c ∷ cs) = do
  l ← link (format_instance_id c.instance_id)
  ls ← child_links cs
  some (l ∷ ls)

-- One line for a service that is there, before the lines of the others.
abbrev line : String → Option Text → List Text → List Text
line name none rest = rest
line name (some service) rest = (codes name ++ (codes ": " ++ service)) ∷ rest

unfoldable pub service_lines : Option Services → List Text
service_lines none = []
service_lines (some s) =
    line "Chrome debug" s.chrome_debug_port_service (line "Tzafonwright" s.tzafonwright_service [])

module _ (p : Printing) where
  unfoldable pub format_timestamp_ms : Option TimestampMs → Option Text
  format_timestamp_ms none = some (codes "No timestamp")
  format_timestamp_ms (some t) = p.date t.timestamp_ms

  unfoldable pub state_info : Option KillInstanceRequest → Option Text
  state_info none = some (codes "Is alive")
  state_info (some k) = do
    date ← format_timestamp_ms k.timestamp_ms
    some (
        codes "Was killed for "
        ++ (p.debug_reason (unwrap_or (reason_of_code k.kill_reason) default_kill_reason)
            ++ (codes " at " ++ date)))

  abbrev metrics_line : Option SystemMetrics → Text
  metrics_line none = codes "No system metrics"
  metrics_line (some m) = p.debug_metrics m

  -- `SingleInstancePageTemplate::render`, up to the template
  unfoldable pub single_page : InstanceDescription → Option SingleInstancePage
  single_page d = do
    id ← link (format_instance_id d.instance_id)
    created ← format_timestamp_ms d.created_timestamp_ms
    parent ← parent_link d.parent
    children ← child_links (listed d.children)
    info ← state_info d.kill_instance_request
    some (record {
      instance_id = id;
      created_timestamp_ms = created;
      state_info = info;
      parent = parent;
      debug_info = p.debug_description d;
      services = service_lines d.services;
      system_metrics = metrics_line d.system_metrics;
      children = children;
    })
