-- ===== src/Manager/StatusPage.antt =====
-- apps/rust-instance-manager/src/status_page.rs and `create_status_page` of service.rs: what the page
-- says of the browsers. The HTML around it is a template.
pub mod Rows
pub mod Truncation
pub mod Total
pub mod Single
pub mod Handlers
use tzafon_way_point.Prelude.{
  ℕ, ◌+◌, ◌-◌, Bool, true, false, not, ◌&&◌, Option, none, some, List, [], ◌∷◌, ◌++◌, Text, String,
  codes, length, take, keep, map, is_none, is_some, ltb, leb, ◌==◌, sub64, if◌then◌else◌,
}
use tzafon_way_point.Prelude.Status.{Status, Result, ok, err, not_found, ◌>>=◌}
use tzafon_way_point.Proto.{
  TimestampMs, InstanceId, Relationship, KillInstanceRequest, InstanceDescription, chrome_browser,
  type_code,
}
use tzafon_way_point.Gateway.Http.{encode}

abbrev pub max_items : ℕ
max_items = 30

pub record Browser : Type 0 where
  pub browser_id : Option InstanceId
  pub registered_at_ms : ℕ
  pub connected : Option (Option InstanceId × ℕ)
  pub dead_at_ms : Option ℕ

pub data State : Type 0 where
  connected idle dead : State

-- `Browser::state`
unfoldable pub state : Browser → State
state b = elim b.dead_at_ms [
  | some _ ↦ dead
  | none ↦ elim b.connected [ some _ ↦ connected | none ↦ idle ]
]

unfoldable pub all_browsers : List Browser → ℕ
all_browsers bs = length bs

unfoldable pub healthy_browsers : List Browser → ℕ
healthy_browsers bs = length (keep (λ b. is_none b.dead_at_ms) bs)

unfoldable pub available_browsers : List Browser → ℕ
available_browsers bs = length (keep (λ b. is_none b.connected && is_none b.dead_at_ms) bs)

-- `&s[..n]` counts bytes of UTF-8, and panics (`none`) inside a character or behind the end.
unfoldable pub prefix_bytes : ℕ → Text → Option Text
prefix_bytes n [] = if n == 0 then some [] else none
prefix_bytes n (c ∷ s) =
    let rest = prefix_bytes (n - length (encode c)) s in
    if n == 0
    then some []
    else if ltb n (length (encode c))
    then none
    else elim rest [ none ↦ none | some t ↦ some (c ∷ t) ]

-- `str::len`
unfoldable pub byte_length : Text → ℕ
byte_length [] = 0
byte_length (c ∷ s) = length (encode c) + byte_length s

unfoldable pub truncated_string : Text → Option Text
truncated_string s =
    if ltb 32 (byte_length s)
    then elim (prefix_bytes 29 s) [ none ↦ none | some t ↦ some (t ++ codes "...") ]
    else some s

pub record InstanceIdWithUrl : Type 0 where
  pub label : Option Text
  pub url : Option Text

-- The label of a row is absent where computing it panics.
unfoldable pub format_instance_id : Option InstanceId → InstanceIdWithUrl
format_instance_id none = record { label = some (codes "No ID"); url = none }
format_instance_id (some id) = record {
  label = truncated_string id.instance_id;
  url = some (codes "browsers?instance_id=" ++ id.instance_id);
}

pub record Registration : Type 0 where
  pub browser_id : InstanceIdWithUrl
  pub time_since_registered_ms : ℕ
  pub state : State

pub record Connection : Type 0 where
  pub parent_id : InstanceIdWithUrl
  pub instance_id : InstanceIdWithUrl
  pub time_since_connected_ms : ℕ
  pub state : State

pub record Page : Type 0 where
  pub all_browsers : ℕ
  pub healthy_browsers : ℕ
  pub available_browsers : ℕ
  pub connections : List Connection
  pub registrations : List Registration

module _ {A : Type 0} (key : A → ℕ) where
  unfoldable pub insert_by : A → List A → List A
  insert_by a [] = a ∷ []
  insert_by a (x ∷ xs) =
      let rest = insert_by a xs in if leb (key a) (key x) then a ∷ x ∷ xs else x ∷ rest

  -- `sort_by_key`, which is stable
  unfoldable pub sort_by_key : List A → List A
  sort_by_key [] = []
  sort_by_key (x ∷ xs) = insert_by x (sort_by_key xs)

unfoldable pub connection_rows : ℕ → List Browser → List Connection
connection_rows now [] = []
connection_rows now (b ∷ bs) =
    let rest = connection_rows now bs in
    elim b.connected [
      | none ↦ rest
      | some c ↦
          record {
            parent_id = format_instance_id c.0;
            instance_id = format_instance_id b.browser_id;
            time_since_connected_ms = sub64 now c.1;
            state = state b;
          }
          ∷ rest
    ]

unfoldable pub registration_row : ℕ → Browser → Registration
registration_row now b = record {
  browser_id = format_instance_id b.browser_id;
  time_since_registered_ms = sub64 now b.registered_at_ms;
  state = state b;
}

-- `render`, up to the template
unfoldable pub render : List Browser → ℕ → Page
render bs now = record {
  all_browsers = all_browsers bs;
  healthy_browsers = healthy_browsers bs;
  available_browsers = available_browsers bs;
  connections =
      take max_items (sort_by_key (λ c. c.time_since_connected_ms) (connection_rows now bs));
  registrations =
      take max_items
        (sort_by_key (λ r. r.time_since_registered_ms) (map (registration_row now) bs));
}

-- `ok_or_else(..)?` on a time
unfoldable pub time_or : Option TimestampMs → String → Result ℕ
time_or none what = err (not_found what)
time_or (some t) what = ok t.timestamp_ms

unfoldable pub connected_of : Option Relationship → Result (Option (Option InstanceId × ℕ))
connected_of none = ok none
connected_of (some r) = time_or r.timestamp_ms "Timestamp not found on relationship" >>= λ t.
    ok (some (r.instance_id, t))

unfoldable pub dead_at_of : Option KillInstanceRequest → Result (Option ℕ)
dead_at_of none = ok none
dead_at_of (some k) =
    time_or k.timestamp_ms "Timestamp not found on kill instance request" >>= λ t. ok (some t)

unfoldable pub browser_of : InstanceDescription → Result Browser
browser_of d = do
  registered ← time_or d.created_timestamp_ms "Created timestamp not found"
  link ← connected_of d.parent
  death ← dead_at_of d.kill_instance_request
  ok (record {
    browser_id = d.instance_id;
    registered_at_ms = registered;
    connected = link;
    dead_at_ms = death;
  })

-- `map` and `collect` into a result: the first error is the result.
unfoldable pub collect : List InstanceDescription → Result (List Browser)
collect [] = ok []
collect (d ∷ ds) = browser_of d >>= λ b. collect ds >>= λ bs. ok (b ∷ bs)

abbrev pub is_browser : InstanceDescription → Bool
is_browser d = elim d.instance_type [ none ↦ false | some code ↦ code == type_code chrome_browser ]

unfoldable pub create_status_page : List InstanceDescription → ℕ → Result Page
create_status_page ds now = collect (keep is_browser ds) >>= λ bs. ok (render bs now)
